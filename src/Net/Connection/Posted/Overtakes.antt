-- ===== src/Net/Connection/Posted/Overtakes.antt =====
-- A shutdown of common/net/TcpConnection.cc that overtakes the bytes sent before it.
use talk_system.Prelude.{
  if◌then◌else◌, length, ℕ, suc, ◌≤◌, ◌<◌, ◌≡◌, refl, sym, ap, ◌∙◌, subst, List, [], ◌∷◌, ◌++◌,
  arith,
}
use talk_system.Buffer.{readable_bytes, peek}
use talk_system.Net.Connection.{
  Connection, k_connected, k_disconnecting, wrote, is_disconnected, is_connected, set_state,
  handle_write,
}
use talk_system.Net.Connection.Stream.{Inv, stream, sent_bytes}
use talk_system.Net.Connection.Life.{fins}
use talk_system.Net.Connection.Mild.{late_none}
use talk_system.Net.Connection.Finish.{IsFinished}
use talk_system.Net.Connection.Trace.{run, act}
use talk_system.Net.Connection.Ends.{takes, run-takes}
use talk_system.Net.Connection.Posted.{
  send_job, shutdown_job, Memory, Shared, sending, shutting, post_send, post_shutdown, advance,
  Call, sends, shuts, continues, writable, call, calls,
}

-- Writable events at which the kernel takes something.
abbrev pub drains : List ℕ → List Call
drains [] = []
drains (n ∷ ns) = writable (wrote (suc n)) ∷ drains ns

calls-drains :
    (ns : List ℕ) (s : Shared) → calls s (drains ns) ≡ record s { conn = run s.conn (takes ns) }
unfolding calls call run act
calls-drains [] s = refl
calls-drains (n ∷ ns) s = calls-drains ns (record s { conn = handle_write (wrote (suc n)) s.conn })

-- A connection that no other thread has touched yet; a send and a shutdown by one, each to its end;
-- and what these leave.
abbrev pub untouched : Connection → Memory → Shared
untouched c m = record { conn = c; midway = []; posts = []; memory = m }

abbrev pub send_and_shut : (address size : ℕ) → List Call
send_and_shut a n = sends a n ∷ continues 0 ∷ shuts ∷ continues 0 ∷ continues 0 ∷ []

abbrev shut_after : Connection → Memory → (address size : ℕ) → Shared
shut_after c m a n = record {
  conn = set_state k_disconnecting c;
  midway = [];
  posts = send_job a n ∷ shutdown_job ∷ [];
  memory = m;
}

post_send_up :
    (a n : ℕ) (s : Shared)
    → s.conn.state ≡ k_connected
    → post_send a n s ≡ record s { midway = s.midway ++ sending a n ∷ [] }
unfolding post_send
post_send_up a n s up =
    ap (λ t. if is_connected t then record s { midway = s.midway ++ sending a n ∷ [] } else s) up

post_shutdown_up :
    (s : Shared)
    → s.conn.state ≡ k_connected
    → post_shutdown s ≡ record s { midway = s.midway ++ shutting ∷ [] }
unfolding post_shutdown
post_shutdown_up s up =
    ap (λ t. if is_connected t then record s { midway = s.midway ++ shutting ∷ [] } else s) up

posted :
    (a n : ℕ) (m : Memory) (c : Connection)
    → c.state ≡ k_connected
    → calls (untouched c m) (send_and_shut a n) ≡ shut_after c m a n
unfolding calls call advance
posted a n m c up =
    ap (λ s. calls s (continues 0 ∷ shuts ∷ continues 0 ∷ continues 0 ∷ []))
      (post_send_up a n (untouched c m) up)
    ∙ ap (λ s. calls s (continues 0 ∷ continues 0 ∷ []))
        (post_shutdown_up (record (untouched c m) { posts = send_job a n ∷ [] }) up)

calls-append : (bs cs : List Call) (s : Shared) → calls s (bs ++ cs) ≡ calls (calls s bs) cs
unfolding calls
calls-append [] cs s = refl
calls-append (b ∷ bs) cs s = calls-append bs cs (call s b)

shut-IsFinished :
    (c : Connection)
    → fins c.effects ≡ 0
    → 0 < readable_bytes c.output_buffer
    → IsFinished (set_state k_disconnecting c)
unfolding set_state
shut-IsFinished c z h = record {
  counted = z ∙ ground (arith, h);
  none_late = late_none c.effects z;
}

shut_down :
    (ns : List ℕ) (c : Connection)
    → Inv c
    → c.state ≡ k_connected
    → fins c.effects ≡ 0
    → 0 < readable_bytes c.output_buffer
    → length (peek c.output_buffer) ≤ length ns
    → let d = run (set_state k_disconnecting c) (takes ns) in
      (sent_bytes d.effects ≡ stream c) × (fins d.effects ≡ 1)
unfolding set_state
shut_down ns c v up z h l =
    let r =
      run-takes ns (set_state k_disconnecting c)
        (record { valid = v.valid; armed = λ _. v.armed (ap is_disconnected up) })
        (shut-IsFinished c z h) refl l in
    (r.1, r.2)

-- Another thread sends some bytes on a connection in order that has bytes waiting, and shuts it
-- down. When the loop writes out what waits before it runs the two functors, it announces the end
-- of the output while the bytes just sent are still in the queue.
pub drains-fins :
    (a n : ℕ) (m : Memory) (ns : List ℕ) (c : Connection)
    → Inv c
    → c.state ≡ k_connected
    → fins c.effects ≡ 0
    → 0 < readable_bytes c.output_buffer
    → length (peek c.output_buffer) ≤ length ns
    → let s = calls (untouched c m) (send_and_shut a n ++ drains ns) in
      (fins s.conn.effects ≡ 1)
      × (s.posts ≡ send_job a n ∷ shutdown_job ∷ [])
      × (sent_bytes s.conn.effects ≡ stream c)
drains-fins a n m ns c v up z h l =
    let r = shut_down ns c v up z h l in
    subst
      (λ (s : Shared).
        (fins s.conn.effects ≡ 1)
        × (s.posts ≡ send_job a n ∷ shutdown_job ∷ [])
        × (sent_bytes s.conn.effects ≡ stream c))
      (sym (
        calls-append (send_and_shut a n) (drains ns) (untouched c m)
        ∙ ap (λ s. calls s (drains ns)) (posted a n m c up)
        ∙ calls-drains ns (shut_after c m a n)))
      (r.1, refl, r.0)
