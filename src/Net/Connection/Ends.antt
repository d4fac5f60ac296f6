-- ===== src/Net/Connection/Ends.antt =====
-- The end of the output is announced once, after everything that was sent, and it comes.
use talk_system.Prelude.{
  ◌==◌, if◌then◌else◌, length, take, length-drop, ℕ, suc, ◌-◌, ◌≤◌, ◌≡◌, refl, sym, ap, ◌∙◌, subst,
  Bool, true, false, ◌&&◌, List, [], ◌∷◌, ◌++◌, map, append-nil, arith,
}
use talk_system.Buffer.{Buffer, readable_bytes, retrieve, peek}
use talk_system.Buffer.Contents.{length-peek, retrieve_lem}
use talk_system.Net.Connection.{
  Connection, k_connected, k_disconnecting, sent, wrote, emit, writing, is_disconnected,
  is_disconnecting, send, shutdown, drained, wrote_out, handle_write,
}
use talk_system.Net.Connection.Stream.{sent_bytes, Inv, stream}
use talk_system.Net.Connection.Send.{send_in_loop-Sent}
use talk_system.Net.Connection.Drain.{handle_write-Flushed, drained-Quiet}
use talk_system.Net.Connection.Life.{fins, shutdown_lem, shutdown-Inv}
use talk_system.Net.Connection.Mild.{late, late_none}
use talk_system.Net.Connection.Trace.{
  Act, sends, writes, shuts, act, run, IsSmooth, send_disconnecting, shutdown_disconnecting,
  send_connected,
}
use talk_system.Net.Connection.Finish.{
  is_over, IsFinished, handle_write-IsFinished, send-IsFinished, shutdown-IsFinished,
}

-- A connection that is shut down, or still connected, with its invariants.
record Good (c : Connection) : Type 0 where
  inv : Inv c
  finished : IsFinished c

run_closing :
    (acts : List Act) (c : Connection) → Good c → c.state ≡ k_disconnecting → Good (run c acts)
unfolding run act
run_closing [] c g up = g
run_closing (sends bs w ∷ acts) c g up =
    subst (λ d. Good (run d acts)) (sym (send_disconnecting bs w c up)) (run_closing acts c g up)
run_closing (writes w ∷ acts) c g up =
    let f = handle_write-Flushed c g.inv w in
    run_closing acts (handle_write w c)
      (record {
        inv = f.inv;
        finished = handle_write-IsFinished c g.inv g.finished (ap is_disconnected up) w;
      })
      (f.flushed_state ∙ up)
run_closing (shuts ∷ acts) c g up =
    subst (λ d. Good (run d acts)) (sym (shutdown_disconnecting c up)) (run_closing acts c g up)

run_open :
    (acts : List Act) (c : Connection)
    → Good c
    → c.state ≡ k_connected
    → IsSmooth c acts
    → Good (run c acts)
unfolding run act
run_open [] c g up s = g
run_open (sends bs w ∷ acts) c g up s =
    let o = send_in_loop-Sent bs c g.inv (ap is_disconnected up) s.1 w s.0 in
    let e = send_connected bs w c up in
    run_open acts (send bs w c)
      (subst Good (sym e) (record { inv = o.inv; finished = send-IsFinished bs w c g.finished up }))
      (ap (λ d. d.state) e ∙ o.sent_state ∙ up) s.2
run_open (writes w ∷ acts) c g up s =
    let f = handle_write-Flushed c g.inv w in
    run_open acts (handle_write w c)
      (record {
        inv = f.inv;
        finished = handle_write-IsFinished c g.inv g.finished (ap is_disconnected up) w;
      })
      (f.flushed_state ∙ up) s
run_open (shuts ∷ acts) c g up s =
    run_closing acts (shutdown c)
      (record {
        inv = shutdown-Inv c g.inv up;
        finished = shutdown-IsFinished c g.inv g.finished up;
      })
      (shutdown_lem c g.inv up).0

-- After any sends, writable events and shutdowns of a connection in order that starts connected,
-- without an announced end, as long as no send meets EPIPE or ECONNRESET or grows the buffer past
-- `max_size()`: the end of its output has been announced once if it was shut down and nothing waits
-- any more, and else not at all; and no byte went to the kernel behind the announcement.
pub run-IsFinished :
    (acts : List Act) (c : Connection)
    → Inv c
    → c.state ≡ k_connected
    → fins c.effects ≡ 0
    → IsSmooth c acts
    → (fins (run c acts).effects ≡ (if is_over (run c acts) then 1 else 0))
      × (late (run c acts).effects ≡ [])
run-IsFinished acts c v up z s =
    let g =
      run_open acts c
        (record {
          inv = v;
          finished = record {
            counted =
                z
                ∙ sym (
                    ap
                      (λ s.
                        if is_disconnecting s && readable_bytes c.output_buffer == 0 then 1 else 0)
                      up);
            none_late = late_none c.effects z;
          };
        })
        up s in
    (g.finished.counted, g.finished.none_late)

-- Writable events at which the kernel takes something.
abbrev pub takes : List ℕ → List Act
takes = map (λ n. writes (wrote (suc n)))

handle_write_shrinks :
    (c : Connection) (n : ℕ)
    → Inv c
    → is_disconnected c.state ≡ false
    → length (peek (handle_write (wrote (suc n)) c).output_buffer)
      ≤ length (peek c.output_buffer) - 1
unfolding handle_write wrote_out
handle_write_shrinks c n v alive = pick (writing c) refl
  where
    b : Buffer
    b = retrieve (suc n) c.output_buffer

    d : Connection
    d = emit (sent (take (suc n) (peek c.output_buffer))) (record c { output_buffer = b })

    small : length (peek b) ≤ length (peek c.output_buffer) - 1
    small = omega (
      arith,
      ap length (retrieve_lem (suc n) c.output_buffer v.valid).1,
      length-drop (suc n) (peek c.output_buffer),
    )

    finish :
        (t : Bool)
        → length (peek (if t then drained d else d).output_buffer)
          ≤ length (peek c.output_buffer) - 1
    finish true =
        subst (λ o. length (peek o) ≤ length (peek c.output_buffer) - 1)
          (sym (drained-Quiet d).0.same_output) (unfold emit in small)
    finish false = unfold emit in small

    pick :
        (w : Bool)
        → writing c ≡ w
        → length (
            peek
              (if w
                then (if readable_bytes d.output_buffer == 0 then drained d else d)
                else c).output_buffer)
          ≤ length (peek c.output_buffer) - 1
    pick true e = finish (readable_bytes d.output_buffer == 0)
    pick false e = ground (arith, v.armed alive, length-peek c.output_buffer v.valid)

drains :
    (ns : List ℕ) (c : Connection)
    → Good c
    → c.state ≡ k_disconnecting
    → length (peek c.output_buffer) ≤ length ns
    → Good (run c (takes ns))
      × ((run c (takes ns)).state ≡ k_disconnecting)
      × (peek (run c (takes ns)).output_buffer ≡ [])
      × (stream (run c (takes ns)) ≡ stream c)
unfolding run act
drains [] c g up h = (g, up, empty (peek c.output_buffer) h, refl)
  where
    empty : (xs : List ℕ) → length xs ≤ 0 → xs ≡ []
    empty [] h = refl
    empty (x ∷ xs) h = absurd (omega arith)
drains (n ∷ ns) c g up h =
    let alive = ap is_disconnected up in
    let f = handle_write-Flushed c g.inv (wrote (suc n)) in
    let r =
      drains ns (handle_write (wrote (suc n)) c)
        (record {
          inv = f.inv;
          finished = handle_write-IsFinished c g.inv g.finished alive (wrote (suc n));
        })
        (f.flushed_state ∙ up) (omega (arith, handle_write_shrinks c n g.inv alive)) in
    (r.0, r.1, r.2, r.3 ∙ f.kept)

-- A connection in order that was shut down, and has announced its end if nothing waits and else
-- not, ends: as many writable events as bytes wait, at each of which the kernel takes at least one,
-- bring out all the bytes, and then the announcement of the end.
pub run-takes :
    (ns : List ℕ) (c : Connection)
    → Inv c
    → IsFinished c
    → c.state ≡ k_disconnecting
    → length (peek c.output_buffer) ≤ length ns
    → (peek (run c (takes ns)).output_buffer ≡ [])
      × (sent_bytes (run c (takes ns)).effects ≡ stream c)
      × (fins (run c (takes ns)).effects ≡ 1)
      × (late (run c (takes ns)).effects ≡ [])
run-takes ns c v f up h =
    let r = drains ns c (record { inv = v; finished = f }) up h in
    let d = run c (takes ns) in
    let z : readable_bytes d.output_buffer ≡ 0 =
      omega (arith, length-peek d.output_buffer r.0.inv.valid, ap length r.2) in
    (
      r.2,
      sym (ap (◌++◌ (sent_bytes d.effects)) r.2 ∙ append-nil (sent_bytes d.effects)) ∙ r.3,
      r.0.finished.counted
          ∙ ap (λ s. if is_disconnecting s && readable_bytes d.output_buffer == 0 then 1 else 0) r.1
          ∙ ap (λ (n : ℕ). if n == 0 then 1 else 0) z,
      r.0.finished.none_late,
    )
