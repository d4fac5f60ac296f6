-- ===== src/Net/Connection/Posted/Order.antt =====
-- The order of what other threads send on a connection of common/net/TcpConnection.cc.
use talk_system.Prelude.{
  if◌then◌else◌, length, get_elem?, length-append, ℕ, ◌+◌, ◌≡◌, refl, sym, ap, ◌∙◌, Bool, true,
  false, Option, none, some, List, [], ◌∷◌, ◌++◌, append-nil, append_assoc, arith,
}
use talk_system.Net.Connection.{
  Write, is_connected, is_disconnected, set_state, shutdown_in_loop, handle_write,
}
use talk_system.Net.Connection.Stream.{Inv, stream}
use talk_system.Net.Connection.Send.{send_in_loop-Sent}
use talk_system.Net.Connection.Drain.{handle_write-Flushed, shutdown_in_loop-Quiet}
use talk_system.Net.Connection.Posted.Pending.{
  pending-append, pending-keeps, midway_size-keeps, midway_size-append, midway_size-drop_at,
  Quiet-Inv,
}
use talk_system.Net.Connection.Posted.{
  Post, send_job, shutdown_job, Midway, sending, shutting, shut, Shared, post_send, post_shutdown,
  advance, drop_at, run_post, run_front, Call, sends, shuts, continues, reuses, runs, writable,
  call, calls, pending, midway_bytes, midway_size, queues, accepts, queued, accepted, FrontFits,
  Fits, AllFit, given,
}

-- What a call makes of a connection that is not closed: the bytes that it queues come last, and every
-- byte that `send` takes is queued, or midway.
record Carried (s t : Shared) (bs : List ℕ) (n : ℕ) : Type 0 where
  inv : Inv t.conn
  still_open : is_disconnected t.conn.state ≡ false
  in_order : given t ≡ given s ++ bs
  counted : midway_size t.memory t.midway + length bs ≡ midway_size s.memory s.midway + n

run_front-Carried :
    (ps : List Post) (w : Write) (s : Shared)
    → s.posts ≡ ps
    → Inv s.conn
    → is_disconnected s.conn.state ≡ false
    → FrontFits s.memory ps w s.conn
    → Carried s (run_front ps w s) [] 0
unfolding run_post
run_front-Carried [] w s e v a h = record {
  inv = v;
  still_open = a;
  in_order = sym (append-nil (given s));
  counted = omega arith;
}
run_front-Carried (send_job x n ∷ ps) w s e v a h =
    let bs = s.memory x n in
    let o = send_in_loop-Sent bs s.conn v a h.1 w h.0 in
    record {
      inv = o.inv;
      still_open = ap is_disconnected o.sent_state ∙ a;
      in_order =
          ap (λ t. t ++ pending s.memory ps) o.carried
          ∙ append_assoc (stream s.conn) bs (pending s.memory ps)
          ∙ ap (λ qs. stream s.conn ++ pending s.memory qs) (sym e)
          ∙ sym (append-nil (given s));
      counted = omega arith;
    }
run_front-Carried (shutdown_job ∷ ps) w s e v a h =
    let q = shutdown_in_loop-Quiet s.conn in
    let r = Quiet-Inv s.conn (shutdown_in_loop s.conn) q.0 q.1 v in
    record {
      inv = r.0;
      still_open = ap is_disconnected q.0.same_state ∙ a;
      in_order =
          ap (λ t. t ++ pending s.memory ps) r.1
          ∙ ap (λ qs. stream s.conn ++ pending s.memory qs) (sym e)
          ∙ sym (append-nil (given s));
      counted = omega arith;
    }

writable-Carried :
    (w : Write) (s : Shared)
    → Inv s.conn
    → is_disconnected s.conn.state ≡ false
    → Carried s (record s { conn = handle_write w s.conn }) [] 0
writable-Carried w s v a =
    let f = handle_write-Flushed s.conn v w in
    record {
      inv = f.inv;
      still_open = ap is_disconnected f.flushed_state ∙ a;
      in_order = ap (λ t. t ++ pending s.memory s.posts) f.kept ∙ sym (append-nil (given s));
      counted = omega arith;
    }

-- A call that finds the state kConnected, or does nothing.
enters-Carried :
    (b : Bool) (x : Midway) (s : Shared)
    → Inv s.conn
    → is_disconnected s.conn.state ≡ false
    → Carried s
        (if b then record s { midway = s.midway ++ x ∷ [] } else s)
        []
        (if b then length (midway_bytes s.memory x) else 0)
enters-Carried true x s v a = record {
  inv = v;
  still_open = a;
  in_order = sym (append-nil (given s));
  counted = omega (arith, midway_size-append s.memory s.midway x);
}
enters-Carried false x s v a = record {
  inv = v;
  still_open = a;
  in_order = sym (append-nil (given s));
  counted = omega arith;
}

shuts-Carried :
    (b : Bool) (s : Shared)
    → Inv s.conn
    → is_disconnected s.conn.state ≡ false
    → Carried s (if b then record s { midway = s.midway ++ shutting ∷ [] } else s) [] 0
shuts-Carried true s v a = enters-Carried true shutting s v a
shuts-Carried false s v a = enters-Carried false shutting s v a

advance-Carried :
    (x : Midway) (i : ℕ) (s : Shared)
    → get_elem? s.midway i ≡ some x
    → Inv s.conn
    → is_disconnected s.conn.state ≡ false
    → Carried s (advance x (record s { midway = drop_at s.midway i })) (midway_bytes s.memory x) 0
unfolding advance set_state
advance-Carried (sending y n) i s e v a = record {
  inv = v;
  still_open = a;
  in_order =
      ap (λ t. stream s.conn ++ t)
        (pending-append s.memory s.posts (send_job y n ∷ [])
          ∙ ap (◌++◌ (pending s.memory s.posts)) (append-nil (s.memory y n)))
      ∙ sym (append_assoc (stream s.conn) (pending s.memory s.posts) (s.memory y n));
  counted = omega (arith, midway_size-drop_at s.memory s.midway i (sending y n) e);
}
advance-Carried shutting i s e v a = record {
  inv = record { valid = v.valid; armed = λ _. v.armed a };
  still_open = refl;
  in_order = sym (append-nil (given s));
  counted = omega (
    arith,
    midway_size-drop_at s.memory s.midway i shutting e,
    midway_size-append s.memory (drop_at s.midway i) shut,
  );
}
advance-Carried shut i s e v a = record {
  inv = v;
  still_open = a;
  in_order =
      ap (λ t. stream s.conn ++ t)
        (pending-append s.memory s.posts (shutdown_job ∷ [])
          ∙ append-nil (pending s.memory s.posts))
      ∙ sym (append-nil (given s));
  counted = omega (arith, midway_size-drop_at s.memory s.midway i shut e);
}

continues-Carried :
    (o : Option Midway) (i : ℕ) (s : Shared)
    → get_elem? s.midway i ≡ o
    → Inv s.conn
    → is_disconnected s.conn.state ≡ false
    → Carried s
        (elim o [ none ↦ s | some m ↦ advance m (record s { midway = drop_at s.midway i }) ])
        (elim o [ none ↦ [] | some m ↦ midway_bytes s.memory m ])
        0
continues-Carried none i s e v a = record {
  inv = v;
  still_open = a;
  in_order = sym (append-nil (given s));
  counted = omega arith;
}
continues-Carried (some x) i s e v a = advance-Carried x i s e v a

call-Carried :
    (c : Call) (s : Shared)
    → Inv s.conn
    → is_disconnected s.conn.state ≡ false
    → Fits s c
    → Carried s (call s c) (queues s c) (accepts s c)
unfolding call post_send post_shutdown
call-Carried (sends x n) s v a h = enters-Carried (is_connected s.conn.state) (sending x n) s v a
call-Carried shuts s v a h = shuts-Carried (is_connected s.conn.state) s v a
call-Carried (continues i) s v a h = continues-Carried (get_elem? s.midway i) i s refl v a
call-Carried (reuses m) s v a h = record {
  inv = v;
  still_open = a;
  in_order =
      ap (λ t. stream s.conn ++ t) (pending-keeps s.memory m s.posts h.0)
      ∙ sym (append-nil (given s));
  counted = omega (arith, midway_size-keeps s.memory m s.midway h.1);
}
call-Carried (runs w) s v a h = run_front-Carried s.posts w s refl v a h
call-Carried (writable w) s v a h = writable-Carried w s v a

-- On a connection in order that is not closed, while other threads send and shut it down, each in steps
-- that interleave in any way, and its loop runs their functors and writes, as long as nobody changes
-- the bytes of a send before its functor has run, the connection outlives its functors, and no functor meets EPIPE or ECONNRESET or grows the
-- buffer past `max_size()`: what the kernel took, then what waits in the buffer, then what waits in the
-- queue, is what was there at first and then all that was queued since, in that order; and every byte
-- that a send found the connection open for has been queued, or is still midway.
pub calls-given :
    (cs : List Call) (s : Shared)
    → Inv s.conn
    → is_disconnected s.conn.state ≡ false
    → AllFit s cs
    → let t = calls s cs in
      Inv t.conn
      × (given t ≡ given s ++ queued s cs)
      × (midway_size t.memory t.midway + length (queued s cs)
          ≡ midway_size s.memory s.midway + accepted s cs)
unfolding calls
calls-given [] s v a h = (v, sym (append-nil (given s)), omega arith)
calls-given (c ∷ cs) s v a h =
    let k = call-Carried c s v a h.0 in
    let r = calls-given cs (call s c) k.inv k.still_open h.1 in
    (
      r.0,
      r.1
          ∙ ap (λ t. t ++ queued (call s c) cs) k.in_order
          ∙ append_assoc (given s) (queues s c) (queued (call s c) cs),
      omega (arith, k.counted, r.2, length-append (queues s c) (queued (call s c) cs)),
    )
