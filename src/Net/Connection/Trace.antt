-- ===== src/Net/Connection/Trace.antt =====
-- Whole runs of a connection in its loop's thread: sends, writable events and a shutdown, in any
-- order.
use talk_system.Prelude.{
  if◌then◌else◌, length, ℕ, ◌+◌, ◌^◌, ◌<◌, ◌≡◌, refl, sym, ap, ◌∙◌, subst, false, List, [], ◌∷◌,
  ◌++◌, append-nil, append_assoc,
}
use talk_system.Net.Connection.{
  Connection, k_connected, k_disconnecting, Write, is_disconnected, send_in_loop, is_connected,
  send, shutdown, handle_write,
}
use talk_system.Net.Connection.Stream.{Inv, stream, lost}
use talk_system.Net.Connection.Send.{send_in_loop-Sent}
use talk_system.Net.Connection.Drain.{handle_write-Flushed}
use talk_system.Net.Connection.Life.{shutdown-Inv, shutdown_lem}

pub data Act : Type 0 where
  sends : List ℕ → Write → Act
  writes : Write → Act
  shuts : Act

unfoldable pub act : Connection → Act → Connection
act c (sends bs w) = send bs w c
act c (writes w) = handle_write w c
act c shuts = shutdown c

unfoldable pub run : Connection → List Act → Connection
run c [] = c
run c (a ∷ acts) = run (act c a) acts

-- The bytes given to `send` before the connection was shut down.
abbrev pub said : List Act → List ℕ
said [] = []
said (sends bs w ∷ acts) = bs ++ said acts
said (writes w ∷ acts) = said acts
said (shuts ∷ acts) = []

-- No send in the run meets EPIPE or ECONNRESET, or grows the buffer past `max_size()`.
abbrev pub IsSmooth : Connection → List Act → Type 0
IsSmooth c [] = Unit {0}
IsSmooth c (sends bs w ∷ acts) =
    (lost w c ≡ false)
    × (c.output_buffer.writer_index + length bs < 2 ^ 63)
    × IsSmooth (act c (sends bs w)) acts
IsSmooth c (writes w ∷ acts) = IsSmooth (act c (writes w)) acts
IsSmooth c (shuts ∷ acts) = IsSmooth (act c shuts) acts

pub send_connected :
    (bs : List ℕ) (w : Write) (c : Connection)
    → c.state ≡ k_connected
    → send bs w c ≡ send_in_loop bs w c
unfolding send
send_connected bs w c up = rw (ap is_connected up, if◌then◌else◌)

pub send_disconnecting :
    (bs : List ℕ) (w : Write) (c : Connection) → c.state ≡ k_disconnecting → send bs w c ≡ c
unfolding send
send_disconnecting bs w c up = rw (ap is_connected up, if◌then◌else◌)

pub shutdown_disconnecting : (c : Connection) → c.state ≡ k_disconnecting → shutdown c ≡ c
unfolding shutdown
shutdown_disconnecting c up = rw (ap is_connected up, if◌then◌else◌)

run_disconnecting :
    (acts : List Act) (c : Connection)
    → Inv c
    → c.state ≡ k_disconnecting
    → Inv (run c acts) × (stream (run c acts) ≡ stream c)
unfolding run act
run_disconnecting [] c v up = (v, refl)
run_disconnecting (sends bs w ∷ acts) c v up =
    subst (λ d. Inv (run d acts) × (stream (run d acts) ≡ stream c))
      (sym (send_disconnecting bs w c up)) (run_disconnecting acts c v up)
run_disconnecting (writes w ∷ acts) c v up =
    let f = handle_write-Flushed c v w in
    let r = run_disconnecting acts (handle_write w c) f.inv (f.flushed_state ∙ up) in
    (r.0, r.1 ∙ f.kept)
run_disconnecting (shuts ∷ acts) c v up =
    subst (λ d. Inv (run d acts) × (stream (run d acts) ≡ stream c))
      (sym (shutdown_disconnecting c up)) (run_disconnecting acts c v up)

-- On a connection in order that is connected, after any sends, writable events and shutdowns, as
-- long as no send meets EPIPE or ECONNRESET or grows the buffer past `max_size()`: the bytes that
-- the kernel took followed by those that wait are all the bytes sent before the first shutdown, in
-- order; and the channel still asks to write exactly while bytes wait.
pub run-stream :
    (acts : List Act) (c : Connection)
    → Inv c
    → c.state ≡ k_connected
    → IsSmooth c acts
    → Inv (run c acts) × (stream (run c acts) ≡ stream c ++ said acts)
unfolding run act
run-stream [] c v up s = (v, sym (append-nil (stream c)))
run-stream (sends bs w ∷ acts) c v up s =
    let o = send_in_loop-Sent bs c v (ap is_disconnected up) s.1 w s.0 in
    let e = send_connected bs w c up in
    let r =
      run-stream acts (send bs w c) (subst Inv (sym e) o.inv)
        (ap (λ d. d.state) e ∙ o.sent_state ∙ up) s.2 in
    (
      r.0,
      r.1
          ∙ ap (λ t. t ++ said acts) (ap (λ d. stream d) e ∙ o.carried)
          ∙ append_assoc (stream c) bs (said acts),
    )
run-stream (writes w ∷ acts) c v up s =
    let f = handle_write-Flushed c v w in
    let r = run-stream acts (handle_write w c) f.inv (f.flushed_state ∙ up) s in
    (r.0, r.1 ∙ ap (λ t. t ++ said acts) f.kept)
run-stream (shuts ∷ acts) c v up s =
    let d = shutdown_lem c v up in
    let r = run_disconnecting acts (shutdown c) (shutdown-Inv c v up) d.0 in
    (r.0, r.1 ∙ d.1 ∙ sym (append-nil (stream c)))
