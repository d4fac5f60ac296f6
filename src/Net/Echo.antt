-- ===== src/Net/Echo.antt =====
-- The echo server of test/echoserver/main.cpp on a connection of common/net/TcpConnection.cc: its
-- message callback.
use talk_system.Prelude.{
  length, ℕ, ◌+◌, ◌^◌, ◌≤◌, ◌<◌, ◌≡◌, refl, sym, ap, ◌∙◌, subst, false, List, [], ◌∷◌, ◌++◌,
  append-nil, arith,
}
use talk_system.Buffer.{Buffer, got, read_fd, retrieve_all_as_string, peek}
use talk_system.Buffer.Contents.{IsValid, retrieve_all_as_string_lem}
use talk_system.Buffer.Io.{read_fd_lem}
use talk_system.Net.Connection.{
  Connection, Write, k_connected, k_disconnecting, message_callback, is_disconnected, emit, send,
  shutdown, handle_read, wrote, refused,
}
use talk_system.Net.Connection.Stream.{Inv, stream, sent_bytes, sent_bytes-quiet, lost}
use talk_system.Net.Connection.Send.{send_in_loop-Sent}
use talk_system.Net.Connection.Life.{fins, fins-append, shutdown_lem}
use talk_system.Net.Connection.Trace.{sends, shuts, run, act, IsSmooth, run-stream, send_connected}
use talk_system.Net.Connection.Finish.{IsFinished}
use talk_system.Net.Connection.Mild.{late}
use talk_system.Net.Connection.Ends.{run-IsFinished, run-takes, takes}

-- `onMessage`: all the input is sent back, with `w` the answer of `write`, and the output is closed.
unfoldable pub on_message : Write → Connection → Connection
on_message w c =
    let (msg, rest) = retrieve_all_as_string c.input_buffer in
    shutdown (send msg w (record c { input_buffer = rest }))

-- What a send and a shutdown leave.
record Sealed (bs : List ℕ) (c d : Connection) : Type 0 where
  inv : Inv d
  finished : IsFinished d
  closing : d.state ≡ k_disconnecting
  carried : stream d ≡ stream c ++ bs

send-Sealed :
    (bs : List ℕ) (w : Write) (c : Connection)
    → Inv c
    → c.state ≡ k_connected
    → fins c.effects ≡ 0
    → lost w c ≡ false
    → c.output_buffer.writer_index + length bs < 2 ^ 63
    → Sealed bs c (shutdown (send bs w c))
unfolding run act
send-Sealed bs w c v up z l h =
    let acts = sends bs w ∷ shuts ∷ [] in
    let smooth : IsSmooth c acts = (l, h, tt) in
    let r = run-stream acts c v up smooth in
    let f = run-IsFinished acts c v up z smooth in
    let o = send_in_loop-Sent bs c v (ap is_disconnected up) h w l in
    let e = send_connected bs w c up in
    let s =
      shutdown_lem (send bs w c) (subst Inv (sym e) o.inv)
        (ap (λ (d : Connection). d.state) e ∙ o.sent_state ∙ up) in
    record {
      inv = r.0;
      finished = record { counted = f.0; none_late = f.1 };
      closing = s.0;
      carried = r.1 ∙ ap (◌++◌ (stream c)) (append-nil bs);
    }

lost_input :
    (w : Write) (b : Buffer) (c : Connection)
    → lost w (emit message_callback (record c { input_buffer = b })) ≡ lost w c
unfolding emit
lost_input (wrote n) b c = refl
lost_input (refused e) b c = refl

-- An event with some input, and the callback.
abbrev pub echo : List ℕ → Write → Connection → Connection
echo bs w c = on_message w (handle_read (got bs) c)

-- A connection in order that is up, with no announced end, gets some bytes, which fit into its
-- buffers, and the answer to the write is not EPIPE or ECONNRESET. With the callback of the echo
-- server, after as many writable events as bytes wait behind it, at each of which the kernel takes
-- something: the kernel has all that was in the output before, then the input and these bytes, in
-- their order, and then, once, the end of the output.
pub echo_lem :
    (x : ℕ) (xs : List ℕ) (w : Write) (ns : List ℕ) (c : Connection)
    → Inv c
    → IsValid c.input_buffer
    → c.state ≡ k_connected
    → fins c.effects ≡ 0
    → lost w c ≡ false
    → c.input_buffer.writer_index + length (x ∷ xs) < 2 ^ 63
    → c.output_buffer.writer_index + length (peek c.input_buffer ++ (x ∷ xs)) < 2 ^ 63
    → length (peek (echo (x ∷ xs) w c).output_buffer) ≤ length ns
    → let d = run (echo (x ∷ xs) w c) (takes ns) in
      (sent_bytes d.effects ≡ stream c ++ (peek c.input_buffer ++ (x ∷ xs)))
      × (fins d.effects ≡ 1)
      × (late d.effects ≡ [])
      × (peek d.output_buffer ≡ [])
unfolding on_message handle_read emit
echo_lem x xs w ns c v i up z l hi ho hn =
    let r = run-takes ns (echo (x ∷ xs) w c) s.inv s.finished s.closing hn in
    (
      r.1
          ∙ s.carried
          ∙ ap (λ t. (t ++ peek c.output_buffer) ++ msg.0)
              (sent_bytes-quiet c.effects message_callback refl)
          ∙ ap (◌++◌ (stream c)) said,
      r.2,
      r.3,
      r.0,
    )
  where
    filled : Buffer
    filled = (read_fd (got (x ∷ xs)) c.input_buffer).0

    msg : List ℕ × Buffer
    msg = retrieve_all_as_string filled

    c' : Connection
    c' = emit message_callback (record c { input_buffer = msg.1 })

    said : msg.0 ≡ peek c.input_buffer ++ (x ∷ xs)
    said =
        let f = read_fd_lem (got (x ∷ xs)) c.input_buffer i hi in
        (retrieve_all_as_string_lem filled f.0).0 ∙ f.1

    s : Sealed msg.0 c' (echo (x ∷ xs) w c)
    s =
        send-Sealed msg.0 w c' (record { valid = v.valid; armed = v.armed }) up
          (omega (arith, fins-append c.effects (message_callback ∷ []), z))
          (lost_input w msg.1 c ∙ l) (omega (arith, ho, ap length said))
