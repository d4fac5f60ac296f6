-- ===== src/Net/Tests.antt =====
-- The reactor on small inputs.
use talk_system.Prelude.{
  if◌then◌else◌, add_size, sub_size, ◌+◌, ◌<◌, ◌≡◌, refl, true, false, List, [], ◌∷◌, ◌++◌, arith,
  some, none, ℕ, ◌==◌,
}
use talk_system.Buffer
use talk_system.Buffer.Splice
use talk_system.Buffer.{
  new, peek, Buffer, readable_bytes, writable_bytes, retrieve_all, retrieve, retrieve_as_string,
  retrieve_all_as_string, ensure_writeable_bytes, put, append, scatter, read_fd,
}
use talk_system.Buffer.Contents.{new_empty}
use talk_system.Net.Channel
use talk_system.Net.Channel.{
  Channel, k_none_event, tie, set_events, is_writing, Events, Callbacks, disable_writing,
  is_none_event, is_reading, handle_event_with_guard,
}
use talk_system.Net.Channel.Mask.{
  k_read_mask, k_write_mask, meets, set_mask, handle_mask, mask_of, events_of, masks_lem,
}
use talk_system.Net.Connection
use talk_system.Net.Connection.{
  Connection, Write, wrote, refused, State, k_connected, k_disconnected, k_disconnecting,
  connect_established, connect_destroyed, handle_close, handle_write, send_in_loop, shutdown,
  writing, set_state, emit, request, write_complete, write_directly, check_high_water, ask_to_write,
  keep_remaining, send, shutdown_in_loop, handle_read,
}
use talk_system.Net.Connection.Stream.{Inv, stream, Sent, sent_bytes}
use talk_system.Net.Connection.Send.{send_in_loop-Sent}
use talk_system.Net.Connection.Life.{ups, fins, connect_established-Inv}
use talk_system.Net.Connection.Trace.{Act, sends, writes, shuts, run, run-stream, act}
use talk_system.Net.Connection.Finish.{is_over}
use talk_system.Net.Connection.Mild.{late}
use talk_system.Net.Connection.Ends.{run-IsFinished, run-takes, takes}
use talk_system.Net.Echo.{on_message, echo, echo_lem}
use talk_system.Net.Loop.{push}
use talk_system.Net.Loop.Wakeup.{
  System, initial, here, next, other_pushes, in_hand, no_lost_wakeup, functors_in_order,
}

abbrev up : Connection
up = connect_established (Connection.new (Channel.new 5) true false)

up_lem : Inv up × (stream up ≡ []) × (up.state ≡ k_connected) × (ups up.effects ≡ 1)
up_lem = connect_established-Inv (Channel.new 5) true false (unfold Channel.new in refl)

-- A send of which the kernel takes one byte, a shutdown, and a writable event.
abbrev acts : List Act
acts = sends (1 ∷ 2 ∷ 3 ∷ []) (wrote 1) ∷ shuts ∷ writes (wrote 2) ∷ []

run-stream_example : Inv (run up acts) × (stream (run up acts) ≡ stream up ++ (1 ∷ 2 ∷ 3 ∷ []))
unfolding connect_established Connection.new Connection.request Connection.emit Connection.set_state
    new
run-stream_example = run-stream acts up up_lem.0 up_lem.2 (refl, omega arith, tt)

abbrev half : Connection
half = send_in_loop (1 ∷ 2 ∷ 3 ∷ []) (wrote 1) up

half-Sent : Sent (1 ∷ 2 ∷ 3 ∷ []) up half
unfolding connect_established Connection.new Connection.request Connection.emit Connection.set_state
    new
half-Sent = send_in_loop-Sent (1 ∷ 2 ∷ 3 ∷ []) up up_lem.0 refl (omega arith) (wrote 1) refl

abbrev waiting : System
waiting = record { loop = push 7 initial.loop; owed = initial.owed + 1 }

no_lost_wakeup_example : 0 < waiting.loop.wakeups + waiting.owed
unfolding initial
no_lost_wakeup_example =
    no_lost_wakeup {s = waiting} (next here (other_pushes 7)) (unfold push in refl)
      (unfold push in λ e. cc)

functors_in_order_example :
    waiting.loop.queued
    ≡ waiting.loop.executed ++ (in_hand waiting.loop.phase ++ waiting.loop.pending_functors)
functors_in_order_example = functors_in_order {s = waiting} (next here (other_pushes 7))

run-IsFinished_example :
    (fins (run up acts).effects ≡ (if is_over (run up acts) then 1 else 0))
    × (late (run up acts).effects ≡ [])
unfolding connect_established Connection.new Connection.request Connection.emit Connection.set_state
    new
run-IsFinished_example = run-IsFinished acts up up_lem.0 up_lem.2 refl (refl, omega arith, tt)

abbrev firsts : List Act
firsts = sends (1 ∷ 2 ∷ 3 ∷ []) (wrote 1) ∷ shuts ∷ []

-- The connection with two bytes waiting, shut down.
abbrev shut : Connection
shut = run up firsts

sealed : (fins shut.effects ≡ (if is_over shut then 1 else 0)) × (late shut.effects ≡ [])
unfolding connect_established Connection.new Connection.request Connection.emit Connection.set_state
    new
sealed = run-IsFinished firsts up up_lem.0 up_lem.2 refl (refl, omega arith, tt)

run-takes_example :
    (peek (run shut (takes (0 ∷ 0 ∷ []))).output_buffer ≡ [])
    × (sent_bytes (run shut (takes (0 ∷ 0 ∷ []))).effects ≡ stream shut)
    × (fins (run shut (takes (0 ∷ 0 ∷ []))).effects ≡ 1)
    × (late (run shut (takes (0 ∷ 0 ∷ []))).effects ≡ [])
unfolding connect_established Connection.new Connection.request Connection.emit Connection.set_state
    new run act Connection.shutdown Connection.send Connection.send_in_loop
    Connection.write_directly Connection.keep_remaining Connection.ask_to_write
    Connection.check_high_water Connection.write_complete Connection.shutdown_in_loop
    Channel.is_writing Channel.set_events Channel.tie Channel.new Buffer.readable_bytes sub_size
    add_size peek Buffer.append Buffer.put Buffer.ensure_writeable_bytes Buffer.writable_bytes
    Splice.write_at
run-takes_example =
    run-takes (0 ∷ 0 ∷ []) shut (run-stream firsts up up_lem.0 up_lem.2 (refl, omega arith, tt)).0
      (record { counted = sealed.0; none_late = sealed.1 }) refl (omega arith)

echo_lem_example :
    (sent_bytes (run (echo (7 ∷ 8 ∷ []) (wrote 1) up) (takes (0 ∷ []))).effects
      ≡ stream up ++ (peek up.input_buffer ++ (7 ∷ 8 ∷ [])))
    × (fins (run (echo (7 ∷ 8 ∷ []) (wrote 1) up) (takes (0 ∷ []))).effects ≡ 1)
    × (late (run (echo (7 ∷ 8 ∷ []) (wrote 1) up) (takes (0 ∷ []))).effects ≡ [])
    × (peek (run (echo (7 ∷ 8 ∷ []) (wrote 1) up) (takes (0 ∷ []))).output_buffer ≡ [])
unfolding connect_established Connection.new Connection.request Connection.emit Connection.set_state
    new Connection.shutdown Connection.send Connection.send_in_loop Connection.handle_read
    Connection.write_directly Connection.keep_remaining Connection.ask_to_write on_message
    Connection.check_high_water Connection.write_complete Connection.shutdown_in_loop
    Channel.is_writing Channel.set_events Channel.tie Channel.new Buffer.readable_bytes sub_size
    add_size peek Buffer.append Buffer.put Buffer.ensure_writeable_bytes Buffer.writable_bytes
    Splice.write_at Buffer.read_fd Buffer.scatter Buffer.retrieve_all_as_string
    Buffer.retrieve_as_string Buffer.retrieve Buffer.retrieve_all
echo_lem_example =
    echo_lem 7 (8 ∷ []) (wrote 1) (0 ∷ []) up up_lem.0 (new_empty 1024 (omega arith)).0 up_lem.2
      refl refl (omega arith) (omega arith) (omega arith)

-- Callbacks that write down which of them ran.
abbrev noting : Callbacks (List ℕ)
noting = record {
  read = some (λ l. l ++ 1 ∷ []);
  write = some (λ l. l ++ 2 ∷ []);
  close = some (λ l. l ++ 3 ∷ []);
  error = none;
}

abbrev asked : Events
asked = record k_none_event { epollin = true; epollpri = true; epollout = true }

-- EPOLLOUT with EPOLLHUP, and a mask that asks to read and loses the wish to write.
masks_lem_example :
    (events_of (mask_of asked) ≡ asked)
    × (mask_of (events_of 20) ≡ 20)
    × (mask_of (set_events disable_writing asked) ≡ set_mask disable_writing (mask_of asked))
    × (mask_of (set_events disable_writing asked) < 32)
    × (is_none_event asked ≡ (mask_of asked == 0))
    × (is_reading asked ≡ meets (mask_of asked) k_read_mask)
    × (is_writing asked ≡ meets (mask_of asked) k_write_mask)
    × (handle_event_with_guard noting (events_of 20) [] ≡ handle_mask noting 20 [])
masks_lem_example = masks_lem noting disable_writing asked 20 [] (omega arith)
