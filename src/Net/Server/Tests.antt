-- ===== src/Net/Server/Tests.antt =====
-- A server and its connections on small inputs.
use talk_system.Prelude.{if◌then◌else◌, ◌≡◌, refl, true, false, List, [], ◌∷◌, ◌++◌}
use talk_system.Net.Server.{LoopPool}
use talk_system.Net.Channel
use talk_system.Net.Connection
use talk_system.Buffer.{got}
use talk_system.Net.Channel.{
  Channel, Events, k_none_event, is_none_event, is_reading, set_events, tie, set_revents,
  handle_event, handle_event_with_guard,
}
use talk_system.Net.Connection.{
  wrote, refused, epipe, connection_callback, close_callback, k_connected, k_disconnected,
  Connection, emit, request, set_state, connect_established, handle_close, handle_write,
}
use talk_system.Net.Connection.Trace.{sends, shuts}
use talk_system.Net.Connection.Calm.{life_of}
use talk_system.Net.Server.Life.{
  Served, accepted, Move, io_turn, base_turn, hang_up, input, acting, play, whole_life, told_by,
  run_job, run_io, closes, on_input,
}
use talk_system.Net.Server.Life.Ends.{last_turns, ending, last_turns-life}
use talk_system.Net.Server.Life.Reports.{
  Round, io_round, base_round, begin, reporting, rounds, round, report, callbacks, on_close,
  on_read, calling,
}
use talk_system.Net.Server.Life.Closing.{last_rounds, last_rounds-life}
use talk_system.Net.Server.Life.Rounds.{rounds-life}

abbrev pool : LoopPool
pool = record { base_loop = 9; loops = 4 ∷ 5 ∷ 6 ∷ []; next = 0 }

-- A connection that is set up, sends, reads the end of its input and is hung up once more.
abbrev moves : List Move
moves = io_turn ∷ acting (sends (1 ∷ []) (wrote 1)) ∷ input (got []) ∷ hang_up ∷ base_turn ∷ []

abbrev played : Served
played = play (accepted 5 true false) moves

-- A report that brings bytes while the output can go on, and one that brings the end of the input
-- with EPOLLHUP and EPOLLOUT at once.
abbrev bytes_come : Events
bytes_come = record k_none_event { epollin = true; epollout = true }

abbrev end_comes : Events
end_comes = record k_none_event { epollin = true; epollhup = true; epollout = true }

abbrev reports : List Round
reports =
    io_round
    ∷ reporting true bytes_come (got (7 ∷ [])) (wrote 0)
    ∷ reporting true end_comes (got []) (refused epipe)
    ∷ base_round
    ∷ []

rounds-life_example :
    life_of (rounds false (begin false 5 true false) reports).conn.effects
    ≡ told_by
        (rounds false (begin false 5 true false) reports).listed
        (rounds false (begin false 5 true false) reports).io_queue
        (rounds false (begin false 5 true false) reports).base_queue
rounds-life_example = rounds-life false reports 5 true false (refl, (refl, tt))

-- EPOLLHUP with urgent data and without EPOLLIN: the close callback of the channel runs, and then the
-- read callback, which reads the end and closes once more.
abbrev urgent_end : Events
urgent_end = record k_none_event { epollpri = true; epollhup = true }

closed_twice :
    life_of
      (rounds false
        (begin false 5 true false)
        (io_round ∷ reporting true urgent_end (got []) (wrote 0) ∷ [])).conn.effects
    ≡ connection_callback k_connected
      ∷ connection_callback k_disconnected
      ∷ close_callback
      ∷ connection_callback k_disconnected
      ∷ close_callback
      ∷ []
unfolding rounds begin round report callbacks on_close on_read accepted Channel.new run_io run_job
    Connection.new emit request set_state connect_established handle_close handle_write
    is_none_event is_reading set_events tie set_revents handle_event handle_event_with_guard
    on_input closes
closed_twice = refl

-- Input in the base loop, the user shuts the connection down, and then the server goes.
abbrev shutting : Served
shutting =
    rounds true (begin true 5 true false)
      (reporting true k_none_event (got []) (wrote 0) ∷ calling shuts ∷ [])

last_turns-life_example : life_of (last_turns true shutting).conn.effects ≡ (
    if shutting.listed
    then life_of shutting.conn.effects ++ ending shutting.conn.state
    else whole_life)
last_turns-life_example =
    last_turns-life true (reporting true k_none_event (got []) (wrote 0) ∷ calling shuts ∷ []) 5
      true false (refl, tt)

last_rounds-life_example :
    ((rounds true
        (rounds true (begin true 5 true false) reports)
        (last_rounds (got []) (wrote 0))).listed
      ≡ false)
    × ((rounds true
          (rounds true (begin true 5 true false) reports)
          (last_rounds (got []) (wrote 0))).io_queue
        ≡ [])
    × ((rounds true
          (rounds true (begin true 5 true false) reports)
          (last_rounds (got []) (wrote 0))).base_queue
        ≡ [])
    × (life_of
          (rounds true
            (rounds true (begin true 5 true false) reports)
            (last_rounds (got []) (wrote 0))).conn.effects
        ≡ whole_life)
last_rounds-life_example =
    last_rounds-life true reports 5 true false (got []) (wrote 0) (refl, (refl, tt))
