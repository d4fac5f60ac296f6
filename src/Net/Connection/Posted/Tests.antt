-- ===== src/Net/Connection/Posted/Tests.antt =====
-- Another thread on a small connection of common/net/TcpConnection.cc.
use talk_system.Prelude.{
  ◌==◌, if◌then◌else◌, length, take, add_size, sub_size, ◌+◌, ◌≡◌, refl, true, false, List, [], ◌∷◌,
  ◌++◌, arith,
}
use talk_system.Buffer
use talk_system.Buffer.Splice
use talk_system.Net.Channel
use talk_system.Net.Connection
use talk_system.Net.Connection.{
  Connection, wrote, k_connected, connect_established, send_in_loop, new, emit, set_state, request,
  write_complete, write_directly, check_high_water, ask_to_write, keep_remaining,
}
use talk_system.Net.Connection.Stream.{Inv, stream, Sent, sent_bytes}
use talk_system.Net.Connection.Send.{send_in_loop-Sent}
use talk_system.Net.Connection.Life.{ups, fins, connect_established-Inv}
use talk_system.Net.Connection.Posted.{
  Memory, Shared, Call, sends, shuts, continues, reuses, runs, writable, send_job, shutdown_job,
  post_send, post_shutdown, advance, call, calls, given, queued, accepted, midway_size,
}
use talk_system.Net.Connection.Posted.Order.{calls-given}
use talk_system.Net.Connection.Posted.Overtakes.{untouched, send_and_shut, drains, drains-fins}

abbrev up : Connection
up = connect_established (Connection.new (Channel.new 5) true false)

up_lem : Inv up × (stream up ≡ []) × (up.state ≡ k_connected) × (ups up.effects ≡ 1)
up_lem = connect_established-Inv (Channel.new 5) true false (unfold Channel.new in refl)

-- The bytes 1, 2 and 3 lie at 10, and later something else does.
abbrev before : Memory
before a n = if a == 10 then take n (1 ∷ 2 ∷ 3 ∷ []) else []

abbrev after : Memory
after a n = take n (8 ∷ 8 ∷ 8 ∷ [])

-- A send and a shutdown interleave; the loop runs the functor of the send and gets one byte out, then the
-- bytes are given up, and another goes out.
abbrev work : List Call
work =
    sends 10 3
    ∷ shuts
    ∷ continues 1
    ∷ sends 10 3
    ∷ continues 0
    ∷ runs (wrote 1)
    ∷ reuses after
    ∷ continues 0
    ∷ writable (wrote 1)
    ∷ []

calls-given_example :
    let t = calls (untouched up before) work in
    Inv t.conn
    × (given t ≡ given (untouched up before) ++ queued (untouched up before) work)
    × (midway_size t.memory t.midway + length (queued (untouched up before) work)
        ≡ 0 + accepted (untouched up before) work)
unfolding connect_established Connection.new Connection.request Connection.emit Connection.set_state
    Buffer.new call post_send post_shutdown advance
calls-given_example =
    calls-given work (untouched up before) up_lem.0 refl
      (tt, (tt, (tt, (tt, (tt, ((refl, omega arith), ((tt, (refl, tt)), (tt, (tt, tt)))))))))

-- Two bytes wait.
abbrev half : Connection
half = send_in_loop (1 ∷ 2 ∷ 3 ∷ []) (wrote 1) up

half-Sent : Sent (1 ∷ 2 ∷ 3 ∷ []) up half
unfolding connect_established Connection.new Connection.request Connection.emit Connection.set_state
    Buffer.new
half-Sent = send_in_loop-Sent (1 ∷ 2 ∷ 3 ∷ []) up up_lem.0 refl (omega arith) (wrote 1) refl

abbrev late_call : Shared
late_call = calls (untouched half before) (send_and_shut 10 2 ++ drains (0 ∷ 0 ∷ []))

drains-fins_example :
    (fins late_call.conn.effects ≡ 1)
    × (late_call.posts ≡ send_job 10 2 ∷ shutdown_job ∷ [])
    × (sent_bytes late_call.conn.effects ≡ stream half)
unfolding connect_established Connection.new Connection.request Connection.emit Connection.set_state
    Buffer.new Connection.send_in_loop Connection.write_directly Connection.keep_remaining
    Connection.ask_to_write Connection.check_high_water Connection.write_complete Channel.is_writing
    Channel.set_events Channel.tie Channel.new Buffer.readable_bytes sub_size add_size Buffer.peek
    Buffer.append Buffer.put Buffer.ensure_writeable_bytes Buffer.writable_bytes Splice.write_at
drains-fins_example =
    drains-fins 10 2 before (0 ∷ 0 ∷ []) half half-Sent.inv refl refl (omega arith) (omega arith)
