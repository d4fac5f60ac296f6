-- ===== src/Net/Server/Life.antt =====
-- common/net/TcpServer.cc and TcpConnection.cc: one connection between the base loop, where the
-- server keeps its table, and another loop that serves it. Each loop runs its own queue, in its order.
pub mod Stages
pub mod Told
pub mod Ends
pub mod Reports
pub mod Rounds
pub mod Watched
pub mod Closing
use talk_system.Prelude.{if◌then◌else◌, take, ℕ, Bool, true, false, List, [], ◌∷◌, ◌++◌}
use talk_system.Buffer.{Read, got, failed, new}
use talk_system.Net.Channel
use talk_system.Net.Channel.{
  is_none_event, is_reading, k_none_event, set_events, tie, is_writing, Channel, Events,
}
use talk_system.Net.Connection
use talk_system.Net.Connection.{
  Connection, State, k_disconnected, k_connecting, k_connected, k_disconnecting, Effect,
  connection_callback, close_callback, channel_removed, wrote, refused, emit, set_state, request,
  is_connected, is_disconnecting, connect_established, connect_destroyed, handle_close, handle_read,
  handle_error, writing, send, handle_write, shutdown, write_complete,
}
use talk_system.Net.Connection.Trace.{Act, sends, writes, shuts, act}
use talk_system.Net.Connection.Calm.{life_of, life_of-append, is_up}

-- What the serving loop is asked to do: `connectEstablished` by `newConnection`, `connectDestroyed`
-- by `removeConnectionInLoop`.
pub data Job : Type 0 where
  establish destroy : Job

-- What the base loop is asked to do: `removeConnectionInLoop`, by the close callback.
pub data BaseJob : Type 0 where
  remove : BaseJob

pub record Served : Type 0 where
  pub conn : Connection
  -- Whether `connections_` holds it.
  pub listed : Bool
  pub io_queue : List Job
  pub base_queue : List BaseJob

-- The end of `newConnection`, for the descriptor `fd`.
unfoldable pub accepted : ℕ → Bool → Bool → Served
accepted fd write_complete high_water = record {
  conn = Connection.new (Channel.new fd) write_complete high_water;
  listed = true;
  io_queue = establish ∷ [];
  base_queue = [];
}

unfoldable pub run_job : Job → Connection → Connection
run_job establish c = connect_established c
run_job destroy c = connect_destroyed c

unfoldable pub run_io : Served → Served
run_io s = go s.io_queue
  where
    go : List Job → Served
    go [] = s
    go (j ∷ js) = record s { conn = run_job j s.conn; io_queue = js }

-- `removeConnectionInLoop`.
unfoldable pub run_base : Served → Served
run_base s = go s.base_queue
  where
    go : List BaseJob → Served
    go [] = s
    go (remove ∷ rs) = record s {
      listed = false;
      io_queue = s.io_queue ++ destroy ∷ [];
      base_queue = rs;
    }

-- `removeConnection`, which `handleClose` calls as its close callback.
unfoldable pub closes : Served → Served
closes s = record s { conn = handle_close s.conn; base_queue = s.base_queue ++ remove ∷ [] }

-- `handleRead`, with the answer of `readv`; `closeCallback_` is `removeConnection`.
unfoldable pub on_input : Read → Served → Served
on_input (got []) s = closes s
on_input (got (x ∷ bs)) s = record s { conn = handle_read (got (x ∷ bs)) s.conn }
on_input (failed e) s = record s { conn = handle_error s.conn }

-- EPOLLIN, which the poller reports only when the channel asks for it.
unfoldable pub reads : Read → Served → Served
reads r s = if is_reading s.conn.channel.events then on_input r s else s

-- EPOLLHUP, which the poller reports of every channel that it watches.
unfoldable pub hangs_up : Served → Served
hangs_up s = if is_none_event s.conn.channel.events then s else closes s

pub data Move : Type 0 where
  io_turn base_turn hang_up : Move
  input : Read → Move
  acting : Act → Move

unfoldable pub move : Served → Move → Served
move s io_turn = run_io s
move s base_turn = run_base s
move s hang_up = hangs_up s
move s (input r) = reads r s
move s (acting a) = record s { conn = act s.conn a }

unfoldable pub play : Served → List Move → Served
play s [] = s
play s (m ∷ ms) = play (move s m) ms

-- The whole life of a connection.
abbrev pub whole_life : List Effect
whole_life =
    connection_callback k_connected
    ∷ connection_callback k_disconnected
    ∷ close_callback
    ∷ channel_removed
    ∷ []

-- How much of the life has been told, by the table and the two queues alone.
abbrev pub told_by : Bool → List Job → List BaseJob → List Effect
told_by true (j ∷ js) rs = []
told_by true [] [] = take 1 whole_life
told_by true [] (r ∷ rs) = take 3 whole_life
told_by false (j ∷ js) rs = take 3 whole_life
told_by false [] rs = whole_life

-- A turn of each loop around the end of the peer.
abbrev pub closing : List Move
closing = io_turn ∷ hang_up ∷ base_turn ∷ io_turn ∷ []
