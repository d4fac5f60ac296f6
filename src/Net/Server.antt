-- ===== src/Net/Server.antt =====
-- common/net/TcpServer.h and TcpServer.cc, with the choice of a loop of EventLoopThreadPool.cc. A loop
-- is its address, a number; a connection is its descriptor and its loop.
pub mod Turns
pub mod Names
pub mod Life
mod Tests
use talk_system.Prelude.{
  ℕ, ◌+◌, leb, length, take, get_elem?, is_empty, if◌then◌else◌, Text, Option, none, some, List, [],
  ◌∷◌, ◌++◌,
}
use talk_system.Prelude.Dict.{Dict, assign, erase}

-- `EventLoopThreadPool`, after `start`.
pub record LoopPool : Type 0 where
  pub base_loop : ℕ
  pub loops : List ℕ
  pub next : ℕ

-- `getNextLoop`; `none` would be an index out of range.
unfoldable pub get_next_loop : LoopPool → Option ℕ × LoopPool
get_next_loop p = if is_empty p.loops then (some p.base_loop, p) else (
  get_elem? p.loops p.next,
  record p { next = if leb (length p.loops) (p.next + 1) then 0 else p.next + 1 },
)

unfoldable pub get_all_loops : LoopPool → List ℕ
get_all_loops p = if is_empty p.loops then p.base_loop ∷ [] else p.loops

pub record Accepted : Type 0 where
  pub sockfd : ℕ
  pub io_loop : Option ℕ

pub record TcpServer : Type 0 where
  pub name : Text
  pub ip_port : Text
  pub thread_pool : LoopPool
  pub next_conn_id : ℕ
  pub connections : Dict Accepted

-- `sizeof buf - 1` of `newConnection`.
abbrev pub name_room : ℕ
name_room = 63

-- `decimal` is what `%d` prints.
module _ (decimal : ℕ → Text) where
  unfoldable pub conn_name : Text → Text → ℕ → Text
  conn_name name ip_port id = name ++ take name_room (b'-' ∷ (ip_port ++ (b'#' ∷ decimal id)))

  -- `newConnection`, up to the call of `connectEstablished` in the loop.
  unfoldable pub new_connection : ℕ → TcpServer → TcpServer
  new_connection sockfd s =
      let (loop, pool) = get_next_loop s.thread_pool in
      record s {
        thread_pool = pool;
        next_conn_id = s.next_conn_id + 1;
        connections =
            assign (conn_name s.name s.ip_port s.next_conn_id)
              (record { sockfd = sockfd; io_loop = loop }) s.connections;
      }

-- `removeConnectionInLoop`, for a connection of that name.
unfoldable pub remove_connection_in_loop : Text → TcpServer → TcpServer
remove_connection_in_loop name s = record s { connections = erase name s.connections }
