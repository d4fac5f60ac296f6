-- ===== src/Net/Acceptor.antt =====
-- common/net/Acceptor.h and Acceptor.cc, with the constructor and `start` of TcpServer.cc that use
-- it. What `accept` gives, and the loops of the started threads, are arguments.
pub mod Accepts
pub mod Listens
mod Tests
use talk_system.Prelude.{◌==◌, if◌then◌else◌, Text, ℕ, ◌+◌, Bool, true, false, List, [], ◌∷◌, ◌++◌}
use talk_system.Net.Address.{InetAddress, Conversions, to_ip_port}
use talk_system.Net.Channel
use talk_system.Net.Channel.{Channel, enable_reading, set_events}
use talk_system.Net.Server.{TcpServer, LoopPool, new_connection, remove_connection_in_loop}

pub record Acceptor : Type 0 where
  pub listenning : Bool
  pub accept_channel : Channel
  -- Whether `newConnectionCallback_` is set.
  pub has_callback : Bool
  -- The connections closed for want of it, a history.
  pub closed : List ℕ

-- A server with its acceptor; `started` is `started_`.
pub record Listening : Type 0 where
  pub server : TcpServer
  pub acceptor : Acceptor
  pub started : ℕ

-- `Socket::accept`: a descriptor, or `errno`.
pub data Answer : Type 0 where
  accepted refused : ℕ → Answer

unfoldable pub new_acceptor : ℕ → Acceptor
new_acceptor sockfd = record {
  listenning = false;
  accept_channel = Channel.new sockfd;
  has_callback = false;
  closed = [];
}

unfoldable pub set_new_connection_callback : Acceptor → Acceptor
set_new_connection_callback a = record a { has_callback = true }

-- `listen`, where `::listen` succeeds.
unfoldable pub listen : Acceptor → Acceptor
listen a = record a {
  listenning = true;
  accept_channel = record a.accept_channel {
    events = set_events enable_reading a.accept_channel.events;
  };
}

-- The constructor of TcpServer, on a listening socket of number `sockfd`.
unfoldable pub new : Conversions → ℕ → ℕ → InetAddress → Text → Listening
new k sockfd loop addr name = record {
  server = record {
    name = name;
    ip_port = to_ip_port k addr;
    thread_pool = record { base_loop = loop; loops = []; next = 0 };
    next_conn_id = 1;
    connections = [];
  };
  acceptor = set_new_connection_callback (new_acceptor sockfd);
  started = 0;
}

-- `EventLoopThreadPool::start`, where the threads give these loops.
unfoldable pub start_threads : List ℕ → TcpServer → TcpServer
start_threads loops s = record s {
  thread_pool = record s.thread_pool { loops = s.thread_pool.loops ++ loops };
}

-- `TcpServer::start`, in the thread of the base loop.
unfoldable pub start : List ℕ → Listening → Listening
start loops s =
    if s.started == 0
    then record s {
      started = s.started + 1;
      server = start_threads loops s.server;
      acceptor = listen s.acceptor;
    }
    else record s { started = s.started + 1 }

module _ (k : Conversions) where
  -- `handleRead`, with `newConnection` as the callback.
  unfoldable pub handle_read : Answer → Listening → Listening
  handle_read (refused e) s = s
  handle_read (accepted fd) s =
      if s.acceptor.has_callback
      then record s { server = new_connection k.decimal fd s.server }
      else record s { acceptor = record s.acceptor { closed = s.acceptor.closed ++ fd ∷ [] } }

  pub data Event : Type 0 where
    readable : Answer → Event
    removes : Text → Event
    starts : List ℕ → Event

  unfoldable pub serve_one : Listening → Event → Listening
  serve_one s (readable a) = handle_read a s
  serve_one s (removes name) = record s { server = remove_connection_in_loop name s.server }
  serve_one s (starts loops) = start loops s

  unfoldable pub serve : Listening → List Event → Listening
  serve s [] = s
  serve s (e ∷ es) = serve (serve_one s e) es
