-- ===== src/Net.antt =====
-- common/net: the reactor. `Channel` is the event mask of a descriptor, `Poller` the epoll table,
-- `Loop` the queue of pending functors, `Connection` the life and the output of a TCP connection,
-- `Server` the table of connections and the choice of a loop, `Acceptor` what feeds it, `Address` its
-- addresses, `Echo` a server of the tests.
pub mod Channel
pub mod Poller
pub mod Loop
pub mod Connection
pub mod Address
pub mod Server
pub mod Acceptor
pub mod Echo
mod Tests
