-- ===== src/Lib.antt =====
-- The server library and the database proxy of talk_system, modelled and proved.
--
-- The program is a chat system in C++. Its servers run on a reactor (common/net): a TcpConnection
-- belongs to one EventLoop, which waits in its Poller, lets the Channel of each ready descriptor call
-- the connection's handlers, and then runs the functors that other threads have queued. What cannot
-- be written at once waits in the connection's output Buffer. The database proxy (db_proxy_server)
-- reads a configuration file, fills pools of redis and MySQL connections from it, and answers logins.
-- A thread pool (common/base) runs tasks.
--
-- Which file models which code; a method `fooBar` is `foo_bar` here, a member `foo_` is the field
-- `foo`, and a method that changes its object returns the new one:
--   Buffer           common/net/Buffer.h, Buffer.cc
--   Net/Channel      common/net/Channel.h, Channel.cc; the masks as numbers are in Net/Channel/Mask
--   Net/Poller       common/net/EPollPoller.cc, Poller.h, Poller.cc; the round of the loop over the
--                    active channels is with `poll` in Net/Poller/Poll
--   Net/Loop         common/net/EventLoop.h, EventLoop.cc; its threads are in Net/Loop/Wakeup, and
--                    EventLoopThread.cc in Net/Loop/Thread; Net/Loop/Birth makes and destroys a loop,
--                    with common/net/DefaultPoller.cc
--   Net/Connection   common/net/TcpConnection.h, TcpConnection.cc; calls from other threads are in
--                    Net/Connection/Posted
--   Net/Server       common/net/TcpServer.h, TcpServer.cc, EventLoopThreadPool.cc
--                    (its `start` is in Net/Acceptor); Net/Server/Life is one connection between
--                    the two loops, or in the one that does both: its callbacks in Reports, what
--                    they come to in Rounds, what it asks of the poller in Watched, and the
--                    destructor of TcpServer in Ends
--   Net/Acceptor     common/net/Acceptor.h, Acceptor.cc, and the construction and start of TcpServer;
--                    common/net/Socket.h, Socket.cc are in Net/Acceptor/Listens
--   Net/Address      common/net/InetAddress.h, InetAddress.cc
--   Net/Echo         the message callback of test/echoserver/main.cpp
--   Cache            db_proxy_server/CachePool.h, CachePool.cc: CacheConn is Conn, Commands and Lists,
--                    CachePool is Pool, CacheManager is Manager
--   Base/Config      common/base/CConfigFileReader.h, CConfigFileReader.cc
--   Base/Explode     CStrExplode of common/base/util.h, util.cc
--   Base/ThreadPool  common/base/ThreadPool.h, ThreadPool.cc; its threads are in Base/ThreadPool/Steps
--   Base/Any         common/base/Any.h
--   Base/Task        common/base/Task.h, Task.cc, Semaphore.h
--   Base/Time        common/base/Timestamp.h, Timestamp.cc
--   Base/Log         common/base/Logger.h, Logger.cc
--   Base/Thread      common/base/Thread.h, Thread.cc, CurrentThread.h
--   Db               db_proxy_server/DBPool.h, DBPool.cc: CResultSet is ResultSet, CPrepareStatement is
--                    Statement, CDBConn is Conn, CDBPool is Pool, CDBManager is Manager; Main is
--                    `main` of db_proxy_server/db_proxy_server.cc, with DBServer.cc; Login is
--                    db_proxy_server/business/InterLogin.cc
--   Base/Instances   the loop over the configured instances that both managers have
--   Prelude          lists and tests on the native numbers, `size_t` arithmetic modulo 2 ^ 64, byte
--                    strings, std::map
--
-- A `char` is a number, a C string the list of its bytes before the NUL. What the kernel, hiredis, the
-- MySQL library, the clock and the disk answer are arguments. Undefined behaviour is the result
-- `none`. LOG_FATAL ends the process: where that matters to a caller it is a result of its own, as
-- in Db/Manager, else `none`. A lock is not a state: what is done under it is one step, and what is
-- done without one, as in `send` of another thread, is several steps; a wait on a condition
-- variable is an outcome of its own. A pointer that outlives its call is a number, and what lies
-- there is read when the code reads it (Net/Connection/Posted, Db/Statement). Loops are recursion
-- on the list, or the number, that the code runs over; only the `while` loop of GetCacheConn
-- (Cache/Pool/Waiting) runs on fuel, of which two rounds more than there are wakeups are enough,
-- since every round but the last waits or adds a connection. A size is at most `max_size()` of a
-- vector, so theorems on the buffer ask for sizes below 2 ^ 63.
--
-- Not modelled: the proxy's sessions (db_proxy_server), whose files are empty, and what holds no logic of
-- its own: msg_server and the other programs under test. Generated and third-party code is left out.
pub mod Prelude
pub mod Buffer
pub mod Net
pub mod Cache
pub mod Base
pub mod Db
