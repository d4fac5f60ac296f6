-- ===== src/Net/Connection/Posted.antt =====
-- `send` and `shutdown` of common/net/TcpConnection.cc as other threads call them, with no lock: the state
-- is read, and set, in those threads, then a functor goes into the queue of the connection's loop. The
-- functor of `send` has a pointer to the caller's bytes and reads them when it runs. That the connection
-- itself is still there then is not in question here.
pub mod Pending
pub mod Order
pub mod Overtakes
mod Tests
use talk_system.Prelude.{
  if◌then◌else◌, length, get_elem?, ℕ, zero, suc, ◌+◌, ◌^◌, ◌<◌, ◌≡◌, false, none, some, List, [],
  ◌∷◌, ◌++◌,
}
use talk_system.Net.Connection.{
  Connection, State, k_connected, k_disconnecting, Write, is_connected, set_state, send_in_loop,
  shutdown_in_loop, handle_write, new,
}
use talk_system.Net.Connection.Stream.{stream, lost}

-- A functor in the queue: `sendInLoop` with a pointer and a size, or `shutdownInLoop`.
pub data Post : Type 0 where
  send_job : (address size : ℕ) → Post
  shutdown_job : Post

-- A call that has found the state kConnected: `send`, which has not queued its functor yet, `shutdown`,
-- which has not set the state yet, and `shutdown`, which has not queued its functor yet.
pub data Midway : Type 0 where
  sending : (address size : ℕ) → Midway
  shutting shut : Midway

-- The bytes that lie at an address, so many of them.
abbrev pub Memory : Type 0
Memory = ℕ → ℕ → List ℕ

pub record Shared : Type 0 where
  pub conn : Connection
  pub midway : List Midway
  pub posts : List Post
  pub memory : Memory

-- The start of `send` and of `shutdown`: the test of the state.
unfoldable pub post_send : (address size : ℕ) → Shared → Shared
post_send a n s =
    if is_connected s.conn.state then record s { midway = s.midway ++ sending a n ∷ [] } else s

unfoldable pub post_shutdown : Shared → Shared
post_shutdown s =
    if is_connected s.conn.state then record s { midway = s.midway ++ shutting ∷ [] } else s

-- The next step of such a call.
unfoldable pub advance : Midway → Shared → Shared
advance (sending a n) s = record s { posts = s.posts ++ send_job a n ∷ [] }
advance shutting s = record s {
  conn = set_state k_disconnecting s.conn;
  midway = s.midway ++ shut ∷ [];
}
advance shut s = record s { posts = s.posts ++ shutdown_job ∷ [] }

abbrev pub drop_at : List Midway → ℕ → List Midway
drop_at [] i = []
drop_at (m ∷ ms) zero = ms
drop_at (m ∷ ms) (suc i) = m ∷ drop_at ms i

unfoldable pub run_post : Post → Memory → Write → Connection → Connection
run_post (send_job a n) memory w c = send_in_loop (memory a n) w c
run_post shutdown_job memory w c = shutdown_in_loop c

abbrev pub run_front : List Post → Write → Shared → Shared
run_front [] w s = s
run_front (p ∷ ps) w s = record s { conn = run_post p s.memory w s.conn; posts = ps }

-- A call by another thread; the next step of one of those that are midway; a change of the memory by
-- anyone; the next functor with the answer of `write`; a writable event.
pub data Call : Type 0 where
  sends : (address size : ℕ) → Call
  shuts : Call
  continues : ℕ → Call
  reuses : Memory → Call
  runs : Write → Call
  writable : Write → Call

unfoldable pub call : Shared → Call → Shared
call s (sends a n) = post_send a n s
call s shuts = post_shutdown s
call s (continues i) = elim (get_elem? s.midway i) [
  | none ↦ s
  | some m ↦ advance m (record s { midway = drop_at s.midway i })
]
call s (reuses memory) = record s { memory = memory }
call s (runs w) = run_front s.posts w s
call s (writable w) = record s { conn = handle_write w s.conn }

unfoldable pub calls : Shared → List Call → Shared
calls s [] = s
calls s (c ∷ cs) = calls (call s c) cs

-- The bytes that the functors in the queue point to, and the number of those of the sends midway.
abbrev pub pending : Memory → List Post → List ℕ
pending memory [] = []
pending memory (send_job a n ∷ ps) = memory a n ++ pending memory ps
pending memory (shutdown_job ∷ ps) = pending memory ps

abbrev pub midway_bytes : Memory → Midway → List ℕ
midway_bytes memory (sending a n) = memory a n
midway_bytes memory shutting = []
midway_bytes memory shut = []

abbrev pub midway_size : Memory → List Midway → ℕ
midway_size memory [] = 0
midway_size memory (m ∷ ms) = length (midway_bytes memory m) + midway_size memory ms

-- What a call puts into the queue, and the number of bytes that `send` is asked for and takes.
abbrev pub queues : Shared → Call → List ℕ
queues s (continues i) = elim (get_elem? s.midway i) [
  | none ↦ []
  | some m ↦ midway_bytes s.memory m
]
queues s _ = []

abbrev pub accepts : Shared → Call → ℕ
accepts s (sends a n) = if is_connected s.conn.state then length (s.memory a n) else 0
accepts s _ = 0

-- The same of a run.
abbrev pub queued : Shared → List Call → List ℕ
queued s [] = []
queued s (c ∷ cs) = queues s c ++ queued (call s c) cs

abbrev pub accepted : Shared → List Call → ℕ
accepted s [] = 0
accepted s (c ∷ cs) = accepts s c + accepted (call s c) cs

-- No functor meets EPIPE or ECONNRESET, or grows the buffer past `max_size()`.
abbrev pub FrontFits : Memory → List Post → Write → Connection → Type 0
FrontFits memory (send_job a n ∷ ps) w c =
    (lost w c ≡ false) × (c.output_buffer.writer_index + length (memory a n) < 2 ^ 63)
FrontFits memory _ w c = Unit {0}

-- The bytes of a send stay as they are until its functor has run.
abbrev pub KeepsPosts : Memory → Memory → List Post → Type 0
KeepsPosts old new [] = Unit {0}
KeepsPosts old new (send_job a n ∷ ps) = (new a n ≡ old a n) × KeepsPosts old new ps
KeepsPosts old new (shutdown_job ∷ ps) = KeepsPosts old new ps

abbrev pub KeepsMidway : Memory → Memory → List Midway → Type 0
KeepsMidway old new [] = Unit {0}
KeepsMidway old new (m ∷ ms) = (midway_bytes new m ≡ midway_bytes old m) × KeepsMidway old new ms

abbrev pub Fits : Shared → Call → Type 0
Fits s (runs w) = FrontFits s.memory s.posts w s.conn
Fits s (reuses memory) = KeepsPosts s.memory memory s.posts × KeepsMidway s.memory memory s.midway
Fits s _ = Unit {0}

abbrev pub AllFit : Shared → List Call → Type 0
AllFit s [] = Unit {0}
AllFit s (c ∷ cs) = Fits s c × AllFit (call s c) cs

-- All that was given to the connection: in its stream, or in the queue.
abbrev pub given : Shared → List ℕ
given s = stream s.conn ++ pending s.memory s.posts
