-- ===== src/Net/Loop/Thread.antt =====
-- common/net/EventLoopThread.h and EventLoopThread.cc: the thread that runs a loop, and its owner,
-- who starts it and destroys it.
pub mod Ends
use talk_system.Prelude.{if◌then◌else◌, ◌≡◌, Bool, true, false}
use talk_system.Net.Loop.{Loop, Phase, polling, stopped, start, quit}
use talk_system.Net.Loop.Wakeup
use talk_system.Net.Loop.Wakeup.{System, initial, Step}

-- Where the new thread stands in `threadFunc`: before it runs, at the making of its loop, behind the
-- locked part that sets `loop_`, in `loop()`, at the end.
pub data Worker : Type 0 where
  not_started preparing published looping returned : Worker

-- Where the owner stands: after the constructor, in `startLoop`, after it, in the `join` of the
-- destructor, at its end.
pub data Owner : Type 0 where
  constructed starting ready joining destroyed : Owner

pub record LoopThread : Type 0 where
  pub worker : Worker
  pub owner : Owner
  -- Whether `loop_` is set.
  pub loop_set : Bool
  -- The loop, which is not in `loop()` at first, and the threads that use it.
  pub system : System

unfoldable pub new : LoopThread
unfolding initial start
new = record {
  worker = not_started;
  owner = constructed;
  loop_set = false;
  system = record initial { loop = record start { phase = stopped } };
}

-- The first lines of `EventLoop::loop`.
unfoldable pub enter : System → System
enter s = record s { loop = record s.loop { phase = polling; quit_flag = false } }

-- The destructor, up to the call of `join`.
unfoldable pub destroy : LoopThread → LoopThread
destroy s =
    if s.loop_set
    then record s { owner = joining; system = record s.system { loop = quit false s.system.loop } }
    else record s { owner = destroyed }

pub data Turn (s : LoopThread) : LoopThread → Type 0 where
  -- `startLoop`, and its wait for `loop_`.
  starts : s.owner ≡ constructed → Turn s (record s { owner = starting; worker = preparing })
  start_returns : s.owner ≡ starting → s.loop_set ≡ true → Turn s (record s { owner = ready })
  -- `threadFunc`.
  publishes : s.worker ≡ preparing → Turn s (record s { worker = published; loop_set = true })
  enters : s.worker ≡ published → Turn s (record s { worker = looping; system = enter s.system })
  leaves :
      s.worker ≡ looping
      → s.system.loop.phase ≡ stopped
      → Turn s (record s { worker = returned; loop_set = false })
  -- What the loop does, and what other threads do with it; none of them calls `quit`.
  serves :
      (t : System)
      → s.loop_set ≡ true
      → Wakeup.Step s.system t
      → t.loop.quit_flag ≡ s.system.loop.quit_flag
      → Turn s (record s { system = t })
  -- The destructor.
  destroys : s.owner ≡ ready → Turn s (destroy s)
  joins : s.owner ≡ joining → s.worker ≡ returned → Turn s (record s { owner = destroyed })

pub data Turns : LoopThread → LoopThread → Type 0 where
  done : {s : LoopThread} → Turns s s
  more : {s t u : LoopThread} → Turn s t → Turns t u → Turns s u
