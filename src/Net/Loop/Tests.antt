-- ===== src/Net/Loop/Tests.antt =====
-- The thread of common/net/EventLoopThread.cc in two orders of its destruction.
use talk_system.Prelude.{refl, ◌≢◌, true}
use talk_system.Net.Loop.{handling}
use talk_system.Net.Loop.Thread
use talk_system.Net.Loop.Thread.{
  LoopThread, published, looping, ready, destroyed, enter, destroy, done, more, enters, new,
}
use talk_system.Net.Loop.Thread.Ends.{destroy_early}

-- `startLoop` has returned, before the thread enters the loop.
abbrev before : LoopThread
before = record Thread.new { worker = published; owner = ready; loop_set = true }

abbrev early : LoopThread
early = record (destroy before) { worker = looping; system = enter (destroy before).system }

destroy_early_example : early.owner ≢ destroyed
unfolding destroy Thread.new
destroy_early_example = destroy_early before early refl refl refl (more (enters refl) done)

abbrev inside : LoopThread
inside = record before { worker = looping; system = enter before.system }

-- After the request to quit, `poll` has returned.
abbrev woken : LoopThread
woken = record (destroy inside) {
  system = record (destroy inside).system {
    loop = record (destroy inside).system.loop { phase = handling };
  };
}
