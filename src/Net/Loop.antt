-- ===== src/Net/Loop.antt =====
-- common/net/EventLoop.h and EventLoop.cc: the queue of functors that other threads fill, and the
-- eventfd that ends the wait in `poll`. A functor is a number; `executed` and `queued` are histories.
pub mod Wakeup
pub mod Birth
pub mod Thread
mod Tests
use talk_system.Prelude.{if◌then◌else◌, ℕ, ◌+◌, Bool, true, false, not, ◌||◌, List, [], ◌∷◌, ◌++◌}

-- Where the loop's thread stands in the body of `loop()`: in `poll`, at the events that it
-- reported, or in the loop of `doPendingFunctors` with the functors still to run.
pub data Phase : Type 0 where
  polling : Phase
  handling : Phase
  running : List ℕ → Phase
  stopped : Phase

pub record Loop : Type 0 where
  pub phase : Phase
  pub quit_flag : Bool
  pub calling_pending_functors : Bool
  pub pending_functors : List ℕ
  -- The eventfd's counter.
  pub wakeups : ℕ
  -- Functors run so far, and all that were queued.
  pub executed : List ℕ
  pub queued : List ℕ

-- At the start of `loop()`.
unfoldable pub start : Loop
start = record {
  phase = polling;
  quit_flag = false;
  calling_pending_functors = false;
  pending_functors = [];
  wakeups = 0;
  executed = [];
  queued = [];
}

unfoldable pub wakeup : Loop → Loop
wakeup l = record l { wakeups = l.wakeups + 1 }

-- `handleRead`: a read takes the whole counter.
unfoldable pub handle_read : Loop → Loop
handle_read l = record l { wakeups = 0 }

-- The locked part of `queueInLoop`.
unfoldable pub push : ℕ → Loop → Loop
push f l = record l { pending_functors = l.pending_functors ++ f ∷ []; queued = l.queued ++ f ∷ [] }

-- The rest of it: `if (!isInLoopThread() || callingPendingFunctors_) wakeup();`
unfoldable pub notify : Bool → Loop → Loop
notify in_loop_thread l = if not in_loop_thread || l.calling_pending_functors then wakeup l else l

-- `queueInLoop`. Another thread may be interrupted between its two parts.
unfoldable pub queue_in_loop : Bool → ℕ → Loop → Loop
queue_in_loop in_loop_thread f l = notify in_loop_thread (push f l)

-- `runInLoop`.
unfoldable pub run_in_loop : Bool → ℕ → Loop → Loop
run_in_loop true f l = record l { executed = l.executed ++ f ∷ []; queued = l.queued ++ f ∷ [] }
run_in_loop false f l = queue_in_loop false f l

unfoldable pub quit : Bool → Loop → Loop
quit in_loop_thread l =
    let l' = record l { quit_flag = true } in if in_loop_thread then l' else wakeup l'

-- The start of `doPendingFunctors`: the flag, and the swap under the lock.
unfoldable pub take_pending : Loop → Loop
take_pending l = record l {
  phase = running l.pending_functors;
  calling_pending_functors = true;
  pending_functors = [];
}

-- One round of its `for` loop.
unfoldable pub run_functor : ℕ → List ℕ → Loop → Loop
run_functor f fs l = record l { phase = running fs; executed = l.executed ++ f ∷ [] }

-- Its end, and the test of `while (!quit_)`.
unfoldable pub finish_pending : Loop → Loop
finish_pending l = record l {
  phase = if l.quit_flag then stopped else polling;
  calling_pending_functors = false;
}
