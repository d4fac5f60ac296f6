-- ===== src/Net/Loop/Thread/Ends.antt =====
-- How the destructor of common/net/EventLoopThread.cc ends, by when it asks the loop to quit.
use talk_system.Prelude.{
  if◌then◌else◌, ◌≡◌, refl, sym, ap, ◌∙◌, ◌≢◌, ◌⊎◌, inl, inr, Bool, true, false, arith,
}
use talk_system.Net.Loop.{
  Phase, stopped, quit, push, notify, queue_in_loop, wakeup, handle_read, take_pending, run_functor,
  finish_pending,
}
use talk_system.Net.Loop.Wakeup
use talk_system.Net.Loop.Wakeup.{
  System, other_pushes, other_wakes, other_quits, poll_returns, wakeup_read, callback_queues,
  pending_taken, functor_run, functor_queues, pending_done, Step,
}
use talk_system.Net.Loop.Thread.{
  LoopThread, published, looping, returned, joining, destroyed, ready, enter, destroy, Turn, starts,
  start_returns, publishes, enters, leaves, serves, destroys, joins, Turns, done, more,
}

abbrev is_stopped : Phase → Bool
is_stopped stopped = true
is_stopped _ = false

-- A loop that has not been asked to quit goes on.
Step-goes_on :
    {s t : System}
    → Wakeup.Step s t
    → is_stopped s.loop.phase ≡ false
    → s.loop.quit_flag ≡ false
    → is_stopped t.loop.phase ≡ false
unfolding push notify queue_in_loop wakeup quit handle_read take_pending run_functor finish_pending
Step-goes_on (Wakeup.other_pushes f) p q = ground arith
Step-goes_on (Wakeup.other_wakes n e) p q = ground arith
Step-goes_on Wakeup.other_quits p q = ground arith
Step-goes_on (Wakeup.poll_returns e) p q = ground arith
Step-goes_on (Wakeup.wakeup_read e) p q = ground arith
Step-goes_on (Wakeup.callback_queues f e) p q = ground arith
Step-goes_on (Wakeup.pending_taken e) p q = ground arith
Step-goes_on (Wakeup.functor_run f fs e) p q = ground arith
Step-goes_on (Wakeup.functor_queues f fs e) p q = ground arith
Step-goes_on (Wakeup.pending_done e) p q = ground arith

-- The destructor waits for a loop that has not begun, or that was not asked to quit.
abbrev Waits : LoopThread → Type 0
Waits s =
    (s.worker ≡ published)
    ⊎ (s.worker ≡ looping)
      × (s.system.loop.quit_flag ≡ false)
      × (is_stopped s.system.loop.phase ≡ false)

record Stuck (s : LoopThread) : Type 0 where
  at_join : s.owner ≡ joining
  waits : Waits s

Turn-Stuck : {s t : LoopThread} → Turn s t → Stuck s → Stuck t
unfolding enter
Turn-Stuck (starts e) v = cc
Turn-Stuck (start_returns e f) v = cc
Turn-Stuck (publishes e) v = elim v.waits [ inl w ↦ cc | inr w ↦ cc ]
Turn-Stuck (enters e) v = record { at_join = v.at_join; waits = inr (refl, refl, refl) }
Turn-Stuck (leaves e p) v = elim v.waits [
  | inl w ↦ cc
  | inr w ↦ let bad : true ≡ false = ap is_stopped (sym p) ∙ w.2 in cc
]
Turn-Stuck (serves t e st q) v = record {
  at_join = v.at_join;
  waits = elim v.waits [ inl w ↦ inl w | inr w ↦ inr (w.0, q ∙ w.1, Step-goes_on st w.2 w.1) ];
}
Turn-Stuck (destroys e) v = cc
Turn-Stuck (joins e w) v = elim v.waits [ inl u ↦ cc | inr u ↦ cc ]

Turns-Stuck : {s t : LoopThread} → Turns s t → Stuck s → Stuck t
Turns-Stuck done v = v
Turns-Stuck (more st r) v = Turns-Stuck r (Turn-Stuck st v)

-- A destructor that asks the loop to quit after `loop_` is set, but before its thread enters
-- `loop()`, never returns if no other thread calls `quit`: `loop()` begins by clearing `quit_`.
pub destroy_early :
    (s t : LoopThread)
    → s.owner ≡ ready
    → s.loop_set ≡ true
    → s.worker ≡ published
    → Turns (destroy s) t
    → t.owner ≢ destroyed
unfolding destroy
destroy_early s t e set w r d =
    let v : Stuck (destroy s) =
      rw (set, if◌then◌else◌) (record { at_join = refl; waits = inl w }) in
    let u = Turns-Stuck r v in cc

-- A thread in `loop()` that has been asked to quit, with its owner at the join.
record Quitting (s : LoopThread) : Type 0 where
  at_join : s.owner ≡ joining
  in_loop : s.worker ≡ looping
  set : s.loop_set ≡ true
  asked : s.system.loop.quit_flag ≡ true

abbrev Ends : LoopThread → Type 0
Ends s = (t : LoopThread) × Turns s t × (t.owner ≡ destroyed)

-- Where the destructor may be after it has asked a loop in `loop()`.
data Late (s : LoopThread) : Type 0 where
  still : Quitting s → Late s
  over : s.owner ≡ joining → s.worker ≡ returned → Late s
  back : s.owner ≡ destroyed → s.worker ≡ returned → Late s
