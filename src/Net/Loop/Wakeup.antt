-- ===== src/Net/Loop/Wakeup.antt =====
-- Interleavings of the loop's thread with others that queue functors.
use talk_system.Prelude.{
  if◌then◌else◌, ℕ, suc, ◌+◌, ◌<◌, ◌≡◌, refl, sym, ap, ◌∙◌, ◌≢◌, ◌⊎◌, inl, Bool, true, false, List,
  [], ◌∷◌, ◌++◌, append-nil, append_assoc, arith,
}
use talk_system.Net.Loop.{
  Loop, Phase, polling, handling, running, start, wakeup, handle_read, push, notify, queue_in_loop,
  quit, take_pending, run_functor, finish_pending, stopped,
}

-- A loop, and how many other threads have put a functor into the queue but not called `wakeup` yet.
pub record System : Type 0 where
  pub loop : Loop
  pub owed : ℕ

unfoldable pub initial : System
unfolding start
initial = record { loop = start; owed = 0 }

pub data Step (s : System) : System → Type 0 where
  -- Another thread in `queueInLoop`, before and after the unlock.
  other_pushes : (f : ℕ) → Step s (record { loop = push f s.loop; owed = s.owed + 1 })
  other_wakes : (n : ℕ) → s.owed ≡ suc n → Step s (record { loop = notify false s.loop; owed = n })
  other_quits : Step s (record s { loop = quit false s.loop })
  -- `poll` returns, because of a wakeup, another descriptor or the timeout.
  poll_returns :
      s.loop.phase ≡ polling → Step s (record s { loop = record s.loop { phase = handling } })
  -- The wakeup channel's callback, and what other callbacks queue or run.
  wakeup_read : s.loop.phase ≡ handling → Step s (record s { loop = handle_read s.loop })
  callback_queues :
      (f : ℕ) → s.loop.phase ≡ handling → Step s (record s { loop = queue_in_loop true f s.loop })
  -- `doPendingFunctors`, whose functors may queue more.
  pending_taken : s.loop.phase ≡ handling → Step s (record s { loop = take_pending s.loop })
  functor_run :
      (f : ℕ) (fs : List ℕ)
      → s.loop.phase ≡ running (f ∷ fs)
      → Step s (record s { loop = run_functor f fs s.loop })
  functor_queues :
      (f : ℕ) (fs : List ℕ)
      → s.loop.phase ≡ running fs
      → Step s (record s { loop = queue_in_loop true f s.loop })
  pending_done : s.loop.phase ≡ running [] → Step s (record s { loop = finish_pending s.loop })

pub data Reach : System → Type 0 where
  here : Reach initial
  next : {s t : System} → Reach s → Step s t → Reach t

-- The functors that the loop's thread still has in hand.
abbrev pub in_hand : Phase → List ℕ
in_hand (running fs) = fs
in_hand _ = []

abbrev pub is_handling : Phase → Bool
is_handling handling = true
is_handling _ = false

abbrev pub is_running : Phase → Bool
is_running (running fs) = true
is_running _ = false

pub record Inv (s : System) : Type 0 where
  -- A functor that waits has a wakeup to come, unless the queue is about to be taken anyway.
  pub noticed :
      (s.loop.pending_functors ≡ [])
      ⊎ (0 < s.loop.wakeups + s.owed)
      ⊎ (is_handling s.loop.phase ≡ true)
  pub flagged : s.loop.calling_pending_functors ≡ is_running s.loop.phase
  pub ordered : s.loop.queued ≡ s.loop.executed ++ (in_hand s.loop.phase ++ s.loop.pending_functors)

Step-noticed :
    {s t : System}
    → Step s t
    → Inv s
    → (t.loop.pending_functors ≡ [])
      ⊎ (0 < t.loop.wakeups + t.owed)
      ⊎ (is_handling t.loop.phase ≡ true)
unfolding push notify queue_in_loop wakeup quit handle_read take_pending run_functor finish_pending
Step-noticed (other_pushes f) v = ground arith
Step-noticed (other_wakes n e) v = ground arith
Step-noticed other_quits v = ground arith
Step-noticed (poll_returns e) v = ground arith
Step-noticed (wakeup_read e) v = ground arith
Step-noticed (callback_queues f e) v = ground arith
Step-noticed (pending_taken e) v = ground arith
Step-noticed (functor_run f fs e) v = ground arith
Step-noticed (functor_queues f fs e) v = ground arith
Step-noticed (pending_done e) v = ground arith

Step-flagged :
    {s t : System} → Step s t → Inv s → t.loop.calling_pending_functors ≡ is_running t.loop.phase
unfolding push notify queue_in_loop wakeup quit handle_read take_pending run_functor finish_pending
Step-flagged (other_pushes f) v = ground arith
Step-flagged (other_wakes n e) v = ground arith
Step-flagged other_quits v = ground arith
Step-flagged (poll_returns e) v = ground arith
Step-flagged (wakeup_read e) v = ground arith
Step-flagged (callback_queues f e) v = ground arith
Step-flagged (pending_taken e) v = ground arith
Step-flagged (functor_run f fs e) v = ground arith
Step-flagged (functor_queues f fs e) v = ground arith
Step-flagged (pending_done e) v = ground arith

grow_order :
    (q e h p : List ℕ) (f : ℕ) → q ≡ e ++ (h ++ p) → q ++ f ∷ [] ≡ e ++ (h ++ (p ++ f ∷ []))
grow_order q e h p f o =
    rw o (append_assoc e (h ++ p) (f ∷ []) ∙ ap (◌++◌ e) (append_assoc h p (f ∷ [])))

Step-ordered :
    {s t : System}
    → Step s t
    → Inv s
    → t.loop.queued ≡ t.loop.executed ++ (in_hand t.loop.phase ++ t.loop.pending_functors)
unfolding push notify queue_in_loop wakeup quit handle_read take_pending run_functor finish_pending
Step-ordered {s} (other_pushes f) v =
    grow_order _ s.loop.executed (in_hand s.loop.phase) s.loop.pending_functors f v.ordered
Step-ordered (other_wakes n e) v = ground arith
Step-ordered other_quits v = ground arith
Step-ordered (poll_returns e) v = ground arith
Step-ordered (wakeup_read e) v = ground arith
Step-ordered {s} (callback_queues f e) v = ground (
  arith,
  grow_order s.loop.queued s.loop.executed (in_hand s.loop.phase) s.loop.pending_functors f
      v.ordered,
)
Step-ordered {s} (pending_taken e) v =
    v.ordered
    ∙ ap (◌++◌ s.loop.executed) (
        ap (λ h. in_hand h ++ s.loop.pending_functors) e ∙ sym (append-nil s.loop.pending_functors))
Step-ordered {s} (functor_run f fs e) v =
    v.ordered
    ∙ ap (λ h. s.loop.executed ++ (in_hand h ++ s.loop.pending_functors)) e
    ∙ sym (append_assoc s.loop.executed (f ∷ []) (fs ++ s.loop.pending_functors))
Step-ordered {s} (functor_queues f fs e) v = ground (
  arith,
  grow_order s.loop.queued s.loop.executed (in_hand s.loop.phase) s.loop.pending_functors f
      v.ordered,
)
Step-ordered {s} (pending_done e) v =
    v.ordered
    ∙ ap (λ h. s.loop.executed ++ (in_hand h ++ s.loop.pending_functors)) e
    ∙ ap (λ h. s.loop.executed ++ (h ++ s.loop.pending_functors)) (empty_hand s.loop.quit_flag)
  where
    empty_hand : (b : Bool) → [] ≡ in_hand (if b then stopped else polling)
    empty_hand true = refl
    empty_hand false = refl

Reach-Inv : {s : System} → Reach s → Inv s
unfolding initial
Reach-Inv here = record { noticed = inl refl; flagged = refl; ordered = refl }
Reach-Inv (next r st) = record {
  noticed = Step-noticed st (Reach-Inv r);
  flagged = Step-flagged st (Reach-Inv r);
  ordered = Step-ordered st (Reach-Inv r);
}

-- No wakeup is lost: whenever the loop waits in `poll` and a functor is in the queue, the eventfd is
-- readable, or another thread is about to write to it.
pub no_lost_wakeup :
    {s : System}
    → Reach s
    → s.loop.phase ≡ polling
    → s.loop.pending_functors ≢ []
    → 0 < s.loop.wakeups + s.owed
no_lost_wakeup r p h = ground (arith, Reach-Inv r)

-- Functors run in the order in which they were queued, each of them once: those run, then those in
-- hand, then those in the queue are all that were ever queued.
pub functors_in_order :
    {s : System}
    → Reach s
    → s.loop.queued ≡ s.loop.executed ++ (in_hand s.loop.phase ++ s.loop.pending_functors)
functors_in_order r = (Reach-Inv r).ordered
