-- ===== src/Base/Thread/Stages.antt =====
-- The stages of the two threads of common/base/Thread.cc together, and the turns between them.
use talk_system.Prelude.{
  if◌then◌else◌, Text, ℕ, ◌≡◌, refl, Bool, true, false, not, List, [], ◌∷◌, arith,
}
use talk_system.Base.Thread.{
  Thread, Caller, before, waiting, started, joining, joined, destroyed, Child, unborn, noting,
  posting, calling, done, start, sem_wait, join, join_returns, destroy, body, call, step,
}

-- Where the two threads are together: the caller has come this far, and the new thread that far.
pub data Stage : Type 0 where
  fresh noting_wait posting_wait calling_wait done_wait calling_start done_start : Stage
  calling_join done_join after_join ended : Stage
  -- Destroyed without a join: before the new thread calls `func_`, after it, and when it has used it.
  calling_gone done_gone freed : Stage

abbrev pub is_done : Child → Bool
is_done done = true
is_done _ = false

-- The caller has returned from `start`, and from `join`.
abbrev pub is_back : Caller → Bool
is_back before = false
is_back waiting = false
is_back _ = true

abbrev pub is_behind_join : Caller → Bool
is_behind_join joined = true
is_behind_join destroyed = true
is_behind_join _ = false

-- The turns that are left at most: the caller's, then the new thread's, then the caller's.
abbrev pub rest : List Bool
rest = false ∷ true ∷ true ∷ true ∷ false ∷ false ∷ false ∷ false ∷ []

module _ (os num : ℕ) (joins has_func : Bool) (name : Text) where
  unfoldable pub next : Stage → Bool → Stage
  next fresh false = noting_wait
  next noting_wait true = posting_wait
  next posting_wait true = calling_wait
  next calling_wait true = done_wait
  next calling_wait false = calling_start
  next done_wait false = done_start
  next calling_start true = done_start
  next calling_start false = if joins then calling_join else calling_gone
  next done_start false = if joins then done_join else done_gone
  next calling_join true = done_join
  next done_join false = after_join
  next after_join false = ended
  next calling_gone true = freed
  next g b = g

  abbrev pub made : Thread
  made = record {
    is_started = false;
    is_joined = false;
    is_detached = false;
    tid = 0;
    has_func = has_func;
    name = name;
    thread_id = num;
    sem = 0;
    caller = before;
    child = unborn;
    calls = [];
    uses_freed = false;
  }

  -- What the new thread calls.
  abbrev pub heard : List ℕ
  heard = if has_func then num ∷ [] else []

  -- A started thread, whose new thread has noted its number.
  abbrev pub known : Caller → Child → Thread
  known a b = record made { is_started = true; caller = a; child = b; tid = os }

  abbrev pub over : Caller → Thread
  over a = record (known a done) { calls = heard }

  abbrev pub at : Stage → Thread
  at fresh = made
  at noting_wait = record made { is_started = true; caller = waiting; child = noting }
  at posting_wait = known waiting posting
  at calling_wait = record (known waiting calling) { sem = 1 }
  at done_wait = record (over waiting) { sem = 1 }
  at calling_start = known started calling
  at done_start = over started
  at calling_join = record (known joining calling) { is_joined = true }
  at done_join = record (over joining) { is_joined = true }
  at after_join = record (over joined) { is_joined = true }
  at ended = record (over destroyed) { is_joined = true }
  at calling_gone = record (known destroyed calling) { is_detached = true }
  at done_gone = record (over destroyed) { is_detached = true }
  at freed = record (over destroyed) { is_detached = true; uses_freed = true }

  if-at :
      (b : Bool) (g h : Stage) (t u : Thread)
      → t ≡ at g
      → u ≡ at h
      → (if b then t else u) ≡ at (if b then g else h)
  if-at true g h t u e f = e
  if-at false g h t u e f = f

  pub step-at : (g : Stage) (b : Bool) → step os joins (at g) b ≡ at (next g b)
  unfolding step body call start sem_wait join join_returns destroy next
  step-at fresh true = refl
  step-at fresh false = refl
  step-at noting_wait true = refl
  step-at noting_wait false = refl
  step-at posting_wait true = refl
  step-at posting_wait false = refl
  step-at calling_wait true = refl
  step-at calling_wait false = refl
  step-at done_wait true = refl
  step-at done_wait false = refl
  step-at calling_start true = refl
  step-at calling_start false = if-at joins calling_join calling_gone _ _ refl refl
  step-at done_start true = refl
  step-at done_start false = if-at joins done_join done_gone _ _ refl refl
  step-at calling_join true = refl
  step-at calling_join false = refl
  step-at done_join true = refl
  step-at done_join false = refl
  step-at after_join true = refl
  step-at after_join false = refl
  step-at ended true = refl
  step-at ended false = refl
  step-at calling_gone true = refl
  step-at calling_gone false = refl
  step-at done_gone true = refl
  step-at done_gone false = refl
  step-at freed true = refl
  step-at freed false = refl

  -- A stage that the caller's choice to join, or not to, allows.
  abbrev pub allows : Stage → Bool
  allows calling_join = joins
  allows done_join = joins
  allows after_join = joins
  allows ended = joins
  allows calling_gone = not joins
  allows done_gone = not joins
  allows freed = not joins
  allows _ = true

  pub next-allows : (g : Stage) (b : Bool) → allows g ≡ true → allows (next g b) ≡ true
  unfolding next
  next-allows fresh true h = h
  next-allows fresh false h = h
  next-allows noting_wait true h = h
  next-allows noting_wait false h = h
  next-allows posting_wait true h = h
  next-allows posting_wait false h = h
  next-allows calling_wait true h = h
  next-allows calling_wait false h = h
  next-allows done_wait true h = h
  next-allows done_wait false h = h
  next-allows calling_start true h = h
  next-allows calling_start false h = ground arith
  next-allows done_start true h = h
  next-allows done_start false h = ground arith
  next-allows calling_join true h = h
  next-allows calling_join false h = h
  next-allows done_join true h = h
  next-allows done_join false h = h
  next-allows after_join true h = h
  next-allows after_join false h = h
  next-allows ended true h = h
  next-allows ended false h = h
  next-allows calling_gone true h = h
  next-allows calling_gone false h = h
  next-allows done_gone true h = h
  next-allows done_gone false h = h
  next-allows freed true h = h
  next-allows freed false h = h
