-- ===== src/Base/Thread/Starts.antt =====
-- The hand-over between the two threads of common/base/Thread.cc, in any order of their turns.
use talk_system.Prelude.{
  if◌then◌else◌, Text, ℕ, ◌≡◌, refl, ap, ◌∙◌, Bool, true, false, not, ◌&&◌, ◌||◌, List, [], ◌∷◌,
  arith,
}
use talk_system.Base.Thread.{Thread, new, run, is_gone, default_name}
use talk_system.Base.Thread.Stages.{
  Stage, fresh, noting_wait, posting_wait, calling_wait, done_wait, calling_start, done_start,
  calling_join, done_join, after_join, ended, calling_gone, done_gone, freed, is_done, is_back,
  is_behind_join, rest, next, heard, at, allows, next-allows, step-at,
}

module _ (os num : ℕ) (joins has_func : Bool) (name : Text) where
  abbrev turn : Stage → Bool → Stage
  turn g b = next os num joins has_func name g b

  abbrev state : Stage → Thread
  state g = at os num joins has_func name g

  abbrev allowed : Stage → Bool
  allowed g = allows os num joins has_func name g

  abbrev calls_made : List ℕ
  calls_made = heard os num joins has_func name

  abbrev ends : Stage → List Bool → Stage
  ends g [] = g
  ends g (b ∷ bs) = ends (turn g b) bs

  run-at : (bs : List Bool) (g : Stage) → run os joins (state g) bs ≡ state (ends g bs)
  unfolding run
  run-at [] g = refl
  run-at (b ∷ bs) g =
      ap (λ t. run os joins t bs) (step-at os num joins has_func name g b) ∙ run-at bs (turn g b)

  ends-allows : (bs : List Bool) (g : Stage) → allowed g ≡ true → allowed (ends g bs) ≡ true
  ends-allows [] g h = h
  ends-allows (b ∷ bs) g h =
      ends-allows bs (turn g b) (next-allows os num joins has_func name g b h)

  -- What a stage knows.
  record Knows (g : Stage) : Type 0 where
    tid_known : (if is_back (state g).caller then (state g).tid else os) ≡ os
    called : (state g).calls ≡ (if is_done (state g).child then calls_made else [])
    joined_done : (not (joins && is_behind_join (state g).caller) || is_done (state g).child) ≡ true
    never_freed : (joins && (state g).uses_freed) ≡ false
    detached_unjoined : ((state g).is_detached && (state g).is_joined) ≡ false

  knows : (g : Stage) → allowed g ≡ true → Knows g
  knows fresh h = record {
    tid_known = refl;
    called = refl;
    joined_done = ground arith;
    never_freed = ground arith;
    detached_unjoined = refl;
  }
  knows noting_wait h = record {
    tid_known = refl;
    called = refl;
    joined_done = ground arith;
    never_freed = ground arith;
    detached_unjoined = refl;
  }
  knows posting_wait h = record {
    tid_known = refl;
    called = refl;
    joined_done = ground arith;
    never_freed = ground arith;
    detached_unjoined = refl;
  }
  knows calling_wait h = record {
    tid_known = refl;
    called = refl;
    joined_done = ground arith;
    never_freed = ground arith;
    detached_unjoined = refl;
  }
  knows done_wait h = record {
    tid_known = refl;
    called = refl;
    joined_done = ground arith;
    never_freed = ground arith;
    detached_unjoined = refl;
  }
  knows calling_start h = record {
    tid_known = refl;
    called = refl;
    joined_done = ground arith;
    never_freed = ground arith;
    detached_unjoined = refl;
  }
  knows done_start h = record {
    tid_known = refl;
    called = refl;
    joined_done = ground arith;
    never_freed = ground arith;
    detached_unjoined = refl;
  }
  knows calling_join h = record {
    tid_known = refl;
    called = refl;
    joined_done = ground arith;
    never_freed = ground arith;
    detached_unjoined = refl;
  }
  knows done_join h = record {
    tid_known = refl;
    called = refl;
    joined_done = ground arith;
    never_freed = ground arith;
    detached_unjoined = refl;
  }
  knows after_join h = record {
    tid_known = refl;
    called = refl;
    joined_done = ground arith;
    never_freed = ground arith;
    detached_unjoined = refl;
  }
  knows ended h = record {
    tid_known = refl;
    called = refl;
    joined_done = ground arith;
    never_freed = ground arith;
    detached_unjoined = refl;
  }
  knows calling_gone h = record {
    tid_known = refl;
    called = refl;
    joined_done = ground arith;
    never_freed = ground arith;
    detached_unjoined = refl;
  }
  knows done_gone h = record {
    tid_known = refl;
    called = refl;
    joined_done = ground arith;
    never_freed = ground arith;
    detached_unjoined = refl;
  }
  knows freed h = record {
    tid_known = refl;
    called = refl;
    joined_done = ground arith;
    never_freed = ground arith;
    detached_unjoined = refl;
  }

  rest-ends : (g : Stage) → is_gone (state (ends g rest)).caller ≡ true
  unfolding next
  rest-ends fresh = ground arith
  rest-ends noting_wait = ground arith
  rest-ends posting_wait = ground arith
  rest-ends calling_wait = ground arith
  rest-ends done_wait = ground arith
  rest-ends calling_start = ground arith
  rest-ends done_start = ground arith
  rest-ends calling_join = ground arith
  rest-ends done_join = ground arith
  rest-ends after_join = ground arith
  rest-ends ended = ground arith
  rest-ends calling_gone = ground arith
  rest-ends done_gone = ground arith
  rest-ends freed = ground arith

-- For a new thread that the kernel numbers `os`, with or without a function, whose caller joins it
-- before the destructor or not, and any order of the turns of the two threads: once `start` has
-- returned, `tid_` is `os`; the function has been called once, with the thread's number, if the new
-- thread is at its end, and else not at all, and never if it is empty; the caller that joins gets
-- behind `join` only when the new thread is at its end, so that nothing of the object is used after
-- the destructor; a thread is detached only if it was not joined; and after the turns that are left
-- at most, the caller is behind the destructor, neither `start` nor `join` hangs.
pub run-hand_over :
    (decimal : ℕ → Text) (os num : ℕ) (joins has_func : Bool) (name : Text) (bs : List Bool)
    → let t = run os joins (new decimal num has_func name).0 bs in
      ((if is_back t.caller then t.tid else os) ≡ os)
      × (t.calls ≡ (if is_done t.child && has_func then num ∷ [] else []))
      × ((not (joins && is_behind_join t.caller) || is_done t.child) ≡ true)
      × ((joins && t.uses_freed) ≡ false)
      × ((t.is_detached && t.is_joined) ≡ false)
      × (is_gone (run os joins t rest).caller ≡ true)
unfolding new
run-hand_over decimal os num joins has_func name bs =
    let n = default_name decimal num name in
    let g = ends os num joins has_func n fresh bs in
    let k = knows os num joins has_func n g (ends-allows os num joins has_func n bs fresh refl) in
    rw (run-at os num joins has_func n bs fresh, run-at os num joins has_func n rest g)
      (
        k.tid_known,
        k.called ∙ both_tests (is_done (state os num joins has_func n g).child) has_func (num ∷ []),
        k.joined_done,
        k.never_freed,
        k.detached_unjoined,
        rest-ends os num joins has_func n g,
      )
  where
    both_tests :
        (a b : Bool) (l : List ℕ)
        → (if a then (if b then l else []) else []) ≡ (if a && b then l else [])
    both_tests true b l = refl
    both_tests false b l = refl
