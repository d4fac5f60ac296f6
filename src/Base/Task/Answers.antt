-- ===== src/Base/Task/Answers.antt =====
-- What the calls of `get` in common/base/Task.cc return, however the two threads interleave.
use talk_system.Prelude.{
  if◌then◌else◌, ◌≡◌, refl, ap, ◌∙◌, ◌⊎◌, inl, inr, Bool, true, false, some, List, [], ◌∷◌,
}
use talk_system.Base.Task.{
  Shared, taking, Worker, storing, posting, finished, skipped, initial, Who, by_user, by_worker,
  step, run, make_result, exec, store, set_val_post, get_wait, take_any, user_step, worker_step,
  post, wait,
}

-- The stages of the two threads, for a valid Result.
data Stage : Type 0 where
  fresh missed made made_late running stored posted taken given : Stage

abbrev is_late : Stage → Bool
is_late missed = true
is_late made_late = true
is_late _ = false

-- The worker found no Result, and has thrown the task away without running it.
abbrev pub has_missed : Worker → Bool
has_missed skipped = true
has_missed _ = false

module _ {A : Type 0} (empty v : A) where
  abbrev asked : Shared A
  asked = make_result (initial true)

  abbrev at : Stage → Shared A
  at fresh = initial true
  at missed = record (initial true) { worker = skipped }
  at made = asked
  at made_late = record asked { worker = skipped }
  at running = record asked { worker = storing }
  at stored = record asked { worker = posting; any = some v }
  at posted = record asked { worker = finished; any = some v; sem = 1 }
  at taken = record asked { worker = finished; any = some v; user = taking }
  at given = record asked { worker = finished; returned = some v ∷ [] }

  next : Stage → Who → Stage
  next fresh by_user = made
  next fresh by_worker = missed
  next missed by_user = made_late
  next made by_worker = running
  next running by_worker = stored
  next stored by_worker = posted
  next posted by_user = taken
  next taken by_user = given
  next g w = g

  step-at : (g : Stage) (w : Who) → step empty v (at g) w ≡ at (next g w)
  unfolding step user_step worker_step make_result exec store set_val_post get_wait take_any post
      wait initial next
  step-at fresh by_user = refl
  step-at fresh by_worker = refl
  step-at missed by_user = refl
  step-at missed by_worker = refl
  step-at made by_user = refl
  step-at made by_worker = refl
  step-at made_late by_user = refl
  step-at made_late by_worker = refl
  step-at running by_user = refl
  step-at running by_worker = refl
  step-at stored by_user = refl
  step-at stored by_worker = refl
  step-at posted by_user = refl
  step-at posted by_worker = refl
  step-at taken by_user = refl
  step-at taken by_worker = refl
  step-at given by_user = refl
  step-at given by_worker = refl

  abbrev ends : Stage → List Who → Stage
  ends g [] = g
  ends g (w ∷ ws) = ends (next g w) ws

  run-at : (ws : List Who) (g : Stage) → run empty v (at g) ws ≡ at (ends g ws)
  unfolding run
  run-at [] g = refl
  run-at (w ∷ ws) g = ap (λ s. run empty v s ws) (step-at g w) ∙ run-at ws (next g w)

  -- One turn of each piece of work that is left.
  abbrev pub turns : List Who
  turns = by_user ∷ by_worker ∷ by_worker ∷ by_worker ∷ by_user ∷ by_user ∷ []

  turns-given : (g : Stage) → is_late g ≡ false → ends g turns ≡ given
  unfolding next
  turns-given fresh h = refl
  turns-given missed h = cc
  turns-given made h = refl
  turns-given made_late h = cc
  turns-given running h = refl
  turns-given stored h = refl
  turns-given posted h = refl
  turns-given taken h = refl
  turns-given given h = refl

  given_at : (g : Stage) → ((at g).returned ≡ []) ⊎ ((at g).returned ≡ some v ∷ [])
  unfolding initial make_result
  given_at given = inr refl
  given_at fresh = inl refl
  given_at missed = inl refl
  given_at made = inl refl
  given_at made_late = inl refl
  given_at running = inl refl
  given_at stored = inl refl
  given_at posted = inl refl
  given_at taken = inl refl

  late_at : (g : Stage) → has_missed (at g).worker ≡ is_late g
  unfolding initial make_result
  late_at fresh = refl
  late_at missed = refl
  late_at made = refl
  late_at made_late = refl
  late_at running = refl
  late_at stored = refl
  late_at posted = refl
  late_at taken = refl
  late_at given = refl

  late_empty : (g : Stage) → is_late g ≡ true → (at g).returned ≡ []
  unfolding initial make_result
  late_empty missed h = refl
  late_empty made_late h = refl
  late_empty fresh h = cc
  late_empty made h = cc
  late_empty running h = cc
  late_empty stored h = cc
  late_empty posted h = cc
  late_empty taken h = cc
  late_empty given h = cc

  answer_at :
      (g : Stage) (b : Bool)
      → is_late g ≡ b
      → (if b then at g else run empty v (at g) turns).returned ≡ (if b then [] else some v ∷ [])
  unfolding initial make_result
  answer_at g true h = late_empty g h
  answer_at g false h = ap (λ (s : Shared A). s.returned) (run-at turns g ∙ ap at (turns-given g h))

  -- For a valid Result, a task whose `run()` gives `v`, and however the two threads interleave: the
  -- calls of `get` have returned nothing, or `v` once and nothing else; if the worker called `exec`
  -- before the Result was made, nothing has been returned, however long one waits; and else the value
  -- comes, at the latest when each thread has run the pieces that it has left.
  pub run-returned :
      (ws : List Who)
      → let s = run empty v (initial true) ws in
        ((s.returned ≡ []) ⊎ (s.returned ≡ some v ∷ []))
        × ((if has_missed s.worker then s else run empty v s turns).returned
            ≡ (if has_missed s.worker then [] else some v ∷ []))
  run-returned ws =
      rw (run-at ws fresh)
        (given_at (ends fresh ws), rw (late_at (ends fresh ws)) (answer_at (ends fresh ws) _ refl))
