-- ===== src/Base/Tests.antt =====
-- The configuration file and the splitting of lists on small inputs.
use talk_system.Prelude.{
  if◌then◌else◌, length, Text, codes, text_eq, ℕ, ◌+◌, ◌≡◌, refl, ◌⊎◌, Bool, true, false, not, ◌&&◌,
  ◌||◌, none, some, List, [], ◌∷◌, arith,
}
use talk_system.Prelude.Dict.{Dict, find, assign}
use talk_system.Base.Config.{
  Reader, load, get_config_name, set_config_value, trim_space, skip_blanks, drop_blanks,
}
use talk_system.Base.Config.Trip.{IsWord, IsEntry, set_config_value_lem}
use talk_system.Base.Explode.{items, item_cnt, join, items-join}
use mathlib.Core.Bool.{Bool-discrete}
use talk_system.Base.Any.{of, cast, cast-of}
use talk_system.Base.Task
use talk_system.Base.Task.{
  Shared, Who, by_user, by_worker, initial, step, user_step, make_result, get_wait, run,
}
use talk_system.Base.Task.Answers.{has_missed, turns, run-returned}
use talk_system.Base.Thread
use talk_system.Base.Thread.{Thread, is_gone, body, call, start, sem_wait, destroy, new}
use talk_system.Base.Thread.Stages.{is_done, is_back, is_behind_join, rest}
use talk_system.Base.Thread.Starts.{run-hand_over}

a_IsWord : IsWord (codes "a")
unfolding trim_space skip_blanks drop_blanks
a_IsWord = record { trimmed = refl; one_line = refl; no_comment = refl }

b_IsWord : IsWord (codes "b")
unfolding trim_space skip_blanks drop_blanks
b_IsWord = record { trimmed = refl; one_line = refl; no_comment = refl }

entry : IsEntry (codes "a") (codes "b")
entry = record { key = a_IsWord; key_ends = refl; value = b_IsWord; fits = omega arith }

abbrev entries : Dict Text
entries = (codes "a", codes "b") ∷ []

abbrev reader : Reader
reader = record { load_ok = true; config_map = [] }

set_config_value_lem_example :
    let (r, file, ok) = set_config_value true 3 (codes "a") (codes "b") reader in
    let found =
      if text_eq (codes "a") (codes "a")
      then some (codes "b")
      else find (codes "a") reader.config_map in
    (ok ≡ true)
    × (get_config_name (codes "a") r ≡ found)
    × (get_config_name (codes "a") (load false file) ≡ found)
unfolding assign
set_config_value_lem_example =
    set_config_value_lem 3 (codes "a") (codes "b") (codes "a") reader false refl (entry, tt)
      (omega arith)

abbrev fields : List Text
fields = codes "ab" ∷ codes "c" ∷ []

items-join_example :
    (items b',' (join b',' fields) ≡ fields) × (item_cnt b',' (join b',' fields) ≡ length fields)
items-join_example = items-join b',' fields (refl, refl, (refl, refl, tt)) (λ e. cc)

-- Numbers and texts in an Any.
abbrev Kind : Bool → Type 0
Kind true = ℕ
Kind false = Text

cast-of_example :
    (cast Kind Bool-discrete true (of Kind Bool-discrete true 7) ≡ some 7)
    × (cast Kind Bool-discrete false (of Kind Bool-discrete true 7) ≡ none)
    × (cast Kind Bool-discrete true none ≡ none)
cast-of_example = cast-of Kind Bool-discrete true false 7 (λ e. cc)

-- The worker runs the task while the other thread has only made the Result.
abbrev schedule : List Who
schedule = by_user ∷ by_worker ∷ by_user ∷ by_worker ∷ by_user ∷ []

abbrev zero_text : ℕ
zero_text = 0

abbrev seven : ℕ
seven = 7

abbrev answer : Shared ℕ → List Who → Shared ℕ
answer = Task.run zero_text seven

run-returned_example :
    (((answer (initial true) schedule).returned ≡ [])
      ⊎ ((answer (initial true) schedule).returned ≡ some 7 ∷ []))
    × ((if has_missed (answer (initial true) schedule).worker
          then answer (initial true) schedule
          else answer (answer (initial true) schedule) (turns zero_text seven)).returned
        ≡ (if has_missed (answer (initial true) schedule).worker then [] else some 7 ∷ []))
run-returned_example = run-returned zero_text seven schedule

-- A Result that is not valid answers at once.
invalid_answers : (answer (initial false) (by_user ∷ by_user ∷ [])).returned ≡ some 0 ∷ []
unfolding Task.run initial step user_step make_result get_wait
invalid_answers = refl

abbrev one_digit : ℕ → Text
one_digit n = (48 + n) ∷ []

abbrev handed : Thread
handed = Thread.run 31 true (Thread.new one_digit 3 true []).0 (false ∷ true ∷ true ∷ false ∷ [])

run-hand_over_example :
    ((if is_back handed.caller then handed.tid else 31) ≡ 31)
    × (handed.calls ≡ (if is_done handed.child && true then 3 ∷ [] else []))
    × ((not (true && is_behind_join handed.caller) || is_done handed.child) ≡ true)
    × ((true && handed.uses_freed) ≡ false)
    × ((handed.is_detached && handed.is_joined) ≡ false)
    × (is_gone (Thread.run 31 true handed rest).caller ≡ true)
run-hand_over_example = run-hand_over one_digit 31 3 true true [] (false ∷ true ∷ true ∷ false ∷ [])

-- A thread object that is destroyed without a join, before the new thread has called its function.
freed_early :
    (Thread.run 31 false
      (Thread.new one_digit 3 true []).0
      (false ∷ true ∷ true ∷ false ∷ false ∷ true ∷ [])).uses_freed
    ≡ true
unfolding Thread.run Thread.new Thread.step body call start sem_wait destroy
freed_early = refl
