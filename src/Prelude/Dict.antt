-- ===== src/Prelude/Dict.antt =====
-- std::map<std::string, V> as an association list: `find`, `insert` (which keeps an old value),
-- `operator[]` with an assignment, and `erase`.
use mathlib.Core.Logic.{inl, inr}
use mathlib.Core.Path.{◌≡◌, refl, ◌∙◌}
use mathlib.Core.List.{List, [], ◌∷◌}
use mathlib.Core.Option.{Option, none, some}
use native.Mathlib.Omega.{arith}
use talk_system.Prelude.Tests.{if◌then◌else◌, Bool-cases}
use talk_system.Prelude.Bytes.{Text, text_eq, text_lt, text_eq_refl, eq_of_text_eq, text_eq_iff}

abbrev pub Dict {ℓ} : Type ℓ → Type ℓ
Dict V = List (Text × V)

module _ {ℓ} {V : Type ℓ} where
  unfoldable pub find : Text → Dict V → Option V
  find k [] = none
  find k ((j, v) ∷ m) = if text_eq j k then some v else find k m

  -- An entry for `k` gets the value `v`; a missing one is added in the order of the keys.
  unfoldable pub assign : Text → V → Dict V → Dict V
  assign k v [] = (k, v) ∷ []
  assign k v ((j, w) ∷ m) =
      if text_eq j k
      then (j, v) ∷ m
      else if text_lt k j
      then (k, v) ∷ (j, w) ∷ m
      else (j, w) ∷ assign k v m

  -- std::map::insert: an entry that is there already is left alone.
  unfoldable pub insert : Text → V → Dict V → Dict V
  insert k v m = elim (find k m) [ none ↦ assign k v m | some w ↦ m ]

  unfoldable pub erase : Text → Dict V → Dict V
  erase k [] = []
  erase k ((j, w) ∷ m) = if text_eq j k then erase k m else (j, w) ∷ erase k m

  pub find-assign :
      (k j : Text) (v : V) (m : Dict V)
      → find j (assign k v m) ≡ (if text_eq k j then some v else find j m)
  unfolding find assign
  find-assign k j v [] = refl
  find-assign k j v ((i, w) ∷ m) =
      ground (arith, text_eq_iff k j, text_eq_iff i k, text_eq_iff i j, find-assign k j v m)

  pub find-insert :
      (k j : Text) (v : V) (m : Dict V)
      → find k m ≡ none
      → find j (insert k v m) ≡ (if text_eq k j then some v else find j m)
  unfolding insert
  find-insert k j v m h = rw (h, insert) (find-assign k j v m)

  abbrev pub or_else : Option V → Option V → Option V
  or_else none o = o
  or_else (some v) o = some v

  pub find-insert_any :
      (k j : Text) (v : V) (m : Dict V)
      → find j (insert k v m) ≡ or_else (find j m) (if text_eq k j then some v else none)
  unfolding insert
  find-insert_any k j v m = elim (Bool-cases (text_eq k j)) [
    | inl same ↦ rw (← eq_of_text_eq k j same, text_eq_refl k) (settle (find k m) refl)
    | inr other ↦ rw other (ground (arith, find-assign k j v m))
  ]
    where
      settle :
          (o : Option V)
          → find k m ≡ o
          → find k (elim o [ none ↦ assign k v m | some w ↦ m ]) ≡ or_else o (some v)
      settle none e = find-assign k k v m ∙ rw (text_eq_refl k) refl
      settle (some w) e = e

  pub insert_known : (k : Text) (v w : V) (m : Dict V) → find k m ≡ some w → insert k v m ≡ m
  unfolding insert
  insert_known k v w m h = rw (h, insert)

  pub find-erase :
      (k j : Text) (m : Dict V) → find j (erase k m) ≡ (if text_eq k j then none else find j m)
  unfolding find erase
  find-erase k j [] = ground arith
  find-erase k j ((i, w) ∷ m) =
      ground (arith, text_eq_iff k j, text_eq_iff i k, text_eq_iff i j, find-erase k j m)
