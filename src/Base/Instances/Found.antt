-- ===== src/Base/Instances/Found.antt =====
-- What the map of the managers (db_proxy_server/CachePool.cc and DBPool.cc) has for the instances, and
-- where their loop stops.
use talk_system.Prelude.{
  if◌then◌else◌, Text, text_eq_refl, ℕ, ◌≡◌, refl, ap, ◌∙◌, ◌≢◌, ◌⊎◌, inl, inr, Option, none, some,
  List, [], ◌∷◌, map, arith,
}
use talk_system.Prelude.Dict.{Dict, insert, find, or_else, find-insert_any}
use talk_system.Base.Instances.{slots}

abbrev pub IsSlot : Text → List (Option Text) → Type 0
IsSlot k [] = ⊥
IsSlot k (o ∷ ss) = (o ≡ some k) ⊎ IsSlot k ss

-- `n` has the pools of `m`, unchanged.
abbrev pub Keeps : {P : Type 0} → Dict P → Dict P → Type 0
Keeps {P = P} m n = (k : Text) (p : P) → find k m ≡ some p → find k n ≡ some p

-- The names have pools in the map.
abbrev pub Found : {P : Type 0} → Dict P → List Text → Type 0
Found {P = P} n [] = n ≡ n
Found {P = P} n (k ∷ ks) = ((p : P) × (find k n ≡ some p)) × Found n ks

-- The names have pools in the map, each with what `Init` promises.
abbrev pub FoundReady : {P : Type 0} → (Text → P → Type 0) → Dict P → List Text → Type 0
FoundReady {P = P} IsReady n [] = n ≡ n
FoundReady {P = P} IsReady n (k ∷ ks) =
    ((p : P) × (find k n ≡ some p) × IsReady k p) × FoundReady IsReady n ks

-- Every instance that the configuration lists has a pool of the map.
abbrev pub AllUp : {P : Type 0} → (Text → P → Type 0) → Option Text → Dict P → Type 0
AllUp IsReady o n =
    (names : Text) × (o ≡ some names)
    × (passed : List Text) × (slots b',' names ≡ map some passed)
    × FoundReady IsReady n passed

pub insert-Keeps : {P : Type 0} → (name : Text) (p : P) (m : Dict P) → Keeps m (insert name p m)
insert-Keeps name p m k q e = find-insert_any name k p m ∙ rw e refl

pub insert_known :
    {P : Type 0}
    → (name : Text) (p : P) (m : Dict P) → (q : P) × (find name (insert name p m) ≡ some q)
insert_known {P = P} name p m = settle (find name m) (
    find-insert_any name name p m
    ∙ ap (λ b. or_else (find name m) (if b then some p else none)) (text_eq_refl name))
  where
    settle :
        (o : Option P)
        → find name (insert name p m) ≡ or_else o (some p)
        → (q : P) × (find name (insert name p m) ≡ some q)
    settle none e = (p, e)
    settle (some q) e = (q, e)

module _ {S P : Type 0} (settings : Text → Option S) (make : Text → S → P × ℕ) where
  -- The instances have their entries, and their pools came up.
  abbrev pub CameUp : Text → Type 0
  CameUp name = (s : S) × (settings name ≡ some s) × ((make name s).1 ≡ 0)

  abbrev pub AllCameUp : List Text → Type 0
  AllCameUp [] = Unit {0}
  AllCameUp (k ∷ ks) = CameUp k × AllCameUp ks

  -- Why the loop stopped at an instance: it lacks an entry, or its pool did not come up.
  abbrev pub Stopped : Text → ℕ → Type 0
  Stopped name code =
      (settings name ≡ none) × (code ≡ 2)
      ⊎ (s : S) × (settings name ≡ some s) × ((make name s).1 ≢ 0) × (code ≡ 3)

  -- Why the loop ended, by the slots that it did not pass.
  abbrev pub Stop : List (Option Text) → ℕ → Type 0
  Stop [] code = code ≡ 0
  Stop (none ∷ ss) code = ⊥
  Stop (some name ∷ ss) code = Stopped name code

  -- A loop that ends with the code 0 passed every slot.
  pub stop_none : (rest : List (Option Text)) → Stop rest 0 → rest ≡ []
  stop_none [] h = refl
  stop_none (none ∷ ss) h = absurd h
  stop_none (some name ∷ ss) (inl h) = absurd (omega (arith, h.1))
  stop_none (some name ∷ ss) (inr h) = absurd (omega (arith, h.3))
