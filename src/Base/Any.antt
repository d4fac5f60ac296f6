-- ===== src/Base/Any.antt =====
-- common/base/Any.h: a value with its type erased. The types that a program puts into it are the codes
-- `Ty` with their meanings `El`; two of them are compared as `dynamic_cast` compares them.
use mathlib.Core.Path.{subst_refl}
use mathlib.Core.HLevel.{hedberg}
use talk_system.Prelude.{◌≡◌, refl, ap, ◌∙◌, subst, ◌≢◌, Option, none, some}

module _ {Ty : Type 0} (El : Ty → Type 0) (same : Discrete Ty) where
  -- `base_`: none, or a `Derive<T>` with its `data_`.
  abbrev pub Any : Type 0
  Any = Option ((t : Ty) × El t)

  -- `Any(T data)`.
  unfoldable pub of : (t : Ty) → El t → Any
  of t v = some (t, v)

  -- `cast<T>`; none where it throws.
  unfoldable pub cast : (t : Ty) → Any → Option (El t)
  cast t none = none
  cast t (some (u, v)) = go (same u t)
    where
      go : Dec (u ≡ t) → Option (El t)
      go (yes p) = some (subst El p v)
      go (no n) = none

  -- A value comes back at the type that it was put in with, unchanged, and at no other; an Any whose
  -- value was moved out gives none at any type.
  pub cast-of :
      (t u : Ty) (v : El t)
      → t ≢ u
      → (cast t (of t v) ≡ some v) × (cast u (of t v) ≡ none) × (cast t none ≡ none)
  unfolding cast of
  cast-of t u v ne = (here (same t t), there (same t u), refl)
    where
      here : (d : Dec (t ≡ t)) → (elim d [ yes p ↦ some (subst El p v) | no n ↦ none ]) ≡ some v
      here (yes p) =
          ap some (ap (λ (q : t ≡ t). subst El q v) (hedberg same t t p refl) ∙ subst_refl El v)
      here (no n) = absurd (n refl)

      there : (d : Dec (t ≡ u)) → (elim d [ yes p ↦ some (subst El p v) | no n ↦ none ]) ≡ none
      there (yes p) = absurd (ne p)
      there (no n) = refl
