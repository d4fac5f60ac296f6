-- ===== src/Buffer/Splice.antt =====
-- std::copy into a vector, and how the bytes between two indices change by it.
use Prim.Native.Nat.add
use talk_system.Prelude.{
  ℕ, zero, suc, ◌+◌, ◌-◌, ◌≤◌, ◌≡◌, refl, ap, List, [], ◌∷◌, ◌++◌, length, take, drop, length-drop,
  arith,
}

-- `ys` written over `xs` from index `i` on. What would lie past the end is dropped, which no
-- caller with enough room does.
unfoldable pub write_at : ℕ → List ℕ → List ℕ → List ℕ
write_at i ys [] = []
write_at zero [] (x ∷ xs) = x ∷ xs
write_at zero (y ∷ ys) (x ∷ xs) = y ∷ write_at zero ys xs
write_at (suc i) ys (x ∷ xs) = x ∷ write_at i ys xs

pub length-write_at : (i : ℕ) (ys xs : List ℕ) → length (write_at i ys xs) ≡ length xs
unfolding write_at
length-write_at i ys [] = ground arith
length-write_at zero [] (x ∷ xs) = refl
length-write_at zero (y ∷ ys) (x ∷ xs) = ap suc (length-write_at zero ys xs)
length-write_at (suc i) ys (x ∷ xs) = ap suc (length-write_at i ys xs)

-- The bytes just before the write, with those written.
pub take-write_at :
    (k m : ℕ) (ys xs : List ℕ)
    → k + length ys ≡ m
    → m ≤ length xs
    → take m (write_at k ys xs) ≡ take k xs ++ ys
unfolding write_at
take-write_at zero zero [] xs e h = refl
take-write_at zero zero (y ∷ ys) xs e h = absurd (omega arith)
take-write_at zero (suc m) [] xs e h = absurd (omega arith)
take-write_at zero (suc m) (y ∷ ys) [] e h = absurd (omega arith)
take-write_at zero (suc m) (y ∷ ys) (x ∷ xs) e h =
    ap (◌∷◌ y) (take-write_at zero m ys xs (omega arith) (omega arith))
take-write_at (suc k) zero ys xs e h = absurd (omega arith)
take-write_at (suc k) (suc m) ys [] e h = absurd (omega arith)
take-write_at (suc k) (suc m) ys (x ∷ xs) e h =
    ap (◌∷◌ x) (take-write_at k m ys xs (omega arith) (omega arith))

-- A write at or behind `r` leaves the bytes before `r` out of account.
pub drop-write_at :
    (r k i : ℕ) (ys xs : List ℕ) → r + k ≡ i → drop r (write_at i ys xs) ≡ write_at k ys (drop r xs)
unfolding write_at
drop-write_at zero k i ys xs e = rw (← e, add.zero) refl
drop-write_at (suc r) k i ys [] e = ground arith
drop-write_at (suc r) k zero ys (x ∷ xs) e = absurd (omega arith)
drop-write_at (suc r) k (suc i) ys (x ∷ xs) e = drop-write_at r k i ys xs (omega arith)

-- The bytes from `r` on, up to the end of a write at `i`.
pub slice-write_at :
    (r i n : ℕ) (ys xs : List ℕ)
    → r ≤ i
    → i + length ys ≤ length xs
    → n ≡ i + length ys - r
    → take n (drop r (write_at i ys xs)) ≡ take (i - r) (drop r xs) ++ ys
slice-write_at r i n ys xs h k e =
    rw (drop-write_at r (i - r) i ys xs (omega arith))
      (take-write_at (i - r) n ys (drop r xs) (omega arith) (omega (arith, length-drop r xs)))
