-- ===== src/Net/Server/Turns.antt =====
-- The loops take turns.
use talk_system.Prelude.{
  ℕ, zero, suc, ◌+◌, ◌≡◌, refl, sym, ap, ap₂, ◌∙◌, ◌≢◌, length, length-append, get_elem?, is_empty,
  if◌then◌else◌, false, Option, some, List, [], ◌∷◌, ◌++◌, map, append_assoc, arith,
}
use talk_system.Net.Server.{LoopPool, get_next_loop}

-- The loops that so many calls give.
unfoldable pub next_loops : ℕ → LoopPool → List (Option ℕ) × LoopPool
next_loops zero p = ([], p)
next_loops (suc n) p =
    let (loop, q) = get_next_loop p in let (loops, r) = next_loops n q in (loop ∷ loops, r)

abbrev at : ℕ → List ℕ → ℕ → LoopPool
at base loops next = record { base_loop = base; loops = loops; next = next }

get_elem?-middle :
    (xs : List ℕ) (y : ℕ) (ys : List ℕ) → get_elem? (xs ++ (y ∷ ys)) (length xs) ≡ some y
get_elem?-middle [] y ys = refl
get_elem?-middle (x ∷ xs) y ys = get_elem?-middle xs y ys

is_empty_middle : (xs : List ℕ) (y : ℕ) (ys : List ℕ) → is_empty (xs ++ (y ∷ ys)) ≡ false
is_empty_middle [] y ys = refl
is_empty_middle (x ∷ xs) y ys = refl

get_next_loop_lem :
    (base : ℕ) (xs : List ℕ) (y : ℕ) (ys : List ℕ)
    → get_next_loop (at base (xs ++ (y ∷ ys)) (length xs))
      ≡ (some y, at base (xs ++ (y ∷ ys)) (if is_empty ys then 0 else length xs + 1))
unfolding get_next_loop
get_next_loop_lem base xs y [] =
    ground (arith, get_elem?-middle xs y [], is_empty_middle xs y [], length-append xs (y ∷ []))
get_next_loop_lem base xs y (z ∷ ys) = ground (
  arith,
  get_elem?-middle xs y (z ∷ ys),
  is_empty_middle xs y (z ∷ ys),
  length-append xs (y ∷ z ∷ ys),
)

next_loops_rest :
    (base : ℕ) (xs : List ℕ) (y : ℕ) (ys : List ℕ)
    → next_loops (length (y ∷ ys)) (at base (xs ++ (y ∷ ys)) (length xs))
      ≡ (map some (y ∷ ys), at base (xs ++ (y ∷ ys)) 0)
unfolding next_loops
next_loops_rest base xs y [] =
    ap (λ (r : Option ℕ × LoopPool). (r.0 ∷ [], r.1)) (get_next_loop_lem base xs y [])
next_loops_rest base xs y (z ∷ ys) =
    ap
      (λ (r : Option ℕ × LoopPool).
        let (loops, q) = next_loops (length (z ∷ ys)) r.1 in (r.0 ∷ loops, q))
      (get_next_loop_lem base xs y (z ∷ ys))
    ∙ ap (λ (r : List (Option ℕ) × LoopPool). (some y ∷ r.0, r.1))
        (ap₂ (λ us i. next_loops (length (z ∷ ys)) (at base us i))
            (sym (append_assoc xs (y ∷ []) (z ∷ ys))) (sym (length-append xs (y ∷ [])))
          ∙ next_loops_rest base (xs ++ y ∷ []) z ys
          ∙ ap (λ us. (map some (z ∷ ys), at base us 0)) (append_assoc xs (y ∷ []) (z ∷ ys)))

-- From a start, as many calls of `getNextLoop` as there are loops give every loop once, in order, and
-- leave the pool as it was at the start, so that the turns begin again.
pub next_loops-length :
    (base : ℕ) (loops : List ℕ)
    → loops ≢ []
    → next_loops (length loops) (record { base_loop = base; loops = loops; next = 0 })
      ≡ (map some loops, record { base_loop = base; loops = loops; next = 0 })
next_loops-length base [] n = absurd (n refl)
next_loops-length base (y ∷ ys) n = next_loops_rest base [] y ys
