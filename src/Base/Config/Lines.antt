-- ===== src/Base/Config/Lines.antt =====
-- How the loop of `_LoadFile` takes apart a line that `_WriteFIle` has written.
use talk_system.Prelude.{
  leb, ◌==◌, length, Text, has, ℕ, ◌-◌, ◌<◌, ◌≡◌, refl, sym, ap, ap₂, ◌∙◌, false, ◌||◌, none, some,
  [], ◌∷◌, ◌++◌, append-nil, append_assoc, arith,
}
use talk_system.Base.Config.{split_at, newline, line_room, fgets_all, chomp}

-- `fgets` on the bytes of a line, before its newline.
fgets_line :
    (room : ℕ) (line l rest : Text)
    → has newline l ≡ false
    → length l < room
    → fgets_all room line (l ++ rest) ≡ fgets_all (room - length l) (line ++ l) rest
unfolding fgets_all
fgets_line room line [] rest h n =
    ap₂ (λ r s. fgets_all r s rest) (omega arith) (sym (append-nil line))
fgets_line room line (b ∷ l) rest h n =
    let part : (b == newline || leb room 1) ≡ false = ground arith in
    rw part (
      fgets_line (room - 1) (line ++ b ∷ []) l rest (ground arith) (omega arith)
      ∙ ap₂ (λ r s. fgets_all r s rest) (omega arith) (append_assoc line (b ∷ []) l))

-- A line that fits comes back whole, with its newline, and the next one starts afresh.
pub fgets_all-line :
    (l rest : Text)
    → has newline l ≡ false
    → length l < line_room
    → fgets_all line_room [] (l ++ (newline ∷ rest))
      ≡ (l ++ newline ∷ []) ∷ fgets_all line_room [] rest
fgets_all-line l rest h n =
    fgets_line line_room [] l (newline ∷ rest) h n ∙ unfold fgets_all in refl

pub chomp-newline : (l : Text) → chomp (l ++ newline ∷ []) ≡ l
unfolding chomp
chomp-newline [] = refl
chomp-newline (b ∷ []) = refl
chomp-newline (b ∷ c ∷ l) = ap (◌∷◌ b) (chomp-newline (c ∷ l))

pub split_at-none : (b : ℕ) (l : Text) → has b l ≡ false → split_at b l ≡ (l, none)
unfolding split_at
split_at-none b [] h = refl
split_at-none b (c ∷ l) h = ground (arith, split_at-none b l)

pub split_at_first :
    (b : ℕ) (l rest : Text) → has b l ≡ false → split_at b (l ++ (b ∷ rest)) ≡ (l, some rest)
unfolding split_at
split_at_first b [] rest h = ground arith
split_at_first b (c ∷ l) rest h = ground (arith, split_at_first b l rest)
