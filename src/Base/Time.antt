-- ===== src/Base/Time.antt =====
-- common/base/Timestamp.h and Timestamp.cc. A Timestamp is the number that it holds; `localtime`, and
-- what snprintf prints for `%4d` and `%02d`, are parameters.
use talk_system.Prelude.{
  length, take, length-append, take_long, Text, ℕ, ◌+◌, ◌<◌, ◌≡◌, refl, sym, ap, ap₂, ◌∙◌, [], ◌∷◌,
  ◌++◌, arith,
}

-- The fields of `struct tm` that are used.
pub record Tm : Type 0 where
  pub tm_year : ℕ
  pub tm_mon : ℕ
  pub tm_mday : ℕ
  pub tm_hour : ℕ
  pub tm_min : ℕ
  pub tm_sec : ℕ

module _ (four two : ℕ → Text) where
  -- The text for the format "%4d/%02d/%02d %02d:%02d:%02d".
  unfoldable pub written : Tm → Text
  written m =
      four (m.tm_year + 1900)
      ++ b'/'
        ∷ (two (m.tm_mon + 1)
            ++ b'/'
              ∷ (two m.tm_mday
                  ++ b' ' ∷ (two m.tm_hour ++ b':' ∷ (two m.tm_min ++ b':' ∷ two m.tm_sec))))

  -- `toString`: snprintf into a buffer of 128 bytes.
  unfoldable pub to_string : (ℕ → Tm) → ℕ → Text
  to_string localtime t = take 127 (written (localtime t))

-- What `localtime` gives before the year 10000.
pub record IsTm (m : Tm) : Type 0 where
  pub year : m.tm_year < 8100
  pub mon : m.tm_mon < 12
  pub mday : m.tm_mday < 32
  pub hour : m.tm_hour < 24
  pub min : m.tm_min < 60
  pub sec : m.tm_sec < 61

-- A format prints a fixed width below a bound, and different numbers differently.
pub record Prints (bound width : ℕ) (f : ℕ → Text) : Type 0 where
  pub wide : (n : ℕ) → n < bound → length (f n) ≡ width
  pub apart : (m n : ℕ) → m < bound → n < bound → f m ≡ f n → m ≡ n

split : (xs us ys vs : Text) → length xs ≡ length us → xs ++ ys ≡ us ++ vs → (xs ≡ us) × (ys ≡ vs)
split [] [] ys vs h e = (refl, e)
split [] (u ∷ us) ys vs h e = absurd (omega arith)
split (x ∷ xs) [] ys vs h e = absurd (omega arith)
split (x ∷ xs) (u ∷ us) ys vs h e =
    let t : xs ++ ys ≡ us ++ vs = cc in
    let first : x ≡ u = cc in
    let r = split xs us ys vs (omega arith) t in (ap₂ (λ a l. a ∷ l) first r.0, r.1)

tail_eq : (c : ℕ) (xs ys : Text) → ◌≡◌ {A = Text} (c ∷ xs) (c ∷ ys) → xs ≡ ys
tail_eq c xs ys e = cc

module _ (four two : ℕ → Text) (year : Prints 10000 4 four) (field : Prints 100 2 two) where
  length-field : (c n : ℕ) (ys : Text) → n < 100 → length (two n ++ c ∷ ys) ≡ 3 + length ys
  length-field c n ys h = omega (arith, length-append (two n) (c ∷ ys), field.wide n h)

  length-written : (m : Tm) → IsTm m → length (written four two m) ≡ 19
  unfolding written
  length-written m v =
      let rest = two m.tm_min ++ b':' ∷ two m.tm_sec in
      let time = two m.tm_hour ++ b':' ∷ rest in
      let day = two m.tm_mday ++ b' ' ∷ time in
      omega (
        arith,
        length-append (four (m.tm_year + 1900)) (b'/' ∷ (two (m.tm_mon + 1) ++ b'/' ∷ day)),
        length-field b'/' (m.tm_mon + 1) day (omega (arith, v.mon)),
        length-field b' ' m.tm_mday time (omega (arith, v.mday)),
        length-field b':' m.tm_hour rest (omega (arith, v.hour)),
        length-field b':' m.tm_min (two m.tm_sec) (omega (arith, v.min)),
        year.wide (m.tm_year + 1900) (omega (arith, v.year)),
        field.wide m.tm_sec (omega (arith, v.sec)),
      )

  -- One field of two texts that are the same, with what follows it.
  next_field :
      (c m n : ℕ) (ys vs : Text)
      → m < 100
      → n < 100
      → two m ++ c ∷ ys ≡ two n ++ c ∷ vs
      → (m ≡ n) × (ys ≡ vs)
  next_field c m n ys vs a b e =
      let r = split (two m) (two n) (c ∷ ys) (c ∷ vs) (field.wide m a ∙ sym (field.wide n b)) e in
      (field.apart m n a b r.0, tail_eq c ys vs r.1)

  written_injective : (m n : Tm) → IsTm m → IsTm n → written four two m ≡ written four two n → m ≡ n
  unfolding written
  written_injective m n v w e =
      let a =
        split (four (m.tm_year + 1900)) (four (n.tm_year + 1900)) _ _
          (year.wide (m.tm_year + 1900) (omega (arith, v.year))
            ∙ sym (year.wide (n.tm_year + 1900) (omega (arith, w.year))))
          e in
      let y : m.tm_year ≡ n.tm_year = omega (
        arith,
        year.apart (m.tm_year + 1900) (n.tm_year + 1900) (omega (arith, v.year))
            (omega (arith, w.year)) a.0,
      ) in
      let b =
        next_field b'/' (m.tm_mon + 1) (n.tm_mon + 1) _ _ (omega (arith, v.mon))
          (omega (arith, w.mon)) (tail_eq b'/' _ _ a.1) in
      let c =
        next_field b' ' m.tm_mday n.tm_mday _ _ (omega (arith, v.mday)) (omega (arith, w.mday))
          b.1 in
      let d =
        next_field b':' m.tm_hour n.tm_hour _ _ (omega (arith, v.hour)) (omega (arith, w.hour))
          c.1 in
      let f =
        next_field b':' m.tm_min n.tm_min _ _ (omega (arith, v.min)) (omega (arith, w.min)) d.1 in
      let g = field.apart m.tm_sec n.tm_sec (omega (arith, v.sec)) (omega (arith, w.sec)) f.1 in
      let h : m.tm_mon ≡ n.tm_mon = omega (arith, b.0) in
      λ i. record {
        tm_year = y i;
        tm_mon = h i;
        tm_mday = c.0 i;
        tm_hour = d.0 i;
        tm_min = f.0 i;
        tm_sec = g i;
      }

  to_string-written :
      (localtime : ℕ → Tm) (t : ℕ)
      → IsTm (localtime t)
      → to_string four two localtime t ≡ written four two (localtime t)
  unfolding to_string
  to_string-written localtime t v =
      take_long 127 (written four two (localtime t)) (omega (arith, length-written (localtime t) v))

  -- Where `%4d` prints four characters below 10000 and `%02d` two below 100, different ones for
  -- different numbers, and for times before the year 10000: the text of a Timestamp has 19 characters,
  -- so the buffer cuts nothing off, and two Timestamps with the same text have the same local time, to
  -- the second.
  pub to_string_lem :
      (localtime : ℕ → Tm) (s t : ℕ)
      → IsTm (localtime s)
      → IsTm (localtime t)
      → to_string four two localtime s ≡ to_string four two localtime t
      → (length (to_string four two localtime s) ≡ 19) × (localtime s ≡ localtime t)
  to_string_lem localtime s t v w e =
      let a = to_string-written localtime s v in
      let b = to_string-written localtime t w in
      (
        ap length a ∙ length-written (localtime s) v,
        written_injective (localtime s) (localtime t) v w (sym a ∙ e ∙ b),
      )
