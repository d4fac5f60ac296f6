-- ===== src/Base/Explode.antt =====
-- `CStrExplode` of common/base/util.h and util.cc: a text split at a separator.
use talk_system.Prelude.{
  ◌==◌, if◌then◌else◌, length, get_elem?, is_empty, Text, has, ℕ, zero, suc, ◌+◌, ◌-◌, ◌≤◌, ◌≡◌,
  refl, sym, ap, ◌∙◌, ◌≢◌, Bool, true, false, not, ◌&&◌, Option, none, List, [], ◌∷◌, ◌++◌,
  append-nil, append_assoc, arith,
}

-- The first loop: `m_item_cnt`.
unfoldable pub separators : ℕ → Text → ℕ
separators sep [] = 0
separators sep (b ∷ s) = let rest = separators sep s in if b == sep then suc rest else rest

unfoldable pub item_cnt : ℕ → Text → ℕ
item_cnt sep s = 1 + separators sep s

abbrev pub next_start : Bool → Text → ℕ → Text
next_start true start b = []
next_start false start b = start ++ b ∷ []

-- The second loop, with the bytes between `start` and `pos`. A separator just at `start` is taken
-- for a byte of the item. The items are the slots that are filled.
unfoldable pub fill_items : ℕ → Text → Text → List Text
fill_items sep start [] = if is_empty start then [] else start ∷ []
fill_items sep start (b ∷ s) =
    let cut = not (is_empty start) && b == sep in
    let rest = fill_items sep (next_start cut start b) s in if cut then start ∷ rest else rest

unfoldable pub items : ℕ → Text → List Text
items sep s = fill_items sep [] s

-- `GetItem`: beyond the filled slots, also below `m_item_cnt`, the pointer was never set.
unfoldable pub get_item : ℕ → Text → ℕ → Option Text
get_item sep s i = get_elem? (items sep s) i

-- What the class is for: fields, none of them empty or with a separator inside, joined by it.
abbrev pub AreFields : ℕ → List Text → Type 0
AreFields sep [] = Unit {0}
AreFields sep (f ∷ fs) = (is_empty f ≡ false) × (has sep f ≡ false) × AreFields sep fs

abbrev pub join : ℕ → List Text → Text
join sep [] = []
join sep (f ∷ []) = f
join sep (f ∷ g ∷ fs) = f ++ (sep ∷ join sep (g ∷ fs))

fill_field :
    (sep : ℕ) (start f rest : Text)
    → has sep f ≡ false
    → fill_items sep start (f ++ rest) ≡ fill_items sep (start ++ f) rest
unfolding fill_items
fill_field sep start [] rest h = ap (λ s. fill_items sep s rest) (sym (append-nil start))
fill_field sep start (b ∷ f) rest h =
    let no_cut : (not (is_empty start) && b == sep) ≡ false = ground arith in
    rw no_cut (
      fill_field sep (start ++ b ∷ []) f rest (ground arith)
      ∙ ap (λ s. fill_items sep s rest) (append_assoc start (b ∷ []) f))

fill_separator :
    (sep : ℕ) (f rest : Text)
    → is_empty f ≡ false
    → fill_items sep f (sep ∷ rest) ≡ f ∷ fill_items sep [] rest
unfolding fill_items
fill_separator sep f rest h =
    let cut : (not (is_empty f) && sep == sep) ≡ true = ground arith in rw cut

separators-append :
    (sep : ℕ) (s t : Text) → separators sep (s ++ t) ≡ separators sep s + separators sep t
unfolding separators
separators-append sep [] t = omega arith
separators-append sep (b ∷ s) t = ground (arith, separators-append sep s t)

separators-cons : (sep : ℕ) (s : Text) → separators sep (sep ∷ s) ≡ suc (separators sep s)
unfolding separators
separators-cons sep s = ground arith

separators_none : (sep : ℕ) (f : Text) → has sep f ≡ false → separators sep f ≡ 0
unfolding separators
separators_none sep [] h = refl
separators_none sep (b ∷ f) h = ground (arith, separators_none sep f)

-- Fields that are joined by the separator, none of them empty or with a separator inside, come back
-- as the items, and fill all of the slots.
pub items-join :
    (sep : ℕ) (fs : List Text)
    → AreFields sep fs
    → fs ≢ []
    → (items sep (join sep fs) ≡ fs) × (item_cnt sep (join sep fs) ≡ length fs)
unfolding items item_cnt
items-join sep [] a n = absurd (n refl)
items-join sep (f ∷ []) a n = (
  ap (fill_items sep []) (sym (append-nil f)) ∙ fill_field sep [] f [] a.1 ∙ last,
  omega (arith, separators_none sep f a.1),
)
  where
    last : fill_items sep f [] ≡ f ∷ []
    last = unfold fill_items in rw a.0
items-join sep (f ∷ g ∷ fs) a n =
    let r = items-join sep (g ∷ fs) a.2 (λ e. cc) in
    (
      fill_field sep [] f (sep ∷ join sep (g ∷ fs)) a.1
          ∙ fill_separator sep f (join sep (g ∷ fs)) a.0
          ∙ ap (◌∷◌ f) r.0,
      omega (
        arith,
        separators-append sep f (sep ∷ join sep (g ∷ fs)),
        separators_none sep f a.1,
        separators-cons sep (join sep (g ∷ fs)),
        r.1,
      ),
    )

fill_trailing :
    (sep : ℕ) (start s : Text)
    → length (fill_items sep start (s ++ sep ∷ [])) ≤ separators sep s + 1
unfolding fill_items separators
fill_trailing sep start [] = ground arith
fill_trailing sep start (b ∷ s) =
    ground (arith, fill_trailing sep (next_start (not (is_empty start) && b == sep) start b) s)

get_elem?-ge {ℓ} : {A : Type ℓ} (xs : List A) (i : ℕ) → length xs ≤ i → get_elem? xs i ≡ none
get_elem?-ge [] i h = refl
get_elem?-ge (x ∷ xs) zero h = absurd (omega arith)
get_elem?-ge (x ∷ xs) (suc i) h = get_elem?-ge xs i (omega arith)

-- A text that ends with the separator leaves the last of its `m_item_cnt` slots unset.
pub get_item_trailing :
    (sep : ℕ) (s : Text) → get_item sep (s ++ sep ∷ []) (item_cnt sep (s ++ sep ∷ []) - 1) ≡ none
unfolding get_item items item_cnt
get_item_trailing sep s = get_elem?-ge (fill_items sep [] (s ++ sep ∷ [])) _ (
    omega
      (arith, fill_trailing sep [] s, separators-append sep s (sep ∷ []), separators-cons sep []))
