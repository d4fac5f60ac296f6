-- ===== src/Db/ResultSet.antt =====
-- `CResultSet`. The rows that the library still holds are a list; a cell is NULL or a text. `atoi` is
-- an argument where it is used.
use talk_system.Prelude.{
  if◌then◌else◌, get_elem?, Text, text_eq, ℕ, ◌+◌, ◌≡◌, ap, ◌∙◌, Bool, true, false, Option, none,
  some, List, [], ◌∷◌, arith,
}
use talk_system.Prelude.Int.{ℤ, pos}
use talk_system.Prelude.Dict.{Dict, insert, find, or_else, find-insert_any}

abbrev pub Row : Type 0
Row = List (Option Text)

-- `m_row` is `none` before the first `Next` and after the last one.
pub record ResultSet : Type 0 where
  pub rows : List Row
  pub row : Option Row
  pub key_map : Dict ℕ

-- The loop of the constructor over the fields' names.
unfoldable pub map_fields : ℕ → List Text → Dict ℕ → Dict ℕ
map_fields i [] m = m
map_fields i (f ∷ fs) m = map_fields (i + 1) fs (insert f i m)

unfoldable pub new : List Text → List Row → ResultSet
new fields rows = record { rows = rows; row = none; key_map = map_fields 0 fields [] }

-- The destructor, which frees the rows.
unfoldable pub destroy : ResultSet → ResultSet
destroy s = record s { rows = []; row = none }

abbrev pub fetch : ResultSet → List Row → ResultSet × Bool
fetch s [] = (record s { row = none }, false)
fetch s (r ∷ rs) = (record s { rows = rs; row = some r }, true)

-- `Next`.
unfoldable pub next : ResultSet → ResultSet × Bool
next s = fetch s s.rows

-- `_GetIndex`; `none` is -1.
unfoldable pub get_index : Text → ResultSet → Option ℕ
get_index key s = find key s.key_map

-- `m_row[idx]`: `none` where there is no row, or no such cell in it.
unfoldable pub cell : ℕ → ResultSet → Option (Option Text)
cell i s = elim s.row [ none ↦ none | some r ↦ get_elem? r i ]

-- `GetString`: the outer `none` is undefined behaviour, the inner one NULL.
unfoldable pub get_string : Text → ResultSet → Option (Option Text)
get_string key s = elim (get_index key s) [ none ↦ some none | some i ↦ cell i s ]

abbrev pub atoi_cell : (Text → ℤ) → Option (Option Text) → Option ℤ
atoi_cell atoi none = none
atoi_cell atoi (some none) = none
atoi_cell atoi (some (some t)) = some (atoi t)

-- `GetInt`: `atoi` of NULL is undefined behaviour too.
unfoldable pub get_int : (Text → ℤ) → Text → ResultSet → Option ℤ
get_int atoi key s = elim (get_index key s) [
  | none ↦ some (pos 0)
  | some i ↦ atoi_cell atoi (cell i s)
]

-- The position of the first field of that name.
abbrev pub index_of : Text → List Text → ℕ → Option ℕ
index_of k [] i = none
index_of k (f ∷ fs) i = let rest = index_of k fs (i + 1) in if text_eq f k then some i else rest

map_fields_lem :
    (k : Text) (fs : List Text) (i : ℕ) (m : Dict ℕ)
    → find k (map_fields i fs m) ≡ or_else (find k m) (index_of k fs i)
unfolding map_fields
map_fields_lem k [] i m = ground arith
map_fields_lem k (f ∷ fs) i m =
    map_fields_lem k fs (i + 1) (insert f i m) ∙ ground (arith, find-insert_any f k i m)

-- On the first row, `GetString` reads the cell under the first field of that name, and gives NULL for a name
-- that no field has.
pub get_string_lem :
    (k : Text) (fields : List Text) (r : Row) (rs : List Row)
    → get_string k (next (new fields (r ∷ rs))).0
      ≡ elim (index_of k fields 0) [ none ↦ some none | some i ↦ get_elem? r i ]
unfolding get_string get_index next new cell find
get_string_lem k fields r rs =
    ap (λ o. elim o [ none ↦ some none | some i ↦ get_elem? r i ]) (map_fields_lem k fields 0 [])

-- On the first row, `GetInt` reads the cell under the first field of that name.
pub get_int_lem :
    (atoi : Text → ℤ) (k : Text) (fields : List Text) (r : Row) (rs : List Row)
    → get_int atoi k (next (new fields (r ∷ rs))).0
      ≡ elim (index_of k fields 0) [ none ↦ some (pos 0) | some i ↦ atoi_cell atoi (get_elem? r i) ]
unfolding get_int get_index next new cell find
get_int_lem atoi k fields r rs =
    ap (λ o. elim o [ none ↦ some (pos 0) | some i ↦ atoi_cell atoi (get_elem? r i) ])
      (map_fields_lem k fields 0 [])

-- What a row holds under a field's name, where it holds something.
abbrev pub held : Option (Option Text) → Option Text
held none = none
held (some o) = o

abbrev pub value_of : Text → List Text → Row → Option Text
value_of k fields r = elim (index_of k fields 0) [ none ↦ none | some i ↦ held (get_elem? r i) ]

pub get_string_known :
    (k t : Text) (fields : List Text) (r : Row) (rs : List Row)
    → value_of k fields r ≡ some t
    → get_string k (next (new fields (r ∷ rs))).0 ≡ some (some t)
get_string_known k t fields r rs e = get_string_lem k fields r rs ∙ pick (index_of k fields 0) e
  where
    cell_known : (o : Option (Option Text)) → held o ≡ some t → o ≡ some (some t)
    cell_known none h = cc
    cell_known (some o) h = ap some h

    pick :
        (o : Option ℕ)
        → elim o [ none ↦ none | some i ↦ held (get_elem? r i) ] ≡ some t
        → elim o [ none ↦ some none | some i ↦ get_elem? r i ] ≡ some (some t)
    pick none h = cc
    pick (some i) h = cell_known (get_elem? r i) h

pub get_int_known :
    (atoi : Text → ℤ) (k t : Text) (fields : List Text) (r : Row) (rs : List Row)
    → value_of k fields r ≡ some t
    → get_int atoi k (next (new fields (r ∷ rs))).0 ≡ some (atoi t)
get_int_known atoi k t fields r rs e = get_int_lem atoi k fields r rs ∙ pick (index_of k fields 0) e
  where
    cell_known : (o : Option (Option Text)) → held o ≡ some t → atoi_cell atoi o ≡ some (atoi t)
    cell_known none h = cc
    cell_known (some none) h = cc
    cell_known (some (some u)) h = let same : u ≡ t = cc in ap (λ w. some (atoi w)) same

    pick :
        (o : Option ℕ)
        → elim o [ none ↦ none | some i ↦ held (get_elem? r i) ] ≡ some t
        → elim o [ none ↦ some (pos 0) | some i ↦ atoi_cell atoi (get_elem? r i) ] ≡ some (atoi t)
    pick none h = cc
    pick (some i) h = cell_known (get_elem? r i) h
