-- ===== src/Base/Config/Trip.antt =====
-- What `_WriteFIle` writes is what `_LoadFile` reads back.
use talk_system.Prelude.{
  if◌then◌else◌, length, length-append, take_long, is_empty, Text, has, text_eq, ℕ, zero, suc, ◌+◌,
  ◌≤◌, ◌≡◌, refl, sym, ap, ap₂, ◌∙◌, Bool, true, false, ◌||◌, Option, none, some, [], ◌∷◌, ◌++◌,
  append_assoc, arith,
}
use talk_system.Prelude.Dict.{Dict, insert, find, or_else, assign, find-assign, find-insert_any}
use talk_system.Base.Config.{
  Reader, trim_space, parse_line, newline, line_room, fgets_all, load_line, load_lines, pair_room,
  pair_line, written, insert_both, load, get_config_name, write_pairs, set_config_value,
}
use talk_system.Base.Config.Lines.{fgets_all-line, chomp-newline, split_at-none, split_at_first}

-- A key or value that the file format carries: not empty, without blanks at its ends, and free of
-- newlines and `#`.
pub record IsWord (s : Text) : Type 0 where
  pub trimmed : trim_space s ≡ some s
  pub one_line : has newline s ≡ false
  pub no_comment : has b'#' s ≡ false

-- An entry whose line fits into `szPaire`; the key has no `=`.
pub record IsEntry (k v : Text) : Type 0 where
  pub key : IsWord k
  pub key_ends : has b'=' k ≡ false
  pub value : IsWord v
  pub fits : length k + length v + 2 ≤ pair_room

abbrev pub AreEntries : Dict Text → Type 0
AreEntries [] = Unit {0}
AreEntries ((k, v) ∷ m) = IsEntry k v × AreEntries m

has-append : (b : ℕ) (s t : Text) → has b (s ++ t) ≡ (has b s || has b t)
has-append b [] t = refl
has-append b (c ∷ s) t = ground (arith, has-append b s t)

abbrev line_text : Text → Text → Text
line_text k v = k ++ (b'=' ∷ v)

length-line_text : (k v : Text) → length (line_text k v) ≡ length k + length v + 1
length-line_text k v = omega (arith, length-append k (b'=' ∷ v))

pair_line_lem : (k v : Text) → IsEntry k v → pair_line k v ≡ line_text k v ++ newline ∷ []
unfolding pair_line
pair_line_lem k v e =
    take_long pair_room (k ++ (b'=' ∷ (v ++ newline ∷ []))) (
      omega (
        arith,
        length-append k (b'=' ∷ (v ++ newline ∷ [])),
        length-append v (newline ∷ []),
        e.fits,
      ))
    ∙ sym (append_assoc k (b'=' ∷ v) (newline ∷ []))

line_filled : (k v : Text) → is_empty (line_text k v) ≡ false
line_filled [] v = refl
line_filled (b ∷ k) v = refl

load_line_lem :
    (k v : Text) (m : Dict Text)
    → IsEntry k v
    → load_line (line_text k v ++ newline ∷ []) m ≡ insert k v m
unfolding load_line parse_line
load_line_lem k v m e =
    rw (chomp-newline (line_text k v))
      (rw (split_at-none b'#' (line_text k v) free) (rw (line_filled k v) parsed))
  where
    free : has b'#' (line_text k v) ≡ false
    free = ground (arith, has-append b'#' k (b'=' ∷ v), e.key.no_comment, e.value.no_comment)

    parsed : parse_line (line_text k v) m ≡ insert k v m
    parsed =
        ap
          (λ (p : Text × Option Text). elim p.1 [
            | none ↦ m
            | some after ↦ insert_both (trim_space p.0) (trim_space after) m
          ])
          (split_at_first b'=' k v e.key_ends)
        ∙ ap₂ (λ a b. insert_both a b m) e.key.trimmed e.value.trimmed

find_cons :
    (j k v : Text) (m : Dict Text)
    → find k ((j, v) ∷ m) ≡ (if text_eq j k then some v else find k m)
unfolding find
find_cons j k v m = refl

-- Writing out entries that the format carries and reading the file again finds for every key what the
-- entries say, after what was in the map before.
pub load_lines-written :
    (entries m : Dict Text) (k : Text)
    → AreEntries entries
    → find k (load_lines (fgets_all line_room [] (written entries)) m)
      ≡ or_else (find k m) (find k entries)
unfolding written load_lines
load_lines-written [] m k a = unfold fgets_all find in ground arith
load_lines-written ((j, v) ∷ entries) m k a =
    ap (λ f. find k (load_lines (fgets_all line_room [] (f ++ written entries)) m))
      (pair_line_lem j v a.0)
    ∙ ap (λ f. find k (load_lines (fgets_all line_room [] f) m))
        (append_assoc (line_text j v) (newline ∷ []) (written entries))
    ∙ ap (λ ls. find k (load_lines ls m))
        (fgets_all-line (line_text j v) (written entries) one
          (omega (arith, length-line_text j v, a.0.fits)))
    ∙ first
    ∙ load_lines-written entries (insert j v m) k a.1
    ∙ ground (arith, find-insert_any j k v m, find_cons j k v entries)
  where
    one : has newline (line_text j v) ≡ false
    one = ground (arith, has-append newline j (b'=' ∷ v), a.0.key.one_line, a.0.value.one_line)

    first :
        find k (
          load_lines ((line_text j v ++ newline ∷ []) ∷ fgets_all line_room [] (written entries)) m)
        ≡ find k (load_lines (fgets_all line_room [] (written entries)) (insert j v m))
    first =
        ap (λ n. find k (load_lines (fgets_all line_room [] (written entries)) n))
          (load_line_lem j v m a.0)

write_pairs_all : (n : ℕ) (m : Dict Text) → length m ≤ n → write_pairs n m ≡ (written m, true)
unfolding write_pairs written
write_pairs_all n [] h = ground arith
write_pairs_all zero ((k, v) ∷ m) h = absurd (omega arith)
write_pairs_all (suc n) ((k, v) ∷ m) h = ground (arith, write_pairs_all n m (omega arith))

-- `SetConfigValue` on a reader that is loaded, where the disk does its part and all entries are of
-- the kind that the format carries, succeeds; `GetConfigName` then gives the new value and leaves the
-- other names alone, and so it does on a reader that loads the file again.
pub set_config_value_lem :
    (n : ℕ) (name value key : Text) (r : Reader) (garbage : Bool)
    → r.load_ok ≡ true
    → AreEntries (assign name value r.config_map)
    → length (assign name value r.config_map) ≤ n
    → let (r', file, ok) = set_config_value true n name value r in
      let found = if text_eq name key then some value else find key r.config_map in
      (ok ≡ true)
      × (get_config_name key r' ≡ found)
      × (get_config_name key (load garbage file) ≡ found)
unfolding set_config_value get_config_name load find
set_config_value_lem n name value key r garbage up a h =
    rw (up, if◌then◌else◌)
      (rw (write_pairs_all n (assign name value r.config_map) h) (
        refl,
        find-assign name key value r.config_map,
        load_lines-written (assign name value r.config_map) [] key a
            ∙ find-assign name key value r.config_map,
      ))
