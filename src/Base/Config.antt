-- ===== src/Base/Config.antt =====
-- common/base/CConfigFileReader.h and CConfigFileReader.cc. A file is its bytes, none of them NUL.
pub mod Lines
pub mod Trip
use talk_system.Prelude.{
  leb, ◌==◌, if◌then◌else◌, take, is_empty, Text, ℕ, zero, suc, ◌-◌, Bool, true, false, ◌&&◌, ◌||◌,
  Option, none, some, List, [], ◌∷◌, ◌++◌,
}
use talk_system.Prelude.Dict.{Dict, find, assign, insert}

-- `m_config_file` is fixed, and left out. `m_load_ok` is not set by the constructor unless the file
-- opens, so its first value is an argument of `load`.
pub record Reader : Type 0 where
  pub load_ok : Bool
  pub config_map : Dict Text

abbrev pub is_blank : ℕ → Bool
is_blank b = b == b' ' || b == 0x09

unfoldable pub skip_blanks : Text → Text
skip_blanks [] = []
skip_blanks (b ∷ s) = let rest = skip_blanks s in if is_blank b then rest else b ∷ s

-- The text without the blanks at its end.
unfoldable pub drop_blanks : Text → Text
drop_blanks [] = []
drop_blanks (b ∷ s) =
    let rest = drop_blanks s in if is_blank b && is_empty rest then [] else b ∷ rest

-- `_TrimSpace`, which gives NULL for a text of blanks.
unfoldable pub trim_space : Text → Option Text
trim_space s = if is_empty (skip_blanks s) then none else some (drop_blanks (skip_blanks s))

-- The text before the first `b`, and the text behind it if there is one.
unfoldable pub split_at : ℕ → Text → Text × Option Text
split_at b [] = ([], none)
split_at b (c ∷ s) =
    let (before, after) = split_at b s in if c == b then ([], some s) else (c ∷ before, after)

abbrev pub insert_both : Option Text → Option Text → Dict Text → Dict Text
insert_both (some k) (some v) m = insert k v m
insert_both (some k) none m = m
insert_both none v m = m

-- `_ParseLine`.
unfoldable pub parse_line : Text → Dict Text → Dict Text
parse_line line m = elim (split_at b'=' line).1 [
  | none ↦ m
  | some after ↦ insert_both (trim_space (split_at b'=' line).0) (trim_space after) m
]

abbrev pub newline : ℕ
newline = 0x0a

-- `sizeof(buf) - 1`: what `fgets` reads at most.
abbrev pub line_room : ℕ
line_room = 255

-- The texts that `fgets` gives, one after the other, with the bytes of the one that is being read and
-- the room that is left for it.
unfoldable pub fgets_all : ℕ → Text → Text → List Text
fgets_all room line [] = if is_empty line then [] else line ∷ []
fgets_all room line (b ∷ s) =
    let full = b == newline || leb room 1 in
    let rest =
      fgets_all (if full then line_room else room - 1) (if full then [] else line ++ b ∷ []) s in
    if full then (line ++ b ∷ []) ∷ rest else rest

-- The newline at the end, if there is one, is removed.
unfoldable pub chomp : Text → Text
chomp [] = []
chomp (b ∷ s) = let rest = chomp s in if is_empty s && b == newline then [] else b ∷ rest

-- A round of the loop of `_LoadFile`.
unfoldable pub load_line : Text → Dict Text → Dict Text
load_line buf m =
    let line = (split_at b'#' (chomp buf)).0 in if is_empty line then m else parse_line line m

unfoldable pub load_lines : List Text → Dict Text → Dict Text
load_lines [] m = m
load_lines (l ∷ ls) m = load_lines ls (load_line l m)

-- `_LoadFile`, and so the constructor; `none` if the file does not open.
unfoldable pub load : Bool → Option Text → Reader
load garbage none = record { load_ok = garbage; config_map = [] }
load garbage (some file) = record {
  load_ok = true;
  config_map = load_lines (fgets_all line_room [] file) [];
}

unfoldable pub get_config_name : Text → Reader → Option Text
get_config_name name r = if r.load_ok then find name r.config_map else none

-- What `snprintf(szPaire, sizeof(szPaire), "%s=%s\n", …)` leaves in `szPaire`.
abbrev pub pair_room : ℕ
pair_room = 127

unfoldable pub pair_line : Text → Text → Text
pair_line key value = take pair_room (key ++ (b'=' ∷ (value ++ newline ∷ [])))

-- What `_WriteFIle` writes when every `fwrite` succeeds.
unfoldable pub written : Dict Text → Text
written [] = []
written ((k, v) ∷ m) = pair_line k v ++ written m

-- `_WriteFIle` up to the first `fwrite` that fails; `ok` says how many succeed. The return code is 0
-- or -1.
unfoldable pub write_pairs : ℕ → Dict Text → Text × Bool
write_pairs ok [] = ([], true)
write_pairs zero ((k, v) ∷ m) = ([], false)
write_pairs (suc ok) ((k, v) ∷ m) =
    let (rest, done) = write_pairs ok m in (pair_line k v ++ rest, done)

-- `SetConfigValue`: the reader, the file that is left (`none`: untouched), and whether the call gives
-- 0. `opens` and `ok` are what the disk does.
unfoldable pub set_config_value : Bool → ℕ → Text → Text → Reader → Reader × Option Text × Bool
set_config_value opens ok name value r =
    if r.load_ok
    then (let r' = record r { config_map = assign name value r.config_map } in
        if opens
        then (r', some (write_pairs ok r'.config_map).0, (write_pairs ok r'.config_map).1)
        else (r', none, false))
    else (r, none, false)
