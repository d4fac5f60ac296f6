-- ===== src/Db/Statement.antt =====
-- `CPrepareStatement`. What the library answers is an argument. A bound parameter is a pointer to the
-- caller's variable; the library reads there when the statement is executed, and what lies there then is
-- an argument too.
pub mod Bound
use talk_system.Prelude.{
  ltb, leb, ◌==◌, if◌then◌else◌, length, get_elem?, replicate, length-replicate, is_empty, Text, ℕ,
  zero, suc, ◌-◌, ◌%◌, ◌^◌, ◌<◌, ◌≡◌, refl, ap, Bool, true, false, not, ◌&&◌, some, List, [], ◌∷◌,
  map, arith,
}
use talk_system.Prelude.Int.{ℤ, pos, negsuc}

-- `buffer_type` with the address in `buffer`, and `buffer_length` for a string; `unset` is what `memset`
-- leaves. `is_unsigned` stays 0 everywhere.
pub data Bind : Type 0 where
  unset : Bind
  type_long : (buffer : ℕ) → Bind
  type_string : (buffer buffer_length : ℕ) → Bind

-- What lies at an address: the 32 bits as a number without a sign, and so many bytes.
pub record Memory : Type 0 where
  pub word_at : ℕ → ℕ
  pub bytes_at : ℕ → ℕ → Text

-- A value as the library sends it.
pub data Sent : Type 0 where
  nothing : Sent
  number : ℤ → Sent
  string : Text → Sent

-- 32 bits as a number with a sign.
abbrev pub signed : ℕ → ℤ
signed w = if ltb w (2 ^ 31) then pos w else negsuc (2 ^ 32 - 1 - w)

-- What MYSQL_TYPE_LONG with `is_unsigned` 0, and MYSQL_TYPE_STRING, say of the memory.
abbrev pub sent : Memory → Bind → Sent
sent m unset = nothing
sent m (type_long a) = number (signed (m.word_at a))
sent m (type_string a n) = string (m.bytes_at a n)

pub record Statement : Type 0 where
  pub stmt : Bool
  pub param_bind : List Bind
  pub param_cnt : ℕ

unfoldable pub new : Statement
new = record { stmt = false; param_bind = []; param_cnt = 0 }

-- `Init`, with whether `mysql_stmt_init` and `mysql_stmt_prepare` succeed, and the parameters that
-- the library counts in the statement.
unfoldable pub init : Bool → Bool → ℕ → Statement → Statement × Bool
init inits prepares params s =
    if not inits
    then (record s { stmt = false }, false)
    else if not prepares
    then (record s { stmt = true }, false)
    else (
      record {
        stmt = true;
        param_bind = if ltb 0 params then replicate params unset else s.param_bind;
        param_cnt = params;
      },
      true,
    )

abbrev pub put_bind : List Bind → ℕ → Bind → List Bind
put_bind [] i b = []
put_bind (x ∷ xs) zero b = b ∷ xs
put_bind (x ∷ xs) (suc i) b = x ∷ put_bind xs i b

abbrev pub set_bind : ℕ → Bind → Statement → Statement
set_bind i b s =
    if leb s.param_cnt i then s else record s { param_bind = put_bind s.param_bind i b }

-- The overloads of `SetParam`, with the address of the variable, or of the string's bytes with its size.
unfoldable pub set_param_int : ℕ → (address : ℕ) → Statement → Statement
set_param_int i address s = set_bind i (type_long address) s

unfoldable pub set_param_uint : ℕ → (address : ℕ) → Statement → Statement
set_param_uint i address s = set_bind i (type_long address) s

unfoldable pub set_param_string : ℕ → (address size : ℕ) → Statement → Statement
set_param_string i address size s = set_bind i (type_string address size) s

unfoldable pub set_param_const_string : ℕ → (address size : ℕ) → Statement → Statement
set_param_const_string i address size s = set_bind i (type_string address size) s

-- What an execution sends.
unfoldable pub sent_values : Memory → Statement → List Sent
sent_values m s = map (sent m) s.param_bind

-- `ExecuteUpdate`, with what lies in memory, whether binding and execution succeed, and the affected
-- rows for what is sent.
unfoldable pub execute_update : Memory → Bool → Bool → (List Sent → ℕ) → Statement → Bool
execute_update m binds executes affected s =
    s.stmt && (binds && (executes && not (affected (sent_values m s) == 0)))

-- `GetInsertId`, which keeps 32 bits of what `mysql_stmt_insert_id` gives.
unfoldable pub get_insert_id : ℕ → ℕ
get_insert_id id = id % 2 ^ 32

-- The destructor, with whether it calls `mysql_stmt_close`, and `delete []`; no array is an empty one.
unfoldable pub destroy : Statement → Statement × Bool × Bool
destroy s = (record s { stmt = false; param_bind = [] }, s.stmt, not (is_empty s.param_bind))

-- The array has as many places as there are parameters.
pub record IsValid (s : Statement) : Type 0 where
  pub sized : length s.param_bind ≡ s.param_cnt

pub length-put_bind : (xs : List Bind) (i : ℕ) (b : Bind) → length (put_bind xs i b) ≡ length xs
length-put_bind [] i b = refl
length-put_bind (x ∷ xs) zero b = refl
length-put_bind (x ∷ xs) (suc i) b = ap suc (length-put_bind xs i b)

pub get_elem?-put_bind :
    (xs : List Bind) (i j : ℕ) (b : Bind)
    → i < length xs
    → get_elem? (put_bind xs i b) j ≡ (if i == j then some b else get_elem? xs j)
get_elem?-put_bind [] i j b h = absurd (omega arith)
get_elem?-put_bind (x ∷ xs) zero zero b h = ground arith
get_elem?-put_bind (x ∷ xs) zero (suc j) b h = ground arith
get_elem?-put_bind (x ∷ xs) (suc i) zero b h = ground arith
get_elem?-put_bind (x ∷ xs) (suc i) (suc j) b h = ground (arith, get_elem?-put_bind xs i j b)

-- On a statement with a place for each parameter, `SetParam` writes its own place and no other, nothing
-- at all for an index that is too large, and the places stay as many as the parameters.
pub set_param_string_lem :
    (i j address size : ℕ) (s : Statement)
    → IsValid s
    → let t = set_param_string i address size s in
      IsValid t
      × (get_elem? t.param_bind j ≡ (
          if ltb i s.param_cnt && i == j
          then some (type_string address size)
          else get_elem? s.param_bind j))
unfolding set_param_string
set_param_string_lem i j address size s v = ground (
  arith,
  length-put_bind s.param_bind i (type_string address size),
  get_elem?-put_bind s.param_bind i j (type_string address size),
)

-- A fresh statement has a place for each parameter after `Init`, whatever that gives.
pub init-IsValid : (inits prepares : Bool) (params : ℕ) → IsValid (init inits prepares params new).0
unfolding init new
init-IsValid inits prepares params = ground (arith, length-replicate params unset)
