-- ===== src/Db/Conn.antt =====
-- `CDBConn`, with the answers of the MySQL library as arguments.
use talk_system.Prelude.{
  ltb, if◌then◌else◌, length, Text, ℕ, ◌+◌, ◌*◌, ◌/◌, ◌%◌, ◌^◌, ◌≤◌, Bool, true, false, not, Option,
  none, some, List, [], arith,
}
use talk_system.Db.ResultSet
use talk_system.Db.ResultSet.{ResultSet, Row}

-- `m_mysql` is a handle or null.
pub record Conn : Type 0 where
  pub mysql : Bool

-- What the library does during one call: whether `mysql_init` and `mysql_real_connect` succeed, the
-- outcome of `mysql_real_query`, what `mysql_store_result` holds, and the affected rows.
pub record Library : Type 0 where
  pub inits : Bool
  pub connects : Bool
  pub query : Text → Bool
  pub store_result : Text → Option (List Text × List Row)
  -- -1 is `none`.
  pub affected_rows : Text → Option ℕ
  pub escape : Text → Text

unfoldable pub new : Conn
new = record { mysql = false }

-- `Init`, with its code.
unfoldable pub init : Library → Conn → Conn × ℕ
init l c =
    if not l.inits
    then (record c { mysql = false }, 1)
    else if not l.connects
    then (record c { mysql = true }, 2)
    else (record c { mysql = true }, 0)

-- The destructor, which does nothing: a handle stays open.
unfoldable pub destroy : Conn → Conn
destroy c = c

-- `GetInsertId`, which keeps 32 bits of what `mysql_insert_id` gives.
unfoldable pub get_insert_id : ℕ → ℕ
get_insert_id id = id % 2 ^ 32

abbrev pub result_set : Option (List Text × List Row) → Option ResultSet
result_set none = none
result_set (some (fields, rows)) = some (ResultSet.new fields rows)

-- `ExecuteQuery`; `none` is NULL.
unfoldable pub execute_query : Library → Text → Option ResultSet
execute_query l sql = if l.query sql then result_set (l.store_result sql) else none

-- `mysql_affected_rows` is a `my_ulonglong`, so its -1 counts as positive.
abbrev pub is_positive : Option ℕ → Bool
is_positive none = true
is_positive (some n) = ltb 0 n

unfoldable pub execute_update : Library → Text → Bool
execute_update l sql = if l.query sql then is_positive (l.affected_rows sql) else false

abbrev pub max_escape_string_len : ℕ
max_escape_string_len = 10240

-- `EscapeString`: what `m_escape_string` holds then.
unfoldable pub escape_string : Library → Text → Text
escape_string l content =
    if ltb (max_escape_string_len / 2) (length content) then [] else l.escape content

-- Where escaping at most doubles the length, as the library documents, the buffer of
-- `MAX_ESCAPE_STRING_LEN + 1` bytes has room for the result and its NUL.
pub escape_string_fits :
    (l : Library) (content : Text)
    → (length (l.escape content) ≤ 2 * length content)
    → length (escape_string l content) + 1 ≤ max_escape_string_len + 1
unfolding escape_string
escape_string_fits l content h = ground arith
