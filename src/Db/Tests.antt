-- ===== src/Db/Tests.antt =====
-- The database on small inputs.
use talk_system.Prelude.{
  ltb, ◌==◌, if◌then◌else◌, get_elem?, Text, codes, text_eq, ℕ, ◌≡◌, refl, true, false, not, ◌&&◌,
  Option, none, some, List, [], ◌∷◌, ◌++◌,
}
use talk_system.Prelude.Int.{pos, negsuc}
use talk_system.Db.ResultSet.{Row}
use talk_system.Db.Statement
use talk_system.Db.Statement.{
  Statement, unset, execute_update, destroy, set_param_string, type_string, init-IsValid,
  set_param_string_lem, init, IsValid, Memory, number, sent_values,
}
use talk_system.Db.Statement.Bound.{
  Param, int, uint, text, set_params, last_for, count_of, set_params_lem, last_sent,
}
use talk_system.Db.Conn.{Library}
use talk_system.Db.Pool
use talk_system.Db.Pool.{
  get_db_conn, rel_db_conn, ledger_of, cache_ledger_of, get_db_conn-get_cache_conn, Pool,
}
use talk_system.Db.Login.{
  Found, Texts, Holds, user_of, do_login, do_login_one_row, do_login_unknown,
}
use talk_system.Cache.Pool as CachePool
use talk_system.Cache.Pool.{get_cache_conn, rel_cache_conn}

abbrev columns : List Text
columns =
    codes "id"
    ∷ codes "password"
    ∷ codes "salt"
    ∷ codes "nick"
    ∷ codes "sex"
    ∷ codes "name"
    ∷ codes "domain"
    ∷ codes "phone"
    ∷ codes "email"
    ∷ codes "avatar"
    ∷ codes "departId"
    ∷ codes "status"
    ∷ codes "sign_info"
    ∷ []

abbrev x : Option Text
x = some (codes "x")

abbrev row : Row
row = x ∷ some (codes "ps") ∷ some (codes "s") ∷ x ∷ x ∷ x ∷ x ∷ x ∷ x ∷ x ∷ x ∷ x ∷ x ∷ []

abbrev prepared : Statement
prepared = (Statement.init true true 2 Statement.new).0

-- A library that answers every query with the given rows.
abbrev answering : List Row → Library
answering rows = record {
  inits = true;
  connects = true;
  query = λ _. true;
  store_result = λ _. some (columns, rows);
  affected_rows = λ _. none;
  escape = λ s. s;
}

abbrev texts : Texts
texts = record {
  id = codes "x";
  password = codes "ps";
  salt = codes "s";
  nick = codes "x";
  sex = codes "x";
  name = codes "x";
  domain = codes "x";
  phone = codes "x";
  email = codes "x";
  avatar = codes "x";
  depart_id = codes "x";
  status = codes "x";
  sign_info = codes "x";
}

texts-Holds : Holds columns row texts
unfolding text_eq
texts-Holds = record {
  id_held = refl;
  password_held = refl;
  salt_held = refl;
  nick_held = refl;
  sex_held = refl;
  name_held = refl;
  domain_held = refl;
  phone_held = refl;
  email_held = refl;
  avatar_held = refl;
  depart_id_held = refl;
  status_held = refl;
  sign_info_held = refl;
}

do_login_one_row_example :
    do_login (λ _. pos 1) true (answering (row ∷ [])) (codes "u") (codes "p")
    ≡ some (
        if text_eq (codes "p" ++ texts.salt) texts.password
        then (true, some (user_of (λ _. pos 1) texts))
        else (false, none))
do_login_one_row_example =
    do_login_one_row (λ _. pos 1) (answering (row ∷ [])) (codes "u") (codes "p") columns row texts
      refl refl texts-Holds

do_login_unknown_example :
    (v : Found) × (do_login (λ _. pos 1) true (answering []) (codes "u") [] ≡ some (true, some v))
    × (v.id ≡ none)
do_login_unknown_example =
    do_login_unknown (λ _. pos 1) (answering []) (codes "u") columns refl refl

abbrev pool : Pool.Pool
pool = Pool.new [] [] 3306 [] [] [] 4

abbrev cache_pool : CachePool.Pool
cache_pool = CachePool.new [] [] 6379 0 4

get_db_conn-get_cache_conn_example :
    (ledger_of (get_db_conn (λ _. 0) pool).0
      ≡ cache_ledger_of (get_cache_conn (λ _. 0 == 0) cache_pool).0)
    × ((get_db_conn (λ _. 0) pool).1 ≡ (get_cache_conn (λ _. 0 == 0) cache_pool).1)
    × (ledger_of (rel_db_conn 1 pool) ≡ cache_ledger_of (rel_cache_conn 1 cache_pool))
    × ((Pool.destroy pool).1 ≡ (CachePool.destroy cache_pool).1)
unfolding Pool.new CachePool.new
get_db_conn-get_cache_conn_example = get_db_conn-get_cache_conn (λ _. 0) 1 pool cache_pool refl

-- Two places, of which the first is set twice, and an index that is too large.
abbrev set_calls : List (ℕ × Param)
set_calls = (0, int 100) ∷ (1, text 200 1) ∷ (0, uint 104) ∷ (2, uint 108) ∷ []

abbrev bound_twice : Statement
bound_twice = set_params (Statement.init true true 2 Statement.new).0 set_calls

-- The variable at 104 holds 2 ^ 32 - 1.
abbrev memory : Memory
memory = record { word_at = λ a. if a == 104 then 4294967295 else 7; bytes_at = λ a n. codes "x" }

set_params_lem_example :
    (get_elem? bound_twice.param_bind 0
      ≡ (if ltb 0 (count_of true 2) then some (last_for 0 set_calls unset) else none))
    × (get_elem? (sent_values memory bound_twice) 0
        ≡ (if ltb 0 (count_of true 2) then some (last_sent memory 0 set_calls) else none))
    × (execute_update memory true true (λ vs. 1) bound_twice
        ≡ (true && (true && (true && not (1 == 0)))))
    × ((destroy bound_twice).1 ≡ true)
    × ((destroy bound_twice).2 ≡ ltb 0 (count_of true 2))
    × ((destroy (destroy bound_twice).0).1 ≡ false)
    × ((destroy (destroy bound_twice).0).2 ≡ false)
set_params_lem_example = set_params_lem memory true true true true (λ vs. 1) 2 0 set_calls

-- What the library is sent for that variable.
minus_one : last_sent memory 0 set_calls ≡ number (negsuc 0)
minus_one = refl
