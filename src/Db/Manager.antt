-- ===== src/Db/Manager.antt =====
-- `CDBManager` of db_proxy_server/DBPool.cc: the pools by their names, as the configuration lists
-- them.
pub mod Ready
use mathlib.Core.Option
use talk_system.Prelude.{◌==◌, if◌then◌else◌, Text, codes, ℕ, zero, suc, Option, none, some, map}
use talk_system.Prelude.Dict.{Dict, find, assign}
use talk_system.Base.Config.{Reader, get_config_name}
use talk_system.Base.Instances
use talk_system.Base.Instances.{key_of}
use talk_system.Cache.Pool.{Got, null, new}
use talk_system.Db.Pool
use talk_system.Db.Pool.{Pool}

-- What `Init` reads for a pool.
pub record Settings : Type 0 where
  pub host : Text
  pub port : Text
  pub dbname : Text
  pub username : Text
  pub password : Text
  pub max_conn_cnt : Text

abbrev pub settings_of :
    Option Text
    → Option Text
    → Option Text
    → Option Text
    → Option Text
    → Option Text
    → Option Settings
settings_of (some h) (some p) (some d) (some u) (some w) (some m) =
    some (record { host = h; port = p; dbname = d; username = u; password = w; max_conn_cnt = m })
settings_of _ _ _ _ _ _ = none

unfoldable pub settings : Reader → Text → Option Settings
settings r name =
    settings_of (get_config_name (key_of name "_host") r) (get_config_name (key_of name "_port") r)
      (get_config_name (key_of name "_dbname") r) (get_config_name (key_of name "_username") r)
      (get_config_name (key_of name "_password") r) (get_config_name (key_of name "_maxconncnt") r)

-- The new pool of a name, after `Init`, and its code. `code` is what `CDBConn::Init` gives for every
-- pool and address.
unfoldable pub make_pool : (Text → ℕ) → (Text → ℕ → ℕ) → Text → Settings → Pool × ℕ
make_pool atoi code name s =
    Pool.init (code name)
      (Pool.new name s.host (atoi s.port) s.username s.password s.dbname (atoi s.max_conn_cnt))

-- How `Init` ends: LOG_FATAL ends the process, with the code -1, or it returns, with the pools in the
-- map and its code.
pub data Ending : Type 0 where
  process_exits : Ending
  init_returns : Dict Pool → ℕ → Ending

-- The `return` that the body comes to: before those of 2 and 3 stands a LOG_FATAL.
abbrev pub leave : Dict Pool × ℕ → Ending
leave (m, zero) = init_returns m 0
leave (m, suc zero) = init_returns m 1
leave (m, suc (suc c)) = process_exits

-- `Init` of a new manager; `none` where it reads a slot that was never set.
unfoldable pub init : (Text → ℕ) → (Text → ℕ → ℕ) → Reader → Option Ending
init atoi code r =
    Option.map leave
      (Instances.init (settings r) (make_pool atoi code) (get_config_name (codes "DBInstances") r))

-- What a call of `getInstance` comes to.
pub data Instance : Type 0 where
  exited : Instance
  null_manager : Instance
  manager : Dict Pool → Instance

-- `getInstance`, with how `Init` ends: a manager that fails is deleted, and the next call tries again.
unfoldable pub get_instance : Ending → Option (Dict Pool) → Instance
get_instance e (some old) = manager old
get_instance process_exits none = exited
get_instance (init_returns m code) none = if code == 0 then manager m else null_manager

-- `GetDBConn(dbpool_name)`.
unfoldable pub get_db_conn : (Text → ℕ → ℕ) → Text → Dict Pool → Dict Pool × Got
get_db_conn code name m = elim (find name m) [
  | none ↦ (m, null)
  | some p ↦ (assign name (Pool.get_db_conn (code name) p).0 m, (Pool.get_db_conn (code name) p).1)
]

-- `RelDBConn`, of a connection with the name of its pool; `none` is NULL.
unfoldable pub rel_db_conn : Option (Text × ℕ) → Dict Pool → Dict Pool
rel_db_conn none m = m
rel_db_conn (some (name, c)) m = elim (find name m) [
  | none ↦ m
  | some p ↦ assign name (Pool.rel_db_conn c p) m
]
