-- ===== src/Cache/Manager.antt =====
-- `CacheManager`: the pools by their names, as the configuration lists them.
pub mod Ready
use Prim.Native.String.{String}
use talk_system.Prelude.{◌==◌, if◌then◌else◌, Text, codes, ℕ, Bool, Option, none, some}
use talk_system.Prelude.Dict.{Dict, insert, find, assign, or_else, find-insert_any}
use talk_system.Base.Instances
use talk_system.Base.Instances.{key_of}
use talk_system.Base.Config.{Reader, get_config_name}
use talk_system.Cache.Pool
use talk_system.Cache.Pool.{Pool, new, init_loop, Got, null, round}

-- What `Init` reads for a pool.
pub record Settings : Type 0 where
  pub host : Text
  pub port : Text
  pub db : Text
  pub max_conn_cnt : Text

abbrev pub settings_of : Option Text → Option Text → Option Text → Option Text → Option Settings
settings_of (some h) (some p) (some d) (some m) =
    some (record { host = h; port = p; db = d; max_conn_cnt = m })
settings_of _ _ _ _ = none

unfoldable pub settings : Reader → Text → Option Settings
settings r name =
    settings_of (get_config_name (key_of name "_host") r) (get_config_name (key_of name "_port") r)
      (get_config_name (key_of name "_db") r) (get_config_name (key_of name "_maxconncnt") r)

-- The new pool of a name, after `Init`, and its code. `connects` says for every pool and address
-- whether the connection comes up.
unfoldable pub make_pool : (Text → ℕ) → (Text → ℕ → Bool) → Text → Settings → Pool × ℕ
make_pool atoi connects name s =
    Pool.init (connects name) (Pool.new name s.host (atoi s.port) (atoi s.db) (atoi s.max_conn_cnt))

-- `Init` of a new manager; `none` where it reads a slot that was never set.
unfoldable pub init : (Text → ℕ) → (Text → ℕ → Bool) → Reader → Option (Dict Pool × ℕ)
init atoi connects r =
    Instances.init (settings r) (make_pool atoi connects)
      (get_config_name (codes "CacheInstances") r)

-- `getInstance`, with the outcome of `Init`: a manager that fails is deleted, and the next call tries
-- again.
unfoldable pub get_instance : Dict Pool × ℕ → Option (Dict Pool) → Option (Dict Pool)
get_instance (m, code) (some old) = some old
get_instance (m, code) none = if code == 0 then some m else none

-- `GetCacheConn(pool_name)`.
unfoldable pub get_cache_conn : (Text → ℕ → Bool) → Text → Dict Pool → Dict Pool × Got
get_cache_conn connects name m = elim (find name m) [
  | none ↦ (m, null)
  | some p ↦ (
    assign name (Pool.get_cache_conn (connects name) p).0 m,
    (Pool.get_cache_conn (connects name) p).1,
  )
]

-- `RelCacheConn`, of a connection with the name of its pool; `none` is NULL.
unfoldable pub rel_cache_conn : Option (Text × ℕ) → Dict Pool → Dict Pool
rel_cache_conn none m = m
rel_cache_conn (some (name, c)) m = elim (find name m) [
  | none ↦ m
  | some p ↦ assign name (Pool.rel_cache_conn c p) m
]
