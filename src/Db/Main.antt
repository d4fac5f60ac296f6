-- ===== src/Db/Main.antt =====
-- `main` of db_proxy_server/db_proxy_server.cc, up to the start of its server, with DBServer.cc.
pub mod Serves
mod Tests
use talk_system.Prelude.{
  ◌==◌, if◌then◌else◌, length, Text, codes, text_eq, ℕ, ◌%◌, ◌^◌, Bool, false, not, Option, none,
  some, List, [], ◌∷◌,
}
use talk_system.Prelude.Dict.{Dict}
use talk_system.Prelude.Int.{ℤ, pos, negsuc}
use talk_system.Base.Config.{Reader, get_config_name}
use talk_system.Cache.Manager as CacheManager
use talk_system.Cache.Pool.{Pool as CachePool, init}
use talk_system.Db.Manager as DbManager
use talk_system.Db.Pool.{Pool}

-- `main` returns, or LOG_FATAL ends the process, or its server listens, with so many loops, and the loop
-- of `main` runs.
pub data Outcome : Type 0 where
  returns : ℤ → Outcome
  exits : ℤ → Outcome
  serves : (ip : Text) (port threads : ℕ) → Outcome

-- `(argc == 2) && (strcmp(argv[1], "-v") == 0)`.
abbrev pub is_version : List Text → Bool
is_version (program ∷ flag ∷ []) = text_eq flag (codes "-v")
is_version _ = false

-- `getInstance` in a process that has no manager yet, with the outcome of `Init`.
abbrev pub db_instance : Option DbManager.Ending → Option DbManager.Instance
db_instance none = none
db_instance (some o) = some (DbManager.get_instance o none)

abbrev pub cache_instance : Option (Dict CachePool × ℕ) → Option (Option (Dict CachePool))
cache_instance none = none
cache_instance (some o) = some (CacheManager.get_instance o none)

-- `CDBServer::CDBServer` asks for this number of threads.
abbrev pub thread_num : ℕ
thread_num = 48

-- The part of `main` behind the managers; `ThreadNum` is read, but the server does not use it.
abbrev pub check_key : (Text → ℕ) → Text → Text → Text → Outcome
check_key atoi ip port key =
    if not (length key == 32) then returns (negsuc 1) else serves ip (atoi port % 2 ^ 16) thread_num

abbrev pub settings_of :
    (Text → ℕ) → Option Text → Option Text → Option Text → Option Text → Option Text → Outcome
settings_of atoi (some ip) (some port) (some threads) (some site) (some key) =
    check_key atoi ip port key
settings_of atoi _ _ _ _ _ = returns (negsuc 0)

unfoldable pub settings : (Text → ℕ) → Reader → Outcome
settings atoi r =
    settings_of atoi (get_config_name (codes "ListenIP") r) (get_config_name (codes "ListenPort") r)
      (get_config_name (codes "ThreadNum") r) (get_config_name (codes "MsfsSite") r)
      (get_config_name (codes "aesKey") r)

abbrev pub with_cache : (Text → ℕ) → Reader → Option (Option (Dict CachePool)) → Option Outcome
with_cache atoi r none = none
with_cache atoi r (some none) = some (returns (negsuc 0))
with_cache atoi r (some (some cache)) = some (settings atoi r)

abbrev pub with_db :
    (Text → ℕ)
    → Reader
    → Option DbManager.Instance
    → Option (Option (Dict CachePool))
    → Option Outcome
with_db atoi r none cache = none
with_db atoi r (some DbManager.exited) cache = some (exits (negsuc 0))
with_db atoi r (some DbManager.null_manager) cache = some (returns (negsuc 0))
with_db atoi r (some (DbManager.manager db)) cache = with_cache atoi r cache

-- `main`; `none` where a manager reads a slot that was never set. `code` and `connects` say how the
-- connections to MySQL and redis come up.
unfoldable pub main :
    (Text → ℕ) → (Text → ℕ → ℕ) → (Text → ℕ → Bool) → Reader → List Text → Option Outcome
main atoi code connects r args =
    if is_version args
    then some (returns (pos 0))
    else with_db atoi r (db_instance (DbManager.init atoi code r))
        (cache_instance (CacheManager.init atoi connects r))
