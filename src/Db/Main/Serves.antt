-- ===== src/Db/Main/Serves.antt =====
-- What holds when `main` of db_proxy_server/db_proxy_server.cc starts to serve.
use talk_system.Prelude.{
  if◌then◌else◌, length, Text, codes, ℕ, zero, suc, ◌%◌, ◌^◌, ◌≡◌, refl, ap, Bool, true, false,
  Option, none, some, List, arith,
}
use talk_system.Prelude.Dict.{Dict}
use talk_system.Prelude.Int.{pos}
use talk_system.Base.Config.{Reader, get_config_name}
use talk_system.Base.Instances.Found.{AllUp}
use talk_system.Cache.Manager as CacheManager
use talk_system.Cache.Manager.Ready as CacheReady
use talk_system.Cache.Pool.{Pool as CachePool}
use talk_system.Db.Manager as DbManager
use talk_system.Db.Manager.Ready as DbReady
use talk_system.Db.Pool.{Pool}
use talk_system.Db.Main.{
  returns, serves, is_version, db_instance, cache_instance, settings, with_cache, with_db, main,
  check_key, settings_of,
}

module _ (atoi : Text → ℕ) (r : Reader) (ip : Text) (port threads : ℕ) where
  with_db-serves :
      (o : Option DbManager.Ending) (c : Option (Option (Dict CachePool)))
      → with_db atoi r (db_instance o) c ≡ some (serves ip port threads)
      → (n : Dict Pool) × (o ≡ some (DbManager.init_returns n 0))
        × (with_cache atoi r c ≡ some (serves ip port threads))
  unfolding DbManager.get_instance
  with_db-serves none c e = cc
  with_db-serves (some DbManager.process_exits) c e = cc
  with_db-serves (some (DbManager.init_returns n zero)) c e = (n, refl, e)
  with_db-serves (some (DbManager.init_returns n (suc k))) c e = absurd (ground arith)

  with_cache-serves :
      (o : Option (Dict CachePool × ℕ))
      → with_cache atoi r (cache_instance o) ≡ some (serves ip port threads)
      → (n : Dict CachePool) × (o ≡ some (n, 0)) × (settings atoi r ≡ serves ip port threads)
  unfolding CacheManager.get_instance
  with_cache-serves none e = cc
  with_cache-serves (some (n, zero)) e = (n, refl, cc)
  with_cache-serves (some (n, suc k)) e = absurd (ground arith)

  -- The settings that the server is started with.
  abbrev pub Settled : Type 0
  Settled =
      (get_config_name (codes "ListenIP") r ≡ some ip)
      × ((text : Text) × (get_config_name (codes "ListenPort") r ≡ some text)
          × (port ≡ atoi text % 2 ^ 16))
      × (threads ≡ 48)
      × (key : Text) × (get_config_name (codes "aesKey") r ≡ some key)
      × (length key ≡ 32)

  key-serves :
      (a b k : Text)
      → check_key atoi a b k ≡ serves ip port threads
      → (a ≡ ip) × (port ≡ atoi b % 2 ^ 16) × (threads ≡ 48) × (length k ≡ 32)
  key-serves a b k h = ground arith

  settings_of-serves :
      (a b c d e : Option Text)
      → settings_of atoi a b c d e ≡ serves ip port threads
      → (a ≡ some ip)
        × ((text : Text) × (b ≡ some text) × (port ≡ atoi text % 2 ^ 16))
        × (threads ≡ 48)
        × (key : Text) × (e ≡ some key)
        × (length key ≡ 32)
  settings_of-serves (some a) (some b) (some c) (some d) (some e) h =
      let s = key-serves a b e h in (ap some s.0, (b, refl, s.1), s.2, e, refl, s.3)
  settings_of-serves none b c d e h = cc
  settings_of-serves (some a) none c d e h = cc
  settings_of-serves (some a) (some b) none d e h = cc
  settings_of-serves (some a) (some b) (some c) none e h = cc
  settings_of-serves (some a) (some b) (some c) (some d) none h = cc

  settings-serves : settings atoi r ≡ serves ip port threads → Settled
  unfolding settings
  settings-serves e =
      settings_of-serves (get_config_name (codes "ListenIP") r)
        (get_config_name (codes "ListenPort") r) (get_config_name (codes "ThreadNum") r)
        (get_config_name (codes "MsfsSite") r) (get_config_name (codes "aesKey") r) e

-- When `main` starts the server, each instance of MySQL and of redis that the configuration lists has
-- a pool of its name with two free connections, the key for AES has 32 bytes, and the server listens
-- at the configured ListenIP, on the low 16 bits of the number that ListenPort reads as, with 48 loops,
-- whatever `ThreadNum` says.
pub main-serves :
    (atoi : Text → ℕ) (code : Text → ℕ → ℕ) (connects : Text → ℕ → Bool) (r : Reader)
    (args : List Text) (ip : Text) (port threads : ℕ)
    → main atoi code connects r args ≡ some (serves ip port threads)
    → ((n : Dict Pool) × (DbManager.init atoi code r ≡ some (DbManager.init_returns n 0))
        × AllUp DbReady.IsReady (get_config_name (codes "DBInstances") r) n)
      × ((n : Dict CachePool) × (CacheManager.init atoi connects r ≡ some (n, 0))
          × AllUp CacheReady.IsReady (get_config_name (codes "CacheInstances") r) n)
      × Settled atoi r ip port threads
unfolding main
main-serves atoi code connects r args ip port threads e = pick (is_version args) e
  where
    db : Option DbManager.Ending
    db = DbManager.init atoi code r

    cache : Option (Dict CachePool × ℕ)
    cache = CacheManager.init atoi connects r

    Serving : Type 0
    Serving =
        ((n : Dict Pool) × (db ≡ some (DbManager.init_returns n 0))
          × AllUp DbReady.IsReady (get_config_name (codes "DBInstances") r) n)
        × ((n : Dict CachePool) × (cache ≡ some (n, 0))
            × AllUp CacheReady.IsReady (get_config_name (codes "CacheInstances") r) n)
        × Settled atoi r ip port threads

    pick :
        (b : Bool)
        → (if b
            then some (returns (pos 0))
            else with_db atoi r (db_instance db) (cache_instance cache))
          ≡ some (serves ip port threads)
        → Serving
    pick true f = cc
    pick false f =
        let (n, a, g) = with_db-serves atoi r ip port threads db (cache_instance cache) f in
        let (m, b, h) = with_cache-serves atoi r ip port threads cache g in
        (
          (n, a, DbReady.init_all atoi code r n a),
          (m, b, CacheReady.init_all atoi connects r m b),
          settings-serves atoi r ip port threads h,
        )
