-- ===== src/Db/Main/Tests.antt =====
-- The managers of db_proxy_server/DBPool.cc and `main` of db_proxy_server.cc on a small configuration.
use talk_system.Prelude.{Text, codes, text_eq, ◌≡◌, refl, true, some, [], ◌∷◌}
use talk_system.Prelude.Dict.{Dict, find, assign, insert}
use talk_system.Base.Config.{Reader, get_config_name}
use talk_system.Base.Explode.{items, item_cnt, fill_items, separators}
use talk_system.Base.Instances
use talk_system.Base.Instances.{slots, init_slots, init}
use talk_system.Base.Instances.Found.{AllUp}
use talk_system.Cache.Manager as CacheManager
use talk_system.Cache.Manager.Ready as CacheReady
use talk_system.Cache.Pool as CachePool
use talk_system.Db.Pool
use talk_system.Db.Manager
use talk_system.Db.Manager.{get_db_conn, rel_db_conn, make_pool, get_instance, init_returns}
use talk_system.Db.Manager.Ready
use talk_system.Db.Manager.Ready.{Ended, IsReady, init-Stop}
use talk_system.Db.Main.{settings, main}
use talk_system.Db.Main.Serves.{Settled, main-serves}

abbrev key : Text
key = codes "01234567890123456789012345678901"

-- One instance of MySQL and one of redis.
abbrev reader : Reader
reader = record {
  load_ok = true;
  config_map =
      (codes "DBInstances", codes "d")
      ∷ (codes "d_host", codes "h")
      ∷ (codes "d_port", codes "1")
      ∷ (codes "d_dbname", codes "n")
      ∷ (codes "d_username", codes "u")
      ∷ (codes "d_password", codes "p")
      ∷ (codes "d_maxconncnt", codes "3")
      ∷ (codes "CacheInstances", codes "c")
      ∷ (codes "c_host", codes "h")
      ∷ (codes "c_port", codes "1")
      ∷ (codes "c_db", codes "2")
      ∷ (codes "c_maxconncnt", codes "3")
      ∷ (codes "ListenIP", codes "i")
      ∷ (codes "ListenPort", codes "1")
      ∷ (codes "ThreadNum", codes "2")
      ∷ (codes "MsfsSite", codes "s")
      ∷ (codes "aesKey", key)
      ∷ [];
}

abbrev pool : Pool.Pool
pool =
    (Pool.init (λ _. 0)
      (Pool.new (codes "d") (codes "h") 1 (codes "u") (codes "p") (codes "n") 1)).0

abbrev pools : Dict Pool.Pool
pools = (codes "d", pool) ∷ []

init-Stop_example :
    Ended
      (Manager.settings reader)
      (Manager.make_pool (λ _. 1) (λ _ _. 0))
      (slots b',' (codes "d"))
      (init_returns pools 0)
unfolding Manager.init Instances.init Instances.init_slots Instances.slots Manager.settings
    Manager.make_pool get_config_name find assign insert text_eq items item_cnt fill_items
    separators Pool.init Pool.init_loop Pool.new
init-Stop_example =
    Ready.init-Stop (λ _. 1) (λ _ _. 0) reader (codes "d") (init_returns pools 0) refl refl

main-serves_example :
    ((n : Dict Pool.Pool) × (Manager.init (λ _. 1) (λ _ _. 0) reader ≡ some (init_returns n 0))
      × AllUp Ready.IsReady (get_config_name (codes "DBInstances") reader) n)
    × ((n : Dict CachePool.Pool) × (CacheManager.init (λ _. 1) (λ _ _. true) reader ≡ some (n, 0))
        × AllUp CacheReady.IsReady (get_config_name (codes "CacheInstances") reader) n)
    × Settled (λ _. 1) reader (codes "i") 1 48
unfolding main settings Manager.init Instances.init Instances.init_slots Instances.slots
    Manager.settings Manager.make_pool Manager.get_instance CacheManager.init CacheManager.settings
    CacheManager.make_pool CacheManager.get_instance get_config_name find assign insert text_eq
    items item_cnt fill_items separators Pool.init Pool.init_loop Pool.new CachePool.init
    CachePool.init_loop CachePool.new
main-serves_example =
    main-serves (λ _. 1) (λ _ _. 0) (λ _ _. true) reader (codes "p" ∷ []) (codes "i") 1 48 refl
