-- ===== src/Cache/Manager/Ready.antt =====
-- What `CacheManager::Init` leaves in the map.
use talk_system.Prelude.{length, Text, codes, ℕ, ◌≡◌, sym, ap, ◌∙◌, Bool, some, arith}
use talk_system.Prelude.Dict.{Dict, find}
use talk_system.Base.Config.{Reader, get_config_name}
use talk_system.Cache.Pool
use talk_system.Cache.Pool.{Pool, new, init_loop, Got, null, round}
use talk_system.Base.Instances
use talk_system.Base.Instances.{slots}
use talk_system.Base.Instances.Ready
use talk_system.Base.Instances.Found.{IsSlot, AllUp}
use talk_system.Cache.Manager.{Settings, settings, make_pool, init}

-- What `Init` promises of a pool that is in the map.
pub record IsReady (name : Text) (p : Pool) : Type 0 where
  pub named : p.pool_name ≡ name
  pub filled : length p.free_list ≡ 2
  pub counted : p.cur_conn_cnt ≡ 2

init-IsReady :
    (connects : ℕ → Bool) (name ip : Text) (port db max : ℕ)
    → (Pool.init connects (Pool.new name ip port db max)).1 ≡ 0
    → IsReady name (Pool.init connects (Pool.new name ip port db max)).0
unfolding Pool.init Pool.init_loop Pool.new
init-IsReady connects name ip port db max h = ground arith

make_pool-IsReady :
    (atoi : Text → ℕ) (connects : Text → ℕ → Bool) (name : Text) (s : Settings)
    → (make_pool atoi connects name s).1 ≡ 0
    → IsReady name (make_pool atoi connects name s).0
unfolding make_pool
make_pool-IsReady atoi connects name s h = init-IsReady (connects name) name s.host _ _ _ h

-- When `Init` succeeds, every name that the configuration lists has a pool in the map, which has
-- that name and two free connections.
pub init_lem :
    (atoi : Text → ℕ) (connects : Text → ℕ → Bool) (r : Reader) (names : Text) (n : Dict Pool)
    → get_config_name (codes "CacheInstances") r ≡ some names
    → init atoi connects r ≡ some (n, 0)
    → (k : Text) → IsSlot k (slots b',' names)
    → (q : Pool) × (find k n ≡ some q) × IsReady k q
unfolding init
init_lem atoi connects r names n c e k h =
    let make = make_pool atoi connects in
    Ready.init-IsReady (settings r) make IsReady (make_pool-IsReady atoi connects) names n
      (ap (Instances.init (settings r) make) (sym c) ∙ e) k h

pub init_all :
    (atoi : Text → ℕ) (connects : Text → ℕ → Bool) (r : Reader) (n : Dict Pool)
    → init atoi connects r ≡ some (n, 0)
    → AllUp IsReady (get_config_name (codes "CacheInstances") r) n
unfolding init
init_all atoi connects r n e =
    let make = make_pool atoi connects in
    Ready.init_all (settings r) make IsReady (make_pool-IsReady atoi connects)
      (get_config_name (codes "CacheInstances") r) n e
