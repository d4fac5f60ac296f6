-- ===== src/Db/Manager/Ready.antt =====
-- What `CDBManager::Init` of db_proxy_server/DBPool.cc leaves in the map, and the connections that
-- are taken from it and given back.
use talk_system.Prelude.{
  if◌then◌else◌, length, Text, codes, text_eq_refl, text_eq, ℕ, zero, suc, ◌≡◌, refl, sym, ap, ◌∙◌,
  subst, ◌≢◌, ◌⊎◌, inl, inr, Bool, true, false, Option, none, some, List, [], ◌∷◌, ◌++◌, map,
  append-nil, arith,
}
use talk_system.Prelude.Dict.{Dict, find, assign, find-assign}
use mathlib.Core.Option
use talk_system.Base.Config.{Reader, get_config_name}
use talk_system.Base.Instances
use talk_system.Base.Instances.{slots}
use talk_system.Base.Instances.Ready
use talk_system.Base.Instances.Found.{FoundReady, Stop, AllUp, AllCameUp}
use talk_system.Db.Pool
use talk_system.Db.Pool.{Pool, init_loop, new}
use talk_system.Db.Manager.{
  Settings, settings, make_pool, Ending, process_exits, init_returns, leave, init, get_db_conn,
  rel_db_conn,
}

-- What `Init` promises of a pool that is in the map.
pub record IsReady (name : Text) (p : Pool) : Type 0 where
  pub named : p.pool_name ≡ name
  pub filled : length p.free_list ≡ 2
  pub counted : p.db_cur_conn_cnt ≡ 2

init-IsReady :
    (code : ℕ → ℕ) (name ip : Text) (port : ℕ) (user password db : Text) (max : ℕ)
    → (Pool.init code (Pool.new name ip port user password db max)).1 ≡ 0
    → IsReady name (Pool.init code (Pool.new name ip port user password db max)).0
unfolding Pool.init Pool.init_loop Pool.new
init-IsReady code name ip port user password db max h = ground arith

make_pool-IsReady :
    (atoi : Text → ℕ) (code : Text → ℕ → ℕ) (name : Text) (s : Settings)
    → (make_pool atoi code name s).1 ≡ 0
    → IsReady name (make_pool atoi code name s).0
unfolding make_pool
make_pool-IsReady atoi code name s h = init-IsReady (code name) name s.host _ _ _ _ _ h

-- An instance that lacks an entry, or whose pool does not come up.
abbrev pub Fails : (Text → Option Settings) → (Text → Settings → Pool × ℕ) → Text → Type 0
Fails entries make name =
    (entries name ≡ none) ⊎ (s : Settings) × (entries name ≡ some s) × ((make name s).1 ≢ 0)

-- What an end of `Init` says of the instances that are configured.
abbrev pub Ended :
    (Text → Option Settings) → (Text → Settings → Pool × ℕ) → List (Option Text) → Ending → Type 0
Ended entries make all process_exits =
    (passed : List Text) × (name : Text) × (rest : List (Option Text)) × (all
      ≡ map some passed ++ some name ∷ rest)
    × AllCameUp entries make passed
    × Fails entries make name
Ended entries make all (init_returns n c) =
    (c ≡ 0) × (passed : List Text) × (all ≡ map some passed) × FoundReady IsReady n passed

module _ (atoi : Text → ℕ) (code : Text → ℕ → ℕ) (r : Reader) where
  stopped-Ended :
      (all : List (Option Text)) (n : Dict Pool) (c : ℕ) (passed : List Text)
      (rest : List (Option Text))
      → all ≡ map some passed ++ rest
      → AllCameUp (settings r) (make_pool atoi code) passed
      → FoundReady IsReady n passed
      → Stop (settings r) (make_pool atoi code) rest c
      → Ended (settings r) (make_pool atoi code) all (leave (n, c))
  stopped-Ended all n zero passed [] e u f h = (refl, passed, e ∙ append-nil (map some passed), f)
  stopped-Ended all n (suc c) passed [] e u f h = absurd (omega (arith, h))
  stopped-Ended all n c passed (none ∷ rest) e u f h = absurd h
  stopped-Ended all n zero passed (some name ∷ rest) e u f (inl h) = absurd (omega (arith, h.1))
  stopped-Ended all n (suc zero) passed (some name ∷ rest) e u f (inl h) =
      absurd (omega (arith, h.1))
  stopped-Ended all n (suc (suc c)) passed (some name ∷ rest) e u f (inl h) =
      (passed, name, rest, e, u, inl h.0)
  stopped-Ended all n zero passed (some name ∷ rest) e u f (inr h) = absurd (omega (arith, h.3))
  stopped-Ended all n (suc zero) passed (some name ∷ rest) e u f (inr h) =
      absurd (omega (arith, h.3))
  stopped-Ended all n (suc (suc c)) passed (some name ∷ rest) e u f (inr h) =
      (passed, name, rest, e, u, inr (h.0, h.1, h.2))

  body-Ended :
      (names : Text) (n : Dict Pool) (c : ℕ)
      → Instances.init (settings r) (make_pool atoi code) (some names) ≡ some (n, c)
      → Ended (settings r) (make_pool atoi code) (slots b',' names) (leave (n, c))
  body-Ended names n c e =
      let o =
        Ready.init_lem (settings r) (make_pool atoi code) IsReady (make_pool-IsReady atoi code)
          names n c e in
      stopped-Ended (slots b',' names) n c o.passed o.rest o.split o.came_up
        (Ready.found_ready (settings r) (make_pool atoi code) IsReady (make_pool-IsReady atoi code)
          n o.passed o.ready o.found)
        o.stop

-- However `Init` ends where instances are configured: if it returns, it returns 0, and each of them has
-- a pool of its name in the map, with two free connections; if it ends the process, then at the first
-- instance that lacks an entry or whose pool does not come up. It returns none of its codes 2 and 3.
pub init-Stop :
    (atoi : Text → ℕ) (code : Text → ℕ → ℕ) (r : Reader) (names : Text) (s : Ending)
    → get_config_name (codes "DBInstances") r ≡ some names
    → init atoi code r ≡ some s
    → Ended (settings r) (make_pool atoi code) (slots b',' names) s
unfolding init
init-Stop atoi code r names s c e =
    pick (Instances.init (settings r) (make_pool atoi code) (some names)) refl
      (ap (λ o. Option.map leave (Instances.init (settings r) (make_pool atoi code) o)) (sym c) ∙ e)
  where
    pick :
        (o : Option (Dict Pool × ℕ))
        → Instances.init (settings r) (make_pool atoi code) (some names) ≡ o
        → Option.map leave o ≡ some s
        → Ended (settings r) (make_pool atoi code) (slots b',' names) s
    pick none f g = cc
    pick (some (n, c)) f g =
        let same : leave (n, c) ≡ s = cc in
        subst (Ended (settings r) (make_pool atoi code) (slots b',' names)) same
          (body-Ended atoi code r names n c f)

get_db_conn_known :
    (code : Text → ℕ → ℕ) (name : Text) (p : Pool) (m : Dict Pool)
    → find name m ≡ some p
    → (get_db_conn code name m).0 ≡ assign name (Pool.get_db_conn (code name) p).0 m
unfolding get_db_conn
get_db_conn_known code name p m e = rw (e, get_db_conn) refl

rel_db_conn_known :
    (name : Text) (c : ℕ) (k : Text) (p : Pool) (m : Dict Pool)
    → find k (rel_db_conn (some (name, c)) (assign name p m))
      ≡ (if text_eq name k then some (Pool.rel_db_conn c p) else find k m)
unfolding rel_db_conn
rel_db_conn_known name c k p m =
    rw (found, rel_db_conn)
      (find-assign name k (Pool.rel_db_conn c p) (assign name p m) ∙ pick (text_eq name k) refl)
  where
    found : find name (assign name p m) ≡ some p
    found = find-assign name name p m ∙ rw (text_eq_refl name) refl

    q : Option Pool
    q = some (Pool.rel_db_conn c p)

    pick :
        (b : Bool)
        → text_eq name k ≡ b
        → (if b then q else find k (assign name p m)) ≡ (if b then q else find k m)
    pick true t = refl
    pick false t = find-assign name k p m ∙ rw t refl

-- A connection that is taken from a pool of the map, and given back with the name that this pool has,
-- goes to this pool, and no other pool of the map changes.
pub get-rel_db_conn :
    (code : Text → ℕ → ℕ) (name : Text) (p : Pool) (m : Dict Pool) (c : ℕ) (k : Text)
    → find name m ≡ some p
    → p.pool_name ≡ name
    → find k (rel_db_conn (some (p.pool_name, c)) (get_db_conn code name m).0) ≡ (
        if text_eq name k
        then some (Pool.rel_db_conn c (Pool.get_db_conn (code name) p).0)
        else find k m)
get-rel_db_conn code name p m c k e named =
    subst (λ j. find k (rel_db_conn (some (j, c)) (get_db_conn code name m).0) ≡ after) (sym named)
      (ap (λ n. find k (rel_db_conn (some (name, c)) n)) (get_db_conn_known code name p m e)
        ∙ rel_db_conn_known name c k (Pool.get_db_conn (code name) p).0 m)
  where
    after : Option Pool
    after =
        if text_eq name k
        then some (Pool.rel_db_conn c (Pool.get_db_conn (code name) p).0)
        else find k m

leave_zero :
    (n m : Dict Pool) (c : ℕ)
    → leave (m, c) ≡ init_returns n 0
    → ◌≡◌ {A = Dict Pool × ℕ} (m, c) (n, 0)
leave_zero n m zero e = cc
leave_zero n m (suc zero) e = cc
leave_zero n m (suc (suc c)) e = cc

pub init_all :
    (atoi : Text → ℕ) (code : Text → ℕ → ℕ) (r : Reader) (n : Dict Pool)
    → init atoi code r ≡ some (init_returns n 0)
    → AllUp IsReady (get_config_name (codes "DBInstances") r) n
unfolding init
init_all atoi code r n e =
    let make = make_pool atoi code in
    Ready.init_all (settings r) make IsReady (make_pool-IsReady atoi code)
      (get_config_name (codes "DBInstances") r) n
      (pick (Instances.init (settings r) make (get_config_name (codes "DBInstances") r)) e)
  where
    pick :
        (o : Option (Dict Pool × ℕ))
        → Option.map leave o ≡ some (init_returns n 0)
        → o ≡ some (n, 0)
    pick none g = cc
    pick (some (m, c)) g =
        ap some (leave_zero n m c (let h : leave (m, c) ≡ init_returns n 0 = cc in h))
