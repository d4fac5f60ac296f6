-- ===== src/Db/Pool.antt =====
-- `CDBPool`: as `CachePool`, but `Init` passes the code of a failed connection on.
use talk_system.Prelude.{
  leb, ◌==◌, if◌then◌else◌, is_empty, Text, ℕ, zero, suc, ◌+◌, ◌%◌, ◌^◌, ◌≡◌, List, [], ◌∷◌, ◌++◌,
  arith,
}
use talk_system.Cache.Pool.{
  Pool as CachePool, destroy as destroy_cache, get_cache_conn, rel_cache_conn, Got, conn, null,
  waits, is_free, get_cache_conn, rel_cache_conn,
}

pub record Pool : Type 0 where
  pub pool_name : Text
  pub db_server_ip : Text
  pub db_server_port : ℕ
  pub username : Text
  pub password : Text
  pub db_name : Text
  pub db_cur_conn_cnt : ℕ
  pub db_max_conn_cnt : ℕ
  pub free_list : List ℕ
  pub next : ℕ

abbrev pub min_db_conn_cnt : ℕ
min_db_conn_cnt = 2

-- The constructor; the port is a `uint16_t`.
unfoldable pub new : Text → Text → ℕ → Text → Text → Text → ℕ → Pool
new name ip port user password db max = record {
  pool_name = name;
  db_server_ip = ip;
  db_server_port = port % 2 ^ 16;
  username = user;
  password = password;
  db_name = db;
  db_cur_conn_cnt = min_db_conn_cnt;
  db_max_conn_cnt = max;
  free_list = [];
  next = 0;
}

abbrev pub add_conn : Pool → Pool
add_conn p = record p { free_list = p.free_list ++ p.next ∷ []; next = p.next + 1 }

-- The loop of `Init`; `code` is what `CDBConn::Init` of an address gives.
unfoldable pub init_loop : (ℕ → ℕ) → ℕ → Pool → Pool × ℕ
init_loop code zero p = (p, 0)
init_loop code (suc n) p =
    let rest = init_loop code n (add_conn p) in if code p.next == 0 then rest else (p, code p.next)

unfoldable pub init : (ℕ → ℕ) → Pool → Pool × ℕ
init code p = init_loop code p.db_cur_conn_cnt p

-- The destructor, with the connections that it deletes.
unfoldable pub destroy : Pool → Pool × List ℕ
destroy p = (record p { free_list = [] }, p.free_list)

abbrev pub take_front : Pool → List ℕ → Pool × Got
take_front p [] = (p, waits)
take_front p (c ∷ cs) = (record p { free_list = cs }, conn c)

-- A round of the `while` loop on an empty free list, and what follows it.
abbrev pub round : (ℕ → ℕ) → Pool → Pool × Got
round code p =
    if leb p.db_max_conn_cnt p.db_cur_conn_cnt
    then (p, waits)
    else if code p.next == 0
    then (let q = record (add_conn p) { db_cur_conn_cnt = p.db_cur_conn_cnt + 1 } in
        take_front q q.free_list)
    else (p, null)

unfoldable pub get_db_conn : (ℕ → ℕ) → Pool → Pool × Got
get_db_conn code p = if is_empty p.free_list then round code p else take_front p p.free_list

unfoldable pub rel_db_conn : ℕ → Pool → Pool
rel_db_conn c p =
    if is_free c p.free_list then p else record p { free_list = p.free_list ++ c ∷ [] }

-- The part of the state that the two pools share.
abbrev pub ledger_of : Pool → ℕ × ℕ × List ℕ × ℕ
ledger_of p = (p.db_cur_conn_cnt, p.db_max_conn_cnt, p.free_list, p.next)

abbrev pub cache_ledger_of : CachePool → ℕ × ℕ × List ℕ × ℕ
cache_ledger_of p = (p.cur_conn_cnt, p.max_conn_cnt, p.free_list, p.next)

-- Where the two pools agree, on the counts, the free connections and the next address, and the same
-- connections come up, `GetDBConn` and `RelDBConn` do what `GetCacheConn` and `RelCacheConn` do, and
-- they agree afterwards; and their destructors delete the same connections.
pub get_db_conn-get_cache_conn :
    (code : ℕ → ℕ) (c : ℕ) (p : Pool) (q : CachePool)
    → ledger_of p ≡ cache_ledger_of q
    → let connects = λ (a : ℕ). code a == 0 in
      (ledger_of (get_db_conn code p).0 ≡ cache_ledger_of (get_cache_conn connects q).0)
      × ((get_db_conn code p).1 ≡ (get_cache_conn connects q).1)
      × (ledger_of (rel_db_conn c p) ≡ cache_ledger_of (rel_cache_conn c q))
      × ((destroy p).1 ≡ (destroy_cache q).1)
unfolding destroy destroy_cache get_db_conn get_cache_conn rel_db_conn rel_cache_conn
get_db_conn-get_cache_conn code c p q e = ground arith
