-- ===== src/Cache/Pool.antt =====
-- `CachePool`: the free connections, and the count of all. A connection is its address, a number; the
-- next address that `new` gives is `next`. Whether `CacheConn::Init` of an address succeeds is an
-- argument. A thread that waits is not part of the state, so `notify_all` changes nothing.
pub mod Ledger
pub mod Waiting
use talk_system.Prelude.{
  leb, ◌==◌, if◌then◌else◌, is_empty, Text, ℕ, zero, suc, ◌+◌, Bool, false, ◌||◌, List, [], ◌∷◌,
  ◌++◌,
}

pub record Pool : Type 0 where
  pub pool_name : Text
  pub server_ip : Text
  pub server_port : ℕ
  pub db_num : ℕ
  pub cur_conn_cnt : ℕ
  pub max_conn_cnt : ℕ
  pub free_list : List ℕ
  pub next : ℕ

abbrev pub min_cache_conn_cnt : ℕ
min_cache_conn_cnt = 2

-- The constructor. A negative `max_conn_cnt` acts as 0 does.
unfoldable pub new : Text → Text → ℕ → ℕ → ℕ → Pool
new name ip port db max = record {
  pool_name = name;
  server_ip = ip;
  server_port = port;
  db_num = db;
  cur_conn_cnt = min_cache_conn_cnt;
  max_conn_cnt = max;
  free_list = [];
  next = 0;
}

-- `new CacheConn(this)`, and `push_back`.
abbrev pub add_conn : Pool → Pool
add_conn p = record p { free_list = p.free_list ++ p.next ∷ []; next = p.next + 1 }

-- The loop of `Init`, with the rounds that are left; 0 for success.
unfoldable pub init_loop : (ℕ → Bool) → ℕ → Pool → Pool × ℕ
init_loop connects zero p = (p, 0)
init_loop connects (suc n) p =
    let rest = init_loop connects n (add_conn p) in if connects p.next then rest else (p, 1)

unfoldable pub init : (ℕ → Bool) → Pool → Pool × ℕ
init connects p = init_loop connects p.cur_conn_cnt p

-- The destructor, with the connections that it deletes.
unfoldable pub destroy : Pool → Pool × List ℕ
destroy p = (record p { free_list = []; cur_conn_cnt = 0 }, p.free_list)

-- What `GetCacheConn` comes to: a connection, NULL, or a wait on `cond_`.
pub data Got : Type 0 where
  conn : ℕ → Got
  null : Got
  waits : Got

-- `front` and `pop_front`, behind the `while` loop; an empty list is where the loop goes on.
abbrev pub take_front : Pool → List ℕ → Pool × Got
take_front p [] = (p, waits)
take_front p (c ∷ cs) = (record p { free_list = cs }, conn c)

-- A round of the `while` loop on an empty free list, and what follows it. A new connection ends the
-- loop, so there is no second round without a wait.
abbrev pub round : (ℕ → Bool) → Pool → Pool × Got
round connects p =
    if leb p.max_conn_cnt p.cur_conn_cnt
    then (p, waits)
    else if connects p.next
    then (let q = record (add_conn p) { cur_conn_cnt = p.cur_conn_cnt + 1 } in
        take_front q q.free_list)
    else (p, null)

unfoldable pub get_cache_conn : (ℕ → Bool) → Pool → Pool × Got
get_cache_conn connects p =
    if is_empty p.free_list then round connects p else take_front p p.free_list

-- The search of `RelCacheConn`.
unfoldable pub is_free : ℕ → List ℕ → Bool
is_free c [] = false
is_free c (d ∷ ds) = d == c || is_free c ds

unfoldable pub rel_cache_conn : ℕ → Pool → Pool
rel_cache_conn c p =
    if is_free c p.free_list then p else record p { free_list = p.free_list ++ c ∷ [] }
