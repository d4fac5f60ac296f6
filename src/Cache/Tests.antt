-- ===== src/Cache/Tests.antt =====
-- The connections to redis on small inputs.
use talk_system.Prelude.{
  ltb, leb, if◌then◌else◌, length, is_empty, Text, codes, ℕ, ◌+◌, ◌≤◌, ◌≡◌, refl, ◌≢◌, ◌⊎◌, inl,
  inr, Bool, true, false, ◌&&◌, none, some, List, [], ◌∷◌, arith,
}
use talk_system.Prelude.Dict.{Dict}
use talk_system.Cache.Reply.{reply_string, reply_other, Item, Command}
use talk_system.Cache.Conn.{CacheConn, World, live, null, dangling, drop_context, perform, destroy}
use talk_system.Cache.Commands.{get, is_exists}
use talk_system.Cache.Laws.{perform_safe, is_exists_dangling}
use talk_system.Cache.Pool
use talk_system.Cache.Pool.{Pool, conn, get_cache_conn, rel_cache_conn, init_loop}
use talk_system.Cache.Pool.Waiting.{get_loop, first_back, get_loop_lem}
use talk_system.Cache.Pool.Ledger.{
  Ledger, Inv, here, next, gets, count, lend, init-Inv, Reach_exclusive, rel_cache_conn_twice,
}

abbrev ready : Pool
ready = (Pool.init (λ _. true) (Pool.new [] [] 6379 0 4)).0

ready-Inv : Inv (record { pool = ready; lent = [] })
unfolding Pool.init Pool.init_loop Pool.new
ready-Inv = elim (init-Inv (λ _. true) [] [] 6379 0 4) [ inl e ↦ cc | inr h ↦ h.2 ]

-- A client takes a connection.
abbrev held : Ledger
held = lend [] (get_cache_conn (λ _. true) ready)

Reach_exclusive_example :
    ((c : ℕ) → count c held.pool.free_list + count c held.lent ≤ 1)
    × (length held.pool.free_list + length held.lent ≡ held.pool.cur_conn_cnt)
    × ((held.pool.cur_conn_cnt ≤ held.pool.max_conn_cnt) ⊎ (held.pool.cur_conn_cnt ≡ 2))
    × ((c : ℕ)
        → count c (Pool.destroy held.pool).1 + count c held.lent
          ≡ (if ltb c held.pool.next then 1 else 0))
    × ((Pool.destroy held.pool).0.free_list ≡ [])
Reach_exclusive_example =
    Reach_exclusive {p = ready} {l = held} ready-Inv (next here (gets (λ _. true)))

rel_cache_conn_twice_example : rel_cache_conn 1 (rel_cache_conn 1 ready) ≡ rel_cache_conn 1 ready
rel_cache_conn_twice_example = rel_cache_conn_twice 1 ready

-- A server that answers nothing.
abbrev silent : World
silent = record { now = 9; connects = true; select = none; server = λ _. none }

abbrev open_conn : CacheConn
open_conn = record { context = live; last_connect_time = 0 }

abbrev closed_conn : CacheConn
closed_conn = record { context = null; last_connect_time = 0 }

perform_safe_example :
    (r : Bool × CacheConn) × (perform drop_context false
        (λ _. true)
        silent
        (Command.format (codes "PING"))
        open_conn
      ≡ some r)
    × (r.1.context ≢ dangling)
    × ((d : CacheConn) × (destroy r.1 ≡ some d) × (d.context ≡ null))
perform_safe_example =
    perform_safe false (λ _. true) silent (Command.format (codes "PING")) open_conn (λ e. cc)

is_exists_dangling_example :
    (d : CacheConn) × (is_exists silent (codes "a") open_conn ≡ some (false, d))
    × (get silent (codes "b") d ≡ none)
    × (destroy d ≡ none)
is_exists_dangling_example =
    is_exists_dangling silent silent (codes "a") (codes "b") open_conn refl refl

abbrev one_item : List Item
one_item =
    record { kind = reply_string; str = codes "x" } ∷ record { kind = reply_other; str = [] } ∷ []

abbrev hash : Dict Text
hash = (codes "a", codes "1") ∷ (codes "b", codes "2") ∷ []

-- A full pool of no free connections, of which one comes back after a wakeup for nothing.
abbrev empty_pool : Pool
empty_pool = record (Pool.new [] [] 6379 0 2) { free_list = [] }

get_loop_lem_example :
    get_loop 4 (λ _. true) (none ∷ some 7 ∷ []) empty_pool
    ≡ some (
        if is_empty empty_pool.free_list && leb empty_pool.max_conn_cnt empty_pool.cur_conn_cnt
        then first_back (none ∷ some 7 ∷ []) empty_pool
        else get_cache_conn (λ _. true) empty_pool)
get_loop_lem_example = get_loop_lem (none ∷ some 7 ∷ []) 4 (λ _. true) empty_pool (omega arith)
