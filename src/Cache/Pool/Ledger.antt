-- ===== src/Cache/Pool/Ledger.antt =====
-- Who holds which connection: a pool together with the connections that are lent out.
use talk_system.Prelude.{
  ltb, ◌==◌, if◌then◌else◌, length, length-append, is_empty, Text, ℕ, suc, ◌+◌, ◌≤◌, ◌<◌, ◌≡◌, refl,
  sym, subst, ◌⊎◌, Bool, true, false, List, [], ◌∷◌, ◌++◌, arith,
}
use talk_system.Cache.Pool
use talk_system.Cache.Pool.{
  Pool, Got, conn, null, waits, get_cache_conn, is_free, rel_cache_conn, destroy, new, init_loop,
  init, take_front, round,
}

abbrev pub count : ℕ → List ℕ → ℕ
count c [] = 0
count c (d ∷ ds) = let rest = count c ds in if d == c then suc rest else rest

pub count-append : (c : ℕ) (xs ys : List ℕ) → count c (xs ++ ys) ≡ count c xs + count c ys
count-append c [] ys = omega arith
count-append c (x ∷ xs) ys = ground (arith, count-append c xs ys)

abbrev pub remove : ℕ → List ℕ → List ℕ
remove c [] = []
remove c (d ∷ ds) = let rest = remove c ds in if d == c then ds else d ∷ rest

count-remove :
    (c d : ℕ) (xs : List ℕ)
    → 0 < count c xs
    → count d (remove c xs) + (if c == d then 1 else 0) ≡ count d xs
count-remove c d [] h = absurd (omega arith)
count-remove c d (x ∷ xs) h = ground (arith, count-remove c d xs)

length-remove : (c : ℕ) (xs : List ℕ) → 0 < count c xs → length (remove c xs) + 1 ≡ length xs
length-remove c [] h = absurd (omega arith)
length-remove c (x ∷ xs) h = ground (arith, length-remove c xs)

is_free-count : (c : ℕ) (xs : List ℕ) → is_free c xs ≡ ltb 0 (count c xs)
unfolding is_free
is_free-count c [] = ground arith
is_free-count c (x ∷ xs) = ground (arith, is_free-count c xs)

-- A pool and the connections that its clients hold.
pub record Ledger : Type 0 where
  pub pool : Pool
  pub lent : List ℕ

-- What `GetCacheConn` hands out is lent from then on.
abbrev pub lend : List ℕ → Pool × Got → Ledger
lend lent (p, conn c) = record { pool = p; lent = c ∷ lent }
lend lent (p, null) = record { pool = p; lent = lent }
lend lent (p, waits) = record { pool = p; lent = lent }

-- The calls of the clients: a client gives back what it holds.
pub data Step (l : Ledger) : Ledger → Type 0 where
  gets : (connects : ℕ → Bool) → Step l (lend l.lent (get_cache_conn connects l.pool))
  releases :
      (c : ℕ)
      → 0 < count c l.lent
      → Step l (record { pool = rel_cache_conn c l.pool; lent = remove c l.lent })

-- A pool that `Init` has filled, and what its clients make of it.
pub data Reach (p : Pool) : Ledger → Type 0 where
  here : Reach p (record { pool = p; lent = [] })
  next : {l m : Ledger} → Reach p l → Step l m → Reach p m

pub record Inv (l : Ledger) : Type 0 where
  -- Every connection made so far is free or lent, and only once.
  pub once :
      (c : ℕ) → count c l.pool.free_list + count c l.lent ≡ (if ltb c l.pool.next then 1 else 0)
  pub counted : length l.pool.free_list + length l.lent ≡ l.pool.cur_conn_cnt
  pub bounded : (l.pool.cur_conn_cnt ≤ l.pool.max_conn_cnt) ⊎ (l.pool.cur_conn_cnt ≡ 2)

get-once :
    (connects : ℕ → Bool) (l : Ledger)
    → Inv l
    → let m = lend l.lent (get_cache_conn connects l.pool) in
      (c : ℕ) → count c m.pool.free_list + count c m.lent ≡ (if ltb c m.pool.next then 1 else 0)
unfolding get_cache_conn
get-once connects l v c =
    ground (arith, v.once c, count-append c l.pool.free_list (l.pool.next ∷ []))

get-counted :
    (connects : ℕ → Bool) (l : Ledger)
    → Inv l
    → let m = lend l.lent (get_cache_conn connects l.pool) in
      (length m.pool.free_list + length m.lent ≡ m.pool.cur_conn_cnt)
      × ((m.pool.cur_conn_cnt ≤ m.pool.max_conn_cnt) ⊎ (m.pool.cur_conn_cnt ≡ 2))
unfolding get_cache_conn
get-counted connects l v = ground (arith, length-append l.pool.free_list (l.pool.next ∷ []))

release-once :
    (d : ℕ) (l : Ledger)
    → Inv l
    → 0 < count d l.lent
    → (c : ℕ)
    → count c (rel_cache_conn d l.pool).free_list + count c (remove d l.lent)
      ≡ (if ltb c l.pool.next then 1 else 0)
unfolding rel_cache_conn
release-once d l v h c = ground (
  arith,
  v.once c,
  v.once d,
  is_free-count d l.pool.free_list,
  count-remove d c l.lent h,
  count-append c l.pool.free_list (d ∷ []),
)

rel_cache_conn_next : (c : ℕ) (p : Pool) → (rel_cache_conn c p).next ≡ p.next
unfolding rel_cache_conn
rel_cache_conn_next c p = ground arith

release-counted :
    (d : ℕ) (l : Ledger)
    → Inv l
    → 0 < count d l.lent
    → (length (rel_cache_conn d l.pool).free_list + length (remove d l.lent)
        ≡ (rel_cache_conn d l.pool).cur_conn_cnt)
      × (((rel_cache_conn d l.pool).cur_conn_cnt ≤ (rel_cache_conn d l.pool).max_conn_cnt)
          ⊎ ((rel_cache_conn d l.pool).cur_conn_cnt ≡ 2))
unfolding rel_cache_conn
release-counted d l v h = ground (
  arith,
  v.once d,
  is_free-count d l.pool.free_list,
  length-remove d l.lent h,
  length-append l.pool.free_list (d ∷ []),
)

Step-Inv : {l m : Ledger} → Step l m → Inv l → Inv m
Step-Inv {l} (gets connects) v = record {
  once = get-once connects l v;
  counted = (get-counted connects l v).0;
  bounded = (get-counted connects l v).1;
}
Step-Inv {l} (releases c h) v = record {
  once = λ d.
      subst
        (λ n.
          count d (rel_cache_conn c l.pool).free_list + count d (remove c l.lent)
          ≡ (if ltb d n then 1 else 0))
        (sym (rel_cache_conn_next c l.pool)) (release-once c l v h d);
  counted = (release-counted c l v h).0;
  bounded = (release-counted c l v h).1;
}

Reach-Inv : {p : Pool} {l : Ledger} → Inv (record { pool = p; lent = [] }) → Reach p l → Inv l
Reach-Inv i here = i
Reach-Inv i (next r s) = Step-Inv s (Reach-Inv i r)

-- `Init` of a new pool, whatever its maximum, either fails with code 1, or gives 0 and two free
-- connections, and the ledger is in order.
pub init-Inv :
    (connects : ℕ → Bool) (name ip : Text) (port db max : ℕ)
    → let (p, code) = init connects (Pool.new name ip port db max) in
      (code ≡ 1) ⊎ ((code ≡ 0) × (length p.free_list ≡ 2) × Inv (record { pool = p; lent = [] }))
unfolding init init_loop Pool.new
init-Inv connects name ip port db max = ground arith

-- Whatever clients do with a pool that starts in order, as long as they give back only what they
-- hold: no connection is in two hands, or free while it is lent; the free and the lent ones are as
-- many as `m_cur_conn_cnt` says, and these are no more than the maximum, or the two of the start; and
-- the destructor deletes each connection that was made and is not lent once, and no other.
pub Reach_exclusive :
    {p : Pool} {l : Ledger}
    → Inv (record { pool = p; lent = [] })
    → Reach p l
    → ((c : ℕ) → count c l.pool.free_list + count c l.lent ≤ 1)
      × (length l.pool.free_list + length l.lent ≡ l.pool.cur_conn_cnt)
      × ((l.pool.cur_conn_cnt ≤ l.pool.max_conn_cnt) ⊎ (l.pool.cur_conn_cnt ≡ 2))
      × ((c : ℕ)
          → count c (destroy l.pool).1 + count c l.lent ≡ (if ltb c l.pool.next then 1 else 0))
      × ((destroy l.pool).0.free_list ≡ [])
unfolding destroy
Reach_exclusive {p} {l} i r =
    let v = Reach-Inv i r in (λ c. ground (arith, v.once c), v.counted, v.bounded, v.once, refl)

-- After a connection has been given back, `GetCacheConn` has one to hand out, and need not wait.
pub get-rel_cache_conn :
    (connects : ℕ → Bool) (c : ℕ) (p : Pool)
    → (d : ℕ) × ((get_cache_conn connects (rel_cache_conn c p)).1 ≡ conn d)
unfolding get_cache_conn rel_cache_conn is_free
get-rel_cache_conn connects c p = pick (is_free c p.free_list) refl p.free_list refl
  where
    pick :
        (b : Bool)
        → is_free c p.free_list ≡ b
        → (fs : List ℕ) → p.free_list ≡ fs
        → let q = if b then p else record p { free_list = p.free_list ++ c ∷ [] } in
          (d : ℕ) × ((if is_empty q.free_list then round connects q else take_front q q.free_list).1
            ≡ conn d)
    pick true e [] h =
        let none_free : is_free c [] ≡ true = subst (λ fs. is_free c fs ≡ true) h e in cc
    pick true e (d ∷ fs) h = (d, rw h refl)
    pick false e [] h = (c, rw h refl)
    pick false e (d ∷ fs) h = (d, rw h refl)

-- Giving back a connection that is free already changes nothing.
pub rel_cache_conn_twice :
    (c : ℕ) (p : Pool) → rel_cache_conn c (rel_cache_conn c p) ≡ rel_cache_conn c p
unfolding rel_cache_conn
rel_cache_conn_twice c p = ground (
  arith,
  is_free-count c p.free_list,
  is_free-count c (p.free_list ++ c ∷ []),
  count-append c p.free_list (c ∷ []),
)
