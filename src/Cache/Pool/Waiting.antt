-- ===== src/Cache/Pool/Waiting.antt =====
-- The `while` loop of `CachePool::GetCacheConn`, with the wakeups of its waits.
use talk_system.Prelude.{
  leb, if◌then◌else◌, length, is_empty, ℕ, zero, suc, ◌+◌, ◌≤◌, ◌≡◌, refl, sym, ap, ◌∙◌, Bool, true,
  false, ◌&&◌, Option, none, some, List, [], ◌∷◌, ◌++◌, arith,
}
use talk_system.Cache.Pool.{
  Pool, add_conn, Got, conn, null, waits, take_front, get_cache_conn, rel_cache_conn, is_free,
}

-- What ends a wait: a connection that another thread gives back, or nothing.
abbrev pub Wakeups : Type 0
Wakeups = List (Option ℕ)

-- What happens at a wait, by what the loop does after a wakeup.
abbrev pub wait : (Wakeups → Pool → Option (Pool × Got)) → Wakeups → Pool → Option (Pool × Got)
wait next [] p = some (p, waits)
wait next (none ∷ ws) p = next ws p
wait next (some c ∷ ws) p = next ws (rel_cache_conn c p)

-- The loop, on fuel; `none` is too little of it. `connects` says whether the `Init` of an address
-- succeeds. With no more wakeups the call waits for ever.
unfoldable pub get_loop : ℕ → (ℕ → Bool) → Wakeups → Pool → Option (Pool × Got)
get_loop zero connects ws p = none
get_loop (suc n) connects ws p =
    let waited = wait (get_loop n connects) ws p in
    let grown =
      get_loop n connects ws (record (add_conn p) { cur_conn_cnt = p.cur_conn_cnt + 1 }) in
    if is_empty p.free_list
    then (if leb p.max_conn_cnt p.cur_conn_cnt
        then waited
        else if connects p.next
        then grown
        else some (p, null))
    else some (take_front p p.free_list)

-- What the first thread to give a connection back lets the waiting call return.
abbrev pub first_back : Wakeups → Pool → Pool × Got
first_back [] p = (p, waits)
first_back (none ∷ ws) p = first_back ws p
first_back (some c ∷ ws) p = (p, conn c)

-- One round, by the state of the pool.
loop_front :
    (n : ℕ) (connects : ℕ → Bool) (ws : Wakeups) (p : Pool)
    → is_empty p.free_list ≡ false
    → get_loop (suc n) connects ws p ≡ some (take_front p p.free_list)
unfolding get_loop
loop_front n connects ws p e = rw (e, if◌then◌else◌) refl

loop_full :
    (n : ℕ) (connects : ℕ → Bool) (ws : Wakeups) (p : Pool)
    → is_empty p.free_list ≡ true
    → leb p.max_conn_cnt p.cur_conn_cnt ≡ true
    → get_loop (suc n) connects ws p ≡ wait (get_loop n connects) ws p
unfolding get_loop
loop_full n connects ws p e f = rw (e, if◌then◌else◌) (rw (f, if◌then◌else◌) refl)

loop_grows :
    (n : ℕ) (connects : ℕ → Bool) (ws : Wakeups) (p : Pool)
    → is_empty p.free_list ≡ true
    → leb p.max_conn_cnt p.cur_conn_cnt ≡ false
    → get_loop (suc n) connects ws p ≡ (
        if connects p.next
        then get_loop n connects ws (record (add_conn p) { cur_conn_cnt = p.cur_conn_cnt + 1 })
        else some (p, null))
unfolding get_loop
loop_grows n connects ws p e f = rw (e, if◌then◌else◌) (rw (f, if◌then◌else◌) refl)

rel_alone :
    (c : ℕ) (p : Pool) → p.free_list ≡ [] → rel_cache_conn c p ≡ record p { free_list = c ∷ [] }
unfolding rel_cache_conn is_free
rel_alone c p g = ap (λ fs. if is_free c fs then p else record p { free_list = fs ++ c ∷ [] }) g

-- A connection given back to a pool with none free is what the next round returns.
loop_back :
    (n c : ℕ) (connects : ℕ → Bool) (ws : Wakeups) (p : Pool)
    → is_empty p.free_list ≡ true
    → get_loop (suc n) connects ws (rel_cache_conn c p) ≡ some (p, conn c)
loop_back n c connects ws p e = pick p.free_list refl e
  where
    pick :
        (fs : List ℕ)
        → p.free_list ≡ fs
        → is_empty fs ≡ true
        → get_loop (suc n) connects ws (rel_cache_conn c p) ≡ some (p, conn c)
    pick [] g h =
        ap (get_loop (suc n) connects ws) (rel_alone c p g)
        ∙ loop_front n connects ws (record p { free_list = c ∷ [] }) refl
        ∙ ap (λ fs. some (record p { free_list = fs }, conn c)) (sym g)
    pick (f ∷ fs) g h = cc

-- The loop on a pool with no free connection that may not grow.
loop_waits :
    (ws : Wakeups) (n : ℕ) (connects : ℕ → Bool) (p : Pool)
    → is_empty p.free_list ≡ true
    → leb p.max_conn_cnt p.cur_conn_cnt ≡ true
    → length ws + 2 ≤ n
    → get_loop n connects ws p ≡ some (first_back ws p)
loop_waits ws zero connects p e f h = absurd (omega arith)
loop_waits [] (suc n) connects p e f h = loop_full n connects [] p e f
loop_waits (none ∷ ws) (suc n) connects p e f h =
    loop_full n connects (none ∷ ws) p e f ∙ loop_waits ws n connects p e f (omega arith)
loop_waits (some c ∷ ws) (suc zero) connects p e f h = absurd (omega arith)
loop_waits (some c ∷ ws) (suc (suc n)) connects p e f h =
    loop_full (suc n) connects (some c ∷ ws) p e f ∙ loop_back n c connects ws p e

call_front :
    (connects : ℕ → Bool) (p : Pool)
    → is_empty p.free_list ≡ false
    → get_cache_conn connects p ≡ take_front p p.free_list
unfolding get_cache_conn
call_front connects p e = rw (e, if◌then◌else◌) refl

call_grows :
    (connects : ℕ → Bool) (p : Pool)
    → is_empty p.free_list ≡ true
    → leb p.max_conn_cnt p.cur_conn_cnt ≡ false
    → get_cache_conn connects p ≡ (
        let q = record (add_conn p) { cur_conn_cnt = p.cur_conn_cnt + 1 } in
        if connects p.next then take_front q q.free_list else (p, null))
unfolding get_cache_conn
call_grows connects p e f = rw (e, if◌then◌else◌) (rw (f, if◌then◌else◌) refl)

append_some : (xs : List ℕ) (x : ℕ) → is_empty (xs ++ x ∷ []) ≡ false
append_some [] x = refl
append_some (y ∷ xs) x = refl

loop_grown :
    (n : ℕ) (connects : ℕ → Bool) (ws : Wakeups) (p : Pool)
    → is_empty p.free_list ≡ true
    → leb p.max_conn_cnt p.cur_conn_cnt ≡ false
    → get_loop (suc (suc n)) connects ws p ≡ some (get_cache_conn connects p)
loop_grown n connects ws p e f =
    loop_grows (suc n) connects ws p e f
    ∙ pick (connects p.next)
    ∙ ap some (sym (call_grows connects p e f))
  where
    q : Pool
    q = record (add_conn p) { cur_conn_cnt = p.cur_conn_cnt + 1 }

    pick :
        (b : Bool)
        → (if b then get_loop (suc n) connects ws q else some (p, null))
          ≡ some (if b then take_front q q.free_list else (p, null))
    pick true = loop_front n connects ws q (append_some p.free_list p.next)
    pick false = refl

-- The loop ends within two rounds more than there are wakeups. A call that finds no free connection
-- in a full pool returns the first one that is given back, however often it wakes for nothing, and
-- waits for ever only if none is; any other call does what `get_cache_conn` says.
pub get_loop_lem :
    (ws : Wakeups) (n : ℕ) (connects : ℕ → Bool) (p : Pool)
    → length ws + 2 ≤ n
    → get_loop n connects ws p
      ≡ some (
          if is_empty p.free_list && leb p.max_conn_cnt p.cur_conn_cnt
          then first_back ws p
          else get_cache_conn connects p)
get_loop_lem ws zero connects p h = absurd (omega arith)
get_loop_lem ws (suc zero) connects p h = absurd (omega arith)
get_loop_lem ws (suc (suc n)) connects p h =
    pick (is_empty p.free_list) refl (leb p.max_conn_cnt p.cur_conn_cnt) refl
  where
    pick :
        (a : Bool)
        → is_empty p.free_list ≡ a
        → (b : Bool) → leb p.max_conn_cnt p.cur_conn_cnt ≡ b
        → get_loop (suc (suc n)) connects ws p
          ≡ some (if a && b then first_back ws p else get_cache_conn connects p)
    pick true e true f = loop_waits ws (suc (suc n)) connects p e f h
    pick true e false f = loop_grown n connects ws p e f
    pick false e b f = loop_front (suc n) connects ws p e ∙ ap some (sym (call_front connects p e))
