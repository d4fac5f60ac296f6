-- ===== src/Base/ThreadPool/Start.antt =====
-- The start of a thread pool.
use talk_system.Prelude.{
  ltb, leb, if◌then◌else◌, length, has, ℕ, zero, suc, ◌+◌, ◌≤◌, ◌<◌, ◌≡◌, refl, sym, ap, ap₂, ◌∙◌,
  true, false, ◌&&◌, none, some, List, [], ◌∷◌, ◌++◌, append-nil, append_assoc, arith,
}
use talk_system.Base.ThreadPool.{
  ThreadPool, PoolMode, mode_fixed, mode_cached, new, set_mode, set_task_que_max_thresh_hold,
  set_thread_size_thresh_hold, start, add_thread, add_threads, finds_all,
}
use talk_system.Base.ThreadPool.Steps.{Inv}

-- The numbers of `n` threads, the first of them `s`.
abbrev from : ℕ → ℕ → List ℕ
from s zero = []
from s (suc n) = s ∷ from (s + 1) n

length-from : (s n : ℕ) → length (from s n) ≡ n
length-from s zero = refl
length-from s (suc n) = ap suc (length-from (s + 1) n)

has-from : (i s n : ℕ) → has i (from s n) ≡ (leb s i && ltb i (s + n))
has-from i s zero = ground arith
has-from i s (suc n) = ground (arith, has-from i (s + 1) n)

add_threads_lem :
    (n : ℕ) (p : ThreadPool)
    → add_threads n p
      ≡ record p { waiting = p.waiting ++ from p.next_thread n; next_thread = p.next_thread + n }
unfolding add_threads
add_threads_lem zero p =
    ap₂ (λ us m. record p { waiting = us; next_thread = m }) (sym (append-nil p.waiting))
      (omega arith)
add_threads_lem (suc n) p =
    add_threads_lem n (add_thread p)
    ∙ ap₂ (λ us m. record p { waiting = us; next_thread = m })
        (append_assoc p.waiting (p.next_thread ∷ []) (from (p.next_thread + 1) n)) (omega arith)

finds_all-from : (m n : ℕ) → m ≤ n → finds_all m (from 0 n) ≡ true
unfolding finds_all
finds_all-from zero n h = refl
finds_all-from (suc m) n h = ground (arith, has-from m 0 n, finds_all-from m n (omega arith))

finds_all_none : (m s n : ℕ) → finds_all (suc m) (from (suc s) n) ≡ false
unfolding finds_all
finds_all_none zero s n = ground (arith, has-from 0 (suc s) n)
finds_all_none (suc m) s n = ground (arith, finds_all_none m s n)

-- What `start` makes of a pool, where it finds its threads.
abbrev started : ℕ → ThreadPool → ThreadPool
started n p = record p {
  is_pool_running = true;
  init_thread_size = n;
  cur_thread_size = n;
  idle_thread_size = p.idle_thread_size + n;
  waiting = p.waiting ++ from p.next_thread n;
  next_thread = p.next_thread + n;
}

start_lem :
    (n : ℕ) (p : ThreadPool)
    → start n p
      ≡ (if finds_all n (p.waiting ++ from p.next_thread n) then some (started n p) else none)
unfolding start
start_lem n p =
    ap
      (λ (q : ThreadPool).
        if finds_all n q.waiting
        then some (record q { idle_thread_size = q.idle_thread_size + n })
        else none)
      (add_threads_lem n
        (record p { is_pool_running = true; init_thread_size = n; cur_thread_size = n }))

-- A pool as its owner sets it up, in a process that has created `created` threads.
unfoldable pub set_up : ℕ → PoolMode → ℕ → ℕ → ThreadPool
set_up created mode tasks threads =
    set_thread_size_thresh_hold threads
      (set_task_que_max_thresh_hold tasks (set_mode mode (new created)))

-- The first pool of a process, set up in any way, starts with the threads that it is asked for, and
-- then is in order.
pub start-Inv :
    (n : ℕ) (mode : PoolMode) (tasks threads : ℕ)
    → 0 < n
    → (q : ThreadPool) × (start n (set_up 0 mode tasks threads) ≡ some q)
      × Inv q
      × (length q.waiting ≡ n)
      × (q.is_pool_running ≡ true)
unfolding set_up set_mode set_task_que_max_thresh_hold set_thread_size_thresh_hold new
start-Inv n mode tasks threads h = pick mode
  where
    at : PoolMode → ThreadPool
    at m = set_up 0 m tasks threads

    pick :
        (m : PoolMode)
        → (q : ThreadPool) × (start n (set_up 0 m tasks threads) ≡ some q)
          × Inv q
          × (length q.waiting ≡ n)
          × (q.is_pool_running ≡ true)
    pick mode_fixed = (
      started n (at mode_fixed),
      start_lem n (at mode_fixed) ∙ rw (finds_all-from n n (omega arith), if◌then◌else◌) refl,
      ground (arith, length-from 0 n),
      length-from 0 n,
      refl,
    )
    pick mode_cached = (
      started n (at mode_cached),
      start_lem n (at mode_cached) ∙ rw (finds_all-from n n (omega arith), if◌then◌else◌) refl,
      ground (arith, length-from 0 n),
      length-from 0 n,
      refl,
    )

-- A pool that is started, with any thread, in a process that has created a Thread before, runs into a
-- null pointer.
pub start_late :
    (n created tasks threads : ℕ) (mode : PoolMode)
    → start (suc n) (set_up (suc created) mode tasks threads) ≡ none
unfolding set_up set_mode set_task_que_max_thresh_hold set_thread_size_thresh_hold new
start_late n created tasks threads mode = pick mode
  where
    pick : (m : PoolMode) → start (suc n) (set_up (suc created) m tasks threads) ≡ none
    pick mode_fixed =
        start_lem (suc n) (set_up (suc created) mode_fixed tasks threads)
        ∙ rw (finds_all_none n created (suc n), if◌then◌else◌) refl
    pick mode_cached =
        start_lem (suc n) (set_up (suc created) mode_cached tasks threads)
        ∙ rw (finds_all_none n created (suc n), if◌then◌else◌) refl
