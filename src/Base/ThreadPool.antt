-- ===== src/Base/ThreadPool.antt =====
-- common/base/ThreadPool.h and ThreadPool.cc, with the thread numbers of Thread.cc. A task is a number.
-- The counters are never taken below 0, so they are natural numbers here.
pub mod Steps
pub mod Start
mod Tests
use talk_system.Prelude.{
  ℕ, zero, suc, ◌+◌, ◌-◌, ◌==◌, ltb, length, has, if◌then◌else◌, Bool, true, false, ◌&&◌, Option,
  none, some, List, [], ◌∷◌, ◌++◌,
}

pub data PoolMode : Type 0 where
  mode_fixed mode_cached : PoolMode

-- `threads_` is two lists: the threads in the `while` loop that waits for a task, and those that run
-- one, with the task. `next_thread` is the number of the next Thread that the process creates.
-- `submitted` and `taken` are histories.
pub record ThreadPool : Type 0 where
  pub pool_mode : PoolMode
  pub is_pool_running : Bool
  pub init_thread_size : ℕ
  pub cur_thread_size : ℕ
  pub idle_thread_size : ℕ
  pub task_size : ℕ
  pub task_que : List ℕ
  pub task_que_max_thresh_hold : ℕ
  pub thread_size_thresh_hold : ℕ
  pub waiting : List ℕ
  pub working : List (ℕ × ℕ)
  pub next_thread : ℕ
  pub submitted : List ℕ
  pub taken : List ℕ

-- The constructor, in a process that has created `next` threads.
unfoldable pub new : ℕ → ThreadPool
new next = record {
  pool_mode = mode_fixed;
  is_pool_running = false;
  init_thread_size = 0;
  cur_thread_size = 0;
  idle_thread_size = 0;
  task_size = 0;
  task_que = [];
  task_que_max_thresh_hold = 2147483647;
  thread_size_thresh_hold = 1024;
  waiting = [];
  working = [];
  next_thread = next;
  submitted = [];
  taken = [];
}

unfoldable pub set_mode : PoolMode → ThreadPool → ThreadPool
set_mode mode p = if p.is_pool_running then p else record p { pool_mode = mode }

unfoldable pub set_task_que_max_thresh_hold : ℕ → ThreadPool → ThreadPool
set_task_que_max_thresh_hold n p =
    if p.is_pool_running then p else record p { task_que_max_thresh_hold = n }

abbrev pub is_cached : PoolMode → Bool
is_cached mode_fixed = false
is_cached mode_cached = true

unfoldable pub set_thread_size_thresh_hold : ℕ → ThreadPool → ThreadPool
set_thread_size_thresh_hold n p =
    if p.is_pool_running
    then p
    else if is_cached p.pool_mode
    then record p { thread_size_thresh_hold = n }
    else p

-- A new Thread in `threads_`, which goes to wait for a task.
abbrev pub add_thread : ThreadPool → ThreadPool
add_thread p = record p {
  waiting = p.waiting ++ p.next_thread ∷ [];
  next_thread = p.next_thread + 1;
}

-- The first loop of `start`.
unfoldable pub add_threads : ℕ → ThreadPool → ThreadPool
add_threads zero p = p
add_threads (suc n) p = add_threads n (add_thread p)

-- Whether `threads_[i]` finds a thread for every `i` below `n`; where it does not, the second loop
-- runs into a null pointer.
unfoldable pub finds_all : ℕ → List ℕ → Bool
finds_all zero ids = true
finds_all (suc n) ids = has n ids && finds_all n ids

-- `start`, before any task is submitted; `none` is the null pointer.
unfoldable pub start : ℕ → ThreadPool → Option ThreadPool
start n p =
    let q =
      add_threads n
        (record p { is_pool_running = true; init_thread_size = n; cur_thread_size = n }) in
    if finds_all n q.waiting
    then some (record q { idle_thread_size = q.idle_thread_size + n })
    else none

unfoldable pub enqueue : ℕ → ThreadPool → ThreadPool
enqueue task p = record p {
  task_que = p.task_que ++ task ∷ [];
  task_size = p.task_size + 1;
  submitted = p.submitted ++ task ∷ [];
}

-- The part of `submitTask` on the cached mode.
unfoldable pub grow : ThreadPool → ThreadPool
grow p =
    if is_cached p.pool_mode
      && (ltb p.idle_thread_size p.task_size && ltb p.cur_thread_size p.thread_size_thresh_hold)
    then record (add_thread p) {
      cur_thread_size = p.cur_thread_size + 1;
      idle_thread_size = p.idle_thread_size + 1;
    }
    else p

-- `submitTask`, and whether the task was accepted; with a full queue, when the second is over, the
-- future holds a default value instead.
unfoldable pub submit_task : ℕ → ThreadPool → ThreadPool × Bool
submit_task task p =
    if ltb (length p.task_que) p.task_que_max_thresh_hold
    then (grow (enqueue task p), true)
    else (p, false)

abbrev pub remove : ℕ → List ℕ → List ℕ
remove t [] = []
remove t (u ∷ us) = let rest = remove t us in if u == t then us else u ∷ rest

abbrev pub finish : ℕ → List (ℕ × ℕ) → List (ℕ × ℕ)
finish t [] = []
finish t ((u, task) ∷ us) = let rest = finish t us in if u == t then us else (u, task) ∷ rest

abbrev pub works : ℕ → List (ℕ × ℕ) → Bool
works t [] = false
works t ((u, task) ∷ us) = let rest = works t us in if u == t then true else rest

-- `threadFunc` of thread `t`, with a task in the queue: the task is taken.
abbrev pub take_front : ℕ → List ℕ → ThreadPool → ThreadPool
take_front t [] p = p
take_front t (task ∷ tasks) p = record p {
  idle_thread_size = p.idle_thread_size - 1;
  task_que = tasks;
  task_size = p.task_size - 1;
  waiting = remove t p.waiting;
  working = (t, task) ∷ p.working;
  taken = p.taken ++ task ∷ [];
}

unfoldable pub take_task : ℕ → ThreadPool → ThreadPool
take_task t p = take_front t p.task_que p

-- After `task()`.
unfoldable pub finish_task : ℕ → ThreadPool → ThreadPool
finish_task t p = record p {
  idle_thread_size = p.idle_thread_size + 1;
  waiting = p.waiting ++ t ∷ [];
  working = finish t p.working;
}

-- The two ends of a thread: the pool is being destroyed, or the thread was idle for a minute.
unfoldable pub exit_stopped : ℕ → ThreadPool → ThreadPool
exit_stopped t p = record p { waiting = remove t p.waiting }

unfoldable pub exit_idle : ℕ → ThreadPool → ThreadPool
exit_idle t p = record p {
  waiting = remove t p.waiting;
  cur_thread_size = p.cur_thread_size - 1;
  idle_thread_size = p.idle_thread_size - 1;
}

-- The start of the destructor, which then waits until `threads_` is empty.
unfoldable pub stop : ThreadPool → ThreadPool
stop p = record p { is_pool_running = false }
