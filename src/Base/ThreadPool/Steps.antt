-- ===== src/Base/ThreadPool/Steps.antt =====
-- The threads of a pool and its clients, in any order.
use talk_system.Prelude.{
  ℕ, ◌+◌, ◌≤◌, ◌<◌, ◌≡◌, refl, ◌∙◌, length, length-append, has, ◌⊎◌, inl, inr, true, false, List,
  [], ◌∷◌, ◌++◌, append_assoc, append-nil, arith, ◌≢◌,
}
use talk_system.Base.ThreadPool.{
  ThreadPool, submit_task, enqueue, grow, is_cached, take_task, take_front, finish_task,
  exit_stopped, exit_idle, stop, remove, finish, works,
}

-- A thread that ends for idleness has waited in vain for as long as THREAD_MAX_IDLE_TIME says; it looks
-- neither at the queue again, nor at whether the pool still runs.
pub data Step (p : ThreadPool) : ThreadPool → Type 0 where
  submits : (task : ℕ) → Step p (submit_task task p).0
  takes : (t : ℕ) → has t p.waiting ≡ true → p.task_que ≢ [] → Step p (take_task t p)
  finishes : (t : ℕ) → works t p.working ≡ true → Step p (finish_task t p)
  ends :
      (t : ℕ)
      → has t p.waiting ≡ true
      → p.task_que ≡ []
      → p.is_pool_running ≡ false
      → Step p (exit_stopped t p)
  retires :
      (t : ℕ)
      → has t p.waiting ≡ true
      → is_cached p.pool_mode ≡ true
      → p.init_thread_size < p.cur_thread_size
      → Step p (exit_idle t p)
  stops : Step p (stop p)

pub data Reach (p : ThreadPool) : ThreadPool → Type 0 where
  here : Reach p p
  next : {q r : ThreadPool} → Reach p q → Step q r → Reach p r

-- No task was submitted to a pool that did not run.
abbrev pub InTime : {p q : ThreadPool} → Step p q → Type 0
InTime {p} (submits task) = p.is_pool_running ≡ true
InTime {p} _ = p ≡ p

abbrev pub AllInTime : {p q : ThreadPool} → Reach p q → Type 0
AllInTime {p} here = p ≡ p
AllInTime (next r s) = AllInTime r × InTime s

-- The threads there are.
abbrev pub thread_count : ThreadPool → ℕ
thread_count p = length p.waiting + length p.working

pub record Inv (p : ThreadPool) : Type 0 where
  pub task_count : p.task_size ≡ length p.task_que
  pub not_over : length p.task_que ≤ p.task_que_max_thresh_hold
  pub in_order : p.submitted ≡ p.taken ++ p.task_que
  pub idle : length p.waiting ≤ p.idle_thread_size
  pub running :
      p.is_pool_running ≡ true
      → (p.idle_thread_size ≡ length p.waiting)
        × (p.cur_thread_size ≡ thread_count p)
        × (p.init_thread_size ≤ p.cur_thread_size)
        × ((p.cur_thread_size ≤ p.thread_size_thresh_hold)
            ⊎ (p.cur_thread_size ≡ p.init_thread_size))
        × (0 < p.init_thread_size)

-- Where tasks wait, there are the threads that `curThreadSize_` counts.
abbrev Staffed : ThreadPool → Type 0
Staffed p =
    (p.task_que ≡ [])
    ⊎ (p.cur_thread_size ≡ thread_count p)
      × (p.init_thread_size ≤ p.cur_thread_size)
      × (0 < p.init_thread_size)

length-remove : (t : ℕ) (us : List ℕ) → has t us ≡ true → length (remove t us) + 1 ≡ length us
length-remove t [] h = cc
length-remove t (u ∷ us) h = ground (arith, length-remove t us)

length-finish :
    (t : ℕ) (us : List (ℕ × ℕ)) → works t us ≡ true → length (finish t us) + 1 ≡ length us
length-finish t [] h = cc
length-finish t ((u, task) ∷ us) h = ground (arith, length-finish t us)

submit-Inv : (task : ℕ) (p : ThreadPool) → Inv p → Inv (submit_task task p).0
unfolding submit_task enqueue grow
submit-Inv task p v = ground (
  arith,
  v.running,
  v.in_order,
  append_assoc p.taken p.task_que (task ∷ []),
  length-append p.task_que (task ∷ []),
  length-append p.waiting (p.next_thread ∷ []),
)

take-Inv :
    (t : ℕ) (p : ThreadPool)
    → has t p.waiting ≡ true
    → p.task_que ≢ []
    → Inv p
    → Inv (take_task t p)
unfolding take_task
take-Inv t p h n v = pick p.task_que refl
  where
    pick : (q : List ℕ) → p.task_que ≡ q → Inv (take_front t q p)
    pick [] e = v
    pick (task ∷ q) e = ground (
      arith,
      v.running,
      v.in_order,
      append_assoc p.taken (task ∷ []) q,
      length-remove t p.waiting h,
    )

finish-Inv : (t : ℕ) (p : ThreadPool) → works t p.working ≡ true → Inv p → Inv (finish_task t p)
unfolding finish_task
finish-Inv t p h v =
    ground (arith, v.running, length-finish t p.working h, length-append p.waiting (t ∷ []))

exit_stopped-Inv :
    (t : ℕ) (p : ThreadPool)
    → has t p.waiting ≡ true
    → p.task_que ≡ []
    → p.is_pool_running ≡ false
    → Inv p
    → Inv (exit_stopped t p)
unfolding exit_stopped
exit_stopped-Inv t p h e s v = ground (arith, length-remove t p.waiting h)

exit_idle-Inv :
    (t : ℕ) (p : ThreadPool)
    → has t p.waiting ≡ true
    → p.init_thread_size < p.cur_thread_size
    → Inv p
    → Inv (exit_idle t p)
unfolding exit_idle
exit_idle-Inv t p h c v = ground (arith, v.running, length-remove t p.waiting h)

stop-Inv : (p : ThreadPool) → Inv p → Inv (stop p)
unfolding stop
stop-Inv p v = ground (arith, v.task_count)

Step-Inv : {p q : ThreadPool} → Step p q → Inv p → Inv q
Step-Inv {p} (submits task) v = submit-Inv task p v
Step-Inv {p} (takes t h n) v = take-Inv t p h n v
Step-Inv {p} (finishes t h) v = finish-Inv t p h v
Step-Inv {p} (ends t h e s) v = exit_stopped-Inv t p h e s v
Step-Inv {p} (retires t h m c) v = exit_idle-Inv t p h c v
Step-Inv {p} stops v = stop-Inv p v

Reach-Inv : {p q : ThreadPool} → Inv p → Reach p q → Inv q
Reach-Inv i here = i
Reach-Inv i (next r s) = Step-Inv s (Reach-Inv i r)

submit-Staffed :
    (task : ℕ) (p : ThreadPool) → p.is_pool_running ≡ true → Inv p → Staffed (submit_task task p).0
unfolding submit_task enqueue grow
submit-Staffed task p r v =
    ground (arith, v.running r, length-append p.waiting (p.next_thread ∷ []))

take-Staffed :
    (t : ℕ) (p : ThreadPool) → has t p.waiting ≡ true → Staffed p → Staffed (take_task t p)
unfolding take_task
take-Staffed t p h d = pick p.task_que refl
  where
    pick : (q : List ℕ) → p.task_que ≡ q → Staffed (take_front t q p)
    pick [] e = d
    pick (task ∷ q) e = ground (arith, d, length-remove t p.waiting h)

finish-Staffed :
    (t : ℕ) (p : ThreadPool) → works t p.working ≡ true → Staffed p → Staffed (finish_task t p)
unfolding finish_task
finish-Staffed t p h d =
    ground (arith, d, length-finish t p.working h, length-append p.waiting (t ∷ []))

exit_idle-Staffed :
    (t : ℕ) (p : ThreadPool)
    → has t p.waiting ≡ true
    → p.init_thread_size < p.cur_thread_size
    → Staffed p
    → Staffed (exit_idle t p)
unfolding exit_idle
exit_idle-Staffed t p h c d = ground (arith, d, length-remove t p.waiting h)

Step-Staffed : {p q : ThreadPool} → (s : Step p q) → InTime s → Inv p → Staffed p → Staffed q
unfolding exit_stopped stop
Step-Staffed {p} (submits task) r v d = submit-Staffed task p r v
Step-Staffed {p} (takes t h n) r v d = take-Staffed t p h d
Step-Staffed {p} (finishes t h) r v d = finish-Staffed t p h d
Step-Staffed {p} (ends t h e s) r v d = inl e
Step-Staffed {p} (retires t h m c) r v d = exit_idle-Staffed t p h c d
Step-Staffed {p} stops r v d = d

Reach-Staffed : {p q : ThreadPool} → (r : Reach p q) → AllInTime r → Inv p → Staffed p → Staffed q
Reach-Staffed here h v d = d
Reach-Staffed (next r s) h v d = Step-Staffed s h.1 (Reach-Inv v r) (Reach-Staffed r h.0 v d)

-- Whenever tasks are submitted, they are taken in the order in which they were accepted, each of them once: those taken, then
-- those in the queue are all that were accepted; `taskSize_` counts the queue, which keeps to its
-- bound.
pub tasks_in_order :
    {p q : ThreadPool}
    → Inv p
    → Reach p q
    → (q.submitted ≡ q.taken ++ q.task_que)
      × (q.task_size ≡ length q.task_que)
      × (length q.task_que ≤ q.task_que_max_thresh_hold)
tasks_in_order i r = let v = Reach-Inv i r in (v.in_order, v.task_count, v.not_over)

-- In a run from a pool in order that runs, to which no task is submitted once it was stopped: when the
-- last thread has ended, which is what the destructor waits for, every accepted task has been taken,
-- though a thread may end for idleness while tasks wait.
pub none_left_behind :
    {p q : ThreadPool}
    → Inv p
    → p.is_pool_running ≡ true
    → (r : Reach p q) → AllInTime r
    → thread_count q ≡ 0
    → q.submitted ≡ q.taken
none_left_behind {p} {q} i up r h e =
    let v = Reach-Inv i r in
    let d = Reach-Staffed r h i (inr ((i.running up).1, (i.running up).2, (i.running up).4)) in
    v.in_order ∙ ground (arith, d, append-nil q.taken)

-- While the pool runs, the counters are right: `idleThreadSize_` counts the threads without a task and
-- `curThreadSize_` all of them, which are never fewer than at the start, nor more than the limit
-- unless they are those of the start.
pub counters_right :
    {p q : ThreadPool}
    → Inv p
    → Reach p q
    → q.is_pool_running ≡ true
    → (q.idle_thread_size ≡ length q.waiting)
      × (q.cur_thread_size ≡ thread_count q)
      × (q.init_thread_size ≤ q.cur_thread_size)
      × ((q.cur_thread_size ≤ q.thread_size_thresh_hold) ⊎ (q.cur_thread_size ≡ q.init_thread_size))
counters_right i r up = let v = (Reach-Inv i r).running up in (v.0, v.1, v.2, v.3)
