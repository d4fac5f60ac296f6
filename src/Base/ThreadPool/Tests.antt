-- ===== src/Base/ThreadPool/Tests.antt =====
-- The thread pool on small inputs.
use talk_system.Prelude.{length, ◌≤◌, ◌≡◌, refl, ◌⊎◌, true, none, [], ◌∷◌, ◌++◌, arith}
use talk_system.Base.ThreadPool
use talk_system.Base.ThreadPool.{
  ThreadPool, mode_fixed, mode_cached, start, submit_task, take_task, stop, exit_stopped,
  finish_task, new, set_mode, set_task_que_max_thresh_hold, set_thread_size_thresh_hold, enqueue,
  grow,
}
use talk_system.Base.ThreadPool.Steps.{
  Inv, here, next, submits, takes, finishes, ends, stops, thread_count, tasks_in_order,
  none_left_behind, counters_right,
}
use talk_system.Base.ThreadPool.Start.{set_up, start_late}

start_late_example : start 2 (set_up 3 mode_fixed 4 8) ≡ none
start_late_example = start_late 1 2 4 8 mode_fixed

-- A pool with one thread, as `start` leaves it.
abbrev one : ThreadPool
one = record (set_up 0 mode_cached 4 8) {
  is_pool_running = true;
  init_thread_size = 1;
  cur_thread_size = 1;
  idle_thread_size = 1;
  waiting = 0 ∷ [];
  next_thread = 1;
}

one-Inv : Inv one
unfolding set_up ThreadPool.new ThreadPool.set_mode ThreadPool.set_task_que_max_thresh_hold
    ThreadPool.set_thread_size_thresh_hold
one-Inv = ground arith

-- A task is submitted.
abbrev busy : ThreadPool
busy = (submit_task 7 one).0

tasks_in_order_example :
    (busy.submitted ≡ busy.taken ++ busy.task_que)
    × (busy.task_size ≡ length busy.task_que)
    × (length busy.task_que ≤ busy.task_que_max_thresh_hold)
tasks_in_order_example = tasks_in_order {p = one} {q = busy} one-Inv (next here (submits 7))

counters_right_example :
    (busy.idle_thread_size ≡ length busy.waiting)
    × (busy.cur_thread_size ≡ thread_count busy)
    × (busy.init_thread_size ≤ busy.cur_thread_size)
    × ((busy.cur_thread_size ≤ busy.thread_size_thresh_hold)
        ⊎ (busy.cur_thread_size ≡ busy.init_thread_size))
unfolding set_up ThreadPool.new ThreadPool.set_mode ThreadPool.set_task_que_max_thresh_hold
    ThreadPool.set_thread_size_thresh_hold submit_task ThreadPool.enqueue ThreadPool.grow
counters_right_example = counters_right {p = one} {q = busy} one-Inv (next here (submits 7)) refl

-- The pool is destroyed after its thread has run the task.
abbrev ended : ThreadPool
ended = exit_stopped 0 (stop (finish_task 0 (take_task 0 busy)))

none_left_behind_example : ended.submitted ≡ ended.taken
unfolding set_up ThreadPool.new ThreadPool.set_mode ThreadPool.set_task_que_max_thresh_hold
    ThreadPool.set_thread_size_thresh_hold submit_task ThreadPool.enqueue ThreadPool.grow take_task
    finish_task stop exit_stopped
none_left_behind_example =
    none_left_behind {p = one} {q = ended} one-Inv refl
      (next
        (next (next (next (next here (submits 7)) (takes 0 refl (λ e. cc))) (finishes 0 refl))
          stops)
        (ends 0 refl refl refl))
      (((((refl, refl), refl), refl), refl), refl) refl
