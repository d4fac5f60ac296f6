-- ===== src/Base/Task.antt =====
-- common/base/Task.h, Task.cc and Semaphore.h: a task, the Result that waits for its value, and the
-- semaphore between the thread that runs the task and the one that asks. `Base/Any` is the value.
pub mod Answers
use talk_system.Prelude.{
  if◌then◌else◌, ℕ, zero, suc, ◌+◌, Bool, true, false, Option, none, some, List, [], ◌∷◌, ◌++◌,
}

-- `Semaphore`, by its `resLimit_`. `wait` is none where the thread stays blocked.
unfoldable pub post : ℕ → ℕ
post n = n + 1

unfoldable pub wait : ℕ → Option ℕ
wait zero = none
wait (suc n) = some n

-- Where the thread is that makes the Result and calls `get` again and again, and the worker that
-- calls `exec` once. Between `taking` and the next call, and between `storing` and `posting`, the
-- other thread may run.
pub data User : Type 0 where
  absent waiting taking : User

pub data Worker : Type 0 where
  ready storing posting finished skipped : Worker

-- What the two threads share, for values of the type `A`; an `any_` without a value is none.
pub record Shared (A : Type 0) : Type 0 where
  pub user : User
  pub worker : Worker
  -- `result_ != nullptr` in the task.
  pub has_result : Bool
  pub is_valid : Bool
  pub any : Option A
  pub sem : ℕ
  -- What the calls of `get` have returned, oldest first.
  pub returned : List (Option A)

module _ {A : Type 0} where
  -- `Task::Task`, before a Result is made with the validity `valid`.
  unfoldable pub initial : Bool → Shared A
  initial valid = record {
    user = absent;
    worker = ready;
    has_result = false;
    is_valid = valid;
    any = none;
    sem = 0;
    returned = [];
  }

  -- `Result::Result`, which calls `setResult`.
  unfoldable pub make_result : Shared A → Shared A
  make_result s = record s { user = waiting; has_result = true }

  -- `Task::exec` up to the call of `setVal`.
  unfoldable pub exec : Shared A → Shared A
  exec s = if s.has_result then record s { worker = storing } else record s { worker = skipped }

  -- The two parts of `setVal`, for the value `v` of `run()`.
  unfoldable pub store : A → Shared A → Shared A
  store v s = record s { any = some v; worker = posting }

  unfoldable pub set_val_post : Shared A → Shared A
  set_val_post s = record s { sem = post s.sem; worker = finished }

  -- `get` up to the end of `sem_.wait()`; `empty` is the text "".
  unfoldable pub get_wait : A → Shared A → Shared A
  get_wait empty s = if s.is_valid then go (wait s.sem) else give (some empty)
    where
      go : Option ℕ → Shared A
      go none = s
      go (some n) = record s { sem = n; user = taking }

      give : Option A → Shared A
      give x = record s { returned = s.returned ++ x ∷ [] }

  -- `std::move(any_)`.
  unfoldable pub take_any : Shared A → Shared A
  take_any s = record s { returned = s.returned ++ s.any ∷ []; any = none; user = waiting }

-- Which thread runs next.
pub data Who : Type 0 where
  by_user by_worker : Who

module _ {A : Type 0} (empty v : A) where
  unfoldable pub user_step : User → Shared A → Shared A
  user_step absent s = make_result s
  user_step waiting s = get_wait empty s
  user_step taking s = take_any s

  unfoldable pub worker_step : Worker → Shared A → Shared A
  worker_step ready s = exec s
  worker_step storing s = store v s
  worker_step posting s = set_val_post s
  worker_step _ s = s

  unfoldable pub step : Shared A → Who → Shared A
  step s by_user = user_step s.user s
  step s by_worker = worker_step s.worker s

  unfoldable pub run : Shared A → List Who → Shared A
  run s [] = s
  run s (w ∷ ws) = run (step s w) ws
