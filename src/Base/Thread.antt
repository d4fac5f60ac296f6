-- ===== src/Base/Thread.antt =====
-- common/base/Thread.h and Thread.cc: a thread object, with the new thread that `start` makes and the
-- thread that calls `start`, `join` and the destructor.
pub mod Stages
pub mod Starts
use talk_system.Prelude.{
  ◌==◌, if◌then◌else◌, take, Text, ℕ, zero, suc, ◌+◌, Bool, true, false, not, ◌&&◌, List, [], ◌∷◌,
  ◌++◌,
}

-- Where the calling thread is: before `start`, in its `sem_wait`, behind it, in `thread_->join()`,
-- behind that, and after the destructor.
pub data Caller : Type 0 where
  before waiting started joining joined destroyed : Caller

-- Where the new thread is: not made, before `tid_ = …`, before `sem_post`, before the call of `func_`,
-- and at its end.
pub data Child : Type 0 where
  unborn noting posting calling done : Child

pub record Thread : Type 0 where
  pub is_started : Bool
  pub is_joined : Bool
  pub is_detached : Bool
  pub tid : ℕ
  pub has_func : Bool
  pub name : Text
  pub thread_id : ℕ
  -- The semaphore on the stack of `start`.
  pub sem : ℕ
  pub caller : Caller
  pub child : Child
  -- The arguments of the calls of `func_`.
  pub calls : List ℕ
  -- Whether the new thread has used `func_` after the destructor.
  pub uses_freed : Bool

-- `setDefaultName` for the thread with the number `num`; `decimal` is what `%d` prints into `buf[32]`.
module _ (decimal : ℕ → Text) where
  unfoldable pub default_name : ℕ → Text → Text
  default_name num [] = take 31 (b'T' ∷ b'h' ∷ b'r' ∷ b'e' ∷ b'a' ∷ b'd' ∷ decimal num)
  default_name num (c ∷ cs) = c ∷ cs

  -- The constructor. `count` is `numCreated_ + 1`, the number that `++numCreated_` gives.
  unfoldable pub new : ℕ → Bool → Text → Thread × ℕ
  new count has_func name = (
    record {
      is_started = false;
      is_joined = false;
      is_detached = false;
      tid = 0;
      has_func = has_func;
      name = default_name count name;
      thread_id = count;
      sem = 0;
      caller = before;
      child = unborn;
      calls = [];
      uses_freed = false;
    },
    count + 1,
  )

-- `start` up to `sem_wait`.
unfoldable pub start : Thread → Thread
start t = record t { is_started = true; sem = 0; child = noting; caller = waiting }

unfoldable pub sem_wait : Thread → Thread
sem_wait t = go t.sem
  where
    go : ℕ → Thread
    go zero = t
    go (suc n) = record t { sem = n; caller = started }

unfoldable pub join : Thread → Thread
join t = record t { is_joined = true; caller = joining }

-- `std::thread::join` returns when the new thread has ended.
unfoldable pub join_returns : Thread → Thread
join_returns t = go t.child
  where
    go : Child → Thread
    go done = record t { caller = joined }
    go c = t

-- `~Thread`.
unfoldable pub destroy : Thread → Thread
destroy t = record t { is_detached = t.is_started && not t.is_joined; caller = destroyed }

abbrev pub is_gone : Caller → Bool
is_gone destroyed = true
is_gone _ = false

-- `CurrentThread::tid`, where the thread's `t_cachedTid` is `cached`, and `os` is what gettid gives. A new
-- thread has a 0 there.
abbrev pub current_tid : ℕ → ℕ → ℕ
current_tid cached os = if cached == 0 then os else cached

-- The body of the new thread, which the kernel numbers `os`; the caller joins it if `joins`.
module _ (os : ℕ) (joins : Bool) where
  unfoldable pub body : Child → Thread → Thread
  body noting t = record t { tid = current_tid 0 os; child = posting }
  body posting t = record t { sem = t.sem + 1; child = calling }
  body calling t = record t {
    calls = if t.has_func then t.calls ++ t.thread_id ∷ [] else t.calls;
    uses_freed = is_gone t.caller;
    child = done;
  }
  body _ t = t

  unfoldable pub call : Caller → Thread → Thread
  call before t = start t
  call waiting t = sem_wait t
  call started t = if joins then join t else destroy t
  call joining t = join_returns t
  call joined t = destroy t
  call destroyed t = t

  -- The pieces of the two threads, in any order; `true` is the new thread's turn.
  unfoldable pub step : Thread → Bool → Thread
  step t true = body t.child t
  step t false = call t.caller t

  unfoldable pub run : Thread → List Bool → Thread
  run t [] = t
  run t (b ∷ bs) = run (step t b) bs
