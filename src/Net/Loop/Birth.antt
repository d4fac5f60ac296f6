-- ===== src/Net/Loop/Birth.antt =====
-- common/net/EventLoop.cc, lines 12 to 60, with DefaultPoller.cc and the constructor of EPollPoller.cc:
-- the making of a loop in a thread, and its destructor. A channel's address is its descriptor here.
pub mod Lives
use talk_system.Prelude.{◌>>=◌, ℕ, Bool, true, false, Option, none, some, List, []}
use talk_system.Net.Channel
use talk_system.Net.Channel.{
  Channel, Events, Request, enable_reading, disable_all, set_events, is_none_event, new,
  k_none_event,
}
use talk_system.Net.Poller
use talk_system.Net.Poller.{Epoll, request, remove_channel}
use talk_system.Net.Poller.Tidy.{>>=_some, ask_all, take_out, Tidy, ask_all-Tidy, take_out-Tidy}
use talk_system.Net.Poller.Table.{Inv, expected, Changed, Changed-fd, Changed-Inv}
use talk_system.Net.Poller.Requests.{index_after}
use talk_system.Net.Poller.Removal.{remove_channel-Inv}

module _ (k : Epoll) where
  -- A loop of the number `me`, in its thread: `t_loopInThisThread`, the poller, `wakeupFd_`, and
  -- whether that is still open.
  pub record Born : Type 0 where
    pub me : ℕ
    pub loop_in_this_thread : Option ℕ
    pub poller : Poller.Poller k
    pub wakeup_fd : ℕ
    pub is_open : Bool

  -- `EPollPoller::EPollPoller` and `createEventfd`, with what `epoll_create1` and `eventfd` gave;
  -- where they fail, the process exits, none. So does a null poller, with MUDUO_USE_POLL set, at the
  -- first request.
  unfoldable pub new_default_poller : Bool → Option k.Set → Option (Poller.Poller k)
  new_default_poller true s = none
  new_default_poller false none = none
  new_default_poller false (some s) =
      some (record { channels = []; epoll = s; channel = λ c. Channel.new c })

  -- The test of `t_loopInThisThread`, where another loop ends the process.
  unfoldable pub claim_thread : Option ℕ → ℕ → Option ℕ
  claim_thread none me = some me
  claim_thread (some other) me = none

  -- The end of the constructor.
  unfoldable pub enable_wakeup : ℕ → Option ℕ → ℕ → Poller.Poller k → Option Born
  enable_wakeup me none fd p = none
  enable_wakeup me (some l) fd p = do
    q ← Poller.request k enable_reading fd p
    some (record {
      me = me;
      loop_in_this_thread = some l;
      poller = q;
      wakeup_fd = fd;
      is_open = true;
    })

  -- `EventLoop::EventLoop`, in a thread whose `t_loopInThisThread` is `old`.
  unfoldable pub construct : Bool → Option k.Set → Option ℕ → Option ℕ → ℕ → Option Born
  construct use_poll s evtfd old me = do
    p ← new_default_poller use_poll s
    fd ← evtfd
    enable_wakeup me (claim_thread old me) fd p

  -- `EventLoop::~EventLoop`.
  unfoldable pub destruct : Born → Option Born
  destruct l = do
    q ← take_out k l.wakeup_fd l.poller
    some (record l { poller = q; is_open = false; loop_in_this_thread = none })

  unfoldable pub live : List (Request × ℕ) → Born → Option Born
  live asks l = do p ← ask_all k asks l.poller; some (record l { poller = p })
