-- ===== src/Net/Poller.antt =====
-- common/net/EPollPoller.h and EPollPoller.cc, with Poller.h and Poller.cc. A channel is its address,
-- a number, and the channels are a function of it; the kernel's table is a parameter.
pub mod Table
pub mod Requests
pub mod Removal
pub mod Tidy
pub mod Poll
mod Tests
use talk_system.Prelude.{
  ◌==◌, if◌then◌else◌, ℕ, ◌≡◌, Bool, false, Option, none, some, List, [], ◌∷◌,
}
use talk_system.Net.Channel.{
  Channel, Events, Index, k_new, k_added, k_deleted, Request, set_events, is_none_event,
}

-- The calls of `epoll_ctl`.
pub data Ctl : Type 0 where
  ctl_add ctl_mod : ℕ → Events → Ctl
  ctl_del : ℕ → Ctl

-- An epoll instance: the set of descriptors that it watches with their events. A call that fails is
-- `none`. What the manual page of `epoll_ctl` says of the calls that name a descriptor which is in the
-- set, or is not, with enough memory: they succeed, and change that descriptor's entry alone.
pub record Epoll : Type 1 where
  pub Set : Type 0
  pub registered : Set → ℕ → Option Events
  pub ctl : Set → Ctl → Option Set
  pub add_ok :
      (s : Set) (fd : ℕ) (e : Events)
      → registered s fd ≡ none
      → (t : Set) × (ctl s (ctl_add fd e) ≡ some t)
        × ((j : ℕ) → registered t j ≡ (if fd == j then some e else registered s j))
  pub mod_ok :
      (s : Set) (fd : ℕ) (d e : Events)
      → registered s fd ≡ some d
      → (t : Set) × (ctl s (ctl_mod fd e) ≡ some t)
        × ((j : ℕ) → registered t j ≡ (if fd == j then some e else registered s j))
  pub del_ok :
      (s : Set) (fd : ℕ) (d : Events)
      → registered s fd ≡ some d
      → (t : Set) × (ctl s (ctl_del fd) ≡ some t)
        × ((j : ℕ) → registered t j ≡ (if fd == j then none else registered s j))

-- `channels_`, as an association list of descriptors and channels.
abbrev pub ChannelMap : Type 0
ChannelMap = List (ℕ × ℕ)

unfoldable pub find_fd : ℕ → ChannelMap → Option ℕ
find_fd fd [] = none
find_fd fd ((j, c) ∷ m) = if j == fd then some c else find_fd fd m

unfoldable pub put_fd : ℕ → ℕ → ChannelMap → ChannelMap
put_fd fd c [] = (fd, c) ∷ []
put_fd fd c ((j, d) ∷ m) = if j == fd then (j, c) ∷ m else (j, d) ∷ put_fd fd c m

unfoldable pub erase_fd : ℕ → ChannelMap → ChannelMap
erase_fd fd [] = []
erase_fd fd ((j, d) ∷ m) = let rest = erase_fd fd m in if j == fd then rest else (j, d) ∷ rest

abbrev pub store : (ℕ → Channel) → ℕ → Channel → ℕ → Channel
store f p c q = if p == q then c else f q

module _ (k : Epoll) where
  open k use {Set, registered, ctl}

  pub record Poller : Type 0 where
    pub channels : ChannelMap
    pub epoll : Set
    -- The channel objects.
    pub channel : ℕ → Channel

  abbrev pub with_set : Poller → Option Set → Option Poller
  with_set p none = none
  with_set p (some s) = some (record p { epoll = s })

  abbrev pub with_set_or_same : Poller → Option Set → Option Poller
  with_set_or_same p none = some p
  with_set_or_same p (some s) = some (record p { epoll = s })

  -- `update(operation, channel)`: a failed ADD or MOD ends the process, `none`; a failed DEL is logged.
  unfoldable pub update : Ctl → Poller → Option Poller
  update (ctl_add fd e) p = with_set p (ctl p.epoll (ctl_add fd e))
  update (ctl_mod fd e) p = with_set p (ctl p.epoll (ctl_mod fd e))
  update (ctl_del fd) p = with_set_or_same p (ctl p.epoll (ctl_del fd))

  unfoldable pub set_index : ℕ → Index → Poller → Poller
  set_index c i p = record p { channel = store p.channel c (record (p.channel c) { index = i }) }

  abbrev pub mark : ℕ → Index → Option Poller → Option Poller
  mark c i none = none
  mark c i (some p) = some (set_index c i p)

  abbrev pub update_at : Index → ℕ → Poller → Option Poller
  update_at k_new c p =
      let h = p.channel c in
      update (ctl_add h.fd h.events)
        (set_index c k_added (record p { channels = put_fd h.fd c p.channels }))
  update_at k_deleted c p =
      let h = p.channel c in update (ctl_add h.fd h.events) (set_index c k_added p)
  update_at k_added c p =
      let h = p.channel c in
      if is_none_event h.events
      then mark c k_deleted (update (ctl_del h.fd) p)
      else update (ctl_mod h.fd h.events) p

  -- `updateChannel`.
  unfoldable pub update_channel : ℕ → Poller → Option Poller
  update_channel c p = update_at (p.channel c).index c p

  abbrev pub remove_at : Index → ℕ → Poller → Option Poller
  remove_at k_added c p = mark c k_new (update (ctl_del (p.channel c).fd) p)
  remove_at k_deleted c p = some (set_index c k_new p)
  remove_at k_new c p = some (set_index c k_new p)

  -- `removeChannel`.
  unfoldable pub remove_channel : ℕ → Poller → Option Poller
  remove_channel c p =
      remove_at (p.channel c).index c (record p { channels = erase_fd (p.channel c).fd p.channels })

  unfoldable pub has_channel : ℕ → Poller → Bool
  has_channel c p = elim (find_fd (p.channel c).fd p.channels) [ none ↦ false | some d ↦ d == c ]

  -- A channel whose `events_` are `e` now, with the `update()` that follows that.
  unfoldable pub change : Events → ℕ → Poller → Option Poller
  change e c p =
      update_channel c
        (record p { channel = store p.channel c (record (p.channel c) { events = e }) })

  -- A request on a channel.
  unfoldable pub request : Request → ℕ → Poller → Option Poller
  request q c p = change (set_events q (p.channel c).events) c p
