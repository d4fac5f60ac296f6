-- ===== src/Net/Channel.antt =====
-- common/net/Channel.h and Channel.cc. An `int` of epoll flags is the record of its bits.
pub mod Mask
use talk_system.Prelude.{
  if◌then◌else◌, ℕ, ◌≡◌, ◌⊎◌, Bool, true, false, not, ◌&&◌, ◌||◌, Option, none, some, arith,
}

-- EPOLLIN, EPOLLPRI, EPOLLOUT, EPOLLERR, EPOLLHUP.
pub record Events : Type 0 where
  pub epollin : Bool
  pub epollpri : Bool
  pub epollout : Bool
  pub epollerr : Bool
  pub epollhup : Bool

abbrev pub k_none_event : Events
k_none_event = record {
  epollin = false;
  epollpri = false;
  epollout = false;
  epollerr = false;
  epollhup = false;
}

-- The member `index_`, by the names that EPollPoller.cc gives to its values.
pub data Index : Type 0 where
  k_new k_added k_deleted : Index

pub record Channel : Type 0 where
  pub fd : ℕ
  pub events : Events
  pub revents : Events
  pub index : Index
  pub tied : Bool

unfoldable pub new : ℕ → Channel
new fd = record {
  fd = fd;
  events = k_none_event;
  revents = k_none_event;
  index = k_new;
  tied = false;
}

-- `tie`: the weak pointer itself is the argument `alive` of `handle_event`.
unfoldable pub tie : Channel → Channel
tie c = record c { tied = true }

unfoldable pub set_revents : Events → Channel → Channel
set_revents e c = record c { revents = e }

-- The requests that change `events_`; each is followed by `update()`.
pub data Request : Type 0 where
  enable_reading disable_reading enable_writing disable_writing disable_all : Request

unfoldable pub set_events : Request → Events → Events
set_events enable_reading e = record e { epollin = true; epollpri = true }
set_events disable_reading e = record e { epollin = false; epollpri = false }
set_events enable_writing e = record e { epollout = true }
set_events disable_writing e = record e { epollout = false }
set_events disable_all e = k_none_event

unfoldable pub is_none_event : Events → Bool
is_none_event e = not (e.epollin || e.epollpri || e.epollout || e.epollerr || e.epollhup)

unfoldable pub is_writing : Events → Bool
is_writing e = e.epollout

unfoldable pub is_reading : Events → Bool
is_reading e = e.epollin || e.epollpri

-- The four callbacks, over whatever state `S` they change; `none` for one that is not set.
pub record Callbacks {ℓ} (S : Type ℓ) : Type ℓ where
  pub read : Option (S → S)
  pub write : Option (S → S)
  pub close : Option (S → S)
  pub error : Option (S → S)

abbrev pub invoke {ℓ} : {S : Type ℓ} → Bool → Option (S → S) → S → S
invoke false f s = s
invoke true none s = s
invoke true (some f) s = f s

module _ {ℓ} {S : Type ℓ} (cb : Callbacks S) where
  unfoldable pub handle_event_with_guard : Events → S → S
  handle_event_with_guard r s =
      let s₁ = invoke (r.epollhup && not r.epollin) cb.close s in
      let s₂ = invoke r.epollerr cb.error s₁ in
      let s₃ = invoke (r.epollin || r.epollpri) cb.read s₂ in invoke r.epollout cb.write s₃

  -- `alive` says whether `tie_.lock()` still finds the owner.
  unfoldable pub handle_event : Bool → Channel → S → S
  unfolding handle_event_with_guard
  handle_event alive c s =
      if c.tied
      then (if alive then handle_event_with_guard c.revents s else s)
      else handle_event_with_guard c.revents s

  -- A channel whose owner is gone runs no callback, and nor does one without reported events.
  pub handle_event_silent :
      (alive : Bool) (c : Channel) (s : S)
      → ((c.tied ≡ true) × (alive ≡ false)) ⊎ (c.revents ≡ k_none_event)
      → handle_event alive c s ≡ s
  unfolding handle_event
  handle_event_silent alive c s h = ground arith
