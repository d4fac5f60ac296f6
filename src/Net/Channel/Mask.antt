-- ===== src/Net/Channel/Mask.antt =====
-- common/net/Channel.h and Channel.cc again, with `events_` and `revents_` as the numbers that they
-- are. `Channel` has a record of five bits in their place.
use Prim.Native.Nat.{bit_and, bit_or}
use mathlib.Core.Bool.{beq}
use talk_system.Prelude.{
  ◌==◌, if◌then◌else◌, ==_iff, ℕ, zero, suc, ◌+◌, ◌-◌, ◌^◌, ◌<◌, ◌≡◌, refl, Bool, true, not, ◌&&◌,
  ◌||◌, arith,
}
use talk_system.Net.Channel.{
  Events, Request, Callbacks, enable_reading, disable_reading, enable_writing, disable_writing,
  disable_all, set_events, is_none_event, is_reading, is_writing, invoke, handle_event_with_guard,
}

-- EPOLLIN, EPOLLPRI, EPOLLOUT, EPOLLERR and EPOLLHUP of <sys/epoll.h>.
abbrev flag_in : ℕ
flag_in = 1

abbrev flag_pri : ℕ
flag_pri = 2

abbrev flag_out : ℕ
flag_out = 4

abbrev flag_err : ℕ
flag_err = 8

abbrev flag_hup : ℕ
flag_hup = 16

abbrev pub k_read_mask : ℕ
k_read_mask = bit_or flag_in flag_pri

abbrev pub k_write_mask : ℕ
k_write_mask = flag_out

-- `~m` of a 32-bit `int`, as its bit pattern.
abbrev complement : ℕ → ℕ
complement m = 2 ^ 32 - 1 - m

-- `enableReading` and its kin, with the operators of the source.
unfoldable pub set_mask : Request → ℕ → ℕ
set_mask enable_reading m = bit_or m k_read_mask
set_mask disable_reading m = bit_and m (complement k_read_mask)
set_mask enable_writing m = bit_or m k_write_mask
set_mask disable_writing m = bit_and m (complement k_write_mask)
set_mask disable_all m = 0

-- A mask in a condition: it is true when it is not zero.
abbrev pub meets : ℕ → ℕ → Bool
meets m f = not (bit_and m f == 0)

-- `handleEventWithGuard`, on the number that the poller has put into `revents_`.
module _ {ℓ} {S : Type ℓ} (cb : Callbacks S) where
  unfoldable pub handle_mask : ℕ → S → S
  handle_mask m s =
      let s₁ = invoke (meets m flag_hup && not (meets m flag_in)) cb.close s in
      let s₂ = invoke (meets m flag_err) cb.error s₁ in
      let s₃ = invoke (meets m (bit_or flag_in flag_pri)) cb.read s₂ in
      invoke (meets m flag_out) cb.write s₃

abbrev bit : Bool → ℕ → ℕ
bit b f = if b then f else 0

-- The record and the number that stand for each other.
unfoldable pub mask_of : Events → ℕ
mask_of e =
    bit e.epollin flag_in
    + bit e.epollpri flag_pri
    + bit e.epollout flag_out
    + bit e.epollerr flag_err
    + bit e.epollhup flag_hup

unfoldable pub events_of : ℕ → Events
events_of m = record {
  epollin = meets m flag_in;
  epollpri = meets m flag_pri;
  epollout = meets m flag_out;
  epollerr = meets m flag_err;
  epollhup = meets m flag_hup;
}

-- Every number below a bound, and every record, by evaluation.
all_below : ℕ → (ℕ → Bool) → Bool
all_below zero p = true
all_below (suc n) p = p n && all_below n p

below : (n : ℕ) (p : ℕ → Bool) → all_below n p ≡ true → (m : ℕ) → m < n → p m ≡ true
unfolding all_below
below zero p h m lt = absurd (omega arith)
below (suc n) p h m lt = ground (arith, below n p (ground arith) m)

bits_back : (e : Events) → events_of (mask_of e) ≡ e
unfolding mask_of events_of
bits_back e = ground arith

mask-lt : (e : Events) → mask_of e < 32
unfolding mask_of
mask-lt e = ground arith

set_events-mask : (q : Request) (e : Events) → mask_of (set_events q e) ≡ set_mask q (mask_of e)
unfolding mask_of set_events set_mask
set_events-mask enable_reading e = ground arith
set_events-mask disable_reading e = ground arith
set_events-mask enable_writing e = ground arith
set_events-mask disable_writing e = ground arith
set_events-mask disable_all e = ground arith

tests_agree :
    (e : Events)
    → (is_none_event e ≡ (mask_of e == 0))
      × (is_reading e ≡ meets (mask_of e) k_read_mask)
      × (is_writing e ≡ meets (mask_of e) k_write_mask)
unfolding mask_of is_none_event is_reading is_writing
tests_agree e = ground arith

mask_back : (m : ℕ) → m < 32 → mask_of (events_of m) ≡ m
unfolding mask_of events_of all_below
mask_back m h = (==_iff _ m).0 (below 32 (λ m. mask_of (events_of m) == m) refl m h)

-- A report of `epoll_wait` is below 256: Linux gives no flag but these and those that were asked for.
read_flags :
    (m : ℕ) → m < 256 → meets m (bit_or flag_in flag_pri) ≡ (meets m flag_in || meets m flag_pri)
unfolding all_below
read_flags m h = ground (arith, below 256 same refl m h)
  where
    same : ℕ → Bool
    same m = beq (meets m (bit_or flag_in flag_pri)) (meets m flag_in || meets m flag_pri)

handle_event-mask :
    {S : Type 0} (cb : Callbacks S) (m : ℕ)
    → m < 256
    → (s : S) → handle_event_with_guard cb (events_of m) s ≡ handle_mask cb m s
unfolding handle_event_with_guard handle_mask events_of
handle_event-mask cb m h s = rw (read_flags m h) refl

-- For a mask below 32 and a record of flags: record and number determine each other, so the record is
-- the number and no more; every request changes the record as the operators `|=` and `&= ~` of the
-- source change the number, and the number stays below 32; the three tests of `events_` agree, and
-- `handleEventWithGuard` runs the same callbacks in the same order.
pub masks_lem :
    {S : Type 0}
    → (cb : Callbacks S) (q : Request) (e : Events) (m : ℕ) (s : S) → m < 32
    → (events_of (mask_of e) ≡ e)
      × (mask_of (events_of m) ≡ m)
      × (mask_of (set_events q e) ≡ set_mask q (mask_of e))
      × (mask_of (set_events q e) < 32)
      × (is_none_event e ≡ (mask_of e == 0))
      × (is_reading e ≡ meets (mask_of e) k_read_mask)
      × (is_writing e ≡ meets (mask_of e) k_write_mask)
      × (handle_event_with_guard cb (events_of m) s ≡ handle_mask cb m s)
masks_lem cb q e m s h = (
  bits_back e,
  mask_back m h,
  set_events-mask q e,
  mask-lt (set_events q e),
  (tests_agree e).0,
  (tests_agree e).1,
  (tests_agree e).2,
  handle_event-mask cb m (omega arith) s,
)
