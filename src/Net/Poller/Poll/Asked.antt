-- ===== src/Net/Poller/Poll/Asked.antt =====
-- A round of the loop in common/net/EventLoop.cc, after common/net/EPollPoller.cc has polled: which
-- callbacks of Channel.cc it runs.
use talk_system.Prelude.{
  ◌==◌, if◌then◌else◌, ==_iff, ==_refl, ℕ, ◌≡◌, refl, sym, ap, ◌∙◌, subst, Bool, true, false, not,
  ◌&&◌, ◌||◌, Option, none, List, [], ◌∷◌, map, arith,
}
use talk_system.Net.Channel.{
  Channel, Events, Callbacks, handle_event, handle_event_with_guard, is_reading, is_writing, invoke,
}
use talk_system.Net.Poller
use talk_system.Net.Poller.{Epoll}
use talk_system.Net.Poller.Poll.{
  Wait, reports, poll, handle_active, last_of, poll-Filled, poll_active,
}

-- `epoll_wait` reports of a channel only what it asks for, but for EPOLLERR and EPOLLHUP.
abbrev pub within : Events → Events → Bool
within r e =
    (not r.epollin || e.epollin) && (not r.epollpri || e.epollpri) && (not r.epollout || e.epollout)

-- The callbacks without that for reading, or for writing, when the channel does not ask for it.
abbrev pub asked_only : {S : Type 0} → Events → Callbacks S → Callbacks S
asked_only e cb = record {
  read = if is_reading e then cb.read else none;
  write = if is_writing e then cb.write else none;
  close = cb.close;
  error = cb.error;
}

invoke_asked :
    {S : Type 0}
    → (b e : Bool) (f : Option (S → S)) (s : S) → (not b || e) ≡ true
    → invoke b f s ≡ invoke b (if e then f else none) s
invoke_asked false e f s h = refl
invoke_asked true true f s h = refl
invoke_asked true false f s h = cc

within_reading :
    (r e : Events) → within r e ≡ true → (not (r.epollin || r.epollpri) || is_reading e) ≡ true
unfolding is_reading
within_reading r e h = ground arith

within_writing : (r e : Events) → within r e ≡ true → (not r.epollout || is_writing e) ≡ true
unfolding is_writing
within_writing r e h = ground arith

handle_event_with_guard_asked :
    {S : Type 0}
    → (cb : Callbacks S) (r e : Events) (s : S) → within r e ≡ true
    → handle_event_with_guard cb r s ≡ handle_event_with_guard (asked_only e cb) r s
unfolding handle_event_with_guard
handle_event_with_guard_asked {S = S} cb r e s h =
    ap (invoke r.epollout cb.write)
      (invoke_asked (r.epollin || r.epollpri) (is_reading e) cb.read before (within_reading r e h))
    ∙ invoke_asked r.epollout (is_writing e) cb.write _ (within_writing r e h)
  where
    before : S
    before = invoke r.epollerr cb.error (invoke (r.epollhup && not r.epollin) cb.close s)

handle_event_asked :
    {S : Type 0}
    → (cb : Callbacks S) (alive : Bool) (c : Channel) (e : Events) (s : S)
    → within c.revents e ≡ true
    → handle_event cb alive c s ≡ handle_event (asked_only e cb) alive c s
unfolding handle_event
handle_event_asked cb alive c e s h =
    ap (λ t. if c.tied then (if alive then t else s) else t)
      (handle_event_with_guard_asked cb c.revents e s h)

or_true : (b : Bool) → (b || true) ≡ true
or_true b = ground arith

abbrev mem : ℕ → List ℕ → Bool
mem d [] = false
mem d (c ∷ cs) = c == d || mem d cs

module _ (k : Epoll) where
  -- All that is reported is asked for, but errors and hang-ups.
  abbrev pub AllWithin : Poller.Poller k → List (ℕ × Events) → Type 0
  AllWithin p [] = p ≡ p
  AllWithin p ((c, r) ∷ es) = (within r (p.channel c).events ≡ true) × AllWithin p es

  last_of-within :
      (es : List (ℕ × Events)) (p : Poller.Poller k) (d : ℕ) (old : Events)
      → AllWithin p es
      → (within old (p.channel d).events || mem d (map (λ (u : ℕ × Events). u.0) es)) ≡ true
      → within (last_of d es old) (p.channel d).events ≡ true
  last_of-within [] p d old a h = ground arith
  last_of-within ((c, r) ∷ es) p d old a h = last_of-within es p d _ a.1 (pick (c == d) refl)
    where
      pick :
          (b : Bool)
          → (c == d) ≡ b
          → (within (if b then r else old) (p.channel d).events
              || mem d (map (λ (u : ℕ × Events). u.0) es))
            ≡ true
      pick true e =
          let same : c ≡ d = (==_iff c d).0 e in
          let w : within r (p.channel d).events ≡ true =
            subst (λ j. within r (p.channel j).events ≡ true) same a.0 in
          rw w refl
      pick false e =
          ap
            (λ b.
              within old (p.channel d).events || (b || mem d (map (λ (u : ℕ × Events). u.0) es)))
            (sym e)
          ∙ h

  -- The callbacks of a list of channels that were all reported.
  handle_active_asked :
      {S : Type 0}
      → (cb : ℕ → Callbacks S) (alive : ℕ → Bool) (q : Poller.Poller k) (ev : ℕ → Events)
        (cs : List ℕ) (s : S)
      → ((c : ℕ) → mem c cs ≡ true → within (q.channel c).revents (ev c) ≡ true)
      → handle_active k cb alive q cs s
        ≡ handle_active k (λ c. asked_only (ev c) (cb c)) alive q cs s
  unfolding handle_active
  handle_active_asked cb alive q ev [] s h = refl
  handle_active_asked cb alive q ev (c ∷ cs) s h =
      ap (handle_active k cb alive q cs)
        (handle_event_asked (cb c) (alive c) (q.channel c) (ev c) s (h c (rw (==_refl c) refl)))
      ∙ handle_active_asked cb alive q ev cs _ (λ d e. h d (ground arith))

  -- After `poll`, with a kernel that reports only what is asked for, a round of the loop over the
  -- active channels is as if the channels that do not ask to read had no read callback, and those that
  -- do not ask to write no write callback.
  pub poll_asked :
      {S : Type 0}
      → (w : Wait) (size : ℕ) (p : Poller.Poller k) (cb : ℕ → Callbacks S) (alive : ℕ → Bool)
        (s : S)
      → AllWithin p (reports w)
      → let (q, active, size') = poll k w size p [] in
        handle_active k cb alive q active s
        ≡ handle_active k (λ c. asked_only (p.channel c).events (cb c)) alive q active s
  poll_asked w size p cb alive s a =
      handle_active_asked cb alive q (λ c. (p.channel c).events) (poll k w size p []).1 s reported
    where
      q : Poller.Poller k
      q = (poll k w size p []).0

      reported :
          (c : ℕ)
          → mem c (poll k w size p []).1 ≡ true
          → within (q.channel c).revents (p.channel c).events ≡ true
      reported c h =
          ap (λ (x : Channel). within x.revents (p.channel c).events)
            ((poll-Filled k w size p).same_channel c)
          ∙ last_of-within (reports w) p c (p.channel c).revents a (
              ap (λ b. within (p.channel c).revents (p.channel c).events || b)
                (ap (mem c) (sym (poll_active k w size p)) ∙ h)
              ∙ or_true _)
