-- ===== src/Net/Poller/Poll.antt =====
-- `poll` and `fillActiveChannels` of common/net/EPollPoller.cc, and the loop over the active channels
-- in EventLoop.cc. What `epoll_wait` gives is an argument.
pub mod Asked
use talk_system.Prelude.{
  ◌==◌, if◌then◌else◌, ==_iff, length, ℕ, ◌*◌, ◌≤◌, ◌<◌, ◌≡◌, refl, sym, ap, ◌∙◌, Bool, true, false,
  List, [], ◌∷◌, ◌++◌, map, append-nil, append_assoc, arith,
}
use talk_system.Net.Channel
use talk_system.Net.Channel.{Channel, Events, Callbacks, handle_event, set_revents}
use talk_system.Net.Poller
use talk_system.Net.Poller.{Epoll, store}
use talk_system.Net.Poller.Table.{Inv}

-- What `epoll_wait` gives: channels with their events, none of them at a timeout, or `errno`.
pub data Wait : Type 0 where
  happened : List (ℕ × Events) → Wait
  failed : ℕ → Wait

abbrev pub k_init_event_list_size : ℕ
k_init_event_list_size = 16

module _ (k : Epoll) where
  -- `fillActiveChannels`.
  unfoldable pub fill_active_channels :
      List (ℕ × Events) → Poller.Poller k → List ℕ → Poller.Poller k × List ℕ
  fill_active_channels [] p active = (p, active)
  fill_active_channels ((c, r) ∷ es) p active =
      fill_active_channels es
        (record p { channel = store p.channel c (set_revents r (p.channel c)) }) (active ++ c ∷ [])

  -- `poll`, with the size of `events_`: the active channels, and the size afterwards.
  unfoldable pub poll : Wait → ℕ → Poller.Poller k → List ℕ → Poller.Poller k × List ℕ × ℕ
  poll (happened []) size p active = (p, active, size)
  poll (happened (e ∷ es)) size p active =
      let (q, all) = fill_active_channels (e ∷ es) p active in
      (q, all, if length (e ∷ es) == size then size * 2 else size)
  poll (failed e) size p active = (p, active, size)

  -- The loop over the active channels; `cb` are their callbacks, and `alive` says whose owner is
  -- still there.
  unfoldable pub handle_active :
      {S : Type 0} → (ℕ → Callbacks S) → (ℕ → Bool) → Poller.Poller k → List ℕ → S → S
  handle_active cb alive p [] s = s
  handle_active cb alive p (c ∷ cs) s =
      handle_active cb alive p cs (handle_event (cb c) (alive c) (p.channel c) s)

-- The events that a channel was last reported with, or `old`.
abbrev pub last_of : ℕ → List (ℕ × Events) → Events → Events
last_of d [] old = old
last_of d ((c, r) ∷ es) old = last_of d es (if c == d then r else old)

abbrev pub reports : Wait → List (ℕ × Events)
reports (happened es) = es
reports (failed e) = []

module _ (k : Epoll) where
  fill_channel :
      (es : List (ℕ × Events)) (p : Poller.Poller k) (active : List ℕ) (d : ℕ)
      → (fill_active_channels k es p active).0.channel d
        ≡ record (p.channel d) { revents = last_of d es (p.channel d).revents }
  unfolding fill_active_channels set_revents
  fill_channel [] p active d = refl
  fill_channel ((c, r) ∷ es) p active d =
      let q = record p { channel = store p.channel c (set_revents r (p.channel c)) } in
      fill_channel es q (active ++ c ∷ []) d ∙ pick (c == d) refl
    where
      pick :
          (b : Bool)
          → (c == d) ≡ b
          → ◌≡◌ {A = Channel}
              (record (store p.channel c (record (p.channel c) { revents = r }) d) {
                revents =
                    last_of d es
                      (store p.channel c (record (p.channel c) { revents = r }) d).revents;
              })
              (record (p.channel d) {
                revents = last_of d es (if c == d then r else (p.channel d).revents);
              })
      pick true e = let same : c ≡ d = (==_iff c d).0 e in rw (e, same) refl
      pick false e = rw e refl

  fill_active :
      (es : List (ℕ × Events)) (p : Poller.Poller k) (active : List ℕ)
      → (fill_active_channels k es p active).1 ≡ active ++ map (λ (u : ℕ × Events). u.0) es
  unfolding fill_active_channels
  fill_active [] p active = sym (append-nil active)
  fill_active ((c, r) ∷ es) p active =
      fill_active es (record p { channel = store p.channel c (set_revents r (p.channel c)) })
        (active ++ c ∷ [])
      ∙ append_assoc active (c ∷ []) (map (λ (u : ℕ × Events). u.0) es)

  fill-rest :
      (es : List (ℕ × Events)) (p : Poller.Poller k) (active : List ℕ)
      → (fill_active_channels k es p active).0.epoll ≡ p.epoll
  unfolding fill_active_channels
  fill-rest [] p active = refl
  fill-rest ((c, r) ∷ es) p active =
      fill-rest es (record p { channel = store p.channel c (set_revents r (p.channel c)) })
        (active ++ c ∷ [])

  -- `q` differs from `p` in the reported events of the channels alone.
  pub record Filled (es : List (ℕ × Events)) (p q : Poller.Poller k) : Type 0 where
    pub same_set : q.epoll ≡ p.epoll
    pub same_channel :
        (d : ℕ)
        → q.channel d ≡ record (p.channel d) { revents = last_of d es (p.channel d).revents }

  Filled-Inv : (es : List (ℕ × Events)) (p q : Poller.Poller k) → Filled es p q → Inv k p → Inv k q
  Filled-Inv es p q f v = record {
    distinct = λ c d e. v.distinct c d (
        sym (ap (λ (h : Channel). h.fd) (f.same_channel c))
        ∙ e
        ∙ ap (λ (h : Channel). h.fd) (f.same_channel d));
    watched = λ c. rw (f.same_set, f.same_channel c) (v.watched c);
  }

  pub poll-Filled :
      (w : Wait) (size : ℕ) (p : Poller.Poller k) → Filled (reports w) p (poll k w size p []).0
  unfolding poll
  poll-Filled (happened []) size p = record { same_set = refl; same_channel = λ d. refl }
  poll-Filled (happened (e ∷ es)) size p = record {
    same_set = fill-rest (e ∷ es) p [];
    same_channel = fill_channel (e ∷ es) p [];
  }
  poll-Filled (failed e) size p = record { same_set = refl; same_channel = λ d. refl }

  pub poll_active :
      (w : Wait) (size : ℕ) (p : Poller.Poller k)
      → (poll k w size p []).1 ≡ map (λ (u : ℕ × Events). u.0) (reports w)
  unfolding poll
  poll_active (happened []) size p = refl
  poll_active (happened (e ∷ es)) size p = fill_active (e ∷ es) p []
  poll_active (failed e) size p = refl

  poll_room :
      (w : Wait) (size : ℕ) (p : Poller.Poller k)
      → 0 < size
      → length (reports w) ≤ size
      → length (reports w) < (poll k w size p []).2
  unfolding poll
  poll_room (happened []) size p h l = h
  poll_room (happened (e ∷ es)) size p h l = ground arith
  poll_room (failed e) size p h l = h

  -- On a poller in order, whatever `epoll_wait` gives, up to the size of the table of events: the
  -- active channels are those that it reported, in its order; each channel holds the events that it
  -- was last reported with, and nothing else about it changes; the poller stays in order; the table
  -- ends up larger than the report.
  pub poll_lem :
      (w : Wait) (size : ℕ) (p : Poller.Poller k) (d : ℕ)
      → Inv k p
      → 0 < size
      → length (reports w) ≤ size
      → let (q, active, size') = poll k w size p [] in
        (active ≡ map (λ (u : ℕ × Events). u.0) (reports w))
        × (q.channel d
            ≡ record (p.channel d) { revents = last_of d (reports w) (p.channel d).revents })
        × Inv k q
        × (length (reports w) < size')
  poll_lem w size p d v h l =
      let f = poll-Filled w size p in
      (
        poll_active w size p,
        f.same_channel d,
        Filled-Inv (reports w) p (poll k w size p []).0 f v,
        poll_room w size p h l,
      )
