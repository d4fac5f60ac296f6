-- ===== src/Net/Loop/Birth/Lives.antt =====
-- The life of a loop of common/net/EventLoop.cc, from its constructor to its destructor.
use talk_system.Prelude.{
  ◌==◌, if◌then◌else◌, ℕ, ◌≡◌, refl, sym, ap, ◌∙◌, Bool, true, false, Option, none, some, List, [],
}
use talk_system.Net.Channel
use talk_system.Net.Channel.{
  Channel, Events, Request, enable_reading, disable_all, set_events, is_none_event, new,
  k_none_event,
}
use talk_system.Net.Poller
use talk_system.Net.Poller.{Epoll, request, remove_channel}
use talk_system.Net.Poller.Tidy.{>>=_some, Tidy, ask_all-Tidy, take_out-Tidy}
use talk_system.Net.Poller.Table.{Inv, Changed-fd, Changed-Inv}
use talk_system.Net.Poller.Requests.{change-Changed, Succeeds}
use talk_system.Net.Loop.Birth.{
  Born, construct, destruct, live, new_default_poller, claim_thread, enable_wakeup,
}

module _ (k : Epoll) where
  new-Inv :
      (s : k.Set)
      → ((j : ℕ) → k.registered s j ≡ none)
      → Inv k (record { channels = []; epoll = s; channel = λ c. Channel.new c })
  unfolding Channel.new
  new-Inv s h = record { distinct = λ c d e. e; watched = λ c. h c }

  destruct-Tidy :
      (l : Born k)
      → Tidy k l.poller
      → (m : Born k) × (destruct k l ≡ some m)
        × (k.registered m.poller.epoll l.wakeup_fd ≡ none)
        × (m.is_open ≡ false)
        × (m.loop_in_this_thread ≡ none)
  unfolding destruct
  destruct-Tidy l v =
      let (q, e, n) = take_out-Tidy k l.wakeup_fd l.poller v in
      (
        record l { poller = q; is_open = false; loop_in_this_thread = none },
        rw (e, >>=_some) refl,
        n,
        refl,
        refl,
      )

  second_refused :
      (use_poll : Bool) (s : Option k.Set) (fd : Option ℕ) (me other : ℕ)
      → construct k use_poll s fd (some me) other ≡ none
  unfolding construct new_default_poller claim_thread enable_wakeup
  second_refused true s fd me other = refl
  second_refused false none fd me other = refl
  second_refused false (some s) none me other = refl
  second_refused false (some s) (some fd) me other = refl

  construct-Tidy :
      (s : k.Set) (fd me : ℕ)
      → ((j : ℕ) → k.registered s j ≡ none)
      → (l : Born k) × (construct k false (some s) (some fd) none me ≡ some l)
        × Tidy k l.poller
        × (l.wakeup_fd ≡ fd)
        × (l.loop_in_this_thread ≡ some me)
        × ((j : ℕ)
            → k.registered l.poller.epoll j
              ≡ (if fd == j then some (set_events enable_reading k_none_event) else none))
  unfolding construct new_default_poller claim_thread enable_wakeup Channel.new Succeeds
      Poller.request is_none_event set_events
  construct-Tidy s fd me empty =
      let p : Poller.Poller k = record { channels = []; epoll = s; channel = λ c. Channel.new c } in
      let v = new-Inv s empty in
      let (t, e, h) = change-Changed k (set_events enable_reading k_none_event) fd p v in
      (
        record {
          me = me;
          loop_in_this_thread = some me;
          poller = t;
          wakeup_fd = fd;
          is_open = true;
        },
        rw (e, >>=_some) refl,
        record { inv = Changed-Inv k fd _ _ p t h v; own = λ d. Changed-fd k fd d _ _ p t h },
        refl,
        refl,
        λ j.
            h.entries j
            ∙ ap (λ o. if fd == j then some (set_events enable_reading k_none_event) else o)
                (empty j),
      )

  -- In a thread without a loop, with an epoll instance that watches nothing yet and an eventfd: the
  -- constructor gives a loop, which is the thread's own and has its eventfd watched for input, and
  -- nothing else; a second loop in that thread ends the process; and whatever the channels ask of the
  -- poller in between, the destructor is not in the way of that: it takes the eventfd out of the
  -- kernel's set, closes it, and leaves the thread free for another loop.
  pub construct-destruct :
      (s : k.Set) (fd me : ℕ) (asks : List (Request × ℕ)) (use_poll : Bool)
      (other_set : Option k.Set) (other_fd : Option ℕ) (other : ℕ)
      → ((j : ℕ) → k.registered s j ≡ none)
      → (l : Born k) × (construct k false (some s) (some fd) none me ≡ some l)
        × (l.loop_in_this_thread ≡ some me)
        × ((j : ℕ)
            → k.registered l.poller.epoll j
              ≡ (if fd == j then some (set_events enable_reading k_none_event) else none))
        × (construct k use_poll other_set other_fd l.loop_in_this_thread other ≡ none)
        × (m : Born k) × (live k asks l ≡ some m)
        × (d : Born k) × (destruct k m ≡ some d)
        × (k.registered d.poller.epoll fd ≡ none)
        × (d.is_open ≡ false)
        × (d.loop_in_this_thread ≡ none)
  construct-destruct s fd me asks use_poll other_set other_fd other empty =
      let (l, e, v, w, t, r) = construct-Tidy s fd me empty in
      let (p, f, x) = ask_all-Tidy k asks l.poller v in
      let (d, g, n, o, u) = destruct-Tidy (record l { poller = p }) x in
      (
        l,
        e,
        t,
        r,
        ap (λ o. construct k use_poll other_set other_fd o other) t
            ∙ second_refused use_poll other_set other_fd me other,
        record l { poller = p },
        (unfold live in rw (f, >>=_some) refl),
        d,
        g,
        ap (λ c. k.registered d.poller.epoll c) (sym w) ∙ n,
        o,
        u,
      )
