-- ===== src/Net/Poller/Tidy.antt =====
-- A poller of common/net/EPollPoller.cc whose channels each have their own descriptor, and what their
-- owners ask of it: any requests, and the two calls by which a channel leaves.
use talk_system.Prelude.{◌>>=◌, ℕ, ◌≡◌, refl, sym, ap, ◌∙◌, Option, none, some, List, [], ◌∷◌}
use talk_system.Net.Channel.{Channel, Request, disable_all, set_events, is_none_event, Events}
use talk_system.Net.Poller
use talk_system.Net.Poller.{Epoll, change, request, remove_channel}
use talk_system.Net.Poller.Table.{Inv, expected, Changed-fd, Changed-Inv}
use talk_system.Net.Poller.Requests.{index_after, change-Changed, Succeeds}
use talk_system.Net.Poller.Removal.{remove_channel-Inv}

pub >>=_some : {A B : Type 0} (a : A) (f : A → Option B) → (some a >>= f) ≡ f a
>>=_some a f = refl

module _ (k : Epoll) where
  -- Requests of any channels, one after the other.
  unfoldable pub ask_all : List (Request × ℕ) → Poller.Poller k → Option (Poller.Poller k)
  ask_all [] p = some p
  ask_all ((q, c) ∷ asks) p = do t ← Poller.request k q c p; ask_all asks t

  -- `channel.disableAll()` and `channel.remove()`, as both destructors have them.
  unfoldable pub take_out : ℕ → Poller.Poller k → Option (Poller.Poller k)
  take_out c p = do q ← Poller.request k disable_all c p; Poller.remove_channel k c q

  -- A poller in order, and with each channel at its own descriptor.
  pub record Tidy (p : Poller.Poller k) : Type 0 where
    pub inv : Inv k p
    pub own : (c : ℕ) → (p.channel c).fd ≡ c

  pub change-Tidy :
      (e : Events) (c : ℕ) (p : Poller.Poller k)
      → Tidy p
      → (t : Poller.Poller k) × (Poller.change k e c p ≡ some t)
        × Tidy t
        × ((t.channel c).events ≡ e)
        × ((t.channel c).index ≡ index_after (p.channel c).index (is_none_event e))
  unfolding Succeeds
  change-Tidy e c p v =
      let (t, f, h) = change-Changed k e c p v.inv in
      (
        t,
        f,
        record {
          inv = Changed-Inv k c _ _ p t h v.inv;
          own = λ d. Changed-fd k c d _ _ p t h ∙ v.own d;
        },
        ap (λ (x : Channel). x.events) h.changed,
        ap (λ (x : Channel). x.index) h.changed,
      )

  pub request-Tidy :
      (q : Request) (c : ℕ) (p : Poller.Poller k)
      → Tidy p
      → (t : Poller.Poller k) × (Poller.request k q c p ≡ some t)
        × Tidy t
        × ((t.channel c).events ≡ set_events q (p.channel c).events)
        × ((t.channel c).index
            ≡ index_after (p.channel c).index (is_none_event (set_events q (p.channel c).events)))
  unfolding Poller.request
  request-Tidy q c p v = change-Tidy (set_events q (p.channel c).events) c p v

  pub ask_all-Tidy :
      (asks : List (Request × ℕ)) (p : Poller.Poller k)
      → Tidy p
      → (t : Poller.Poller k) × (ask_all asks p ≡ some t) × Tidy t
  unfolding ask_all
  ask_all-Tidy [] p v = (p, refl, v)
  ask_all-Tidy ((q, c) ∷ asks) p v =
      let (t, e, w, _, _) = request-Tidy q c p v in
      let (u, f, x) = ask_all-Tidy asks t w in (u, ap (λ o. o >>= ask_all asks) e ∙ f, x)

  -- A channel that leaves is not watched any more, whatever was done with it before.
  pub take_out-Tidy :
      (c : ℕ) (p : Poller.Poller k)
      → Tidy p
      → (t : Poller.Poller k) × (take_out c p ≡ some t) × (k.registered t.epoll c ≡ none)
  unfolding take_out
  take_out-Tidy c p v =
      let (q, e, w, _, _) = request-Tidy disable_all c p v in
      let (t, f, x, h) = remove_channel-Inv k c q w.inv in
      let same : (t.channel c).fd ≡ c = ap (λ (x : Channel). x.fd) h ∙ w.own c in
      (
        t,
        rw (e, >>=_some) f,
        ap (k.registered t.epoll) (sym same)
            ∙ x.watched c
            ∙ ap (λ (x : Channel). expected x.index x.events) h,
      )
