-- ===== src/Net/Poller/Table.antt =====
-- The poller's table and the kernel's agree with the channels.
use talk_system.Prelude.{
  ◌==◌, if◌then◌else◌, ==_iff, ==_refl, Bool-cases, ℕ, ◌≡◌, refl, sym, ap, ◌∙◌, inl, inr, false,
  Option, none, some, arith,
}
use talk_system.Net.Channel.{Channel, Events, Index, k_new, k_added, k_deleted}
use talk_system.Net.Poller
use talk_system.Net.Poller.{
  Epoll, ChannelMap, store, put_fd, erase_fd, update, update_at, set_index, with_set,
  with_set_or_same, mark, ctl_add, ctl_mod, ctl_del, update_channel, request,
}

-- What a channel's `index_` says of the kernel's set.
abbrev pub expected : Index → Events → Option Events
expected k_new e = none
expected k_deleted e = none
expected k_added e = some e

module _ (k : Epoll) where
  -- No two channels share a descriptor, and a descriptor is watched, for its channel's events,
  -- exactly while the channel's index says so.
  pub record Inv (p : Poller.Poller k) : Type 0 where
    pub distinct : (c d : ℕ) → (p.channel c).fd ≡ (p.channel d).fd → c ≡ d
    pub watched :
        (c : ℕ)
        → k.registered p.epoll (p.channel c).fd ≡ expected (p.channel c).index (p.channel c).events

  -- `t` differs from `p` in the events and the index of one channel, and in its descriptor's entry.
  pub record Changed (c : ℕ) (i : Index) (e : Events) (p t : Poller.Poller k) : Type 0 where
    pub changed : t.channel c ≡ record (p.channel c) { events = e; index = i }
    pub others : (d : ℕ) → (c == d) ≡ false → t.channel d ≡ p.channel d
    pub entries :
        (j : ℕ)
        → k.registered t.epoll j
          ≡ (if (p.channel c).fd == j then expected i e else k.registered p.epoll j)

  pub Changed-fd :
      (c d : ℕ) (i : Index) (e : Events) (p t : Poller.Poller k)
      → Changed c i e p t
      → (t.channel d).fd ≡ (p.channel d).fd
  Changed-fd c d i e p t h = elim (Bool-cases (c == d)) [
    | inl same ↦
        let eq : c ≡ d = (==_iff c d).0 same in rw (← eq) (ap (λ (x : Channel). x.fd) h.changed)
    | inr other ↦ ap (λ (x : Channel). x.fd) (h.others d other)
  ]

  pub Changed-Inv :
      (c : ℕ) (i : Index) (e : Events) (p t : Poller.Poller k) → Changed c i e p t → Inv p → Inv t
  Changed-Inv c i e p t h v = record {
    distinct =
        λ a b f. v.distinct a b (sym (Changed-fd c a i e p t h) ∙ f ∙ Changed-fd c b i e p t h);
    watched = λ d. elim (Bool-cases (c == d)) [
      | inl same ↦ rw (← (==_iff c d).0 same) here
      | inr other ↦ rw (h.others d other) (there d other)
    ];
  }
    where
      here :
          k.registered t.epoll (t.channel c).fd ≡ expected (t.channel c).index (t.channel c).events
      here =
          rw h.changed
            (h.entries (p.channel c).fd ∙ rw (==_refl (p.channel c).fd, if◌then◌else◌) refl)

      apart : (d : ℕ) → (c == d) ≡ false → ((p.channel c).fd == (p.channel d).fd) ≡ false
      apart d other = ground (arith, v.distinct c d)

      there :
          (d : ℕ)
          → (c == d) ≡ false
          → k.registered t.epoll (p.channel d).fd
            ≡ expected (p.channel d).index (p.channel d).events
      there d other = h.entries (p.channel d).fd ∙ rw (apart d other, if◌then◌else◌) (v.watched d)
