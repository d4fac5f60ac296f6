-- ===== src/Net/Poller/Requests.antt =====
-- The requests of channels, in the poller's table.
use talk_system.Prelude.{
  ◌==◌, if◌then◌else◌, ==_refl, ℕ, ◌≡◌, refl, ap, ◌∙◌, Bool, true, false, none, some,
}
use talk_system.Net.Channel.{
  Channel, Events, Index, k_new, k_added, k_deleted, Request, set_events, is_none_event,
}
use talk_system.Net.Poller
use talk_system.Net.Poller.{
  Epoll, ChannelMap, store, put_fd, erase_fd, update, update_at, set_index, with_set,
  with_set_or_same, mark, ctl_add, ctl_mod, ctl_del, update_channel, request, change,
}
use talk_system.Net.Poller.Table.{expected, Inv, Changed, Changed-Inv}

-- The index of a channel behind `update()`, where its events are none or not.
abbrev pub index_after : Index → Bool → Index
index_after k_added true = k_deleted
index_after _ _ = k_added

module _ (k : Epoll) where
  module _ (wanted : Events) (c : ℕ) (p : Poller.Poller k) where
    fd : ℕ
    fd = (p.channel c).fd

    -- The channels with the new events, before `update()`.
    asked : Poller.Poller k
    asked = record p { channel = store p.channel c (record (p.channel c) { events = wanted }) }

    asked_channel : asked.channel c ≡ record (p.channel c) { events = wanted }
    unfolding asked
    asked_channel = rw (==_refl c, if◌then◌else◌) refl

    update_asked :
        (i : Index) → (p.channel c).index ≡ i → Poller.change k wanted c p ≡ update_at k i c asked
    unfolding Poller.change Poller.update_channel asked
    update_asked i x =
        ap (λ (h : Channel). update_at k h.index c asked) asked_channel
        ∙ ap (λ j. update_at k j c asked) x

    -- A poller that differs from `asked` in the index of the channel, the kernel's entry and `channels_`.
    marked : ChannelMap → k.Set → Index → Poller.Poller k
    marked m s i = record (Poller.set_index k c i (record asked { channels = m })) { epoll = s }

    -- The request succeeds, and changes the channel's events and index and its entry alone.
    unfoldable pub Succeeds : Index → Type 0
    Succeeds i =
        (t : Poller.Poller k) × (Poller.change k wanted c p ≡ some t) × Changed k c i wanted p t

    marked-Changed :
        (m : ChannelMap) (s : k.Set) (i : Index)
        → ((j : ℕ)
            → k.registered s j ≡ (if fd == j then expected i wanted else k.registered p.epoll j))
        → Changed k c i wanted p (marked m s i)
    unfolding marked asked Poller.set_index fd
    marked-Changed m s i h = record {
      changed = rw (==_refl c, if◌then◌else◌) refl;
      others = λ d other. rw (other, if◌then◌else◌) refl;
      entries = h;
    }

    adds :
        (m : ChannelMap)
        → update_at k (p.channel c).index c asked
          ≡ update k
              (ctl_add fd wanted)
              (Poller.set_index k c k_added (record asked { channels = m }))
        → k.registered p.epoll fd ≡ none
        → Succeeds k_added
    unfolding Poller.update Poller.set_index marked asked fd Succeeds
    adds m u n =
        let a = k.add_ok p.epoll fd wanted n in
        (
          marked m a.0 k_added,
          update_asked (p.channel c).index refl
              ∙ u
              ∙ ap (with_set k (Poller.set_index k c k_added (record asked { channels = m }))) a.1,
          marked-Changed m a.0 k_added a.2,
        )

    adds_new :
        update_at k k_new c asked
        ≡ update k
            (ctl_add fd wanted)
            (Poller.set_index k c k_added (record asked { channels = put_fd fd c p.channels }))
    unfolding fd asked
    adds_new =
        ap
          (λ (h : Channel).
            update k (ctl_add h.fd h.events)
              (Poller.set_index k c k_added (record asked { channels = put_fd h.fd c p.channels })))
          asked_channel

    adds_deleted :
        update_at k k_deleted c asked
        ≡ update k
            (ctl_add fd wanted)
            (Poller.set_index k c k_added (record asked { channels = p.channels }))
    unfolding fd asked
    adds_deleted =
        ap (λ (h : Channel). update k (ctl_add h.fd h.events) (Poller.set_index k c k_added asked))
          asked_channel

    watches :
        (p.channel c).index ≡ k_added
        → Inv k p
        → k.registered p.epoll fd ≡ some (p.channel c).events
    unfolding fd
    watches x v = v.watched c ∙ ap (λ i. expected i (p.channel c).events) x

    added : update_at k k_added c asked ≡ (
        if is_none_event wanted
        then mark k c k_deleted (update k (ctl_del fd) asked)
        else update k (ctl_mod fd wanted) asked)
    unfolding fd
    added =
        ap
          (λ (h : Channel).
            if is_none_event h.events
            then mark k c k_deleted (update k (ctl_del h.fd) asked)
            else update k (ctl_mod h.fd h.events) asked)
          asked_channel

    modifies :
        is_none_event wanted ≡ false → (p.channel c).index ≡ k_added → Inv k p → Succeeds k_added
    unfolding fd Succeeds
    modifies n x v =
        let a = k.mod_ok p.epoll fd (p.channel c).events wanted (watches x v) in
        let t = record asked { epoll = a.0 } in
        (
          t,
          update_asked k_added x
              ∙ added
              ∙ ap
                  (λ b.
                    if b
                    then mark k c k_deleted (update k (ctl_del fd) asked)
                    else update k (ctl_mod fd wanted) asked)
                  n
              ∙ (unfold Poller.update asked in ap (with_set k asked) a.1),
          record {
            changed =
                asked_channel ∙ ap (λ i. record (p.channel c) { events = wanted; index = i }) x;
            others = λ d other. unfold asked in rw (other, if◌then◌else◌) refl;
            entries = a.2;
          },
        )

    deletes :
        is_none_event wanted ≡ true → (p.channel c).index ≡ k_added → Inv k p → Succeeds k_deleted
    unfolding fd Succeeds
    deletes n x v =
        let a = k.del_ok p.epoll fd (p.channel c).events (watches x v) in
        (
          marked p.channels a.0 k_deleted,
          update_asked k_added x
              ∙ added
              ∙ ap
                  (λ b.
                    if b
                    then mark k c k_deleted (update k (ctl_del fd) asked)
                    else update k (ctl_mod fd wanted) asked)
                  n
              ∙ (unfold Poller.update Poller.set_index marked asked in
                  ap (λ o. mark k c k_deleted (with_set_or_same k asked o)) a.1),
          marked-Changed p.channels a.0 k_deleted a.2,
        )

    pub change-Changed : Inv k p → Succeeds (index_after (p.channel c).index (is_none_event wanted))
    change-Changed v = pick (p.channel c).index refl (is_none_event wanted) refl
      where
        pick :
            (i : Index)
            → (p.channel c).index ≡ i
            → (b : Bool) → is_none_event wanted ≡ b
            → Succeeds (index_after i b)
        pick k_new x b n =
            adds (put_fd fd c p.channels) (ap (λ i. update_at k i c asked) x ∙ adds_new)
              (unfold fd in v.watched c ∙ ap (λ i. expected i (p.channel c).events) x)
        pick k_deleted x b n =
            adds p.channels (ap (λ i. update_at k i c asked) x ∙ adds_deleted)
              (unfold fd in v.watched c ∙ ap (λ i. expected i (p.channel c).events) x)
        pick k_added x true n = deletes n x v
        pick k_added x false n = modifies n x v

  -- A request that changes a channel's events succeeds, whatever has been done with the channel
  -- before, and afterwards the kernel's set agrees with the channels again: the channel has the new
  -- events, and counts as deleted if it was watched and asks for nothing now, and else as added.
  pub request-Inv :
      (q : Request) (c : ℕ) (p : Poller.Poller k)
      → Inv k p
      → (t : Poller.Poller k) × (Poller.request k q c p ≡ some t)
        × Inv k t
        × (t.channel c ≡ record (p.channel c) {
          events = set_events q (p.channel c).events;
          index =
              index_after (p.channel c).index (is_none_event (set_events q (p.channel c).events));
        })
  unfolding Succeeds Poller.request
  request-Inv q c p v =
      let (t, e, h) = change-Changed (set_events q (p.channel c).events) c p v in
      (t, e, Changed-Inv k c _ _ p t h v, h.changed)
