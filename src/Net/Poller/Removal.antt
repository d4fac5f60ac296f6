-- ===== src/Net/Poller/Removal.antt =====
-- The removal of a channel from the poller's table.
use talk_system.Prelude.{
  ◌==◌, if◌then◌else◌, ==_iff, ==_refl, Bool-cases, ℕ, ◌≡◌, refl, ap, ◌∙◌, inl, inr, none, some,
}
use talk_system.Net.Channel.{Index, k_new, k_added, k_deleted}
use talk_system.Net.Poller
use talk_system.Net.Poller.{
  Epoll, erase_fd, with_set_or_same, mark, update, set_index, remove_at, remove_channel,
}
use talk_system.Net.Poller.Table.{Inv, Changed, Changed-Inv, expected}

module _ (k : Epoll) where
  module _ (c : ℕ) (p : Poller.Poller k) (v : Inv k p) where
    erased : Poller.Poller k
    erased = record p { channels = erase_fd (p.channel c).fd p.channels }

    unwatched : k.Set → Poller.Poller k
    unwatched s = record (Poller.set_index k c k_new erased) { epoll = s }

    unwatched-Changed :
        (s : k.Set)
        → ((j : ℕ)
            → k.registered s j ≡ (if (p.channel c).fd == j then none else k.registered p.epoll j))
        → Changed k c k_new (p.channel c).events p (unwatched s)
    unfolding unwatched erased Poller.set_index
    unwatched-Changed s h = record {
      changed = rw (==_refl c, if◌then◌else◌) refl;
      others = λ d other. rw (other, if◌then◌else◌) refl;
      entries = h;
    }

    same_entries :
        k.registered p.epoll (p.channel c).fd ≡ none
        → (j : ℕ)
        → k.registered p.epoll j ≡ (if (p.channel c).fd == j then none else k.registered p.epoll j)
    same_entries n j = elim (Bool-cases ((p.channel c).fd == j)) [
      | inl hit ↦ rw (hit, if◌then◌else◌) (rw (← (==_iff (p.channel c).fd j).0 hit) n)
      | inr miss ↦ rw (miss, if◌then◌else◌) refl
    ]

    pub remove_channel-Changed :
        (t : Poller.Poller k) × (Poller.remove_channel k c p ≡ some t)
        × Changed k c k_new (p.channel c).events p t
    unfolding Poller.remove_channel erased
    remove_channel-Changed = pick (p.channel c).index refl
      where
        pick :
            (i : Index)
            → (p.channel c).index ≡ i
            → (t : Poller.Poller k) × (Poller.remove_at k (p.channel c).index c erased ≡ some t)
              × Changed k c k_new (p.channel c).events p t
        pick k_new x =
            let u =
              unwatched-Changed p.epoll
                (same_entries (v.watched c ∙ ap (λ i. expected i (p.channel c).events) x)) in
            (
              unwatched p.epoll,
              ap (λ i. Poller.remove_at k i c erased) x
                  ∙ unfold unwatched erased Poller.set_index in refl,
              u,
            )
        pick k_deleted x =
            let u =
              unwatched-Changed p.epoll
                (same_entries (v.watched c ∙ ap (λ i. expected i (p.channel c).events) x)) in
            (
              unwatched p.epoll,
              ap (λ i. Poller.remove_at k i c erased) x
                  ∙ unfold unwatched erased Poller.set_index in refl,
              u,
            )
        pick k_added x =
            let a =
              k.del_ok p.epoll (p.channel c).fd (p.channel c).events
                (v.watched c ∙ ap (λ i. expected i (p.channel c).events) x) in
            let u = unwatched-Changed a.0 a.2 in
            (
              unwatched a.0,
              ap (λ i. Poller.remove_at k i c erased) x
                  ∙ (unfold unwatched erased Poller.set_index Poller.update in
                      ap (λ o. mark k c k_new (with_set_or_same k erased o)) a.1),
              u,
            )

    -- `removeChannel` succeeds, whatever has been done with the channel before: the kernel's set
    -- still agrees with the channels, and the channel counts as new.
    pub remove_channel-Inv :
        (t : Poller.Poller k) × (Poller.remove_channel k c p ≡ some t)
        × Inv k t
        × (t.channel c ≡ record (p.channel c) { index = k_new })
    remove_channel-Inv =
        let (t, e, h) = remove_channel-Changed in (t, e, Changed-Inv k c _ _ p t h v, h.changed)
