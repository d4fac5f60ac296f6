-- ===== src/Net/Server/Life/Watched.antt =====
-- What a served connection of common/net/TcpConnection.cc tells its poller, common/net/EPollPoller.cc,
-- to do, done there: the kernel watches its descriptor for just what the connection asks for.
use talk_system.Prelude.{
  if◌then◌else◌, ◌>>=◌, ℕ, ◌≡◌, refl, sym, ap, ap₂, ◌∙◌, Bool, false, Option, none, some, List, [],
  ◌∷◌,
}
use talk_system.Net.Channel
use talk_system.Net.Channel.{
  Channel, Events, Index, k_new, k_added, k_deleted, k_none_event, is_none_event, new,
}
use talk_system.Net.Connection.{
  Effect, channel_updated, channel_removed, sent, queued_write_complete, queued_high_water,
  connection_callback, message_callback, close_callback, shutdown_write,
}
use talk_system.Net.Connection.Watch.{Watch, after_effect, trace_from}
use talk_system.Net.Poller
use talk_system.Net.Poller.{Epoll, change, remove_channel}
use talk_system.Net.Poller.Table.{expected, Changed-Inv, Changed-fd}
use talk_system.Net.Poller.Requests.{index_after}
use talk_system.Net.Poller.Removal.{remove_channel-Changed}
use talk_system.Net.Poller.Tidy.{>>=_some, Tidy, change-Tidy}
use talk_system.Net.Server.Life.{Served, accepted, play}
use talk_system.Net.Server.Life.Stages.{
  Stage, At, index_at, fresh, up, closed, unlisted, gone, accepted-Staged,
}
use talk_system.Net.Server.Life.Reports.{Round, ArePlain, rounds, begin}
use talk_system.Net.Server.Life.Rounds.{from_start, rounds-play}
use talk_system.Net.Server.Life.Told.{play-Staged, none_asked, some_asked}

module _ (k : Epoll) (c : ℕ) where
  -- One effect in the poller, where the connection's channel is `c`.
  unfoldable pub replay_one : Effect → Poller.Poller k → Option (Poller.Poller k)
  replay_one (channel_updated e) p = Poller.change k e c p
  replay_one channel_removed p = Poller.remove_channel k c p
  replay_one _ p = some p

  unfoldable pub replay : List Effect → Poller.Poller k → Option (Poller.Poller k)
  replay [] p = some p
  replay (e ∷ es) p = do q ← replay_one e p; replay es q

  -- A poller in order that has the channel at this index and with these events.
  record Has (w : Watch) (p : Poller.Poller k) : Type 0 where
    tidy : Tidy k p
    index : (p.channel c).index ≡ w.0
    events : (p.channel c).events ≡ w.1

  Replayed : Effect → Watch → Poller.Poller k → Type 0
  Replayed e w p = (t : Poller.Poller k) × (replay_one e p ≡ some t) × Has (after_effect e w) t

  replay_one-Has : (e : Effect) (w : Watch) (p : Poller.Poller k) → Has w p → Replayed e w p
  unfolding replay_one Replayed
  replay_one-Has (channel_updated e) (i, old) p h =
      let (t, f, v, x, y) = change-Tidy k e c p h.tidy in
      (
        t,
        f,
        record {
          tidy = v;
          index = y ∙ ap (λ j. index_after j (is_none_event e)) h.index;
          events = x;
        },
      )
  replay_one-Has channel_removed (i, old) p h =
      let (t, f, x) = remove_channel-Changed k c p h.tidy.inv in
      (
        t,
        f,
        record {
          tidy = record {
            inv = Changed-Inv k c _ _ p t x h.tidy.inv;
            own = λ d. Changed-fd k c d _ _ p t x ∙ h.tidy.own d;
          };
          index = ap (λ (y : Channel). y.index) x.changed;
          events = ap (λ (y : Channel). y.events) x.changed ∙ h.events;
        },
      )
  replay_one-Has (sent bs) w p h = (p, refl, h)
  replay_one-Has queued_write_complete w p h = (p, refl, h)
  replay_one-Has (queued_high_water n) w p h = (p, refl, h)
  replay_one-Has (connection_callback s) w p h = (p, refl, h)
  replay_one-Has message_callback w p h = (p, refl, h)
  replay_one-Has close_callback w p h = (p, refl, h)
  replay_one-Has shutdown_write w p h = (p, refl, h)

  replay-Has :
      (es : List Effect) (w : Watch) (p : Poller.Poller k)
      → Has w p
      → (t : Poller.Poller k) × (replay es p ≡ some t) × Has (trace_from w es) t
  unfolding replay Replayed
  replay-Has [] w p h = (p, refl, h)
  replay-Has (e ∷ es) w p h =
      let (q, f, x) = replay_one-Has e w p h in
      let (t, g, y) = replay-Has es (after_effect e w) q x in (t, rw (f, >>=_some) g, y)

  entry-At :
      (g : Stage) (s : Served)
      → At g s
      → expected (index_at g) s.conn.channel.events
        ≡ (if is_none_event s.conn.channel.events then none else some s.conn.channel.events)
  entry-At fresh s a = rw (none_asked s.conn a.fits.1, if◌then◌else◌) refl
  entry-At up s a = rw (some_asked s.conn a.fits.1, if◌then◌else◌) refl
  entry-At closed s a = rw (none_asked s.conn a.fits.1, if◌then◌else◌) refl
  entry-At unlisted s a = rw (none_asked s.conn a.fits.1, if◌then◌else◌) refl
  entry-At gone s a = rw (none_asked s.conn a.fits.1, if◌then◌else◌) refl

  At-watched :
      (g : Stage) (s : Served) (p : Poller.Poller k)
      → At g s
      → Tidy k p
      → p.channel c ≡ Channel.new c
      → (t : Poller.Poller k) × (replay s.conn.effects p ≡ some t)
        × Tidy k t
        × (k.registered t.epoll c
            ≡ (if is_none_event s.conn.channel.events then none else some s.conn.channel.events))
  unfolding Channel.new
  At-watched g s p a v n =
      let (t, f, h) =
        replay-Has s.conn.effects (k_new, k_none_event) p
          (record {
            tidy = v;
            index = ap (λ (x : Channel). x.index) n;
            events = ap (λ (x : Channel). x.events) n;
          }) in
      (
        t,
        f,
        h.tidy,
        ap (k.registered t.epoll) (sym (h.tidy.own c))
            ∙ h.tidy.inv.watched c
            ∙ ap₂ expected (h.index ∙ ap (λ (w : Watch). w.0) a.watched)
                (h.events ∙ ap (λ (w : Watch). w.1) a.watched)
            ∙ entry-At g s a,
      )

  -- Whether another loop serves an accepted connection or the base loop itself, and however the turns of
  -- the loops, the calls of the user and the reports of epoll interleave,
  -- EPOLLHUP never together with EPOLLPRI: the updates and the removal that the connection has
  -- asked for go through in the poller of its loop, one after the other, if that was in order and the
  -- channel new; they leave it in order, and the kernel watches the descriptor for exactly the events
  -- that the connection's channel asks for then, and not at all when it asks for none.
  pub rounds-watched :
      (same : Bool) (rs : List Round) (a b : Bool) (p : Poller.Poller k)
      → ArePlain rs
      → Tidy k p
      → p.channel c ≡ Channel.new c
      → let s = rounds same (begin same c a b) rs in
        (t : Poller.Poller k) × (replay s.conn.effects p ≡ some t)
        × Tidy k t
        × (k.registered t.epoll c
            ≡ (if is_none_event s.conn.channel.events then none else some s.conn.channel.events))
  rounds-watched same rs a b p plain v n =
      let ms = from_start same rs c a b in
      let (g, at, _) = play-Staged false ms (accepted c a b) (accepted-Staged c a b) in
      rw (rounds-play same rs c a b plain) (At-watched g (play (accepted c a b) ms) p at v n)
