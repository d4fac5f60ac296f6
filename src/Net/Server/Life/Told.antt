-- ===== src/Net/Server/Life/Told.antt =====
-- What is told of a served connection of common/net/TcpServer.cc and TcpConnection.cc, whatever moves
-- are made.
use talk_system.Prelude.{
  if◌then◌else◌, ℕ, ◌≡◌, refl, ap, ◌∙◌, subst, Bool, true, false, not, ◌||◌, List, [], ◌∷◌,
}
use talk_system.Buffer.{Read, got, failed}
use talk_system.Net.Channel.{is_none_event, is_reading, k_none_event, Events}
use talk_system.Net.Connection.{
  Connection, message_callback, emit, is_connected, handle_read, handle_error,
}
use talk_system.Net.Connection.Trace.{Act, act}
use talk_system.Net.Connection.Watch.{trace-quiet}
use talk_system.Net.Connection.Calm.{life_of, life_of-append}
use talk_system.Net.Connection.Calm.Acts.{act-Calm}
use talk_system.Net.Server.Life.{
  Served, accepted, run_io, run_base, reads, on_input, hangs_up, Move, io_turn, base_turn, hang_up,
  input, acting, move, play, whole_life, told_by, closing,
}
use talk_system.Net.Server.Life.Stages.{
  Stage, fresh, up, closed, unlisted, gone, At, Staged, accepted-Staged, act_down, run_io-At,
  run_base-At, closes-Staged, after_io, after_base, after_hup, after_io-begun, after_base-begun,
  after_hup-begun,
}

pub none_asked :
    (c : Connection) → c.channel.events ≡ k_none_event → is_none_event c.channel.events ≡ true
unfolding is_none_event
none_asked c e =
    ap (λ (m : Events). not (m.epollin || m.epollpri || m.epollout || m.epollerr || m.epollhup)) e

none_read : (c : Connection) → c.channel.events ≡ k_none_event → is_reading c.channel.events ≡ false
unfolding is_reading
none_read c e = ap (λ (m : Events). m.epollin || m.epollpri) e

pub some_asked :
    (c : Connection) → c.channel.events.epollin ≡ true → is_none_event c.channel.events ≡ false
unfolding is_none_event
some_asked c e = rw e refl

some_read : (c : Connection) → c.channel.events.epollin ≡ true → is_reading c.channel.events ≡ true
unfolding is_reading
some_read c e = rw e refl

hangs_up-At : (g : Stage) (s : Served) → At g s → At (after_hup g) (hangs_up s)
unfolding hangs_up
hangs_up-At fresh s a = rw (none_asked s.conn a.fits.1, if◌then◌else◌) a
hangs_up-At up s a = rw (some_asked s.conn a.fits.1, if◌then◌else◌) (closes-Staged s a)
hangs_up-At closed s a = rw (none_asked s.conn a.fits.1, if◌then◌else◌) a
hangs_up-At unlisted s a = rw (none_asked s.conn a.fits.1, if◌then◌else◌) a
hangs_up-At gone s a = rw (none_asked s.conn a.fits.1, if◌then◌else◌) a

received-Staged :
    (s : Served) (x : ℕ) (bs : List ℕ)
    → At up s
    → At up (record s { conn = handle_read (got (x ∷ bs)) s.conn })
unfolding handle_read emit
received-Staged s x bs a = record {
  told = simp (life_of-append, a.told) refl;
  in_list = a.in_list;
  io_waits = a.io_waits;
  base_waits = a.base_waits;
  fits = a.fits;
  watched = trace-quiet s.conn.effects message_callback (λ w. refl) ∙ a.watched;
}

reads-Staged : (b : Bool) (r : Read) (s : Served) → Staged b s → Staged b (reads r s)
unfolding reads on_input handle_error
reads-Staged b r s (fresh, a, h) = rw (none_read s.conn a.fits.1, if◌then◌else◌) (fresh, a, h)
reads-Staged b (got []) s (up, a, h) =
    rw (some_read s.conn a.fits.1, if◌then◌else◌) (closed, closes-Staged s a, refl)
reads-Staged b (got (x ∷ bs)) s (up, a, h) =
    rw (some_read s.conn a.fits.1, if◌then◌else◌) (up, received-Staged s x bs a, refl)
reads-Staged b (failed e) s (up, a, h) = rw (some_read s.conn a.fits.1, if◌then◌else◌) (up, a, refl)
reads-Staged b r s (closed, a, h) = rw (none_read s.conn a.fits.1, if◌then◌else◌) (closed, a, refl)
reads-Staged b r s (unlisted, a, h) =
    rw (none_read s.conn a.fits.1, if◌then◌else◌) (unlisted, a, refl)
reads-Staged b r s (gone, a, h) = rw (none_read s.conn a.fits.1, if◌then◌else◌) (gone, a, refl)

acts-Staged :
    (b : Bool) (a : Act) (s : Served) → Staged b s → Staged b (record s { conn = act s.conn a })
acts-Staged b a s (fresh, p, h) =
    rw (act_down a s.conn (ap is_connected p.fits.0) p.fits.1) (fresh, p, h)
acts-Staged b a s (up, p, h) =
    let m = act-Calm a s.conn in
    (
      up,
      record {
        told = m.same_life ∙ p.told;
        in_list = p.in_list;
        io_waits = p.io_waits;
        base_waits = p.base_waits;
        fits = (m.same_up ∙ p.fits.0, m.same_input ∙ p.fits.1);
        watched = m.same_watch p.fits.1 p.watched;
      },
      refl,
    )
acts-Staged b a s (closed, p, h) =
    rw (act_down a s.conn (ap is_connected p.fits.0) p.fits.1) (closed, p, refl)
acts-Staged b a s (unlisted, p, h) =
    rw (act_down a s.conn (ap is_connected p.fits.0) p.fits.1) (unlisted, p, refl)
acts-Staged b a s (gone, p, h) =
    rw (act_down a s.conn (ap is_connected p.fits.0) p.fits.1) (gone, p, refl)

move-Staged : (b : Bool) (m : Move) (s : Served) → Staged b s → Staged b (move s m)
unfolding move
move-Staged b io_turn s (g, v, h) = (after_io g, run_io-At g s v, after_io-begun g b h)
move-Staged b base_turn s (g, v, h) = (after_base g, run_base-At g s v, after_base-begun g b h)
move-Staged b hang_up s (g, v, h) = (after_hup g, hangs_up-At g s v, after_hup-begun g b h)
move-Staged b (input r) s v = reads-Staged b r s v
move-Staged b (acting a) s v = acts-Staged b a s v

pub play-Staged : (b : Bool) (ms : List Move) (s : Served) → Staged b s → Staged b (play s ms)
unfolding play
play-Staged b [] s v = v
play-Staged b (m ∷ ms) s v = play-Staged b ms (move s m) (move-Staged b m s v)

At-told :
    (g : Stage) (s : Served)
    → At g s
    → life_of s.conn.effects ≡ told_by s.listed s.io_queue s.base_queue
At-told fresh s a = simp (a.in_list, a.io_waits, a.base_waits) a.told
At-told up s a = simp (a.in_list, a.io_waits, a.base_waits) a.told
At-told closed s a = simp (a.in_list, a.io_waits, a.base_waits) a.told
At-told unlisted s a = simp (a.in_list, a.io_waits, a.base_waits) a.told
At-told gone s a = simp (a.in_list, a.io_waits, a.base_waits) a.told

-- However the turns of the two loops, the sends and shutdowns of the user, the input and the end of
-- the peer interleave, the life of an accepted connection is told in one order: the user's callback
-- for its start, that for its end, the close callback, and the removal from the poller, each once;
-- the table and the queues say exactly how much of it has been told.
pub play-life :
    (ms : List Move) (fd : ℕ) (a b : Bool)
    → let s = play (accepted fd a b) ms in
      life_of s.conn.effects ≡ told_by s.listed s.io_queue s.base_queue
play-life ms fd a b =
    let (g, at, _) = play-Staged false ms (accepted fd a b) (accepted-Staged fd a b) in
    At-told g (play (accepted fd a b) ms) at

closing-At : (g : Stage) (s : Served) → At g s → At gone (play s closing)
unfolding play move
closing-At g s a =
    let b = hangs_up-At (after_io g) (run_io s) (run_io-At g s a) in
    let c = run_base-At (after_hup (after_io g)) (hangs_up (run_io s)) b in
    let d = run_io-At (after_base (after_hup (after_io g))) (run_base (hangs_up (run_io s))) c in
    subst (λ g. At g (play s closing)) (ends g) d
  where
    ends : (g : Stage) → after_io (after_base (after_hup (after_io g))) ≡ gone
    ends fresh = refl
    ends up = refl
    ends closed = refl
    ends unlisted = refl
    ends gone = refl

-- A connection never stays half removed: whatever has happened to it, the end of the peer and one
-- turn of each queue leave it out of the table, with no work waiting and its whole life told.
pub closing-life :
    (ms : List Move) (fd : ℕ) (a b : Bool)
    → let s = play (play (accepted fd a b) ms) closing in
      (s.listed ≡ false)
      × (s.io_queue ≡ [])
      × (s.base_queue ≡ [])
      × (life_of s.conn.effects ≡ whole_life)
closing-life ms fd a b =
    let (g, at, _) = play-Staged false ms (accepted fd a b) (accepted-Staged fd a b) in
    let t = closing-At g (play (accepted fd a b) ms) at in
    (t.in_list, t.io_waits, t.base_waits, t.told)
