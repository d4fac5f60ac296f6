-- ===== src/Net/Server/Life/Closing.antt =====
-- The end of a served connection of common/net/TcpServer.cc and TcpConnection.cc, when epoll reports that
-- the peer is gone.
use talk_system.Prelude.{
  if◌then◌else◌, ℕ, ◌≡◌, refl, subst, Bool, true, false, ◌&&◌, List, [], ◌∷◌, arith,
}
use talk_system.Buffer.{Read}
use talk_system.Net.Channel.{
  Events, k_none_event, is_none_event, set_revents, handle_event, handle_event_with_guard,
}
use talk_system.Net.Connection.{Write}
use talk_system.Net.Connection.Calm.{life_of}
use talk_system.Net.Server.Life.{Served, accepted, closes, run_io, run_base, whole_life, play}
use talk_system.Net.Server.Life.Stages.{
  Stage, fresh, up, closed, unlisted, gone, At, accepted-Staged, run_io-At, run_base-At,
  closes-Staged, after_io, after_base,
}
use talk_system.Net.Server.Life.Told.{play-Staged, none_asked, some_asked}
use talk_system.Net.Server.Life.Reports.{
  report, callbacks, on_close, Round, io_round, base_round, reporting, round, rounds, begin,
  ArePlain,
}
use talk_system.Net.Server.Life.Rounds.{from_start, rounds-play}

-- EPOLLHUP alone.
abbrev pub hup : Events
hup = record k_none_event { epollhup = true }

-- A turn of the serving loop, the report, and a turn of each queue.
abbrev pub last_rounds : Read → Write → List Round
last_rounds rd w = io_round ∷ reporting true hup rd w ∷ base_round ∷ io_round ∷ []

if_same : {A : Type 0} (b : Bool) (x : A) → (if b then x else x) ≡ x
if_same true x = refl
if_same false x = refl

and_false : (b : Bool) → (b && false) ≡ false
and_false b = ground arith

hup-none :
    (same : Bool) (rd : Read) (w : Write) (s : Served)
    → is_none_event s.conn.channel.events ≡ true
    → report same true hup rd w s ≡ s
unfolding report handle_event handle_event_with_guard set_revents
hup-none same rd w s n = simp (n, if◌then◌else◌, if_same) refl

hup-up :
    (same : Bool) (rd : Read) (w : Write) (s : Served)
    → is_none_event s.conn.channel.events ≡ false
    → report same true hup rd w s ≡ on_close same s
unfolding report handle_event handle_event_with_guard set_revents callbacks
hup-up same rd w s n = simp (n, if◌then◌else◌, if_same, and_false) refl

-- Where the report leads: the base loop that serves the connection itself removes it at once.
abbrev after_report : Bool → Stage → Stage
after_report same up = if same then unlisted else closed
after_report same g = g

stay :
    (same : Bool) (rd : Read) (w : Write) (g : Stage) (s : Served)
    → is_none_event s.conn.channel.events ≡ true
    → At g s
    → At g (report same true hup rd w s)
stay same rd w g s n a = rw (hup-none same rd w s n) a

on_close-At : (same : Bool) (s : Served) → At up s → At (after_report same up) (on_close same s)
unfolding on_close
on_close-At true s a = run_base-At closed (closes s) (closes-Staged s a)
on_close-At false s a = closes-Staged s a

report-At :
    (same : Bool) (rd : Read) (w : Write) (g : Stage) (s : Served)
    → At g s
    → At (after_report same g) (report same true hup rd w s)
report-At same rd w fresh s a = stay same rd w fresh s (none_asked s.conn a.fits.1) a
report-At same rd w up s a =
    rw (hup-up same rd w s (some_asked s.conn a.fits.1)) (on_close-At same s a)
report-At same rd w closed s a = stay same rd w closed s (none_asked s.conn a.fits.1) a
report-At same rd w unlisted s a = stay same rd w unlisted s (none_asked s.conn a.fits.1) a
report-At same rd w gone s a = stay same rd w gone s (none_asked s.conn a.fits.1) a

all_gone : (same : Bool) (g : Stage) → after_io (after_base (after_report same (after_io g))) ≡ gone
all_gone true fresh = refl
all_gone false fresh = refl
all_gone true up = refl
all_gone false up = refl
all_gone same closed = refl
all_gone same unlisted = refl
all_gone same gone = refl

last_rounds-At :
    (same : Bool) (rd : Read) (w : Write) (g : Stage) (s : Served)
    → At g s
    → At gone (rounds same s (last_rounds rd w))
unfolding rounds round
last_rounds-At same rd w g s a =
    let b = report-At same rd w (after_io g) (run_io s) (run_io-At g s a) in
    let t = report same true hup rd w (run_io s) in
    let c = run_base-At (after_report same (after_io g)) t b in
    let d = run_io-At (after_base (after_report same (after_io g))) (run_base t) c in
    subst (λ g. At g (rounds same s (last_rounds rd w))) (all_gone same g) d

-- A connection never stays half removed: whether another loop serves it or the base loop itself, and
-- whatever has happened to it, with no report of EPOLLHUP and EPOLLPRI at once, a turn of its loop, a
-- report of EPOLLHUP alone and a turn of each queue leave it out of the table, with no work waiting
-- and its whole life told.
pub last_rounds-life :
    (same : Bool) (rs : List Round) (fd : ℕ) (a b : Bool) (rd : Read) (w : Write)
    → ArePlain rs
    → let s = rounds same (rounds same (begin same fd a b) rs) (last_rounds rd w) in
      (s.listed ≡ false)
      × (s.io_queue ≡ [])
      × (s.base_queue ≡ [])
      × (life_of s.conn.effects ≡ whole_life)
last_rounds-life same rs fd a b rd w h =
    let ms = from_start same rs fd a b in
    let (g, at, _) = play-Staged false ms (accepted fd a b) (accepted-Staged fd a b) in
    let t = last_rounds-At same rd w g (play (accepted fd a b) ms) at in
    rw (rounds-play same rs fd a b h) (t.in_list, t.io_waits, t.base_waits, t.told)
