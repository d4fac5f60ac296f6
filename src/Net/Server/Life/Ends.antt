-- ===== src/Net/Server/Life/Ends.antt =====
-- The destructor of common/net/TcpServer.cc, for one connection. `same` says whether the base loop serves
-- it: the destructor runs there, so `runInLoop` of common/net/EventLoop.cc then calls at once.
use talk_system.Prelude.{
  if◌then◌else◌, ℕ, ◌≡◌, refl, sym, ap, ap₂, ◌∙◌, Bool, true, false, not, List, [], ◌∷◌, ◌++◌,
  append_assoc,
}
use talk_system.Net.Channel.{set_events}
use talk_system.Net.Connection.{
  Connection, State, connect_destroyed, k_disconnected, k_connecting, k_connected, Effect,
  connection_callback, channel_removed, k_disconnecting, emit, set_state, request, is_connected,
  connect_established,
}
use talk_system.Net.Connection.Calm.{life_of, life_of-append, is_up}
use talk_system.Net.Server.Life.{Served, destroy, accepted, run_io, run_job, play, whole_life}
use talk_system.Net.Server.Life.Told.{play-Staged}
use talk_system.Net.Server.Life.Reports.{Round, begin, rounds, ArePlain}
use talk_system.Net.Server.Life.Rounds.{all_moves, rounds-moves}
use talk_system.Net.Server.Life.Stages.{
  Stage, fresh, up, closed, unlisted, gone, At, Staged, has_begun, accepted-At, accepted-Staged,
  run_io-At,
}

-- `~TcpServer`: the loop over `connections_` gives each connection's loop its `connectDestroyed`.
unfoldable pub destroy_server : Bool → Served → Served
destroy_server same s =
    if not s.listed
    then s
    else if same
    then record s { listed = false; conn = connect_destroyed s.conn }
    else record s { listed = false; io_queue = s.io_queue ++ destroy ∷ [] }

-- Two turns of the serving loop after that.
unfoldable pub last_turns : Bool → Served → Served
last_turns same s = run_io (run_io (destroy_server same s))

abbrev pub is_connecting : State → Bool
is_connecting k_connecting = true
is_connecting _ = false

-- What the destructor adds to the life of a connection that the table holds.
abbrev pub ending : State → List Effect
ending k_connecting =
    connection_callback k_connected ∷ connection_callback k_disconnected ∷ channel_removed ∷ []
ending k_connected = connection_callback k_disconnected ∷ channel_removed ∷ []
ending _ = channel_removed ∷ []

-- `connectDestroyed` alone, and right behind `connectEstablished`.
destroyed-life :
    (c : Connection)
    → is_connecting c.state ≡ false
    → life_of (connect_destroyed c).effects ≡ life_of c.effects ++ ending c.state
unfolding connect_destroyed set_state emit request set_events
destroyed-life c n = pick c.state refl n
  where
    pick :
        (st : State)
        → c.state ≡ st
        → is_connecting st ≡ false
        → life_of (connect_destroyed c).effects ≡ life_of c.effects ++ ending st
    pick k_connecting e h = cc
    pick k_connected e h =
        rw (ap is_connected e, if◌then◌else◌) (simp (life_of-append, append_assoc) refl)
    pick k_disconnecting e h = rw (ap is_connected e, if◌then◌else◌) (simp (life_of-append) refl)
    pick k_disconnected e h = rw (ap is_connected e, if◌then◌else◌) (simp (life_of-append) refl)

both-life :
    (c : Connection)
    → life_of (connect_destroyed (connect_established c)).effects
      ≡ life_of c.effects ++ ending k_connecting
unfolding connect_destroyed connect_established set_state emit request set_events
both-life c = simp (life_of-append, append_assoc) refl

up_not : (st : State) → is_up st ≡ true → is_connecting st ≡ false
up_not k_connecting h = cc
up_not k_connected h = refl
up_not k_disconnecting h = refl
up_not k_disconnected h = refl

last_turns-At :
    (same : Bool) (g : Stage) (s : Served)
    → At g s
    → has_begun g same ≡ true
    → life_of (last_turns same s).conn.effects
      ≡ (if s.listed then life_of s.conn.effects ++ ending s.conn.state else whole_life)
unfolding last_turns destroy_server run_io run_job
last_turns-At true fresh s a h = cc
last_turns-At false fresh s a h =
    simp (a.in_list, a.io_waits)
      (both-life s.conn ∙ ap (λ t. life_of s.conn.effects ++ ending t) (sym a.fits.0))
last_turns-At true up s a h =
    simp (a.in_list, a.io_waits) (destroyed-life s.conn (up_not s.conn.state a.fits.0))
last_turns-At false up s a h =
    simp (a.in_list, a.io_waits) (destroyed-life s.conn (up_not s.conn.state a.fits.0))
last_turns-At true closed s a h =
    simp (a.in_list, a.io_waits) (destroyed-life s.conn (ap is_connecting a.fits.0))
last_turns-At false closed s a h =
    simp (a.in_list, a.io_waits) (destroyed-life s.conn (ap is_connecting a.fits.0))
last_turns-At same unlisted s a h =
    simp (a.in_list, a.io_waits)
      (destroyed-life s.conn (ap is_connecting a.fits.0)
        ∙ ap₂ (λ l t. l ++ ending t) a.told a.fits.0)
last_turns-At same gone s a h = simp (a.in_list, a.io_waits) a.told

begin-Staged : (same : Bool) (fd : ℕ) (a b : Bool) → Staged same (begin same fd a b)
unfolding begin
begin-Staged true fd a b = (up, run_io-At fresh (accepted fd a b) (accepted-At fd a b), refl)
begin-Staged false fd a b = accepted-Staged fd a b

-- Whether another loop serves an accepted connection or the base loop itself, and whatever has
-- happened to it when the server is destroyed, with no report of EPOLLHUP and EPOLLPRI at once, two
-- more turns of the loop that serves it end its life: if the table held it, the user's callback for
-- its end runs if it was connected, after that for its start if the loop had not come to it yet, and
-- the channel is taken out of the poller; a connection that is shutting down, or closed, is only taken
-- out. If the table held it no more, its life is whole without the destructor.
pub last_turns-life :
    (same : Bool) (rs : List Round) (fd : ℕ) (a b : Bool)
    → ArePlain rs
    → let s = rounds same (begin same fd a b) rs in
      life_of (last_turns same s).conn.effects
      ≡ (if s.listed then life_of s.conn.effects ++ ending s.conn.state else whole_life)
last_turns-life same rs fd a b p =
    let s = begin same fd a b in
    let ms = all_moves same rs s in
    let (g, at, h) = play-Staged same ms s (begin-Staged same fd a b) in
    rw (rounds-moves same rs s p) (last_turns-At same g (play s ms) at h)
