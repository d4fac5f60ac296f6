-- ===== src/Net/Server/Life/Reports.antt =====
-- common/net/TcpConnection.cc, lines 40 to 55, with common/net/Channel.cc: what epoll reports of a
-- served connection, as the callbacks of its channel answer it, any flags at once. `same` says whether
-- the base loop serves the connection itself, as it does where the pool has no other loop: then what
-- `runInLoop` of common/net/EventLoop.cc is given runs at once.
use talk_system.Prelude.{if◌then◌else◌, ℕ, ◌≡◌, Bool, true, false, not, ◌&&◌, some, List, [], ◌∷◌}
use talk_system.Buffer.{Read, got}
use talk_system.Net.Channel.{
  Events, Callbacks, k_none_event, is_none_event, set_revents, handle_event,
}
use talk_system.Net.Connection.{Write, handle_write, handle_error}
use talk_system.Net.Connection.Trace.{act, Act}
use talk_system.Net.Server.Life.{Served, on_input, closes, accepted, run_io, run_base}

-- The close callback, `removeConnection`.
unfoldable pub on_close : Bool → Served → Served
on_close same s = if same then run_base (closes s) else closes s

abbrev pub is_end : Read → Bool
is_end (got []) = true
is_end _ = false

-- `handleRead` with it.
unfoldable pub on_read : Bool → Read → Served → Served
on_read same r s = if is_end r then on_close same s else on_input r s

unfoldable pub callbacks : Bool → Read → Write → Callbacks Served
callbacks same r w = record {
  read = some (on_read same r);
  write = some (λ s. record s { conn = handle_write w s.conn });
  close = some (on_close same);
  error = some (λ s. record s { conn = handle_error s.conn });
}

-- Of the flags `r`, what `epoll_wait` reports of a channel that asks for `e`; a channel that asks for
-- nothing has been taken out.
abbrev pub reported : Events → Events → Events
reported e r = if is_none_event e then k_none_event else record {
  epollin = e.epollin && r.epollin;
  epollpri = e.epollpri && r.epollpri;
  epollout = e.epollout && r.epollout;
  epollerr = r.epollerr;
  epollhup = r.epollhup;
}

-- `handleEvent` of the connection's channel, after the poller has set `revents_`; `alive` says whether
-- anything else still owns the connection.
unfoldable pub report : Bool → Bool → Events → Read → Write → Served → Served
report same alive r rd w s =
    let c = s.conn.channel in
    handle_event (callbacks same rd w) alive (set_revents (reported c.events r) c) s

-- A turn of the serving loop's queue, one of the base loop's, a call of the user's, and a report.
pub data Round : Type 0 where
  io_round base_round : Round
  calling : Act → Round
  reporting : Bool → Events → Read → Write → Round

unfoldable pub round : Bool → Served → Round → Served
round same s io_round = run_io s
round same s base_round = run_base s
round same s (calling a) = record s { conn = act s.conn a }
round same s (reporting alive r rd w) = report same alive r rd w s

unfoldable pub rounds : Bool → Served → List Round → Served
rounds same s [] = s
rounds same s (r ∷ rs) = rounds same (round same s r) rs

-- The connection behind `newConnection`, whose `runInLoop` of `connectEstablished` runs at once, or
-- waits in the queue of the other loop.
unfoldable pub begin : Bool → ℕ → Bool → Bool → Served
begin same fd a b = if same then run_io (accepted fd a b) else accepted fd a b

-- No report has EPOLLHUP and EPOLLPRI at once.
abbrev pub is_plain : Events → Bool
is_plain r = not (r.epollhup && r.epollpri)

abbrev pub ArePlain : List Round → Type 0
ArePlain [] = Unit {0}
ArePlain (io_round ∷ rs) = ArePlain rs
ArePlain (base_round ∷ rs) = ArePlain rs
ArePlain (calling a ∷ rs) = ArePlain rs
ArePlain (reporting alive r rd w ∷ rs) = (is_plain r ≡ true) × ArePlain rs
