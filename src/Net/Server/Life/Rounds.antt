-- ===== src/Net/Server/Life/Rounds.antt =====
-- The rounds of a served connection of common/net/TcpConnection.cc and TcpServer.cc, as single moves.
use talk_system.Prelude.{
  if◌then◌else◌, ℕ, ◌≡◌, refl, sym, ap, ◌∙◌, Bool, true, false, not, ◌&&◌, ◌||◌, some, List, [],
  ◌∷◌, ◌++◌, append-nil, arith,
}
use talk_system.Buffer.{Read, got, failed}
use talk_system.Net.Channel.{
  Events, is_none_event, is_reading, set_revents, handle_event, handle_event_with_guard, invoke,
}
use talk_system.Net.Connection.{Write, handle_write, handle_error}
use talk_system.Net.Connection.Trace.{act, writes}
use talk_system.Net.Connection.Calm.{life_of}
use talk_system.Net.Server.Life.Told.{play-life}
use talk_system.Net.Server.Life.{
  Served, on_input, reads, hangs_up, Move, hang_up, input, acting, move, play, accepted, told_by,
  run_io, run_base, io_turn, base_turn,
}
use talk_system.Net.Server.Life.Reports.{
  on_close, on_read, is_end, callbacks, reported, report, Round, io_round, base_round, calling,
  reporting, round, rounds, begin, is_plain, ArePlain,
}

-- The single events that a report amounts to.
abbrev when : Bool → List Move → List Move
when b ms = if b then ms else []

abbrev close_moves : Bool → List Move
close_moves same = hang_up ∷ when same (base_turn ∷ [])

abbrev read_moves : Bool → Read → List Move
read_moves same rd = input rd ∷ when (same && is_end rd) (base_turn ∷ [])

abbrev answers : Bool → Bool → Events → Read → Write → List Move
answers same runs r rd w =
    when (runs && r.epollhup && not r.epollin) (close_moves same)
    ++ when (runs && (r.epollin || r.epollpri)) (read_moves same rd)
    ++ when (runs && r.epollout) (acting (writes w) ∷ [])

-- With what the poller lets through.
abbrev moves_of : Bool → Bool → Events → Read → Write → Served → List Move
moves_of same alive r rd w s =
    answers same (not s.conn.channel.tied || alive) (reported s.conn.channel.events r) rd w

play-append : (ms ns : List Move) (s : Served) → play s (ms ++ ns) ≡ play (play s ms) ns
unfolding play
play-append [] ns s = refl
play-append (m ∷ ms) ns s = play-append ms ns (move s m)

closed_moves :
    (same : Bool) (s : Served)
    → is_none_event s.conn.channel.events ≡ false
    → on_close same s ≡ play s (close_moves same)
unfolding on_close play move hangs_up
closed_moves true s n = rw (n, if◌then◌else◌) refl
closed_moves false s n = rw (n, if◌then◌else◌) refl

read_lem :
    (same : Bool) (rd : Read) (s : Served)
    → is_reading s.conn.channel.events ≡ true
    → on_read same rd s ≡ play s (read_moves same rd)
unfolding on_read on_close play move reads on_input
read_lem true (got []) s n = rw (n, if◌then◌else◌) refl
read_lem false (got []) s n = rw (n, if◌then◌else◌) refl
read_lem true (got (x ∷ bs)) s n = rw (n, if◌then◌else◌) refl
read_lem false (got (x ∷ bs)) s n = rw (n, if◌then◌else◌) refl
read_lem true (failed e) s n = rw (n, if◌then◌else◌) refl
read_lem false (failed e) s n = rw (n, if◌then◌else◌) refl

-- The close and the read callback: never both, and each only where the channel asks.
first_two :
    (same close read : Bool) (rd : Read) (s : Served)
    → (close && read) ≡ false
    → (not close || not (is_none_event s.conn.channel.events)) ≡ true
    → (not read || is_reading s.conn.channel.events) ≡ true
    → invoke read (some (on_read same rd)) (invoke close (some (on_close same)) s)
      ≡ play s (when close (close_moves same) ++ when read (read_moves same rd))
unfolding play
first_two same true true rd s n a b = cc
first_two same true false rd s n a b =
    closed_moves same s (ground arith) ∙ ap (play s) (sym (append-nil (close_moves same)))
first_two same false true rd s n a b = read_lem same rd s b
first_two same false false rd s n a b = refl

no_error :
    (b : Bool) (s : Served)
    → invoke b (some (λ (s : Served). record s { conn = handle_error s.conn })) s ≡ s
unfolding handle_error
no_error true s = refl
no_error false s = refl

then_write :
    (b : Bool) (w : Write) (s t : Served) (ms : List Move)
    → t ≡ play s ms
    → invoke b (some (λ s. record s { conn = handle_write w s.conn })) t
      ≡ play s (ms ++ when b (acting (writes w) ∷ []))
unfolding play move act
then_write true w s t ms e = rw (play-append ms, e) refl
then_write false w s t ms e = rw (append-nil ms) e

answers_lem :
    (same : Bool) (q : Events) (rd : Read) (w : Write) (s : Served)
    → is_plain q ≡ true
    → (not (q.epollhup && not q.epollin) || not (is_none_event s.conn.channel.events)) ≡ true
    → (not (q.epollin || q.epollpri) || is_reading s.conn.channel.events) ≡ true
    → handle_event_with_guard (callbacks same rd w) q s ≡ play s (answers same true q rd w)
unfolding handle_event_with_guard callbacks
answers_lem same q rd w s h a b =
    let close = q.epollhup && not q.epollin in
    let read = q.epollin || q.epollpri in
    rw (no_error q.epollerr)
      (then_write q.epollout w s _ _ (first_two same close read rd s (ground arith) a b))

reported_plain : (e r : Events) → is_plain r ≡ true → is_plain (reported e r) ≡ true
reported_plain e r h = ground arith

reported_hup :
    (e r : Events)
    → (not ((reported e r).epollhup && not (reported e r).epollin) || not (is_none_event e)) ≡ true
reported_hup e r = ground arith

reported_read :
    (e r : Events)
    → (not ((reported e r).epollin || (reported e r).epollpri) || is_reading e) ≡ true
unfolding is_reading
reported_read e r = ground arith

report-moves :
    (same alive : Bool) (r : Events) (rd : Read) (w : Write) (s : Served)
    → is_plain r ≡ true
    → report same alive r rd w s ≡ play s (moves_of same alive r rd w s)
unfolding report handle_event set_revents play
report-moves same alive r rd w s h = pick s.conn.channel.tied alive
  where
    e : Events
    e = s.conn.channel.events

    lem :
        handle_event_with_guard (callbacks same rd w) (reported e r) s
        ≡ play s (answers same true (reported e r) rd w)
    lem =
        answers_lem same (reported e r) rd w s (reported_plain e r h) (reported_hup e r)
          (reported_read e r)

    pick :
        (t a : Bool)
        → (if t
            then (if a then handle_event_with_guard (callbacks same rd w) (reported e r) s else s)
            else handle_event_with_guard (callbacks same rd w) (reported e r) s)
          ≡ play s (answers same (not t || a) (reported e r) rd w)
    pick true true = lem
    pick true false = refl
    pick false a = lem

pub all_moves : Bool → List Round → Served → List Move
all_moves same [] s = []
all_moves same (io_round ∷ rs) s = io_turn ∷ all_moves same rs (run_io s)
all_moves same (base_round ∷ rs) s = base_turn ∷ all_moves same rs (run_base s)
all_moves same (calling a ∷ rs) s = acting a ∷ all_moves same rs (record s { conn = act s.conn a })
all_moves same (reporting alive r rd w ∷ rs) s =
    moves_of same alive r rd w s ++ all_moves same rs (report same alive r rd w s)

pub rounds-moves :
    (same : Bool) (rs : List Round) (s : Served)
    → ArePlain rs
    → rounds same s rs ≡ play s (all_moves same rs s)
unfolding rounds round play move all_moves
rounds-moves same [] s h = refl
rounds-moves same (io_round ∷ rs) s h = rounds-moves same rs (run_io s) h
rounds-moves same (base_round ∷ rs) s h = rounds-moves same rs (run_base s) h
rounds-moves same (calling a ∷ rs) s h = rounds-moves same rs (record s { conn = act s.conn a }) h
rounds-moves same (reporting alive r rd w ∷ rs) s h =
    let t = report same alive r rd w s in
    rounds-moves same rs t h.1
    ∙ ap (λ u. play u (all_moves same rs t)) (report-moves same alive r rd w s h.0)
    ∙ sym (play-append (moves_of same alive r rd w s) (all_moves same rs t) s)

-- From `newConnection` on.
pub from_start : Bool → List Round → ℕ → Bool → Bool → List Move
from_start same rs fd a b = when same (io_turn ∷ []) ++ all_moves same rs (begin same fd a b)

pub rounds-play :
    (same : Bool) (rs : List Round) (fd : ℕ) (a b : Bool)
    → ArePlain rs
    → rounds same (begin same fd a b) rs ≡ play (accepted fd a b) (from_start same rs fd a b)
unfolding begin from_start play move
rounds-play true rs fd a b h = rounds-moves true rs (run_io (accepted fd a b)) h
rounds-play false rs fd a b h = rounds-moves false rs (accepted fd a b) h

-- Whether another loop serves an accepted connection or the base loop itself, and however the turns of
-- the loops, the calls of the user and the reports of epoll interleave, whatever flags a report has at
-- once but EPOLLHUP together with EPOLLPRI, and whatever `readv` and `write` answer: the callbacks of
-- the channel tell the life of the connection in one order, the user's callback for its start, that
-- for its end, the close callback, and the removal from the poller, each once; the table and the
-- queues say exactly how much of it has been told.
pub rounds-life :
    (same : Bool) (rs : List Round) (fd : ℕ) (a b : Bool)
    → ArePlain rs
    → let s = rounds same (begin same fd a b) rs in
      life_of s.conn.effects ≡ told_by s.listed s.io_queue s.base_queue
rounds-life same rs fd a b h =
    rw (rounds-play same rs fd a b h) (play-life (from_start same rs fd a b) fd a b)
