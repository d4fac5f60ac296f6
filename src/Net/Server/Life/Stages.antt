-- ===== src/Net/Server/Life/Stages.antt =====
-- The stages of a served connection of common/net/TcpServer.cc and TcpConnection.cc, and the turns of
-- the two loops.
use talk_system.Prelude.{
  if◌then◌else◌, take, ℕ, ◌≡◌, refl, ap, ◌∙◌, Bool, true, false, not, List, [], ◌∷◌, ◌++◌,
  append_assoc,
}
use talk_system.Net.Channel
use talk_system.Net.Channel.{
  Index, k_new, k_added, k_deleted, enable_reading, is_none_event, is_reading, k_none_event,
  set_events, tie, is_writing, Channel, Events, new,
}
use talk_system.Net.Connection
use talk_system.Net.Connection.{
  Connection, State, k_disconnected, k_connecting, k_connected, k_disconnecting, Effect,
  channel_updated, connection_callback, close_callback, channel_removed, wrote, refused, emit,
  set_state, request, is_connected, is_disconnecting, connect_established, connect_destroyed,
  handle_close, handle_read, handle_error, writing, send, handle_write, shutdown, write_complete,
}
use talk_system.Net.Connection.Trace.{Act, sends, writes, shuts, act}
use talk_system.Net.Connection.Watch.{trace, trace-quiet, trace-call}
use talk_system.Net.Connection.Calm.{life_of, life_of-append, is_up}
use talk_system.Net.Server.Life.{
  Job, establish, destroy, BaseJob, remove, Served, accepted, run_job, run_io, run_base, closes,
  whole_life,
}

-- The stages of a connection, with what each leaves in the queues.
pub data Stage : Type 0 where
  fresh up closed unlisted gone : Stage

abbrev pub heard : Stage → ℕ
heard fresh = 0
heard up = 1
heard closed = 3
heard unlisted = 3
heard gone = 4

abbrev pub in_table : Stage → Bool
in_table fresh = true
in_table up = true
in_table closed = true
in_table _ = false

abbrev pub io_jobs : Stage → List Job
io_jobs fresh = establish ∷ []
io_jobs unlisted = destroy ∷ []
io_jobs _ = []

abbrev pub base_jobs : Stage → List BaseJob
base_jobs closed = remove ∷ []
base_jobs _ = []

-- The index of its channel in the poller.
abbrev pub index_at : Stage → Index
index_at up = k_added
index_at closed = k_deleted
index_at unlisted = k_deleted
index_at _ = k_new

-- The connection at a stage: up and asking for input, or down and asking for nothing.
abbrev pub Fits : Stage → Connection → Type 0
Fits fresh c = (c.state ≡ k_connecting) × (c.channel.events ≡ k_none_event)
Fits up c = (is_up c.state ≡ true) × (c.channel.events.epollin ≡ true)
Fits _ c = (c.state ≡ k_disconnected) × (c.channel.events ≡ k_none_event)

pub record At (g : Stage) (s : Served) : Type 0 where
  pub told : life_of s.conn.effects ≡ take (heard g) whole_life
  pub in_list : s.listed ≡ in_table g
  pub io_waits : s.io_queue ≡ io_jobs g
  pub base_waits : s.base_queue ≡ base_jobs g
  pub fits : Fits g s.conn
  pub watched : trace s.conn.effects ≡ (index_at g, s.conn.channel.events)

-- Whether the stage is past the first, where that is asked.
abbrev pub has_begun : Stage → Bool → Bool
has_begun fresh b = not b
has_begun up b = true
has_begun closed b = true
has_begun unlisted b = true
has_begun gone b = true

abbrev pub Staged : Bool → Served → Type 0
Staged b s = (g : Stage) × At g s × (has_begun g b ≡ true)

pub accepted-At : (fd : ℕ) (a b : Bool) → At fresh (accepted fd a b)
unfolding accepted Connection.new Channel.new
accepted-At fd a b = record {
  told = refl;
  in_list = refl;
  io_waits = refl;
  base_waits = refl;
  fits = (refl, refl);
  watched = refl;
}

pub accepted-Staged : (fd : ℕ) (a b : Bool) → Staged false (accepted fd a b)
accepted-Staged fd a b = (fresh, accepted-At fd a b, refl)

-- A connection that is down does nothing, whatever it is asked.
pub act_down :
    (a : Act) (c : Connection)
    → is_connected c.state ≡ false
    → c.channel.events ≡ k_none_event
    → act c a ≡ c
unfolding act send handle_write shutdown is_writing
act_down (sends bs w) c d e = rw (d, if◌then◌else◌) refl
act_down (writes (wrote n)) c d e = rw (e, if◌then◌else◌) refl
act_down (writes (refused n)) c d e = refl
act_down shuts c d e = rw (d, if◌then◌else◌) refl

-- Closing a connection adds the callback for its end and the close callback to its life.
handle_close-life :
    (c : Connection)
    → life_of (handle_close c).effects
      ≡ life_of c.effects ++ connection_callback k_disconnected ∷ close_callback ∷ []
unfolding handle_close set_state emit request set_events
handle_close-life c = simp (life_of-append, append_assoc) refl

-- Running a job, by what stands in the queue.
run_establish :
    (s : Served)
    → At fresh s
    → At up (record s { conn = connect_established s.conn; io_queue = [] })
unfolding connect_established set_state emit request set_events tie
run_establish s a = record {
  told = simp (life_of-append, a.told) refl;
  in_list = a.in_list;
  io_waits = refl;
  base_waits = a.base_waits;
  fits = (refl, refl);
  watched =
      trace-quiet (s.conn.effects ++ channel_updated e ∷ []) (connection_callback k_connected)
        (λ w. refl)
      ∙ trace-call s.conn.effects (channel_updated e) (k_new, s.conn.channel.events) a.watched;
}
  where
    e : Events
    e = set_events enable_reading s.conn.channel.events

run_destroy :
    (s : Served)
    → At unlisted s
    → At gone (record s { conn = connect_destroyed s.conn; io_queue = [] })
unfolding connect_destroyed emit
run_destroy s a =
    rw (ap is_connected a.fits.0, if◌then◌else◌)
      (record {
        told = simp (life_of-append, a.told) refl;
        in_list = a.in_list;
        io_waits = refl;
        base_waits = a.base_waits;
        fits = (a.fits.0, a.fits.1);
        watched =
            trace-call s.conn.effects channel_removed (k_deleted, s.conn.channel.events) a.watched;
      })

-- Where a turn of either loop, and the end of the peer, lead.
abbrev pub after_io : Stage → Stage
after_io fresh = up
after_io unlisted = gone
after_io g = g

abbrev pub after_base : Stage → Stage
after_base closed = unlisted
after_base g = g

abbrev pub after_hup : Stage → Stage
after_hup up = closed
after_hup g = g

pub after_io-begun : (g : Stage) (b : Bool) → has_begun g b ≡ true → has_begun (after_io g) b ≡ true
after_io-begun fresh b h = refl
after_io-begun up b h = refl
after_io-begun closed b h = refl
after_io-begun unlisted b h = refl
after_io-begun gone b h = refl

pub after_base-begun :
    (g : Stage) (b : Bool) → has_begun g b ≡ true → has_begun (after_base g) b ≡ true
after_base-begun fresh b h = h
after_base-begun up b h = refl
after_base-begun closed b h = refl
after_base-begun unlisted b h = refl
after_base-begun gone b h = refl

pub after_hup-begun :
    (g : Stage) (b : Bool) → has_begun g b ≡ true → has_begun (after_hup g) b ≡ true
after_hup-begun fresh b h = h
after_hup-begun up b h = refl
after_hup-begun closed b h = refl
after_hup-begun unlisted b h = refl
after_hup-begun gone b h = refl

pub run_io-At : (g : Stage) (s : Served) → At g s → At (after_io g) (run_io s)
unfolding run_io run_job
run_io-At fresh s a = simp (a.io_waits) (run_establish s a)
run_io-At up s a = simp (a.io_waits) a
run_io-At closed s a = simp (a.io_waits) a
run_io-At unlisted s a = simp (a.io_waits) (run_destroy s a)
run_io-At gone s a = simp (a.io_waits) a

pub run_base-At : (g : Stage) (s : Served) → At g s → At (after_base g) (run_base s)
unfolding run_base
run_base-At fresh s a = simp (a.base_waits) a
run_base-At up s a = simp (a.base_waits) a
run_base-At closed s a = simp (a.base_waits) (record {
  told = a.told;
  in_list = refl;
  io_waits = ap (λ js. js ++ destroy ∷ []) a.io_waits;
  base_waits = refl;
  fits = a.fits;
  watched = a.watched;
})
run_base-At unlisted s a = simp (a.base_waits) a
run_base-At gone s a = simp (a.base_waits) a

pub closes-Staged : (s : Served) → At up s → At closed (closes s)
unfolding closes handle_close set_state emit request set_events is_none_event
closes-Staged s a = record {
  told =
      handle_close-life s.conn
      ∙ ap (λ es. es ++ connection_callback k_disconnected ∷ close_callback ∷ []) a.told;
  in_list = a.in_list;
  io_waits = a.io_waits;
  base_waits = ap (λ js. js ++ remove ∷ []) a.base_waits;
  fits = (refl, refl);
  watched =
      trace-quiet
        ((s.conn.effects ++ channel_updated k_none_event ∷ [])
          ++ connection_callback k_disconnected ∷ [])
        close_callback (λ w. refl)
      ∙ trace-quiet (s.conn.effects ++ channel_updated k_none_event ∷ [])
          (connection_callback k_disconnected) (λ w. refl)
      ∙ trace-call s.conn.effects (channel_updated k_none_event) (k_added, s.conn.channel.events)
          a.watched;
}
