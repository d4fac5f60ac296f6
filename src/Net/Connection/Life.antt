-- ===== src/Net/Connection/Life.antt =====
-- The life of a connection: its states, the end of its output, and what happens when it is closed.
use talk_system.Buffer
use talk_system.Prelude.{
  ltb, ◌==◌, if◌then◌else◌, le→ltb, length, take, drop_all, take_long, ℕ, suc, ◌+◌, ◌≡◌, refl, sym,
  ap, ◌∙◌, ◌⊎◌, inl, inr, Bool, true, false, not, ◌&&◌, List, [], ◌∷◌, ◌++◌, arith,
}
use talk_system.Buffer.{Buffer, readable_bytes, peek, new}
use talk_system.Buffer.Contents.{length-peek, new_empty}
use talk_system.Net.Channel.{Channel, set_events, is_writing, tie, k_none_event, Events}
use talk_system.Net.Connection
use talk_system.Net.Connection.{
  Connection, k_disconnected, k_connected, k_disconnecting, Effect, connection_callback,
  shutdown_write, emit, set_state, request, writing, shutdown_in_loop, shutdown,
  connect_established, wrote, is_disconnected, send_in_loop, is_connected, connect_destroyed,
  handle_close, write_directly, finish_send,
}
use talk_system.Net.Connection.Stream.{Inv, stream, sent_bytes, sent_bytes-quiet}
use talk_system.Net.Connection.Send.{Direct, write_directly-Direct, peek_empty}

-- How often the user's connection callback ran, how often the end of the stream was announced, and
-- how often the server was told to forget the connection.
abbrev pub ups : List Effect → ℕ
ups [] = 0
ups (connection_callback k_connected ∷ es) = suc (ups es)
ups (e ∷ es) = ups es

abbrev pub downs : List Effect → ℕ
downs [] = 0
downs (connection_callback k_disconnected ∷ es) = suc (downs es)
downs (e ∷ es) = downs es

abbrev pub fins : List Effect → ℕ
fins [] = 0
fins (shutdown_write ∷ es) = suc (fins es)
fins (e ∷ es) = fins es

pub fins-append : (es ds : List Effect) → fins (es ++ ds) ≡ fins es + fins ds
fins-append [] ds = omega arith
fins-append (e ∷ es) ds = ground (arith, fins-append es ds)

ltb_zero : (n : ℕ) → ltb 0 n ≡ false → n ≡ 0
ltb_zero n h = ground arith

downs-append : (es ds : List Effect) → downs (es ++ ds) ≡ downs es + downs ds
downs-append [] ds = omega arith
downs-append (e ∷ es) ds = ground (arith, downs-append es ds)

-- A new connection on a channel that asks for no events is, when it is established, in order and
-- connected, has sent nothing, and its user's callback has run once.
pub connect_established-Inv :
    (h : Channel) (a b : Bool)
    → h.events ≡ k_none_event
    → let c = connect_established (Connection.new h a b) in
      Inv c × (stream c ≡ []) × (c.state ≡ k_connected) × (ups c.effects ≡ 1)
unfolding connect_established Connection.new emit request set_events tie is_writing set_state
connect_established-Inv h a b e =
    let fresh = new_empty 1024 (omega arith) in
    (
      record {
        valid = fresh.0;
        armed = λ _.
            ap (λ (m : Events). m.epollout) e
            ∙ sym (
                le→ltb 0 (readable_bytes (Buffer.new 1024))
                  (omega (arith, length-peek (Buffer.new 1024) fresh.0, ap length fresh.1)));
      },
      fresh.1,
      refl,
      refl,
    )

-- `shutdown` on a connected connection: with nothing waiting the end of the stream is announced at
-- once; otherwise it is put off while the channel asks to write. No byte is lost either way.
pub shutdown_lem :
    (c : Connection)
    → Inv c
    → c.state ≡ k_connected
    → let d = shutdown c in
      (d.state ≡ k_disconnecting)
      × (stream d ≡ stream c)
      × ((peek c.output_buffer ≡ []) × (fins d.effects ≡ suc (fins c.effects))
          ⊎ (writing d ≡ true) × (fins d.effects ≡ fins c.effects))
unfolding shutdown shutdown_in_loop set_state emit
shutdown_lem c v up = rw (ap is_connected up, if◌then◌else◌) (pick (writing c) refl)
  where
    c' : Connection
    c' = record c { state = k_disconnecting }

    pick :
        (b : Bool)
        → writing c ≡ b
        → let d = if b then c' else record c' { effects = c.effects ++ shutdown_write ∷ [] } in
          (d.state ≡ k_disconnecting)
          × (stream d ≡ stream c)
          × ((peek c.output_buffer ≡ []) × (fins d.effects ≡ suc (fins c.effects))
              ⊎ (writing d ≡ true) × (fins d.effects ≡ fins c.effects))
    pick true e = (refl, refl, inr (e, refl))
    pick false e = (
      refl,
      ap (λ s. s ++ peek c.output_buffer) (sent_bytes-quiet c.effects shutdown_write refl),
      inl (
        peek_empty c v.valid
            (ltb_zero (readable_bytes c.output_buffer) (sym (v.armed (ap is_disconnected up)) ∙ e)),
        omega (arith, fins-append c.effects (shutdown_write ∷ [])),
      ),
    )

pub shutdown-Inv : (c : Connection) → Inv c → c.state ≡ k_connected → Inv (shutdown c)
unfolding shutdown shutdown_in_loop set_state emit
shutdown-Inv c v up = rw (ap is_connected up, if◌then◌else◌) (pick (writing c))
  where
    c' : Connection
    c' = record c { state = k_disconnecting }

    pick :
        (b : Bool)
        → Inv (if b then c' else record c' { effects = c.effects ++ shutdown_write ∷ [] })
    pick true = record { valid = v.valid; armed = λ _. v.armed (ap is_disconnected up) }
    pick false = record { valid = v.valid; armed = λ _. v.armed (ap is_disconnected up) }

-- However a connection that is connected comes down, by `handleClose` and then `connectDestroyed` or
-- by the latter alone, it ends disconnected, its channel asks for no events, and the user's callback
-- for the end runs once.
pub connect_destroyed_lem :
    (c : Connection)
    → c.state ≡ k_connected
    → let d = connect_destroyed (handle_close c) in
      let e = connect_destroyed c in
      (d.state ≡ k_disconnected)
      × (e.state ≡ k_disconnected)
      × (d.channel.events ≡ k_none_event)
      × (e.channel.events ≡ k_none_event)
      × (downs d.effects ≡ suc (downs c.effects))
      × (downs e.effects ≡ suc (downs c.effects))
unfolding connect_destroyed handle_close set_state emit request set_events
connect_destroyed_lem c up =
    rw (ap is_connected up, if◌then◌else◌)
      (refl, refl, refl, refl, simp downs-append (omega arith), simp downs-append (omega arith))

-- A second `handleClose` tells the user of the same close again.
pub handle_close_twice :
    (c : Connection) → downs (handle_close (handle_close c)).effects ≡ suc (suc (downs c.effects))
unfolding handle_close set_state emit request set_events
handle_close_twice c = simp downs-append (omega arith)

-- On a connection that is shutting down, with nothing waiting, `sendInLoop` still gives the kernel all
-- the bytes that it takes.
pub send_in_loop_disconnecting :
    (bs : List ℕ) (n : ℕ) (c : Connection)
    → Inv c
    → c.state ≡ k_disconnecting
    → peek c.output_buffer ≡ []
    → length bs ≡ n
    → sent_bytes (send_in_loop bs (wrote n) c).effects ≡ sent_bytes c.effects ++ bs
unfolding send_in_loop write_directly
send_in_loop_disconnecting bs n c v up waits e =
    rw (ap is_disconnected up, if◌then◌else◌)
      (rw (quiet, if◌then◌else◌)
        (rw (drop_all n bs (omega arith), finish_send)
          (direct.direct_sent ∙ ap (◌++◌ (sent_bytes c.effects)) (take_long n bs (omega arith)))))
  where
    none_waits : readable_bytes c.output_buffer ≡ 0
    none_waits = sym (length-peek c.output_buffer v.valid) ∙ ap length waits

    quiet : (not (writing c) && readable_bytes c.output_buffer == 0) ≡ true
    quiet = ground (arith, none_waits, v.armed (ap is_disconnected up))

    direct : Direct c (write_directly bs (wrote n) c).0 (take n bs)
    direct = write_directly-Direct bs n c
