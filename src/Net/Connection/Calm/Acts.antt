-- ===== src/Net/Connection/Calm/Acts.antt =====
-- The sends, writes and shutdowns of common/net/TcpConnection.cc leave the life of a connection alone.
use talk_system.Prelude.{
  ltb, ◌==◌, if◌then◌else◌, length, take, drop, ℕ, zero, suc, ◌-◌, ◌≡◌, refl, sym, ap, ◌∙◌, Bool,
  true, false, not, ◌&&◌, List,
}
use talk_system.Buffer.{readable_bytes, append, retrieve, peek}
use talk_system.Net.Channel.{disable_writing}
use talk_system.Net.Connection.{
  Connection, State, k_disconnected, k_connecting, k_connected, k_disconnecting, sent,
  shutdown_write, Write, wrote, refused, emit, set_state, request, write_complete, is_fatal,
  write_directly, check_high_water, ask_to_write, keep_remaining, finish_send, is_connected,
  is_disconnected, is_disconnecting, send, send_in_loop, writing, shutdown, shutdown_in_loop,
  drained, wrote_out, handle_write,
}
use talk_system.Net.Connection.Trace.{Act, sends, writes, shuts, act}
use talk_system.Net.Connection.Calm.{
  Calm, Calm-refl, Calm-trans, if-Calm, emit-Calm, ask-Calm, unask-Calm, write_complete-Calm,
  check_high_water-Calm, is_up,
}

keep_remaining-Calm : (bs : List ℕ) (c : Connection) → Calm c (keep_remaining bs c)
unfolding keep_remaining ask_to_write
keep_remaining-Calm bs c =
    let d = check_high_water (length bs) c in
    let m = check_high_water-Calm (length bs) c in
    let e = record d { output_buffer = append bs d.output_buffer } in
    let a = if-Calm (writing e) e e _ (Calm-refl e) (ask-Calm e) in
    record {
      same_life = a.same_life ∙ m.same_life;
      same_input = a.same_input ∙ m.same_input;
      same_up = a.same_up ∙ m.same_up;
      same_watch = λ h f. a.same_watch (m.same_input ∙ h) (m.same_watch h f);
    }

finish_send-Calm : (c : Connection) (bs : List ℕ) (b : Bool) → Calm c (finish_send (c, bs, b))
finish_send-Calm c bs b =
    if-Calm (not b && ltb 0 (length bs)) c _ c (keep_remaining-Calm bs c) (Calm-refl c)

write_directly-Calm :
    (bs : List ℕ) (w : Write) (c : Connection) → Calm c (finish_send (write_directly bs w c))
unfolding write_directly
write_directly-Calm bs (refused e) c = finish_send-Calm c bs (is_fatal e)
write_directly-Calm bs (wrote n) c =
    let m = emit-Calm (sent (take n bs)) c refl (λ w. refl) in
    Calm-trans
      (if-Calm (length bs - n == 0) c _ _
        (Calm-trans m (write_complete-Calm (emit (sent (take n bs)) c))) m)
      (finish_send-Calm _ (drop n bs) false)

send_in_loop-Calm : (bs : List ℕ) (w : Write) (c : Connection) → Calm c (send_in_loop bs w c)
unfolding send_in_loop
send_in_loop-Calm bs w c =
    if-Calm (is_disconnected c.state) c c _ (Calm-refl c)
      (pick (not (writing c) && readable_bytes c.output_buffer == 0))
  where
    pick : (b : Bool) → Calm c (finish_send (if b then write_directly bs w c else (c, bs, false)))
    pick true = write_directly-Calm bs w c
    pick false = finish_send-Calm c bs false

shutdown_in_loop-Calm : (c : Connection) → Calm c (shutdown_in_loop c)
unfolding shutdown_in_loop
shutdown_in_loop-Calm c =
    if-Calm (writing c) c c _ (Calm-refl c) (emit-Calm shutdown_write c refl (λ w. refl))

drained-Calm : (c : Connection) → Calm c (drained c)
unfolding drained
drained-Calm c =
    let d = write_complete (request disable_writing c) in
    let m = Calm-trans (unask-Calm c) (write_complete-Calm (request disable_writing c)) in
    if-Calm (is_disconnecting d.state) c _ d (Calm-trans m (shutdown_in_loop-Calm d)) m

wrote_out-Calm : (n : ℕ) (c : Connection) → Calm c (wrote_out n c)
unfolding wrote_out
wrote_out-Calm zero c = Calm-refl c
wrote_out-Calm (suc n) c =
    let k =
      emit-Calm (sent (take (suc n) (peek c.output_buffer)))
        (record c { output_buffer = retrieve (suc n) c.output_buffer }) refl (λ w. refl) in
    let d =
      emit (sent (take (suc n) (peek c.output_buffer)))
        (record c { output_buffer = retrieve (suc n) c.output_buffer }) in
    let m : Calm c d = record {
      same_life = k.same_life;
      same_input = k.same_input;
      same_up = k.same_up;
      same_watch = k.same_watch;
    } in
    if-Calm (readable_bytes d.output_buffer == 0) c _ d (Calm-trans m (drained-Calm d)) m

shutdown-Calm : (c : Connection) → Calm c (shutdown c)
unfolding shutdown set_state
shutdown-Calm c = pick c.state refl
  where
    c' : Connection
    c' = record c { state = k_disconnecting }

    pick : (s : State) → c.state ≡ s → Calm c (if is_connected s then shutdown_in_loop c' else c)
    pick k_disconnected e = Calm-refl c
    pick k_connecting e = Calm-refl c
    pick k_disconnecting e = Calm-refl c
    pick k_connected e =
        let m = shutdown_in_loop-Calm c' in
        record {
          same_life = m.same_life;
          same_input = m.same_input;
          same_up = m.same_up ∙ ap is_up (sym e);
          same_watch = m.same_watch;
        }

pub act-Calm : (a : Act) (c : Connection) → Calm c (act c a)
unfolding act send handle_write
act-Calm (sends bs w) c =
    if-Calm (is_connected c.state) c _ c (send_in_loop-Calm bs w c) (Calm-refl c)
act-Calm (writes (wrote n)) c = if-Calm (writing c) c _ c (wrote_out-Calm n c) (Calm-refl c)
act-Calm (writes (refused e)) c = Calm-refl c
act-Calm shuts c = shutdown-Calm c
