-- ===== src/Net/Connection/Send.antt =====
-- `sendInLoop` and `handleWrite` against the stream of sent bytes.
use talk_system.Prelude.{
  ◌==◌, if◌then◌else◌, le→ltb, ==_iff, length, take, drop, length-drop, take-append-drop,
  eq-nil_of_length, ℕ, ◌+◌, ◌-◌, ◌^◌, ◌<◌, ◌≡◌, refl, sym, ap, ap₂, ◌∙◌, subst, Bool, true, false,
  not, ◌&&◌, List, [], ◌++◌, append-nil, append_assoc, arith,
}
use talk_system.Buffer.{readable_bytes, peek}
use talk_system.Buffer.Contents.{IsValid, length-peek}
use talk_system.Net.Channel.{is_writing, Channel}
use talk_system.Net.Connection.{
  Connection, sent, queued_write_complete, Write, wrote, emit, writing, write_complete,
  write_directly, finish_send, is_disconnected, send_in_loop, refused, is_fatal,
}
use talk_system.Net.Connection.Stream.{
  Inv, stream, sent_bytes, sent_bytes-snoc, sent_bytes-quiet, lost, Sent, finish_send-Sent,
}

pub peek_empty :
    (c : Connection)
    → IsValid c.output_buffer
    → readable_bytes c.output_buffer ≡ 0
    → peek c.output_buffer ≡ []
peek_empty c v e = eq-nil_of_length (peek c.output_buffer) (length-peek c.output_buffer v ∙ e)

-- What the direct write leaves.
pub record Direct (c d : Connection) (taken : List ℕ) : Type 0 where
  pub direct_output : d.output_buffer ≡ c.output_buffer
  pub direct_channel : d.channel ≡ c.channel
  pub direct_state : d.state ≡ c.state
  pub direct_sent : sent_bytes d.effects ≡ sent_bytes c.effects ++ taken

write_complete-Direct :
    (c d : Connection) (taken : List ℕ) → Direct c d taken → Direct c (write_complete d) taken
unfolding write_complete emit
write_complete-Direct c d taken h = pick d.has_write_complete
  where
    pick : (b : Bool) → Direct c (if b then emit queued_write_complete d else d) taken
    pick true = record {
      direct_output = h.direct_output;
      direct_channel = h.direct_channel;
      direct_state = h.direct_state;
      direct_sent = sent_bytes-quiet d.effects queued_write_complete refl ∙ h.direct_sent;
    }
    pick false = h

pub write_directly-Direct :
    (bs : List ℕ) (n : ℕ) (c : Connection) → Direct c (write_directly bs (wrote n) c).0 (take n bs)
unfolding write_directly emit
write_directly-Direct bs n c = pick (length bs - n == 0)
  where
    first : Direct c (emit (sent (take n bs)) c) (take n bs)
    first = record {
      direct_output = refl;
      direct_channel = refl;
      direct_state = refl;
      direct_sent = sent_bytes-snoc c.effects (sent (take n bs));
    }

    pick :
        (b : Bool)
        → Direct c
            (if b then write_complete (emit (sent (take n bs)) c) else emit (sent (take n bs)) c)
            (take n bs)
    pick true = write_complete-Direct c (emit (sent (take n bs)) c) (take n bs) first
    pick false = first

module _ (bs : List ℕ) (c : Connection) (v : Inv c) (up : is_disconnected c.state ≡ false)
    (fits : c.output_buffer.writer_index + length bs < 2 ^ 63) where
  direct_Sent :
      (n : ℕ)
      → writing c ≡ false
      → readable_bytes c.output_buffer ≡ 0
      → Sent bs c (finish_send (write_directly bs (wrote n) c))
  unfolding write_directly emit
  direct_Sent n quiet none_waits =
      finish_send-Sent bs (drop n bs) c d (subst IsValid (sym p.direct_output) v.valid)
        (omega (arith, ap (λ b. b.writer_index) p.direct_output, length-drop n bs)) p.direct_state
        (λ _.
          ap writing_of p.direct_channel
          ∙ quiet
          ∙ sym (le→ltb 0 _ (omega (arith, ap readable_bytes p.direct_output))))
        joined
    where
      d : Connection
      d = (write_directly bs (wrote n) c).0

      p : Direct c d (take n bs)
      p = write_directly-Direct bs n c

      writing_of : Channel → Bool
      writing_of h = is_writing h.events

      waits : peek c.output_buffer ≡ []
      waits = peek_empty c v.valid none_waits

      joined : stream d ++ drop n bs ≡ stream c ++ bs
      joined =
          ap (λ s. s ++ drop n bs)
            (ap₂ ◌++◌ p.direct_sent (ap peek p.direct_output ∙ waits)
              ∙ append-nil (sent_bytes c.effects ++ take n bs))
          ∙ append_assoc (sent_bytes c.effects) (take n bs) (drop n bs)
          ∙ ap (◌++◌ (sent_bytes c.effects)) (take-append-drop n bs)
          ∙ sym (
              ap (λ s. s ++ bs)
                (ap (◌++◌ (sent_bytes c.effects)) waits ∙ append-nil (sent_bytes c.effects)))

  refused_Sent :
      (e : ℕ) → is_fatal e ≡ false → Sent bs c (finish_send (write_directly bs (refused e) c))
  unfolding write_directly
  refused_Sent e mild =
      rw (mild, finish_send) (finish_send-Sent bs bs c c v.valid fits refl (λ h. v.armed up) refl)

  write_Sent :
      (w : Write)
      → lost w c ≡ false
      → writing c ≡ false
      → readable_bytes c.output_buffer ≡ 0
      → Sent bs c (finish_send (write_directly bs w c))
  write_Sent (wrote n) ok quiet none_waits = direct_Sent n quiet none_waits
  write_Sent (refused e) ok quiet none_waits = refused_Sent e (ground arith)

  -- `sendInLoop` on a connection that is not disconnected adds the bytes to the stream and keeps the
  -- channel asking to write exactly while bytes wait, unless the direct write meets EPIPE or
  -- ECONNRESET.
  pub send_in_loop-Sent : (w : Write) → lost w c ≡ false → Sent bs c (send_in_loop bs w c)
  unfolding send_in_loop
  send_in_loop-Sent w ok =
      rw (up, if◌then◌else◌) (pick (writing c) (readable_bytes c.output_buffer == 0) refl refl)
    where
      pick :
          (a b : Bool)
          → writing c ≡ a
          → (readable_bytes c.output_buffer == 0) ≡ b
          → Sent bs c (finish_send (if not a && b then write_directly bs w c else (c, bs, false)))
      pick false true e f = write_Sent w ok e ((==_iff (readable_bytes c.output_buffer) 0).0 f)
      pick false false e f = finish_send-Sent bs bs c c v.valid fits refl (λ h. v.armed up) refl
      pick true b e f = finish_send-Sent bs bs c c v.valid fits refl (λ h. v.armed up) refl

-- A direct write that meets EPIPE or ECONNRESET leaves the connection as it was: the bytes are
-- dropped, and nothing is queued.
pub send_in_loop-lost :
    (bs : List ℕ) (w : Write) (c : Connection) → lost w c ≡ true → send_in_loop bs w c ≡ c
unfolding send_in_loop write_directly
send_in_loop-lost bs (wrote n) c h = cc
send_in_loop-lost bs (refused e) c h =
    pick (is_disconnected c.state) (writing c) (readable_bytes c.output_buffer == 0) (is_fatal e) h
  where
    pick :
        (d a b f : Bool)
        → (not a && (b && f)) ≡ true
        → (if d then c else finish_send (if not a && b then (c, bs, f) else (c, bs, false))) ≡ c
    pick d true b f h = cc
    pick d false false f h = cc
    pick d false true false h = cc
    pick true false true true h = refl
    pick false false true true h = refl
