-- ===== src/Net/Connection/Stream.antt =====
-- Output: the bytes that the kernel took, followed by those in the output buffer, are the bytes that
-- were sent.
use talk_system.Prelude.{
  ltb, leb, ◌==◌, lt→ltb, Bool-cases, length, length-append, add_size, ℕ, ◌+◌, ◌^◌, ◌<◌, ◌≡◌, refl,
  sym, ap, ap₂, ◌∙◌, subst, inl, inr, Bool, true, false, not, ◌&&◌, List, [], ◌∷◌, ◌++◌, append-nil,
  append_assoc, arith,
}
use talk_system.Buffer.{append, readable_bytes, peek}
use talk_system.Buffer.Contents.{IsValid, length-peek}
use talk_system.Buffer.Space.{append_lem}
use talk_system.Net.Channel.{set_events, is_writing, enable_writing}
use talk_system.Net.Connection.{
  Connection, Effect, sent, queued_high_water, channel_updated, Write, wrote, refused, emit,
  request, writing, is_fatal, keep_remaining, finish_send, is_disconnected, check_high_water,
  ask_to_write,
}

abbrev pub effect_bytes : Effect → List ℕ
effect_bytes (sent bs) = bs
effect_bytes _ = []

abbrev pub sent_bytes : List Effect → List ℕ
sent_bytes [] = []
sent_bytes (e ∷ es) = effect_bytes e ++ sent_bytes es

pub sent_bytes-snoc :
    (es : List Effect) (e : Effect) → sent_bytes (es ++ e ∷ []) ≡ sent_bytes es ++ effect_bytes e
sent_bytes-snoc [] e = append-nil (effect_bytes e)
sent_bytes-snoc (d ∷ es) e =
    ap (◌++◌ (effect_bytes d)) (sent_bytes-snoc es e)
    ∙ sym (append_assoc (effect_bytes d) (sent_bytes es) (effect_bytes e))

pub sent_bytes-quiet :
    (es : List Effect) (e : Effect)
    → effect_bytes e ≡ []
    → sent_bytes (es ++ e ∷ []) ≡ sent_bytes es
sent_bytes-quiet es e h =
    sent_bytes-snoc es e ∙ ap (◌++◌ (sent_bytes es)) h ∙ append-nil (sent_bytes es)

-- Everything that was sent, as far as it is not lost: what the kernel has, and what waits.
abbrev pub stream : Connection → List ℕ
stream c = sent_bytes c.effects ++ peek c.output_buffer

-- The output buffer is well formed, and the channel asks to write exactly while something waits.
pub record Inv (c : Connection) : Type 0 where
  pub valid : IsValid c.output_buffer
  pub armed : is_disconnected c.state ≡ false → writing c ≡ ltb 0 (readable_bytes c.output_buffer)

-- `d` differs from `c` in its channel and in effects that carry no bytes.
pub record Quiet (c d : Connection) : Type 0 where
  pub same_output : d.output_buffer ≡ c.output_buffer
  pub same_sent : sent_bytes d.effects ≡ sent_bytes c.effects
  pub same_state : d.state ≡ c.state

pub check_high_water-Quiet :
    (n : ℕ) (c : Connection)
    → Quiet c (check_high_water n c) × ((check_high_water n c).channel ≡ c.channel)
unfolding check_high_water emit
check_high_water-Quiet n c =
    elim (Bool-cases (
      leb c.high_water_mark (add_size (readable_bytes c.output_buffer) n)
      && (ltb (readable_bytes c.output_buffer) c.high_water_mark && c.has_high_water))) [
        | inl e ↦ rw e (
          record {
            same_output = refl;
            same_sent = sent_bytes-quiet c.effects (queued_high_water _) refl;
            same_state = refl;
          },
          refl,
        )
        | inr e ↦ rw e (record { same_output = refl; same_sent = refl; same_state = refl }, refl)
      ]

pub ask_to_write-Quiet :
    (c : Connection) → Quiet c (ask_to_write c) × (writing (ask_to_write c) ≡ true)
unfolding ask_to_write request emit set_events is_writing
ask_to_write-Quiet c = ground (
  arith,
  sent_bytes-quiet c.effects (channel_updated (set_events enable_writing c.channel.events)) refl,
)

-- Queueing what remains.
pub record Kept (bs : List ℕ) (c d : Connection) : Type 0 where
  pub valid : IsValid d.output_buffer
  pub buffered : peek d.output_buffer ≡ peek c.output_buffer ++ bs
  pub kept_sent : sent_bytes d.effects ≡ sent_bytes c.effects
  pub asks : writing d ≡ true
  pub kept_state : d.state ≡ c.state

pub keep_remaining-Kept :
    (bs : List ℕ) (c : Connection)
    → IsValid c.output_buffer
    → c.output_buffer.writer_index + length bs < 2 ^ 63
    → Kept bs c (keep_remaining bs c)
unfolding keep_remaining
keep_remaining-Kept bs c v h =
    let d = check_high_water (length bs) c in
    let q = (check_high_water-Quiet (length bs) c).0 in
    let m = record d { output_buffer = append bs d.output_buffer } in
    let a = ask_to_write-Quiet m in
    let put = append_lem bs c.output_buffer v h in
    let same = a.0.same_output ∙ ap (append bs) q.same_output in
    record {
      valid = subst IsValid (sym same) put.0;
      buffered = ap peek same ∙ put.1;
      kept_sent = a.0.same_sent ∙ q.same_sent;
      asks = a.1;
      kept_state = a.0.same_state ∙ q.same_state;
    }

-- What `sendInLoop` loses: all of it when the direct write meets EPIPE or ECONNRESET.
abbrev pub lost : Write → Connection → Bool
lost (wrote n) c = false
lost (refused e) c = not (writing c) && (readable_bytes c.output_buffer == 0 && is_fatal e)

-- `d` is in order, and has `bs` more in its stream than `c`.
pub record Sent (bs : List ℕ) (c d : Connection) : Type 0 where
  pub inv : Inv d
  pub carried : stream d ≡ stream c ++ bs
  pub sent_state : d.state ≡ c.state

pub finish_send-Sent :
    (bs rest : List ℕ) (c d : Connection)
    → IsValid d.output_buffer
    → d.output_buffer.writer_index + length rest < 2 ^ 63
    → d.state ≡ c.state
    → (rest ≡ [] → writing d ≡ ltb 0 (readable_bytes d.output_buffer))
    → stream d ++ rest ≡ stream c ++ bs
    → Sent bs c (finish_send (d, rest, false))
finish_send-Sent bs [] c d v h e w q = record {
  inv = record { valid = v; armed = λ _. w refl };
  carried = sym (append-nil (stream d)) ∙ q;
  sent_state = e;
}
finish_send-Sent bs (x ∷ rest) c d v h e w q =
    let k = keep_remaining-Kept (x ∷ rest) d v h in
    rw (lt→ltb 0 (length (x ∷ rest)) (omega arith)) (record {
      inv = record {
        valid = k.valid;
        armed = λ _.
            k.asks
            ∙ sym (
                lt→ltb 0 (readable_bytes (keep_remaining (x ∷ rest) d).output_buffer) (
                  omega (
                    arith,
                    length-peek (keep_remaining (x ∷ rest) d).output_buffer k.valid,
                    ap length k.buffered,
                    length-append (peek d.output_buffer) (x ∷ rest),
                  )));
      };
      carried =
          ap₂ ◌++◌ k.kept_sent k.buffered
          ∙ sym (append_assoc (sent_bytes d.effects) (peek d.output_buffer) (x ∷ rest))
          ∙ q;
      sent_state = k.kept_state ∙ e;
    })
