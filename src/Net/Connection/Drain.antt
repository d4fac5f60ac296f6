-- ===== src/Net/Connection/Drain.antt =====
-- `handleWrite` and `shutdown`: the output buffer is emptied in order, and the end of the stream is
-- announced once nothing waits.
use talk_system.Prelude.{
  ◌==◌, if◌then◌else◌, lt→ltb, le→ltb, ==_iff, take, drop, take-append-drop, ℕ, zero, suc, ◌≡◌,
  refl, sym, ap, ap₂, ◌∙◌, subst, Bool, true, false, [], ◌++◌, append_assoc, arith,
}
use talk_system.Buffer.{retrieve, readable_bytes, peek}
use talk_system.Buffer.Contents.{IsValid, retrieve_lem}
use talk_system.Net.Channel.{set_events, is_writing, disable_writing, Request, Channel}
use talk_system.Net.Connection.{
  Connection, Effect, channel_updated, Write, emit, request, writing, drained, handle_write, sent,
  queued_write_complete, shutdown_write, wrote, refused, write_complete, is_disconnecting,
  shutdown_in_loop, wrote_out,
}
use talk_system.Net.Connection.Stream.{
  Inv, stream, sent_bytes, sent_bytes-snoc, sent_bytes-quiet, Quiet, effect_bytes,
}

Quiet-trans : {c d e : Connection} → Quiet c d → Quiet d e → Quiet c e
Quiet-trans p q = record {
  same_output = q.same_output ∙ p.same_output;
  same_sent = q.same_sent ∙ p.same_sent;
  same_state = q.same_state ∙ p.same_state;
}

emit-Quiet : (e : Effect) (c : Connection) → effect_bytes e ≡ [] → Quiet c (emit e c)
unfolding emit
emit-Quiet e c h = record {
  same_output = refl;
  same_sent = sent_bytes-quiet c.effects e h;
  same_state = refl;
}

request-Quiet : (q : Request) (c : Connection) → Quiet c (request q c)
unfolding request emit
request-Quiet q c = record {
  same_output = refl;
  same_sent = sent_bytes-quiet c.effects (channel_updated (set_events q c.channel.events)) refl;
  same_state = refl;
}

if_Quiet : (b : Bool) (c d : Connection) → Quiet c d → Quiet c (if b then d else c)
if_Quiet true c d q = q
if_Quiet false c d q = record { same_output = refl; same_sent = refl; same_state = refl }

write_complete-Quiet :
    (c : Connection) → Quiet c (write_complete c) × ((write_complete c).channel ≡ c.channel)
unfolding write_complete
write_complete-Quiet c =
    (if_Quiet c.has_write_complete c _ (emit-Quiet queued_write_complete c refl), channel)
  where
    channel : (write_complete c).channel ≡ c.channel
    channel = unfold write_complete emit in ground arith

pub shutdown_in_loop-Quiet :
    (c : Connection) → Quiet c (shutdown_in_loop c) × ((shutdown_in_loop c).channel ≡ c.channel)
unfolding shutdown_in_loop
shutdown_in_loop-Quiet c = pick (writing c)
  where
    pick :
        (b : Bool)
        → Quiet c (if b then c else emit shutdown_write c)
          × ((if b then c else emit shutdown_write c).channel ≡ c.channel)
    pick true = (record { same_output = refl; same_sent = refl; same_state = refl }, refl)
    pick false = (emit-Quiet shutdown_write c refl, unfold emit in refl)

pub drained-Quiet : (c : Connection) → Quiet c (drained c) × (writing (drained c) ≡ false)
unfolding drained
drained-Quiet c = pick (is_disconnecting d.state)
  where
    r : Connection
    r = request disable_writing c

    d : Connection
    d = write_complete r

    q : Quiet c d
    q = Quiet-trans (request-Quiet disable_writing c) (write_complete-Quiet r).0

    stops : (e : Connection) → e.channel ≡ d.channel → writing e ≡ false
    stops e h =
        ap (λ (k : Channel). is_writing k.events) (h ∙ (write_complete-Quiet r).1)
        ∙ unfold request emit set_events is_writing in refl

    pick :
        (b : Bool)
        → Quiet c (if b then shutdown_in_loop d else d)
          × (writing (if b then shutdown_in_loop d else d) ≡ false)
    pick true = (
      Quiet-trans q (shutdown_in_loop-Quiet d).0,
      stops (shutdown_in_loop d) (shutdown_in_loop-Quiet d).1,
    )
    pick false = (q, stops d refl)

-- `d` has sent more of the same stream, and is in order.
pub record Flushed (c d : Connection) : Type 0 where
  pub inv : Inv d
  pub kept : stream d ≡ stream c
  pub flushed_state : d.state ≡ c.state

module _ (c : Connection) (v : Inv c) where
  Flushed-refl : Flushed c c
  Flushed-refl = record { inv = v; kept = refl; flushed_state = refl }

  -- The connection just after a write of `n` bytes.
  after_write : ℕ → Connection
  after_write n =
      emit (sent (take n (peek c.output_buffer)))
        (record c { output_buffer = retrieve n c.output_buffer })

  stream-after_write : (n : ℕ) → stream (after_write n) ≡ stream c
  unfolding after_write emit
  stream-after_write n =
      ap₂ ◌++◌ (sent_bytes-snoc c.effects (sent (take n (peek c.output_buffer))))
        (retrieve_lem n c.output_buffer v.valid).1
      ∙ append_assoc (sent_bytes c.effects) (take n (peek c.output_buffer))
          (drop n (peek c.output_buffer))
      ∙ ap (◌++◌ (sent_bytes c.effects)) (take-append-drop n (peek c.output_buffer))

  wrote_out-Flushed : (n : ℕ) → writing c ≡ true → Flushed c (wrote_out n c)
  unfolding wrote_out after_write emit
  wrote_out-Flushed zero w = Flushed-refl
  wrote_out-Flushed (suc n) w = pick (readable_bytes (after_write (suc n)).output_buffer == 0) refl
    where
      d : Connection
      d = after_write (suc n)

      valid : IsValid d.output_buffer
      valid = (retrieve_lem (suc n) c.output_buffer v.valid).0

      same : Quiet d (drained d) × (writing (drained d) ≡ false)
      same = drained-Quiet d

      pick :
          (b : Bool)
          → (readable_bytes d.output_buffer == 0) ≡ b
          → Flushed c (if b then drained d else d)
      pick true e = record {
        inv = record {
          valid = subst IsValid (sym same.0.same_output) valid;
          armed = λ _.
              same.1
              ∙ sym (
                  le→ltb 0 _ (
                    omega (
                      arith,
                      ap readable_bytes same.0.same_output,
                      (==_iff (readable_bytes d.output_buffer) 0).0 e,
                    )));
        };
        kept = ap₂ ◌++◌ same.0.same_sent (ap peek same.0.same_output) ∙ stream-after_write (suc n);
        flushed_state = same.0.same_state ∙ refl;
      }
      pick false e = record {
        inv = record { valid = valid; armed = λ _. (w) ∙ sym (lt→ltb 0 _ (ground arith)) };
        kept = stream-after_write (suc n);
        flushed_state = refl;
      }

  -- `handleWrite` moves bytes from the front of the output buffer to the kernel: the stream stays
  -- what it was, and the channel goes on asking to write exactly while bytes wait.
  pub handle_write-Flushed : (w : Write) → Flushed c (handle_write w c)
  unfolding handle_write
  handle_write-Flushed (wrote n) = pick (writing c) refl
    where
      pick : (b : Bool) → writing c ≡ b → Flushed c (if b then wrote_out n c else c)
      pick true e = wrote_out-Flushed n e
      pick false e = Flushed-refl
  handle_write-Flushed (refused e) = Flushed-refl
