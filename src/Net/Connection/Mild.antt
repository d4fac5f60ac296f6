-- ===== src/Net/Connection/Mild.antt =====
-- What a connection has done after it announced the end of its output, and the steps that leave that
-- alone.
use talk_system.Prelude.{
  ltb, ◌==◌, if◌then◌else◌, length, take, drop, add_size, ℕ, ◌-◌, ◌≡◌, refl, sym, ap, ◌∙◌, ◌⊎◌, inl,
  inr, Bool, true, false, not, ◌&&◌, List, [], ◌∷◌, ◌++◌, append-nil, arith,
}
use talk_system.Buffer.{readable_bytes, append}
use talk_system.Net.Channel.{Request, enable_writing, set_events, enable_writing}
use talk_system.Net.Connection.{
  Connection, Effect, sent, shutdown_write, queued_write_complete, queued_high_water,
  channel_updated, connection_callback, message_callback, close_callback, channel_removed, Write,
  wrote, refused, emit, request, write_complete, is_fatal, write_directly, check_high_water,
  ask_to_write, keep_remaining, finish_send, is_disconnected, send_in_loop, writing,
}
use talk_system.Net.Connection.Stream.{effect_bytes, sent_bytes, sent_bytes-snoc}
use talk_system.Net.Connection.Life.{fins, fins-append}

-- The bytes that went to the kernel after the first announcement.
abbrev pub late : List Effect → List ℕ
late [] = []
late (shutdown_write ∷ es) = sent_bytes es
late (e ∷ es) = late es

abbrev pub is_fin : Effect → Bool
is_fin shutdown_write = true
is_fin _ = false

pub late-snoc_quiet :
    (es : List Effect) (e : Effect) → effect_bytes e ≡ [] → late (es ++ e ∷ []) ≡ late es
late-snoc_quiet [] shutdown_write h = refl
late-snoc_quiet [] (sent bs) h = refl
late-snoc_quiet [] queued_write_complete h = refl
late-snoc_quiet [] (queued_high_water n) h = refl
late-snoc_quiet [] (connection_callback s) h = refl
late-snoc_quiet [] message_callback h = refl
late-snoc_quiet [] close_callback h = refl
late-snoc_quiet [] (channel_updated m) h = refl
late-snoc_quiet [] channel_removed h = refl
late-snoc_quiet (shutdown_write ∷ es) e h =
    sent_bytes-snoc es e ∙ ap (◌++◌ (sent_bytes es)) h ∙ append-nil (sent_bytes es)
late-snoc_quiet (sent bs ∷ es) e h = late-snoc_quiet es e h
late-snoc_quiet (queued_write_complete ∷ es) e h = late-snoc_quiet es e h
late-snoc_quiet (queued_high_water n ∷ es) e h = late-snoc_quiet es e h
late-snoc_quiet (connection_callback s ∷ es) e h = late-snoc_quiet es e h
late-snoc_quiet (message_callback ∷ es) e h = late-snoc_quiet es e h
late-snoc_quiet (close_callback ∷ es) e h = late-snoc_quiet es e h
late-snoc_quiet (channel_updated m ∷ es) e h = late-snoc_quiet es e h
late-snoc_quiet (channel_removed ∷ es) e h = late-snoc_quiet es e h

pub late_none : (es : List Effect) → fins es ≡ 0 → late es ≡ []
late_none [] h = refl
late_none (e ∷ es) h = ground (arith, late_none es)

-- From `c` to `d` no end was announced, no bytes were late, and the state is the same.
pub record Mild (c d : Connection) : Type 0 where
  pub same_fins : fins d.effects ≡ fins c.effects
  pub same_late : late d.effects ≡ late c.effects
  pub same_life : d.state ≡ c.state

pub Mild-refl : (c : Connection) → Mild c c
Mild-refl c = record { same_fins = refl; same_late = refl; same_life = refl }

pub Mild-trans : {c d e : Connection} → Mild c d → Mild d e → Mild c e
Mild-trans p q = record {
  same_fins = q.same_fins ∙ p.same_fins;
  same_late = q.same_late ∙ p.same_late;
  same_life = q.same_life ∙ p.same_life;
}

-- An effect that announces no end, and carries no bytes or comes before any announcement.
pub emit-Mild :
    (e : Effect) (c : Connection)
    → is_fin e ≡ false
    → (effect_bytes e ≡ []) ⊎ (fins c.effects ≡ 0)
    → Mild c (emit e c)
unfolding emit
emit-Mild e c n h = record { same_fins = count; same_late = pick h; same_life = refl }
  where
    one : (f : Effect) → is_fin f ≡ false → fins (f ∷ []) ≡ 0
    one f k = ground arith

    count : fins (c.effects ++ e ∷ []) ≡ fins c.effects
    count = omega (arith, fins-append c.effects (e ∷ []), one e n)

    pick :
        (effect_bytes e ≡ []) ⊎ (fins c.effects ≡ 0) → late (c.effects ++ e ∷ []) ≡ late c.effects
    pick (inl q) = late-snoc_quiet c.effects e q
    pick (inr z) = late_none (c.effects ++ e ∷ []) (count ∙ z) ∙ sym (late_none c.effects z)

if-Mild : (b : Bool) (c d : Connection) → Mild c d → Mild c (if b then d else c)
if-Mild true c d m = m
if-Mild false c d m = Mild-refl c

pub request-Mild : (q : Request) (c : Connection) → Mild c (request q c)
unfolding request
request-Mild q c =
    let m =
      emit-Mild (channel_updated (set_events q c.channel.events))
        (record c { channel = record c.channel { events = set_events q c.channel.events } }) refl
        (inl refl) in
    record { same_fins = m.same_fins; same_late = m.same_late; same_life = m.same_life }

pub write_complete-Mild : (c : Connection) → Mild c (write_complete c)
unfolding write_complete
write_complete-Mild c =
    if-Mild c.has_write_complete c _ (emit-Mild queued_write_complete c refl (inl refl))

check_high_water-Mild : (n : ℕ) (c : Connection) → Mild c (check_high_water n c)
unfolding check_high_water
check_high_water-Mild n c =
    if-Mild _ c _ (
      emit-Mild (queued_high_water (add_size (readable_bytes c.output_buffer) n)) c refl (inl refl))

ask_to_write-Mild : (c : Connection) → Mild c (ask_to_write c)
unfolding ask_to_write
ask_to_write-Mild c = pick (writing c)
  where
    pick : (b : Bool) → Mild c (if b then c else request enable_writing c)
    pick true = Mild-refl c
    pick false = request-Mild enable_writing c

keep_remaining-Mild : (bs : List ℕ) (c : Connection) → Mild c (keep_remaining bs c)
unfolding keep_remaining
keep_remaining-Mild bs c =
    let d = check_high_water (length bs) c in
    let m = check_high_water-Mild (length bs) c in
    let a = ask_to_write-Mild (record d { output_buffer = append bs d.output_buffer }) in
    record {
      same_fins = a.same_fins ∙ m.same_fins;
      same_late = a.same_late ∙ m.same_late;
      same_life = a.same_life ∙ m.same_life;
    }

finish_send-Mild : (c : Connection) (bs : List ℕ) (b : Bool) → Mild c (finish_send (c, bs, b))
finish_send-Mild c bs b = pick (not b && ltb 0 (length bs))
  where
    pick : (t : Bool) → Mild c (if t then keep_remaining bs c else c)
    pick true = keep_remaining-Mild bs c
    pick false = Mild-refl c

write_directly-Mild :
    (bs : List ℕ) (w : Write) (c : Connection)
    → fins c.effects ≡ 0
    → Mild c (finish_send (write_directly bs w c))
unfolding write_directly
write_directly-Mild bs (refused e) c z = finish_send-Mild c bs (is_fatal e)
write_directly-Mild bs (wrote n) c z =
    Mild-trans (pick (length bs - n == 0)) (finish_send-Mild _ (drop n bs) false)
  where
    c' : Connection
    c' = emit (sent (take n bs)) c

    m : Mild c c'
    m = emit-Mild (sent (take n bs)) c refl (inr z)

    pick : (b : Bool) → Mild c (if b then write_complete c' else c')
    pick true = Mild-trans m (write_complete-Mild c')
    pick false = m

-- Before any announcement, `sendInLoop` announces nothing.
pub send_in_loop-Mild :
    (bs : List ℕ) (w : Write) (c : Connection) → fins c.effects ≡ 0 → Mild c (send_in_loop bs w c)
unfolding send_in_loop
send_in_loop-Mild bs w c z =
    pick (is_disconnected c.state) (not (writing c) && readable_bytes c.output_buffer == 0)
  where
    pick :
        (d b : Bool)
        → Mild c
            (if d then c else finish_send (if b then write_directly bs w c else (c, bs, false)))
    pick true b = Mild-refl c
    pick false true = write_directly-Mild bs w c z
    pick false false = finish_send-Mild c bs false
