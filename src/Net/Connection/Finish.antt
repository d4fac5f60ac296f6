-- ===== src/Net/Connection/Finish.antt =====
-- The end of the output, and what each operation does to it.
use talk_system.Prelude.{
  ltb, ◌==◌, if◌then◌else◌, take, ℕ, zero, suc, ◌≡◌, refl, sym, ap, ◌∙◌, subst, inr, Bool, true,
  false, ◌&&◌, List, [], ◌∷◌, arith,
}
use talk_system.Buffer.{readable_bytes, retrieve, peek}
use talk_system.Net.Channel.{disable_writing, set_events, is_writing}
use talk_system.Net.Connection.{
  Connection, k_connected, k_disconnecting, sent, shutdown_write, Write, wrote, refused, emit,
  request, write_complete, set_state, writing, is_connected, is_disconnected, is_disconnecting,
  send_in_loop, shutdown, shutdown_in_loop, drained, wrote_out, handle_write,
}
use talk_system.Net.Connection.Stream.{Inv}
use talk_system.Net.Connection.Drain.{drained-Quiet}
use talk_system.Net.Connection.Life.{fins, fins-append}
use talk_system.Net.Connection.Mild.{
  late, Mild, Mild-trans, emit-Mild, request-Mild, write_complete-Mild, send_in_loop-Mild,
  late-snoc_quiet,
}

-- Whether everything that was sent before a shutdown is out.
abbrev pub is_over : Connection → Bool
is_over c = is_disconnecting c.state && readable_bytes c.output_buffer == 0

-- The end is announced once if that is so, and else not at all; nothing was sent behind it.
pub record IsFinished (c : Connection) : Type 0 where
  pub counted : fins c.effects ≡ (if is_over c then 1 else 0)
  pub none_late : late c.effects ≡ []

writing-drained : (c : Connection) → writing (write_complete (request disable_writing c)) ≡ false
unfolding write_complete request emit set_events is_writing
writing-drained c = ground arith

announce_lem :
    (c : Connection)
    → writing c ≡ false
    → (fins (shutdown_in_loop c).effects ≡ suc (fins c.effects))
      × (late (shutdown_in_loop c).effects ≡ late c.effects)
unfolding shutdown_in_loop emit
announce_lem c w =
    rw (w, if◌then◌else◌)
      (
        omega (arith, fins-append c.effects (shutdown_write ∷ [])),
        late-snoc_quiet c.effects shutdown_write refl,
      )

and_true : (b : Bool) → (b && true) ≡ b
and_true b = ground arith

and_false : (b : Bool) → ◌≡◌ {A = ℕ} (if b && false then 1 else 0) 0
and_false b = ground arith

-- After the write that empties the buffer.
drained_lem :
    (c : Connection)
    → fins c.effects ≡ 0
    → late c.effects ≡ []
    → (fins (drained c).effects ≡ (if is_disconnecting c.state then 1 else 0))
      × (late (drained c).effects ≡ [])
unfolding drained
drained_lem c z l = pick (is_disconnecting d.state) (ap is_disconnecting m.same_life)
  where
    d : Connection
    d = write_complete (request disable_writing c)

    m : Mild c d
    m =
        Mild-trans (request-Mild disable_writing c)
          (write_complete-Mild (request disable_writing c))

    pick :
        (b : Bool)
        → b ≡ is_disconnecting c.state
        → (fins (if b then shutdown_in_loop d else d).effects
            ≡ (if is_disconnecting c.state then 1 else 0))
          × (late (if b then shutdown_in_loop d else d).effects ≡ [])
    pick true e =
        let a = announce_lem d (writing-drained c) in
        (a.0 ∙ ap suc (m.same_fins ∙ z) ∙ rw (← e) refl, a.1 ∙ m.same_late ∙ l)
    pick false e = (m.same_fins ∙ z ∙ rw (← e) refl, m.same_late ∙ l)

module _ (c : Connection) (v : Inv c) (f : IsFinished c)
    (alive : is_disconnected c.state ≡ false) where
  -- While the channel asks to write, bytes wait, so nothing is over.
  not_over : writing c ≡ true → fins c.effects ≡ 0
  not_over w = ground (arith, v.armed alive, f.counted)

  -- The connection just after a write of `n` bytes.
  after : ℕ → Connection
  after n =
      emit (sent (take n (peek c.output_buffer)))
        (record c { output_buffer = retrieve n c.output_buffer })

  wrote_out-IsFinished : (n : ℕ) → writing c ≡ true → IsFinished (wrote_out n c)
  unfolding wrote_out after
  wrote_out-IsFinished zero w = f
  wrote_out-IsFinished (suc n) w = pick (readable_bytes d.output_buffer == 0) refl
    where
      d : Connection
      d = after (suc n)

      z : fins c.effects ≡ 0
      z = not_over w

      m : Mild c d
      m =
          let k =
            emit-Mild (sent (take (suc n) (peek c.output_buffer)))
              (record c { output_buffer = retrieve (suc n) c.output_buffer }) refl (inr z) in
          record { same_fins = k.same_fins; same_late = k.same_late; same_life = k.same_life }

      l : late d.effects ≡ []
      l = m.same_late ∙ f.none_late

      pick :
          (b : Bool)
          → (readable_bytes d.output_buffer == 0) ≡ b
          → IsFinished (if b then drained d else d)
      pick true e =
          let q = (drained-Quiet d).0 in
          let r = drained_lem d (m.same_fins ∙ z) l in
          record {
            counted =
                r.0
                ∙ ap (λ b. if b then 1 else 0)
                    (sym (
                      ap (λ s. is_disconnecting s && readable_bytes (drained d).output_buffer == 0)
                        q.same_state
                      ∙ ap (λ o. is_disconnecting d.state && readable_bytes o == 0) q.same_output
                      ∙ ap (λ b. is_disconnecting d.state && b) e
                      ∙ and_true (is_disconnecting d.state)));
            none_late = r.1;
          }
      pick false e = record {
        counted =
            m.same_fins
            ∙ z
            ∙ sym (
                ap (λ b. if is_disconnecting d.state && b then 1 else 0) e
                ∙ and_false (is_disconnecting d.state));
        none_late = l;
      }

  pub handle_write-IsFinished : (w : Write) → IsFinished (handle_write w c)
  unfolding handle_write
  handle_write-IsFinished (refused e) = f
  handle_write-IsFinished (wrote n) = pick (writing c) refl
    where
      pick : (b : Bool) → writing c ≡ b → IsFinished (if b then wrote_out n c else c)
      pick true e = wrote_out-IsFinished n e
      pick false e = f

pub send-IsFinished :
    (bs : List ℕ) (w : Write) (c : Connection)
    → IsFinished c
    → c.state ≡ k_connected
    → IsFinished (send_in_loop bs w c)
send-IsFinished bs w c f up =
    let z =
      f.counted
      ∙ ap (λ s. if is_disconnecting s && readable_bytes c.output_buffer == 0 then 1 else 0) up in
    let m = send_in_loop-Mild bs w c z in
    record {
      counted =
          m.same_fins
          ∙ z
          ∙ sym (
              ap
                (λ s.
                  if is_disconnecting s && readable_bytes (send_in_loop bs w c).output_buffer == 0
                  then 1
                  else 0)
                (m.same_life ∙ up));
      none_late = m.same_late ∙ f.none_late;
    }

hold_lem : (c : Connection) → writing c ≡ true → shutdown_in_loop c ≡ c
unfolding shutdown_in_loop
hold_lem c w = rw (w, if◌then◌else◌) refl

pub shutdown-IsFinished :
    (c : Connection) → Inv c → IsFinished c → c.state ≡ k_connected → IsFinished (shutdown c)
unfolding shutdown set_state
shutdown-IsFinished c v f up = rw (ap is_connected up, if◌then◌else◌) (pick (writing c) refl)
  where
    c' : Connection
    c' = set_state k_disconnecting c

    z : fins c.effects ≡ 0
    z =
        f.counted
        ∙ ap (λ s. if is_disconnecting s && readable_bytes c.output_buffer == 0 then 1 else 0) up

    asks : writing c ≡ ltb 0 (readable_bytes c.output_buffer)
    asks = v.armed (ap is_disconnected up)

    pick : (b : Bool) → writing c ≡ b → IsFinished (shutdown_in_loop c')
    pick true w =
        subst IsFinished (sym (hold_lem c' w))
          (record { counted = z ∙ ground (arith, asks, w); none_late = f.none_late })
    pick false w =
        let a = announce_lem c' w in
        record { counted = a.0 ∙ ap suc z ∙ over w; none_late = a.1 ∙ f.none_late }
      where
        over : writing c ≡ false → ◌≡◌ {A = ℕ} 1 (if is_over (shutdown_in_loop c') then 1 else 0)
        over w = unfold shutdown_in_loop emit in ground (arith, asks, w)
