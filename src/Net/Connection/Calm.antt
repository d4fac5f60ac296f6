-- ===== src/Net/Connection/Calm.antt =====
-- Sending, writing and shutting down leave the life of a connection alone: they run no callback of it,
-- and its channel goes on asking for input.
pub mod Acts
use talk_system.Prelude.{
  if◌then◌else◌, add_size, ℕ, ◌≡◌, refl, ap, ◌∙◌, Bool, true, false, List, [], ◌∷◌, ◌++◌,
  append-nil, arith,
}
use talk_system.Buffer.{readable_bytes, append, retrieve, peek}
use talk_system.Net.Channel.{
  Events, k_new, k_none_event, is_none_event, enable_writing, disable_writing, set_events,
}
use talk_system.Net.Connection.{
  Connection, State, k_disconnected, k_connecting, k_connected, k_disconnecting, Effect, sent,
  shutdown_write, queued_write_complete, queued_high_water, channel_updated, connection_callback,
  close_callback, channel_removed, Write, wrote, refused, emit, set_state, request, write_complete,
  is_fatal, write_directly, check_high_water, ask_to_write, keep_remaining, finish_send,
  is_connected, is_disconnected, is_disconnecting, send, send_in_loop, writing, shutdown,
  shutdown_in_loop, drained, wrote_out, handle_write,
}
use talk_system.Net.Connection.Watch.{
  Watch, after_effect, trace, trace_from-snoc, Follows, update-Follows,
}
use talk_system.Net.Connection.Trace.{Act, sends, writes, shuts, act}

abbrev pub is_life : Effect → Bool
is_life (connection_callback s) = true
is_life close_callback = true
is_life channel_removed = true
is_life _ = false

-- What the user, the server and the poller hear of a connection's life, in order.
abbrev pub life_of : List Effect → List Effect
life_of [] = []
life_of (e ∷ es) = let rest = life_of es in if is_life e then e ∷ rest else rest

pub life_of-append : (es ds : List Effect) → life_of (es ++ ds) ≡ life_of es ++ life_of ds
life_of-append [] ds = refl
life_of-append (e ∷ es) ds = pick (is_life e) (life_of-append es ds)
  where
    pick :
        (b : Bool)
        → life_of (es ++ ds) ≡ life_of es ++ life_of ds
        → (if b then e ∷ life_of (es ++ ds) else life_of (es ++ ds))
          ≡ (if b then e ∷ life_of es else life_of es) ++ life_of ds
    pick true ih = ap (◌∷◌ e) ih
    pick false ih = ih

abbrev pub is_up : State → Bool
is_up k_connected = true
is_up k_disconnecting = true
is_up _ = false

pub record Calm (c d : Connection) : Type 0 where
  pub same_life : life_of d.effects ≡ life_of c.effects
  pub same_input : d.channel.events.epollin ≡ c.channel.events.epollin
  pub same_up : is_up d.state ≡ is_up c.state
  -- The poller goes on watching the channel for just the events that it asks for.
  pub same_watch : c.channel.events.epollin ≡ true → Follows c → Follows d

pub Calm-refl : (c : Connection) → Calm c c
Calm-refl c = record { same_life = refl; same_input = refl; same_up = refl; same_watch = λ h f. f }

pub Calm-trans : {c d e : Connection} → Calm c d → Calm d e → Calm c e
Calm-trans p q = record {
  same_life = q.same_life ∙ p.same_life;
  same_input = q.same_input ∙ p.same_input;
  same_up = q.same_up ∙ p.same_up;
  same_watch = λ h f. q.same_watch (p.same_input ∙ h) (p.same_watch h f);
}

emit-life :
    (e : Effect) (c : Connection)
    → is_life e ≡ false
    → life_of (emit e c).effects ≡ life_of c.effects
unfolding emit
emit-life e c n =
    life_of-append c.effects (e ∷ [])
    ∙ ap (λ b. life_of c.effects ++ (if b then e ∷ [] else [])) n
    ∙ append-nil (life_of c.effects)

pub emit-Calm :
    (e : Effect) (c : Connection)
    → is_life e ≡ false
    → ((w : Watch) → after_effect e w ≡ w)
    → Calm c (emit e c)
unfolding emit
emit-Calm e c n u = record {
  same_life = emit-life e c n;
  same_input = refl;
  same_up = refl;
  same_watch = λ h f. trace_from-snoc (k_new, k_none_event) c.effects e ∙ u (trace c.effects) ∙ f;
}

pub if-Calm : (b : Bool) (c d e : Connection) → Calm c d → Calm c e → Calm c (if b then d else e)
if-Calm true c d e p q = p
if-Calm false c d e p q = q

not_none_out : (e : Events) → e.epollout ≡ true → is_none_event e ≡ false
unfolding is_none_event
not_none_out e h = ground arith

not_none_in : (e : Events) → e.epollin ≡ true → is_none_event e ≡ false
unfolding is_none_event
not_none_in e h = ground arith

pub ask-Calm : (c : Connection) → Calm c (request enable_writing c)
unfolding request set_events emit
ask-Calm c =
    let e = set_events enable_writing c.channel.events in
    record {
      same_life = emit-life (channel_updated e) c refl;
      same_input = refl;
      same_up = refl;
      same_watch = λ h f. update-Follows c.effects c.channel.events e (not_none_out e refl) f;
    }

pub unask-Calm : (c : Connection) → Calm c (request disable_writing c)
unfolding request set_events emit
unask-Calm c =
    let e = set_events disable_writing c.channel.events in
    record {
      same_life = emit-life (channel_updated e) c refl;
      same_input = refl;
      same_up = refl;
      same_watch = λ h f. update-Follows c.effects c.channel.events e (not_none_in e h) f;
    }

pub write_complete-Calm : (c : Connection) → Calm c (write_complete c)
unfolding write_complete
write_complete-Calm c =
    if-Calm c.has_write_complete c _ c (emit-Calm queued_write_complete c refl (λ w. refl))
      (Calm-refl c)

pub check_high_water-Calm : (n : ℕ) (c : Connection) → Calm c (check_high_water n c)
unfolding check_high_water
check_high_water-Calm n c =
    if-Calm _ c _ c
      (emit-Calm (queued_high_water (add_size (readable_bytes c.output_buffer) n)) c refl
        (λ w. refl))
      (Calm-refl c)
