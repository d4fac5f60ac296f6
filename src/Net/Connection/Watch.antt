-- ===== src/Net/Connection/Watch.antt =====
-- What the updates and the removal that a connection of common/net/TcpConnection.cc asks for make of its
-- channel in the poller: the index that common/net/EPollPoller.cc gives it, and its events.
use talk_system.Prelude.{◌≡◌, refl, ap, ◌∙◌, false, List, [], ◌∷◌, ◌++◌}
use talk_system.Net.Channel.{Events, Index, k_new, k_added, k_none_event, is_none_event}
use talk_system.Net.Connection.{Connection, Effect, channel_updated, channel_removed}
use talk_system.Net.Poller.Requests.{index_after}

abbrev pub Watch : Type 0
Watch = Index × Events

abbrev pub after_effect : Effect → Watch → Watch
after_effect (channel_updated e) (i, old) = (index_after i (is_none_event e), e)
after_effect channel_removed (i, e) = (k_new, e)
after_effect _ w = w

abbrev pub trace_from : Watch → List Effect → Watch
trace_from w [] = w
trace_from w (e ∷ es) = trace_from (after_effect e w) es

abbrev pub trace : List Effect → Watch
trace es = trace_from (k_new, k_none_event) es

pub trace_from-snoc :
    (w : Watch) (es : List Effect) (e : Effect)
    → trace_from w (es ++ e ∷ []) ≡ after_effect e (trace_from w es)
trace_from-snoc w [] e = refl
trace_from-snoc w (d ∷ es) e = trace_from-snoc (after_effect d w) es e

-- The channel is watched for the events that the connection's own copy has.
abbrev pub Follows : Connection → Type 0
Follows c = trace c.effects ≡ (k_added, c.channel.events)

-- An update to events that are not none.
pub update-Follows :
    (es : List Effect) (old e : Events)
    → is_none_event e ≡ false
    → trace es ≡ (k_added, old)
    → trace (es ++ channel_updated e ∷ []) ≡ (k_added, e)
update-Follows es old e n f =
    trace_from-snoc (k_new, k_none_event) es (channel_updated e)
    ∙ ap (after_effect (channel_updated e)) f
    ∙ ap (λ b. (index_after k_added b, e)) n

-- An effect that is no call of the poller's.
pub trace-quiet :
    (es : List Effect) (e : Effect)
    → ((w : Watch) → after_effect e w ≡ w)
    → trace (es ++ e ∷ []) ≡ trace es
trace-quiet es e u = trace_from-snoc (k_new, k_none_event) es e ∙ u (trace es)

-- One that is, behind a known trace.
pub trace-call :
    (es : List Effect) (e : Effect) (w : Watch)
    → trace es ≡ w
    → trace (es ++ e ∷ []) ≡ after_effect e w
trace-call es e w h = trace_from-snoc (k_new, k_none_event) es e ∙ ap (after_effect e) h
