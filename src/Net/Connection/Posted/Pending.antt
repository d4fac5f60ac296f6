-- ===== src/Net/Connection/Posted/Pending.antt =====
-- The bytes that wait in the queue of a connection's loop, and in the calls midway, for
-- common/net/TcpConnection.cc.
use talk_system.Prelude.{
  ltb, length, get_elem?, ℕ, zero, suc, ◌+◌, ◌≡◌, refl, sym, ap, ap₂, ◌∙◌, subst, some, List, [],
  ◌∷◌, ◌++◌, append_assoc, arith,
}
use talk_system.Buffer.{readable_bytes, peek}
use talk_system.Net.Channel.{Channel, is_writing}
use talk_system.Net.Connection.{Connection, is_disconnected}
use talk_system.Net.Connection.Stream.{Inv, stream, sent_bytes, Quiet}
use talk_system.Buffer.Contents.{IsValid}
use talk_system.Net.Connection.Posted.{
  Post, send_job, shutdown_job, Midway, Memory, drop_at, pending, midway_bytes, midway_size,
  KeepsPosts, KeepsMidway,
}

pub pending-append :
    (m : Memory) (ps qs : List Post) → pending m (ps ++ qs) ≡ pending m ps ++ pending m qs
pending-append m [] qs = refl
pending-append m (send_job a n ∷ ps) qs =
    ap (◌++◌ (m a n)) (pending-append m ps qs)
    ∙ sym (append_assoc (m a n) (pending m ps) (pending m qs))
pending-append m (shutdown_job ∷ ps) qs = pending-append m ps qs

pub pending-keeps :
    (m m' : Memory) (ps : List Post) → KeepsPosts m m' ps → pending m' ps ≡ pending m ps
pending-keeps m m' [] k = refl
pending-keeps m m' (send_job a n ∷ ps) k = ap₂ (λ x y. x ++ y) k.0 (pending-keeps m m' ps k.1)
pending-keeps m m' (shutdown_job ∷ ps) k = pending-keeps m m' ps k

pub midway_size-keeps :
    (m m' : Memory) (ms : List Midway) → KeepsMidway m m' ms → midway_size m' ms ≡ midway_size m ms
midway_size-keeps m m' [] k = refl
midway_size-keeps m m' (x ∷ ms) k = ap₂ (λ bs n. length bs + n) k.0 (midway_size-keeps m m' ms k.1)

pub midway_size-append :
    (m : Memory) (ms : List Midway) (x : Midway)
    → midway_size m (ms ++ x ∷ []) ≡ midway_size m ms + length (midway_bytes m x)
midway_size-append m [] x = omega arith
midway_size-append m (y ∷ ms) x = omega (arith, midway_size-append m ms x)

pub midway_size-drop_at :
    (m : Memory) (ms : List Midway) (i : ℕ) (x : Midway)
    → get_elem? ms i ≡ some x
    → midway_size m (drop_at ms i) + length (midway_bytes m x) ≡ midway_size m ms
midway_size-drop_at m [] i x e = cc
midway_size-drop_at m (y ∷ ms) zero x e =
    let same : y ≡ x = cc in omega (arith, ap (λ z. length (midway_bytes m z)) same)
midway_size-drop_at m (y ∷ ms) (suc i) x e = omega (arith, midway_size-drop_at m ms i x e)

pub Quiet-Inv :
    (c d : Connection) → Quiet c d → d.channel ≡ c.channel → Inv c → Inv d × (stream d ≡ stream c)
Quiet-Inv c d q e v = (
  record {
    valid = subst IsValid (sym q.same_output) v.valid;
    armed = λ h.
        ap (λ (x : Channel). is_writing x.events) e
        ∙ v.armed (ap is_disconnected (sym q.same_state) ∙ h)
        ∙ ap (λ o. ltb 0 (readable_bytes o)) (sym q.same_output);
  },
  ap (λ t. t ++ peek d.output_buffer) q.same_sent
      ∙ ap (λ o. sent_bytes c.effects ++ peek o) q.same_output,
)
