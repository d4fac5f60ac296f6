-- ===== src/Cache/Conn.antt =====
-- `CacheConn`: the redis context behind it, `Init`, and the common course of a command.
use mathlib.Core.Option
use talk_system.Prelude.{
  ltb, ◌==◌, if◌then◌else◌, Text, ℕ, ◌+◌, Bool, false, ◌&&◌, Option, none, some, ◌∷◌,
}
use talk_system.Cache.Reply.{Reply, is_status, Command}

-- `m_pContext`: null, a context, or a pointer to a context that was freed.
pub data Context : Type 0 where
  null live dangling : Context

pub record CacheConn : Type 0 where
  pub context : Context
  pub last_connect_time : ℕ

-- The constructor.
unfoldable pub new : CacheConn
new = record { context = null; last_connect_time = 0 }

-- What the world answers during one call: the clock in seconds, whether
-- `redisConnectWithTimeout` gives a context without an error, and the server's replies, `none` for a
-- null pointer.
pub record World : Type 0 where
  pub now : ℕ
  pub connects : Bool
  pub select : Option Reply
  pub server : Command → Option Reply

abbrev pub starts_with_ok : Text → Bool
starts_with_ok (a ∷ b ∷ s) = a == b'O' && b == b'K'
starts_with_ok _ = false

-- The reply to `SELECT` that `Init` takes for a success.
abbrev pub is_ok : Option Reply → Bool
is_ok none = false
is_ok (some r) = is_status r.kind && starts_with_ok r.str

abbrev pub connect : World → CacheConn → CacheConn × ℕ
connect w c =
    if w.connects
    then (record c { context = live }, if is_ok w.select then 0 else 2)
    else (record c { context = null }, 1)

-- `Init` of a connection without a context. The sum of the `uint64_t` times does not wrap.
abbrev pub reconnect : World → CacheConn → CacheConn × ℕ
reconnect w c =
    if ltb w.now (c.last_connect_time + 4)
    then (c, 1)
    else connect w (record c { last_connect_time = w.now })

unfoldable pub init : World → CacheConn → CacheConn × ℕ
init w c = elim c.context [ null ↦ reconnect w c | live ↦ (c, 0) | dangling ↦ (c, 0) ]

-- `redisFree(m_pContext); m_pContext = NULL;`
unfoldable pub drop_context : CacheConn → CacheConn
drop_context c = record c { context = null }

-- `redisFree(m_pContext);` alone.
unfoldable pub free_context : CacheConn → CacheConn
free_context c = record c { context = dangling }

-- A call of `redisCommand`: undefined behaviour, `none`, unless the context is alive.
unfoldable pub redis_command : World → Command → CacheConn → Option (Option Reply)
redis_command w q c = elim c.context [ null ↦ none | live ↦ some (w.server q) | dangling ↦ none ]

-- What the methods of CacheConn do alike: `Init`, whose failure gives `failed`; the command; with a
-- null reply the context is given up by `give_up` and the method gives `failed`; a reply is read by
-- `read`.
module _ {ℓ} {A : Type ℓ} where
  abbrev pub settle :
      (CacheConn → CacheConn) → A → (Reply → A) → CacheConn → Option Reply → A × CacheConn
  settle give_up failed read c none = (failed, give_up c)
  settle give_up failed read c (some r) = (read r, c)

  unfoldable pub perform :
      (CacheConn → CacheConn)
      → A
      → (Reply → A)
      → World
      → Command
      → CacheConn
      → Option (A × CacheConn)
  perform give_up failed read w q c =
      let (d, code) = init w c in
      if code == 0
      then Option.map (settle give_up failed read d) (redis_command w q d)
      else some (failed, d)

-- The destructor; `none` where it frees a context that was freed before.
unfoldable pub destroy : CacheConn → Option CacheConn
destroy c = elim c.context [
  | null ↦ some c
  | live ↦ some (record c { context = null })
  | dangling ↦ none
]
