-- ===== src/Net/Acceptor/Listens.antt =====
-- common/net/Acceptor.cc with common/net/Socket.cc: the listening socket, from its creation to the
-- destructor, and its channel in the poller of the base loop. The kernel's answers are arguments. A
-- channel's address is its descriptor here.
use talk_system.Prelude.{
  if◌then◌else◌, ◌>>=◌, ℕ, ◌≡◌, refl, sym, ap, ap₂, ◌∙◌, Bool, true, false, ◌&&◌, Option, none,
  some, List, [], ◌∷◌, ◌++◌,
}
use talk_system.Net.Channel
use talk_system.Net.Channel.{
  Channel, Events, Request, enable_reading, set_events, is_none_event, k_none_event, new,
}
use talk_system.Net.Poller
use talk_system.Net.Poller.{Epoll, request}
use talk_system.Net.Poller.Table.{expected}
use talk_system.Net.Poller.Requests.{index_after}
use talk_system.Net.Poller.Tidy.{
  >>=_some, ask_all, take_out, Tidy, request-Tidy, ask_all-Tidy, take_out-Tidy,
}

-- The system calls on a socket.
pub data Call : Type 0 where
  reuse_addr reuse_port keep_alive tcp_no_delay : Bool → Call
  binds : Call
  listens : ℕ → Call
  shuts_write : Call
  closes : Call

-- `Socket`, with the calls made so far.
pub record Socket : Type 0 where
  pub sockfd : ℕ
  pub calls : List Call

unfoldable pub call : Call → Socket → Socket
call c s = record s { calls = s.calls ++ c ∷ [] }

unfoldable pub set_reuse_addr : Bool → Socket → Socket
set_reuse_addr on s = call (reuse_addr on) s

unfoldable pub set_reuse_port : Bool → Socket → Socket
set_reuse_port on s = call (reuse_port on) s

unfoldable pub set_keep_alive : Bool → Socket → Socket
set_keep_alive on s = call (keep_alive on) s

unfoldable pub set_tcp_no_delay : Bool → Socket → Socket
set_tcp_no_delay on s = call (tcp_no_delay on) s

-- A failure is logged and no more.
unfoldable pub shutdown_write : Socket → Socket
shutdown_write s = call shuts_write s

-- LOG_FATAL where they fail: none.
unfoldable pub bind_address : Bool → Socket → Option Socket
bind_address ok s = if ok then some (call binds s) else none

unfoldable pub listen : Bool → Socket → Option Socket
listen ok s = if ok then some (call (listens 1024) s) else none

unfoldable pub destroy : Socket → Socket
destroy s = call closes s

-- `createNonblocking`.
unfoldable pub create_nonblocking : Option ℕ → Option Socket
create_nonblocking none = none
create_nonblocking (some fd) = some (record { sockfd = fd; calls = [] })

module _ (k : Epoll) where
  pub record Acceptor : Type 0 where
    pub accept_socket : Socket
    pub listenning : Bool
    pub poller : Poller.Poller k

  -- The constructor, where `bind` succeeds or not.
  unfoldable pub construct : Option ℕ → Bool → Bool → Poller.Poller k → Option Acceptor
  construct fd bind_ok reuseport p = do
    s ← create_nonblocking fd
    t ← bind_address bind_ok (set_reuse_port true (set_reuse_addr true s))
    some (record { accept_socket = t; listenning = false; poller = p })

  -- `listen`.
  unfoldable pub start_listening : Bool → Acceptor → Option Acceptor
  start_listening listen_ok a = do
    s ← listen listen_ok a.accept_socket
    p ← Poller.request k enable_reading a.accept_socket.sockfd a.poller
    some (record { accept_socket = s; listenning = true; poller = p })

  -- The destructor, and then that of `acceptSocket_`.
  unfoldable pub destruct : Acceptor → Option Acceptor
  destruct a = do
    p ← take_out k a.accept_socket.sockfd a.poller
    some (record a { accept_socket = destroy a.accept_socket; poller = p })

  -- From the constructor to the destructor, with requests of any channels after `listen`: the acceptor
  -- when it listens, and when it is destroyed.
  unfoldable pub life :
      Option ℕ
      → Bool
      → Bool
      → Bool
      → List (Request × ℕ)
      → Poller.Poller k
      → Option (Acceptor × Acceptor)
  life fd bind_ok reuseport listen_ok after p = do
    a ← construct fd bind_ok reuseport p
    l ← start_listening listen_ok a
    r ← ask_all k after l.poller
    d ← destruct (record l { poller = r })
    some (l, d)

  -- In a poller in order whose channel for the socket is new: a failure of `bind` or `listen` ends the
  -- process, and else the channel is watched for input once the acceptor listens, and not any more
  -- after the destructor, whatever the channels ask for in between; the socket is closed once, at the
  -- end; and the calls on the socket are the same for both values of `reuseport`.
  pub life_lem :
      (fd : ℕ) (bind_ok reuseport listen_ok : Bool) (after : List (Request × ℕ))
      (p : Poller.Poller k)
      → Tidy k p
      → p.channel fd ≡ Channel.new fd
      → (l : Acceptor) × (d : Acceptor) × (life (some fd) bind_ok reuseport listen_ok after p
          ≡ (if bind_ok && listen_ok then some (l, d) else none))
        × (k.registered l.poller.epoll fd ≡ some (set_events enable_reading k_none_event))
        × (l.accept_socket.calls ≡ reuse_addr true ∷ reuse_port true ∷ binds ∷ listens 1024 ∷ [])
        × (k.registered d.poller.epoll fd ≡ none)
        × (d.accept_socket.calls ≡ l.accept_socket.calls ++ closes ∷ [])
  unfolding life construct start_listening destruct create_nonblocking bind_address listen
      set_reuse_addr set_reuse_port call destroy Channel.new is_none_event set_events
  life_lem fd bind_ok reuseport listen_ok after p v n =
      let (q, e, w, ev, ix) = request-Tidy k enable_reading fd p v in
      let (r, f, x) = ask_all-Tidy k after q w in
      let (t, g, y) = take_out-Tidy k fd r x in
      let s : Socket = record {
        sockfd = fd;
        calls = reuse_addr true ∷ reuse_port true ∷ binds ∷ listens 1024 ∷ [];
      } in
      let l : Acceptor = record { accept_socket = s; listenning = true; poller = q } in
      let d : Acceptor = record { accept_socket = destroy s; listenning = true; poller = t } in
      (
        l,
        d,
        course bind_ok listen_ok l d (rw (e, >>=_some, f, >>=_some, g, >>=_some) refl),
        ap (k.registered q.epoll) (sym (w.own fd))
            ∙ w.inv.watched fd
            ∙ ap₂ expected
                (ix
                  ∙ ap
                      (λ (c : Channel).
                        index_after c.index (is_none_event (set_events enable_reading c.events)))
                      n)
                (ev ∙ ap (λ (c : Channel). set_events enable_reading c.events) n),
        refl,
        y,
        refl,
      )
    where
      course :
          (a b : Bool) (l d : Acceptor)
          → life (some fd) true reuseport true after p ≡ some (l, d)
          → life (some fd) a reuseport b after p ≡ (if a && b then some (l, d) else none)
      course true true l d h = h
      course true false l d h = refl
      course false b l d h = refl
