-- ===== src/Net/Acceptor/Accepts.antt =====
-- What a server built by TcpServer.cc does with what its acceptor (common/net/Acceptor.cc) accepts.
use talk_system.Prelude.{
  ◌==◌, if◌then◌else◌, length, Text, text_eq, ℕ, suc, ◌+◌, ◌≤◌, ◌<◌, ◌≡◌, refl, sym, ap, ◌∙◌, subst,
  Bool, true, false, none, some, List, [], ◌∷◌, arith,
}
use talk_system.Prelude.Dict.{find}
use talk_system.Net.Address.{InetAddress, Conversions, Documented, to_ip_port, length-to_ip_port}
use talk_system.Net.Server.{conn_name, get_next_loop, new_connection, remove_connection_in_loop}
use talk_system.Net.Server.Names
use talk_system.Net.Server.Names.{new_connection_lem, new_connection-Inv, run, remove-Inv}
use talk_system.Net.Acceptor.{
  Listening, Answer, accepted, refused, new, new_acceptor, set_new_connection_callback, start,
  start_threads, listen, handle_read, Event, readable, removes, starts, serve_one, serve,
}

-- `%d` prints different texts for different numbers, of at most ten digits for an `int`.
module _ (k : Conversions) (ok : Documented k)
    (injective : (i j : ℕ) → k.decimal i ≡ k.decimal j → i ≡ j)
    (short : (i : ℕ) → i < 2147483648 → length (k.decimal i) ≤ 10) (addr : InetAddress) where
  record Serving (n : ℕ) (s : Listening) : Type 0 where
    named : Names.Inv k.decimal injective short s.server
    address : s.server.ip_port ≡ to_ip_port k addr
    ids : s.server.next_conn_id ≤ n
    calls : s.acceptor.has_callback ≡ true
    none_closed : s.acceptor.closed ≡ []

  new-Serving : (sockfd loop : ℕ) (name : Text) → Serving 1 (new k sockfd loop addr name)
  unfolding new new_acceptor set_new_connection_callback find
  new-Serving sockfd loop name = record {
    named = record { known = λ k a e. cc };
    address = refl;
    ids = omega arith;
    calls = refl;
    none_closed = refl;
  }

  read-Serving :
      (n : ℕ) (a : Answer) (s : Listening) → Serving n s → Serving (suc n) (handle_read k a s)
  unfolding handle_read new_connection
  read-Serving n (refused e) s v = record {
    named = v.named;
    address = v.address;
    ids = omega (arith, v.ids);
    calls = v.calls;
    none_closed = v.none_closed;
  }
  read-Serving n (accepted fd) s v =
      rw (v.calls, if◌then◌else◌)
        (record {
          named = Names.new_connection-Inv k.decimal injective short fd s.server v.named;
          address = v.address;
          ids = omega (arith, v.ids);
          calls = refl;
          none_closed = v.none_closed;
        })

  remove-Serving :
      (n : ℕ) (name : Text) (s : Listening)
      → Serving n s
      → Serving (suc n) (record s { server = remove_connection_in_loop name s.server })
  unfolding remove_connection_in_loop
  remove-Serving n name s v = record {
    named = Names.remove-Inv k.decimal injective short name s.server v.named;
    address = v.address;
    ids = omega (arith, v.ids);
    calls = v.calls;
    none_closed = v.none_closed;
  }

  start-Serving :
      (n : ℕ) (loops : List ℕ) (s : Listening) → Serving n s → Serving (suc n) (start loops s)
  unfolding start start_threads listen
  start-Serving n loops s v = pick (s.started == 0)
    where
      again : Listening
      again = record s { started = s.started + 1 }

      pick :
          (b : Bool)
          → Serving (suc n) (
              if b
              then record again {
                server = start_threads loops s.server;
                acceptor = listen s.acceptor;
              }
              else again)
      pick true = record {
        named = record { known = v.named.known };
        address = v.address;
        ids = omega (arith, v.ids);
        calls = v.calls;
        none_closed = v.none_closed;
      }
      pick false = record {
        named = v.named;
        address = v.address;
        ids = omega (arith, v.ids);
        calls = v.calls;
        none_closed = v.none_closed;
      }

  serve-Serving :
      (es : List (Event k)) (n : ℕ) (s : Listening)
      → Serving n s
      → Serving (n + length es) (serve k s es)
  unfolding serve serve_one
  serve-Serving [] n s v = subst (λ m. Serving m s) (omega arith) v
  serve-Serving (readable a ∷ es) n s v =
      subst (λ m. Serving m (serve k (handle_read k a s) es)) (omega arith)
        (serve-Serving es (suc n) (handle_read k a s) (read-Serving n a s v))
  serve-Serving (removes name ∷ es) n s v =
      let t = record s { server = remove_connection_in_loop name s.server } in
      subst (λ m. Serving m (serve k t es)) (omega arith)
        (serve-Serving es (suc n) t (remove-Serving n name s v))
  serve-Serving (starts loops ∷ es) n s v =
      subst (λ m. Serving m (serve k (start loops s) es)) (omega arith)
        (serve-Serving es (suc n) (start loops s) (start-Serving n loops s v))

  handle_read_called :
      (fd : ℕ) (s : Listening)
      → s.acceptor.has_callback ≡ true
      → handle_read k (accepted fd) s ≡ record s { server = new_connection k.decimal fd s.server }
  unfolding handle_read
  handle_read_called fd s h = rw (h, if◌then◌else◌) refl

  -- A server built on any address, where `%d` prints different texts for different numbers, after
  -- any sequence of at most 2^31 - 3 calls: accepted connections, failures of `accept`, removals
  -- and starts. The next connection that the kernel gives is not closed, gets a name that is not in
  -- the table, and enters it under that name, changing no other entry.
  pub serve-accepted :
      (sockfd loop : ℕ) (name : Text) (es : List (Event k)) (fd : ℕ) (key : Text)
      → length es < 2147483646
      → let s = serve k (new k sockfd loop addr name) es in
        let own = conn_name k.decimal s.server.name s.server.ip_port s.server.next_conn_id in
        let t = handle_read k (accepted fd) s in
        (t.acceptor.closed ≡ [])
        × (find own s.server.connections ≡ none)
        × (find key t.server.connections ≡ (
            if text_eq own key
            then some (record { sockfd = fd; io_loop = (get_next_loop s.server.thread_pool).0 })
            else find key s.server.connections))
  unfolding Names.run
  serve-accepted sockfd loop name es fd key h =
      let s = serve k (new k sockfd loop addr name) es in
      let v = serve-Serving es 1 (new k sockfd loop addr name) (new-Serving sockfd loop name) in
      let e =
        new_connection_lem k.decimal injective short fd [] s.server key v.named
          (subst (λ t. length t ≤ 21) (sym v.address) (length-to_ip_port k ok addr))
          (omega (arith, v.ids, h)) in
      (
        ap (λ (t : Listening). t.acceptor.closed) (handle_read_called fd s v.calls) ∙ v.none_closed,
        e.0,
        ap (λ (t : Listening). find key t.server.connections) (handle_read_called fd s v.calls)
            ∙ e.1,
      )
