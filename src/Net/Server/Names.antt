-- ===== src/Net/Server/Names.antt =====
-- The names of a server's connections.
use talk_system.Prelude.{
  ℕ, ◌+◌, ◌<◌, ◌≤◌, ◌≡◌, refl, sym, ◌∙◌, length, length-append, take, take_long, if◌then◌else◌,
  Text, text_eq, eq_of_text_eq, Bool, true, false, Option, none, some, List, [], ◌∷◌, ◌++◌, arith,
}
use talk_system.Prelude.Dict.{find, find-assign, find-erase}
use talk_system.Net.Server.{
  TcpServer, Accepted, name_room, conn_name, get_next_loop, new_connection,
  remove_connection_in_loop,
}

append_cancel : (xs ys zs : Text) → xs ++ ys ≡ xs ++ zs → ys ≡ zs
append_cancel [] ys zs e = e
append_cancel (x ∷ xs) ys zs e = append_cancel xs ys zs (let t : xs ++ ys ≡ xs ++ zs = cc in t)

module _ (decimal : ℕ → Text) (injective : (i j : ℕ) → decimal i ≡ decimal j → i ≡ j)
    (short : (i : ℕ) → i < 2147483648 → length (decimal i) ≤ 10) where
  -- The calls on a server, each with what it is given.
  pub data Act : Type 0 where
    accepts : ℕ → Act
    removes : Text → Act

  unfoldable pub act : TcpServer → Act → TcpServer
  act s (accepts fd) = new_connection decimal fd s
  act s (removes name) = remove_connection_in_loop name s

  unfoldable pub run : TcpServer → List Act → TcpServer
  run s [] = s
  run s (a ∷ acts) = run (act s a) acts

  conn_name_injective :
      (name ip : Text) (i j : ℕ)
      → length ip ≤ 21
      → i < 2147483648
      → j < 2147483648
      → conn_name decimal name ip i ≡ conn_name decimal name ip j
      → i ≡ j
  unfolding conn_name
  conn_name_injective name ip i j n hi hj e = injective i j digits
    where
      tail : ℕ → Text
      tail k = b'-' ∷ (ip ++ (b'#' ∷ decimal k))

      whole : (k : ℕ) → k < 2147483648 → take name_room (tail k) ≡ tail k
      whole k h =
          take_long name_room (tail k)
            (omega (arith, length-append ip (b'#' ∷ decimal k), short k h))

      digits : decimal i ≡ decimal j
      digits = append_cancel (b'#' ∷ []) (decimal i) (decimal j) (
          append_cancel ip (b'#' ∷ decimal i) (b'#' ∷ decimal j) (
            append_cancel (b'-' ∷ []) (ip ++ (b'#' ∷ decimal i)) (ip ++ (b'#' ∷ decimal j)) (
              sym (whole i hi)
              ∙ append_cancel name (take name_room (tail i)) (take name_room (tail j)) e
              ∙ whole j hj)))

  -- Every connection in the table has the name of an id that has been given out.
  pub record Inv (s : TcpServer) : Type 0 where
    pub known :
        (k : Text) (a : Accepted)
        → find k s.connections ≡ some a
        → (i : ℕ) × (i < s.next_conn_id) × (k ≡ conn_name decimal s.name s.ip_port i)

  pub new_connection-Inv : (fd : ℕ) (s : TcpServer) → Inv s → Inv (new_connection decimal fd s)
  unfolding new_connection
  new_connection-Inv fd s v = record {
    known =
        λ k a e. settle k a (text_eq own k) refl (sym (find-assign own k added s.connections) ∙ e);
  }
    where
      own : Text
      own = conn_name decimal s.name s.ip_port s.next_conn_id

      added : Accepted
      added = record { sockfd = fd; io_loop = (get_next_loop s.thread_pool).0 }

      settle :
          (k : Text) (a : Accepted) (b : Bool)
          → text_eq own k ≡ b
          → (if b then some added else find k s.connections) ≡ some a
          → (i : ℕ) × (i < s.next_conn_id + 1) × (k ≡ conn_name decimal s.name s.ip_port i)
      settle k a true t e = (s.next_conn_id, omega arith, sym (eq_of_text_eq own k t))
      settle k a false t e = let o = v.known k a e in (o.0, omega (arith, o.1), o.2)

  pub remove-Inv : (name : Text) (s : TcpServer) → Inv s → Inv (remove_connection_in_loop name s)
  unfolding remove_connection_in_loop
  remove-Inv name s v = record {
    known = λ k a e. settle k a (text_eq name k) (sym (find-erase name k s.connections) ∙ e);
  }
    where
      settle :
          (k : Text) (a : Accepted) (b : Bool)
          → (if b then none else find k s.connections) ≡ some a
          → (i : ℕ) × (i < s.next_conn_id) × (k ≡ conn_name decimal s.name s.ip_port i)
      settle k a true e = cc
      settle k a false e = v.known k a e

  run-Inv : (acts : List Act) (s : TcpServer) → Inv s → Inv (run s acts)
  unfolding run act
  run-Inv [] s v = v
  run-Inv (accepts fd ∷ acts) s v =
      run-Inv acts (new_connection decimal fd s) (new_connection-Inv fd s v)
  run-Inv (removes name ∷ acts) s v =
      run-Inv acts (remove_connection_in_loop name s) (remove-Inv name s v)

  -- However many connections a server has accepted and removed, as long as their ids are `int` values
  -- and the address is no longer than one of IPv4 with its port: the name of the next one is not in
  -- the table, so accepting it adds its entry and changes no other.
  pub new_connection_lem :
      (fd : ℕ) (acts : List Act) (s : TcpServer) (k : Text)
      → Inv s
      → length (run s acts).ip_port ≤ 21
      → (run s acts).next_conn_id < 2147483648
      → let t = run s acts in
        let own = conn_name decimal t.name t.ip_port t.next_conn_id in
        (find own t.connections ≡ none)
        × (find k (new_connection decimal fd t).connections ≡ (
            if text_eq own k
            then some (record { sockfd = fd; io_loop = (get_next_loop t.thread_pool).0 })
            else find k t.connections))
  unfolding new_connection
  new_connection_lem fd acts s k v n h = (
    settle (find own t.connections) refl,
    find-assign own k (record { sockfd = fd; io_loop = (get_next_loop t.thread_pool).0 })
        t.connections,
  )
    where
      t : TcpServer
      t = run s acts

      own : Text
      own = conn_name decimal t.name t.ip_port t.next_conn_id

      settle : (o : Option Accepted) → find own t.connections ≡ o → o ≡ none
      settle none e = refl
      settle (some a) e =
          let o = (run-Inv acts s v).known own a e in
          absurd (
            omega (
              arith,
              o.1,
              conn_name_injective t.name t.ip_port t.next_conn_id o.0 n h (omega (arith, o.1, h))
                  o.2,
            ))
