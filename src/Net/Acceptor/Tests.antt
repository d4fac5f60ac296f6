-- ===== src/Net/Acceptor/Tests.antt =====
-- A server with its acceptor on small inputs. Its `%d` is a single digit of a large base.
use talk_system.Prelude.{
  if◌then◌else◌, length, Text, codes, text_eq, ◌+◌, ◌%◌, ◌≤◌, ◌≡◌, refl, none, some, List, [], ◌∷◌,
  arith,
}
use talk_system.Prelude.Dict.{find}
use talk_system.Net.Address
use talk_system.Net.Address.{
  InetAddress, Conversions, Documented, to_ip, to_port, to_ip_port, new, print_ip_port,
  print_ip_port_lem,
}
use talk_system.Net.Acceptor
use talk_system.Net.Acceptor.{
  Listening, Event, readable, starts, removes, accepted, refused, handle_read, serve, Acceptor,
}
use talk_system.Net.Acceptor.Accepts.{serve-accepted}
use talk_system.Net.Server.{conn_name, get_next_loop}

-- A host whose order of bytes is that of the network, on a network of one address.
abbrev host : Conversions
host = record {
  htons = λ p. p % 65536;
  ntohs = λ p. p % 65536;
  inet_addr = λ t. 0;
  inet_ntop = λ a. codes "1.2.3.4";
  decimal = λ i. (i + 1) ∷ [];
}

host-Documented : Documented host
host-Documented = record {
  ntohs_fits = λ p. omega arith;
  decimal_short = λ p h. omega arith;
  decimal_text = λ p. ground arith;
  inet_ntop_short = λ a. omega arith;
  inet_ntop_text = λ a. refl;
}

abbrev here : InetAddress
here = Address.new host 8000 (codes "1.2.3.4")

print_ip_port_lem_example :
    (print_ip_port host here ≡ some (to_ip_port host here)) × (length (to_ip_port host here) ≤ 21)
print_ip_port_lem_example = print_ip_port_lem host host-Documented here

-- A start with two loops, a connection, a failure, and a second start.
abbrev events : List (Event host)
events = starts (4 ∷ 5 ∷ []) ∷ readable (accepted 7) ∷ readable (refused 24) ∷ starts (6 ∷ []) ∷ []

abbrev served : Listening
served = serve host (Acceptor.new host 3 9 here (codes "s")) events

abbrev own : Text
own = conn_name host.decimal served.server.name served.server.ip_port served.server.next_conn_id

serve-accepted_example :
    ((handle_read host (accepted 8) served).acceptor.closed ≡ [])
    × (find own served.server.connections ≡ none)
    × (find own (handle_read host (accepted 8) served).server.connections ≡ (
        if text_eq own own
        then some (record { sockfd = 8; io_loop = (get_next_loop served.server.thread_pool).0 })
        else find own served.server.connections))
serve-accepted_example =
    serve-accepted host host-Documented (λ i j e. let h : i + 1 ≡ j + 1 = cc in omega (arith, h))
      (λ i h. omega arith) here 3 9 (codes "s") events 8 own (omega arith)
