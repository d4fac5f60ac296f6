-- ===== src/Net/Poller/Tests.antt =====
-- A poller over a kernel that is a function of the descriptor.
use talk_system.Prelude.{
  ◌==◌, if◌then◌else◌, ℕ, ◌+◌, ◌<◌, ◌≡◌, refl, ap, true, false, Option, none, some, List, [], ◌∷◌,
  arith,
}
use talk_system.Net.Channel
use talk_system.Net.Channel.{
  Channel, Events, enable_reading, disable_all, Request, k_new, new, k_none_event, Callbacks,
  set_events, is_none_event,
}
use talk_system.Net.Poller
use talk_system.Net.Poller.{Epoll, Ctl, ctl_add, ctl_mod, ctl_del, request, remove_channel}
use talk_system.Buffer.{got}
use talk_system.Net.Connection.{wrote}
use talk_system.Net.Connection.Trace.{sends}
use talk_system.Net.Server.Life.Reports.{Round, io_round, calling, reporting, begin, rounds}
use talk_system.Net.Server.Life.Watched.{replay, rounds-watched}
use talk_system.Net.Poller.Tidy.{Tidy}
use talk_system.Net.Loop.Birth.{Born, construct, destruct, live}
use talk_system.Net.Loop.Birth.Lives.{construct-destruct}
use talk_system.Net.Poller.Table.{Inv}
use talk_system.Net.Poller.Requests.{index_after, request-Inv}
use talk_system.Net.Poller.Poll.{happened, poll, handle_active, last_of, poll_lem}
use talk_system.Net.Poller.Poll.Asked.{asked_only, poll_asked}

abbrev enter : (ℕ → Option Events) → ℕ → Option Events → ℕ → Option Events
enter s fd o j = if fd == j then o else s j

abbrev absent : Option Events → (ℕ → Option Events) → Option (ℕ → Option Events)
absent none s = some s
absent (some e) s = none

abbrev present : Option Events → (ℕ → Option Events) → Option (ℕ → Option Events)
present none s = none
present (some e) s = some s

abbrev table_ctl : (ℕ → Option Events) → Ctl → Option (ℕ → Option Events)
table_ctl s (ctl_add fd e) = absent (s fd) (enter s fd (some e))
table_ctl s (ctl_mod fd e) = present (s fd) (enter s fd (some e))
table_ctl s (ctl_del fd) = present (s fd) (enter s fd none)

abbrev kernel : Epoll
kernel = record {
  Set = ℕ → Option Events;
  registered = λ s fd. s fd;
  ctl = table_ctl;
  add_ok = λ s fd e h. (enter s fd (some e), ap (λ o. absent o (enter s fd (some e))) h, λ j. refl);
  mod_ok =
      λ s fd d e h. (enter s fd (some e), ap (λ o. present o (enter s fd (some e))) h, λ j. refl);
  del_ok = λ s fd d h. (enter s fd none, ap (λ o. present o (enter s fd none)) h, λ j. refl);
}

abbrev fresh : Poller.Poller kernel
fresh = record { channels = []; epoll = λ fd. none; channel = λ c. Channel.new c }

fresh-Inv : Inv kernel fresh
unfolding Channel.new
fresh-Inv = record { distinct = λ c d e. e; watched = λ c. refl }

request-Inv_example :
    (t : Poller.Poller kernel) × (Poller.request kernel enable_reading 3 fresh ≡ some t)
    × Inv kernel t
    × (t.channel 3 ≡ record (fresh.channel 3) {
      events = set_events enable_reading (fresh.channel 3).events;
      index =
          index_after
            (fresh.channel 3).index
            (is_none_event (set_events enable_reading (fresh.channel 3).events));
    })
request-Inv_example = request-Inv kernel enable_reading 3 fresh fresh-Inv

-- The poller after the request.
watching : Poller.Poller kernel
watching = (request-Inv kernel enable_reading 3 fresh fresh-Inv).0

watching-Inv : Inv kernel watching
unfolding watching
watching-Inv = (request-Inv kernel enable_reading 3 fresh fresh-Inv).2

-- A report on the watched channel, and on another for an error.
abbrev readable : Events
readable = record k_none_event { epollin = true }

abbrev broken : Events
broken = record k_none_event { epollerr = true }

abbrev report : List (ℕ × Events)
report = (3, readable) ∷ (4, broken) ∷ []

poll_lem_example :
    ((poll kernel (happened report) 16 fresh []).1 ≡ 3 ∷ 4 ∷ [])
    × ((poll kernel (happened report) 16 fresh []).0.channel 4
        ≡ record (fresh.channel 4) { revents = last_of 4 report (fresh.channel 4).revents })
    × Inv kernel (poll kernel (happened report) 16 fresh []).0
    × (2 < (poll kernel (happened report) 16 fresh []).2)
poll_lem_example =
    poll_lem kernel (happened report) 16 fresh 4 fresh-Inv (omega arith) (omega arith)

-- Channel 3 asks to read; a callback adds its number to a list.
abbrev asking : Poller.Poller kernel
asking = record fresh {
  channel = λ c. record (Channel.new c) { events = if c == 3 then readable else k_none_event };
}

abbrev noting : ℕ → Callbacks (List ℕ)
noting c = record {
  read = some (λ s. c ∷ s);
  write = some (λ s. (c + 10) ∷ s);
  close = none;
  error = some (λ s. (c + 20) ∷ s);
}

poll_asked_example :
    handle_active kernel noting
      (λ _. true)
      (poll kernel (happened report) 16 asking []).0
      (poll kernel (happened report) 16 asking []).1
      []
    ≡ handle_active kernel
        (λ c. asked_only (asking.channel c).events (noting c))
        (λ _. true)
        (poll kernel (happened report) 16 asking []).0
        (poll kernel (happened report) 16 asking []).1
        []
poll_asked_example =
    poll_asked kernel (happened report) 16 asking noting (λ _. true) [] (refl, (refl, refl))

-- A loop whose eventfd is 4, which watches the descriptor 7 for a while.
abbrev asks : List (Request × ℕ)
asks = (enable_reading, 7) ∷ (disable_all, 7) ∷ []

construct-destruct_example :
    (l : Born kernel) × (construct kernel false (some (λ fd. none)) (some 4) none 1 ≡ some l)
    × (l.loop_in_this_thread ≡ some 1)
    × ((j : ℕ)
        → l.poller.epoll j
          ≡ (if 4 == j then some (set_events enable_reading k_none_event) else none))
    × (construct kernel false none (some 9) l.loop_in_this_thread 2 ≡ none)
    × (m : Born kernel) × (live kernel asks l ≡ some m)
    × (d : Born kernel) × (destruct kernel m ≡ some d)
    × (d.poller.epoll 4 ≡ none)
    × (d.is_open ≡ false)
    × (d.loop_in_this_thread ≡ none)
construct-destruct_example =
    construct-destruct kernel (λ fd. none) 4 1 asks false none (some 9) 2 (λ j. refl)

-- A connection on the descriptor 5 that is set up, cannot send all at once, and is hung up.
abbrev busy : List Round
busy =
    io_round
    ∷ calling (sends (1 ∷ 2 ∷ []) (wrote 1))
    ∷ reporting true (record k_none_event { epollhup = true; epollout = true }) (got []) (wrote 1)
    ∷ []

fresh-Tidy : Tidy kernel fresh
unfolding Channel.new
fresh-Tidy = record { inv = fresh-Inv; own = λ c. refl }

rounds-watched_example :
    (t : Poller.Poller kernel) × (replay kernel 5
        (rounds true (begin true 5 true false) busy).conn.effects
        fresh
      ≡ some t)
    × Tidy kernel t
    × (t.epoll 5 ≡ (
        if is_none_event (rounds true (begin true 5 true false) busy).conn.channel.events
        then none
        else some (rounds true (begin true 5 true false) busy).conn.channel.events))
rounds-watched_example =
    rounds-watched kernel 5 true busy true false fresh (refl, tt) fresh-Tidy refl
