-- ===== src/Buffer/Queue.antt =====
-- The buffer refines a queue of bytes.
use talk_system.Prelude.{
  length, drop, ℕ, ◌+◌, ◌^◌, ◌≤◌, ◌<◌, ◌≡◌, refl, ap, ap₂, ◌∙◌, List, [], ◌∷◌, ◌++◌, arith,
}
use talk_system.Buffer.Contents.{IsValid, retrieve_lem, retrieve-bytes, retrieve_all_as_string_lem}
use talk_system.Buffer.Space.{append_lem}
use talk_system.Buffer.Io.{received, read_fd_lem}
use talk_system.Buffer.{
  Buffer, readable_bytes, retrieve, retrieve_all_as_string, append, Read, read_fd, peek,
}

-- The calls that the library's clients make on a buffer.
pub data Call : Type 0 where
  appends : List ℕ → Call
  reads : Read → Call
  retrieves : ℕ → Call
  takes_all : Call

-- The buffer after a call, and the string that the call returns.
unfoldable pub call : Buffer → Call → Buffer × List ℕ
call b (appends bs) = (append bs b, [])
call b (reads r) = ((read_fd r b).0, [])
call b (retrieves n) = (retrieve n b, [])
call b takes_all = ((retrieve_all_as_string b).1, (retrieve_all_as_string b).0)

unfoldable pub run : Buffer → List Call → Buffer × List (List ℕ)
unfolding call
run b [] = (b, [])
run b (c ∷ cs) = let (b', out) = call b c in let (b'', outs) = run b' cs in (b'', out ∷ outs)

-- The same calls on a plain list.
abbrev pub queue_call : List ℕ → Call → List ℕ × List ℕ
queue_call q (appends bs) = (q ++ bs, [])
queue_call q (reads r) = (q ++ received r, [])
queue_call q (retrieves n) = (drop n q, [])
queue_call q takes_all = ([], q)

abbrev pub queue_run : List ℕ → List Call → List ℕ × List (List ℕ)
queue_run q [] = (q, [])
queue_run q (c ∷ cs) =
    let (q', out) = queue_call q c in let (q'', outs) = queue_run q' cs in (q'', out ∷ outs)

-- The bytes that a call brings in.
abbrev pub volume : Call → ℕ
volume (appends bs) = length bs
volume (reads r) = length (received r)
volume (retrieves n) = 0
volume takes_all = 0

abbrev pub total : List Call → ℕ
total [] = 0
total (c ∷ cs) = volume c + total cs

call_refines :
    (c : Call) (b : Buffer)
    → IsValid b
    → length b.bytes + volume c < 2 ^ 63
    → IsValid (call b c).0
      × (peek (call b c).0 ≡ (queue_call (peek b) c).0)
      × ((call b c).1 ≡ (queue_call (peek b) c).1)
      × (length (call b c).0.bytes ≤ length b.bytes + volume c)
unfolding call retrieve_all_as_string
call_refines (appends bs) b v h =
    let a = append_lem bs b v (omega (arith, v)) in (a.0, a.1, refl, a.2)
call_refines (reads r) b v h = let a = read_fd_lem r b v (omega (arith, v)) in (a.0, a.1, refl, a.2)
call_refines (retrieves n) b v h =
    let a = retrieve_lem n b v in (a.0, a.1, refl, omega (arith, ap length (retrieve-bytes n b)))
call_refines takes_all b v h =
    let a = retrieve_all_as_string_lem b v in
    (a.1, a.2, a.0, omega (arith, ap length (retrieve-bytes (readable_bytes b) b)))

-- Any calls return the same strings on a well-formed buffer as on the list of its readable bytes, and
-- leave the same bytes, as long as the vector's size and all that comes in are within `max_size()`.
pub run_refines :
    (cs : List Call) (b : Buffer)
    → IsValid b
    → length b.bytes + total cs < 2 ^ 63
    → (peek (run b cs).0 ≡ (queue_run (peek b) cs).0) × ((run b cs).1 ≡ (queue_run (peek b) cs).1)
unfolding run
run_refines [] b v h = (refl, refl)
run_refines (c ∷ cs) b v h =
    let one = call_refines c b v (omega arith) in
    let rest = run_refines cs (call b c).0 one.0 (omega (arith, one.3)) in
    (
      rest.0 ∙ ap (λ q. (queue_run q cs).0) one.1,
      ap₂ ◌∷◌ one.2 (rest.1 ∙ ap (λ q. (queue_run q cs).1) one.1),
    )
