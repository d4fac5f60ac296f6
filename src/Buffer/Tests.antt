-- ===== src/Buffer/Tests.antt =====
-- The network buffer on small inputs.
use talk_system.Prelude.{◌≡◌, List, [], ◌∷◌, arith}
use talk_system.Buffer.{Buffer, new, got, failed, peek}
use talk_system.Buffer.Contents.{IsValid, new_empty}
use talk_system.Buffer.Queue.{
  Call, appends, reads, retrieves, takes_all, run, run_refines, queue_run,
}

abbrev small : Buffer
small = new 4

small-IsValid : IsValid small
small-IsValid = (new_empty 4 (omega arith)).0

abbrev calls : List Call
calls =
    appends (1 ∷ 2 ∷ 3 ∷ [])
    ∷ retrieves 2
    ∷ reads (got (4 ∷ 5 ∷ 6 ∷ []))
    ∷ reads (failed 4)
    ∷ takes_all
    ∷ appends (9 ∷ [])
    ∷ []

run_refines_example :
    (peek (run small calls).0 ≡ (queue_run (peek small) calls).0)
    × ((run small calls).1 ≡ (queue_run (peek small) calls).1)
run_refines_example = run_refines calls small small-IsValid (unfold new in omega arith)
