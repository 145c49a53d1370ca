-- ===== src/Tests/Schedulers.antt =====
-- The servers of the linked buffer at fixed inputs.
use golang_programming.Prelude.{
  ℕ, ◌≡◌, refl, true, none, some, List, [], ◌∷◌, arith, insert, empty, ℕ_discrete, nat_eq,
}
use golang_programming.LinkedBuf.{Buf, push, is_empty}
use golang_programming.LinkedBuf.Queue.{Holds}
use golang_programming.LinkedBuf.Runs.{inserts, removes, nothing, call}
use golang_programming.BufServer.{
  do_insert, do_remove, do_front, do_list, Request, run_server, new_server,
}
use golang_programming.BufServer.Rounds.{Ends}
use golang_programming.BufServer.Order.{run_server-Ends}
use golang_programming.Network.{Outcome, unreached, unanswered, answered}
use golang_programming.BufRpc as Rpc
use golang_programming.BufRpc.{Method}
use golang_programming.BufRpc.Calls.{queue_calls, calls-queue_calls}
use golang_programming.ChanBuf.{
  System, new_system, set_thread, starting, inside, finishing, offering, waiting, calls, tests,
  starts, works, Reach, start, later,
}
use golang_programming.ChanBuf.Exclusion.{is_in, Explains, Reach_exclusive}

-- A remove that comes before anything was inserted, and a front after it.
abbrev coming : List (Request ℕ)
coming =
    record { op = do_remove; val = 0; replyc = 1 }
    ∷ record { op = do_insert; val = 5; replyc = 2 }
    ∷ record { op = do_front; val = 0; replyc = 3 }
    ∷ record { op = do_list; val = 0; replyc = 4 }
    ∷ []

run_server-Ends_example :
    Ends 0 (λ l. "") [] [] coming (run_server 0 (λ l. "") 9 coming (new_server 0 (λ l. "")))
run_server-Ends_example = run_server-Ends 0 (λ l. "") coming 9 (omega arith)

-- Two goroutines call; the first is let in and inserts, while the second waits for its start.
abbrev called : System ℕ
called = set_thread 2 (starting removes) (set_thread 1 (starting (inserts 5)) new_system)

abbrev offered : System ℕ
offered = record called { director = offering (is_empty called.buf) }

abbrev started : System ℕ
started = record (set_thread 1 (inside (inserts 5)) offered) { director = waiting }

abbrev with_five : Buf ℕ
with_five = record {
  cells = insert 0 (record { val = 5; next = none }) empty;
  free = 1;
  head = some 0;
  tail = some 0;
  cnt = 1;
}

abbrev worked : System ℕ
worked = record (set_thread 1 (finishing (inserts 5) nothing) started) {
  buf = with_five;
  log = (inserts 5, nothing) ∷ [];
}

worked-Reach : Reach worked
unfolding call push ℕ_discrete
worked-Reach =
    let first : Reach (set_thread 1 (starting (inserts 5)) new_system) =
      later start (calls new_system 1 (inserts 5) refl refl) in
    let both : Reach called =
      later first (calls (set_thread 1 (starting (inserts 5)) new_system) 2 removes refl refl) in
    let tested : Reach offered = later both (tests called refl) in
    let let_in : Reach started =
      later tested (starts offered 1 (inserts 5) true refl refl (λ e. refl)) in
    later let_in (works started 1 (inserts 5) with_five nothing refl refl)

Reach_exclusive_example :
    ((is_in (worked.thread 1) ≡ true) × (is_in (worked.thread 2) ≡ true) → ◌≡◌ {A = ℕ} 1 2)
    × ((xs : List ℕ) × Holds worked.buf xs × Explains xs worked.log)
Reach_exclusive_example = Reach_exclusive worked 1 2 worked-Reach

-- The first remove is lost on its way, the second arrives; then a failed Contents panics.
abbrev remote_calls : List (Method ℕ × Outcome)
remote_calls =
    (Rpc.inserts 5, answered)
    ∷ (Rpc.removes, unreached)
    ∷ (Rpc.empties, answered)
    ∷ (Rpc.removes, answered)
    ∷ (Rpc.gets_contents, unanswered)
    ∷ (Rpc.removes, answered)
    ∷ (Rpc.inserts 6, answered)
    ∷ []

calls-queue_calls_example :
    Rpc.calls 0 (λ l. "") remote_calls (new_server 0 (λ l. ""))
    ≡ queue_calls 0 (λ l. "") remote_calls []
calls-queue_calls_example = calls-queue_calls 0 (λ l. "") remote_calls
