-- ===== src/BufRpc/Calls.antt =====
-- What a client of the buffer server gets (15-440/class07/rpclib/rpclib.go).
use golang_programming.Prelude.{
  ◌≡◌, ◌≢◌, refl, ap, ◌∙◌, String, true, false, not, ◌&&◌, Option, none, some, List, [], ◌∷◌, ◌++◌,
  arith, Bool-cases, Option-cases, subst, inl, inr,
}
use golang_programming.Network as Network
use golang_programming.Network.{unreached, unanswered, answered}
use golang_programming.Libstore.{Outcome, returned, error, panic}
use golang_programming.LinkedBuf.{is_empty}
use golang_programming.LinkedBuf.Queue.{Holds, push-Holds}
use golang_programming.LinkedBuf.Runs.{no_items}
use golang_programming.BufServer.{
  DoOp, do_insert, do_remove, do_flush, do_empty, do_front, do_contents, do_list, do_string,
  defer_on_empty, Request, Reply, value, truth, slice, pointer, Server, waits, new_server,
  run_server, after,
}
use golang_programming.BufServer.Spec.{is_empty-Holds, spec_dispatch, dispatch-Holds}
use golang_programming.BufServer.Rounds.{
  run-goes, turn-received, turn-defers, turn-blocks, is_empty-taken,
}
use golang_programming.BufRpc.{
  Method, inserts, fronts, removes, empties, flushes, gets_contents, gets_list, Got, nothing,
  null_val, buffer, got, flag, items, waits_there, returns, only_reply, ask, ask_logged, serve,
  result_of, call, calls,
}

module _ {A : Type 0} (nil : A) (print : List A → String) where
  -- What an answered method on a queue of values gives: `none` is a wait for a value.
  abbrev pub queue_gives : Method A → List A → Option (List A × Got A)
  queue_gives (inserts v) xs = some (xs ++ v ∷ [], nothing)
  queue_gives fronts [] = none
  queue_gives fronts (x ∷ xs) = some (x ∷ xs, got x)
  queue_gives removes [] = none
  queue_gives removes (x ∷ xs) = some (xs, got x)
  queue_gives empties xs = some (xs, flag (no_items xs))
  queue_gives flushes xs = some ([], nothing)
  queue_gives gets_contents xs = some (xs, items xs)
  queue_gives gets_list xs = some (xs, buffer)

  -- What a failed method gives.
  abbrev pub failed : Method A → Outcome (Got A)
  failed (inserts v) = returned nothing
  failed flushes = returned nothing
  failed fronts = returned null_val
  failed removes = returned null_val
  failed empties = returned (flag false)
  failed gets_contents = panic
  failed gets_list = panic

  -- A panic is the last result.
  abbrev pub then_more : Outcome (Got A) → List (Outcome (Got A)) → List (Outcome (Got A))
  then_more panic more = panic ∷ []
  then_more error more = error ∷ more
  then_more (returned x) more = returned x ∷ more

  abbrev pub queue_calls : List (Method A × Network.Outcome) → List A → List (Outcome (Got A))
  queue_calls [] xs = []
  queue_calls ((m, unreached) ∷ more) xs = then_more (failed m) (queue_calls more xs)
  queue_calls ((m, unanswered) ∷ more) xs = elim (queue_gives m xs) [
    | none ↦ failed m ∷ []
    | some (xs', x) ↦ then_more (failed m) (queue_calls more xs')
  ]
  queue_calls ((m, answered) ∷ more) xs = elim (queue_gives m xs) [
    | none ↦ []
    | some (xs', x) ↦ returned x ∷ queue_calls more xs'
  ]

  -- The server at rest: it has these values and no deferred requests.
  abbrev IsIdle : Server A → List A → Type 0
  IsIdle st xs = Holds st.sb xs × Holds st.db []

  not_deferred :
      (st : Server A) (xs : List A)
      → IsIdle st xs
      → not (is_empty st.sb) && not (is_empty st.db) ≡ false
  not_deferred st xs (h, d) = ground (arith, is_empty-Holds st.db [] d)

  run-rests :
      (st : Server A) (xs : List A) → IsIdle st xs → run_server nil print 2 [] st ≡ waits st []
  unfolding run_server
  run-rests st xs idle = ground (arith, turn-blocks nil print st (not_deferred st xs idle))

  ask-IsIdle :
      (op : DoOp) (val : A) (st : Server A) (xs : List A)
      → (defer_on_empty op ≡ true → xs ≢ [])
      → IsIdle st xs
      → (st' : Server A) × (ask nil print op val st
          ≡ some (st', (spec_dispatch nil print op val xs).1))
        × IsIdle st' (spec_dispatch nil print op val xs).0
  unfolding ask
  ask-IsIdle op val st xs found (h, d) =
      let r : Request A = record { op = op; val = val; replyc = 0 } in
      let (sb', e, h') = dispatch-Holds nil print op val st.sb xs h in
      let st' : Server A = record st { sb = sb' } in
      let some_left : is_empty st.sb && defer_on_empty op ≡ false =
        elim (Bool-cases (defer_on_empty op)) [
          | inl f ↦ is_empty-taken nil print st.sb xs (defer_on_empty op) h (found f)
          | inr f ↦ ground (arith, f)
        ] in
      let goes =
        run-goes nil print 2 (r ∷ []) [] st st' _
          (turn-received nil print r [] st sb' _ (not_deferred st xs (h, d)) some_left e) in
      (
        st',
        ap only_reply (
            goes
            ∙ ap (after nil print ((0, (spec_dispatch nil print op val xs).1) ∷ []))
                (run-rests st' (spec_dispatch nil print op val xs).0 (h', d))),
        (h', d),
      )

  ask-waits :
      (op : DoOp) (val : A) (st : Server A)
      → defer_on_empty op ≡ true
      → IsIdle st []
      → ask nil print op val st ≡ none
  unfolding ask run_server
  ask-waits op val st f (h, d) =
      let r : Request A = record { op = op; val = val; replyc = 0 } in
      let (db', p, d') = push-Holds r st.db [] d in
      let empty_sb : is_empty st.sb ≡ true = is_empty-Holds st.sb [] h in
      let defers = turn-defers nil print r [] st db' empty_sb f p in
      let rests = turn-blocks nil print (record st { db = db' }) (ground (arith, empty_sb)) in
      ground (arith, defers, rests)

  ask_logged-IsIdle :
      (op : DoOp) (val : A) (st : Server A) (xs : List A)
      → (defer_on_empty op ≡ true → xs ≢ [])
      → IsIdle st xs
      → (st' : Server A) × (ask_logged nil print op val st
          ≡ some (st', (spec_dispatch nil print op val xs).1))
        × IsIdle st' (spec_dispatch nil print op val xs).0
  unfolding ask_logged
  ask_logged-IsIdle op val st xs found idle =
      let (st₁, e, idle₁) = ask-IsIdle op val st xs found idle in
      let (st₂, f, idle₂) =
        ask-IsIdle do_string nil st₁ (spec_dispatch nil print op val xs).0 (λ t. cc) idle₁ in
      (st₂, rw e (rw f refl), idle₂)

  ask_logged-waits :
      (op : DoOp) (val : A) (st : Server A)
      → defer_on_empty op ≡ true
      → IsIdle st []
      → ask_logged nil print op val st ≡ none
  unfolding ask_logged
  ask_logged-waits op val st f idle = rw (ask-waits op val st f idle) refl

  -- A handler, and what the client makes of its reply, against the queue.
  abbrev Agrees : Method A → Option (Server A × Reply A) → Option (List A × Got A) → Type 0
  Agrees m served none = served ≡ none
  Agrees m served (some (xs, x)) =
      (st : Server A) × (reply : Reply A) × (served ≡ some (st, reply))
      × IsIdle st xs
      × (result_of nil print m (some reply) ≡ returned x)

  serve-Agrees :
      (m : Method A) (st : Server A) (xs : List A)
      → IsIdle st xs
      → Agrees m (serve nil print m st) (queue_gives m xs)
  unfolding serve
  serve-Agrees (inserts v) st xs idle =
      let (st', e, idle') = ask_logged-IsIdle do_insert v st xs (λ t. cc) idle in
      (st', value nil, rw e refl, idle', refl)
  serve-Agrees fronts st [] idle = ask_logged-waits do_front nil st refl idle
  serve-Agrees fronts st (x ∷ xs) idle =
      let (st', e, idle') = ask_logged-IsIdle do_front nil st (x ∷ xs) (λ t e. cc) idle in
      (st', value x, e, idle', refl)
  serve-Agrees removes st [] idle = ask_logged-waits do_remove nil st refl idle
  serve-Agrees removes st (x ∷ xs) idle =
      let (st', e, idle') = ask_logged-IsIdle do_remove nil st (x ∷ xs) (λ t e. cc) idle in
      (st', value x, e, idle', refl)
  serve-Agrees empties st xs idle =
      let (st', e, idle') = ask_logged-IsIdle do_empty nil st xs (λ t. cc) idle in
      (st', truth (no_items xs), rw e refl, idle', refl)
  serve-Agrees flushes st xs idle =
      let (st', e, idle') = ask_logged-IsIdle do_flush nil st xs (λ t. cc) idle in
      (st', value nil, rw e refl, idle', refl)
  serve-Agrees gets_contents st xs idle =
      let (st', e, idle') = ask-IsIdle do_contents nil st xs (λ t. cc) idle in
      (st', slice xs, rw e refl, idle', refl)
  serve-Agrees gets_list st xs idle =
      let (st', e, idle') = ask-IsIdle do_list nil st xs (λ t. cc) idle in
      (st', pointer, e, idle', refl)

  result_of-failed : (m : Method A) → result_of nil print m none ≡ failed m
  result_of-failed (inserts v) = refl
  result_of-failed flushes = refl
  result_of-failed fronts = refl
  result_of-failed removes = refl
  result_of-failed empties = refl
  result_of-failed gets_contents = refl
  result_of-failed gets_list = refl

  calls-returns :
      (m : Method A) (o : Network.Outcome) (more : List (Method A × Network.Outcome))
      (st st' : Server A) (result : Outcome (Got A))
      → call nil print m o st ≡ returns (some st') result
      → calls nil print ((m, o) ∷ more) st ≡ then_more result (calls nil print more st')
  unfolding calls
  calls-returns m o more st st' panic e = ground (arith, e)
  calls-returns m o more st st' error e = ground (arith, e)
  calls-returns m o more st st' (returned x) e = ground (arith, e)

  calls-stops :
      (m : Method A) (o : Network.Outcome) (more : List (Method A × Network.Outcome))
      (st : Server A) (result : Outcome (Got A))
      → call nil print m o st ≡ returns none result
      → calls nil print ((m, o) ∷ more) st ≡ result ∷ []
  unfolding calls
  calls-stops m o more st result e = ground (arith, e)

  calls-waits :
      (m : Method A) (o : Network.Outcome) (more : List (Method A × Network.Outcome))
      (st : Server A)
      → call nil print m o st ≡ waits_there
      → calls nil print ((m, o) ∷ more) st ≡ []
  unfolding calls
  calls-waits m o more st e = ground (arith, e)

  calls_agree :
      (cs : List (Method A × Network.Outcome)) (st : Server A) (xs : List A)
      → IsIdle st xs
      → calls nil print cs st ≡ queue_calls cs xs
  unfolding calls call
  calls_agree [] st xs idle = refl
  calls_agree ((m, unreached) ∷ more) st xs idle =
      calls-returns m unreached more st st (failed m)
        (ap (λ r. returns (some st) r) (result_of-failed m))
      ∙ ap (then_more (failed m)) (calls_agree more st xs idle)
  calls_agree ((m, unanswered) ∷ more) st xs idle =
      let agrees = serve-Agrees m st xs idle in
      elim (Option-cases (queue_gives m xs)) [
        | inl p ↦
            let e = subst (Agrees m (serve nil print m st)) p agrees in
            calls-stops m unanswered more st (failed m)
              (rw (e, call) (ap (λ r. returns none r) (result_of-failed m)))
            ∙ ground (arith, p)
        | inr ((xs', x), p) ↦
            let (st', reply, e, idle', same) = subst (Agrees m (serve nil print m st)) p agrees in
            calls-returns m unanswered more st st' (failed m)
              (rw (e, call) (ap (λ r. returns (some st') r) (result_of-failed m)))
            ∙ ap (then_more (failed m)) (calls_agree more st' xs' idle')
            ∙ ground (arith, p)
      ]
  calls_agree ((m, answered) ∷ more) st xs idle =
      let agrees = serve-Agrees m st xs idle in
      elim (Option-cases (queue_gives m xs)) [
        | inl p ↦
            let e = subst (Agrees m (serve nil print m st)) p agrees in
            calls-waits m answered more st (rw (e, call) refl) ∙ ground (arith, p)
        | inr ((xs', x), p) ↦
            let (st', reply, e, idle', same) = subst (Agrees m (serve nil print m st)) p agrees in
            calls-returns m answered more st st' (returned x)
              (rw (e, call) (ap (λ r. returns (some st') r) same))
            ∙ ap (λ l. returned x ∷ l) (calls_agree more st' xs' idle')
            ∙ ground (arith, p)
      ]

  -- Whatever one client of a new server calls one after another, and whatever becomes of each call,
  -- its results are those of a first-in-first-out queue, and a failed Front or Remove gives a Val of
  -- nil, a failed Empty false, and a failed Contents or List a panic. The results end with a panic,
  -- or at a Front or Remove that gets to the server and waits on an empty queue.
  pub calls-queue_calls :
      (cs : List (Method A × Network.Outcome))
      → calls nil print cs (new_server nil print) ≡ queue_calls cs []
  calls-queue_calls cs =
      calls_agree cs (new_server nil print) [] ((refl, refl, refl), (refl, refl, refl))
