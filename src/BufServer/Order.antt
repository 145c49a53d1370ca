-- ===== src/BufServer/Order.antt =====
-- What a run of the buffer server answers, and in which order (15-440/class07/dserver/dserver.go).
use golang_programming.Prelude.{
  ℕ, zero, suc, ◌+◌, ◌*◌, ◌<◌, ◌≡◌, ◌≢◌, inl, inr, refl, sym, ap, ◌∙◌, String, true, false, List,
  [], ◌∷◌, ◌++◌, arith, length, length-append, Bool-cases, not, ◌&&◌, All-append,
}
use mathlib.Core.List.{append_assoc}
use golang_programming.LinkedBuf.{Buf, is_empty}
use golang_programming.LinkedBuf.Queue.{Holds, push-Holds, pop-Holds}
use golang_programming.BufServer.{
  defer_on_empty, Request, Server, goes, turn, after, run_server, new_server,
}
use golang_programming.BufServer.Spec.{
  is_empty-Holds, spec_dispatch, dispatch-Holds, takers, others,
}
use golang_programming.BufServer.Rounds.{
  Ends, others-cons, handled, run-goes, turn-deferred, turn-received, turn-defers, turn-blocks,
  AllTakers, takers-AllTakers, others-AllTakers, waiting, is_empty-taken, takers-late,
}

module _ {A : Type 0} (nil : A) (print : List A → String) where
  received :
      (fuel : ℕ) (r : Request A) (coming : List (Request A)) (st : Server A) (xs : List A)
      (ds : List (Request A))
      → Holds st.sb xs
      → not (is_empty st.sb) && not (is_empty st.db) ≡ false
      → (defer_on_empty r.op ≡ true → xs ≢ [])
      → (defer_on_empty r.op ≡ true → ds ≡ [])
      → ((sb' : Buf A)
          → Holds sb' (spec_dispatch nil print r.op r.val xs).0
          → Ends nil print
              (spec_dispatch nil print r.op r.val xs).0
              ds
              coming
              (run_server nil print fuel coming (record st { sb = sb' })))
      → Ends nil print xs ds (r ∷ coming) (run_server nil print (suc fuel) (r ∷ coming) st)
  received fuel r coming st xs ds h p found none_wait next =
      let (sb', e, h') = dispatch-Holds nil print r.op r.val st.sb xs h in
      let some_left : is_empty st.sb && defer_on_empty r.op ≡ false =
        elim (Bool-cases (defer_on_empty r.op)) [
          | inl f ↦ is_empty-taken nil print st.sb xs (defer_on_empty r.op) h (found f)
          | inr f ↦ ground (arith, f)
        ] in
      handled nil print r xs ds ds (r ∷ coming) coming _ _
        (run-goes nil print fuel (r ∷ coming) coming st (record st { sb = sb' }) _
          (turn-received nil print r coming st sb' _ p some_left e))
        found (takers-late nil print r ds coming none_wait) (sym (others-cons nil print r coming))
        (next sb' h')

  -- The run after a request was put off.
  put_off :
      (fuel : ℕ) (r : Request A) (coming : List (Request A)) (st : Server A) (db' : Buf (Request A))
      (ds : List (Request A))
      → defer_on_empty r.op ≡ true
      → turn nil print (r ∷ coming) st ≡ goes coming (record st { db = db' }) []
      → Ends nil print []
          (ds ++ r ∷ [])
          coming
          (run_server nil print fuel coming (record st { db = db' }))
      → Ends nil print [] ds (r ∷ coming) (run_server nil print (suc fuel) (r ∷ coming) st)
  put_off fuel r coming st db' ds f e ends = record {
    served = ends.served;
    left = ends.left;
    state = ends.state;
    ends =
        run-goes nil print fuel (r ∷ coming) coming st (record st { db = db' }) [] e
        ∙ ap (after nil print []) ends.ends;
    holds = ends.holds;
    deferred = ends.deferred;
    find = ends.find;
    in_turn = ends.in_turn ∙ append_assoc ds (r ∷ []) (takers coming) ∙ ground (arith, f);
    in_order = ends.in_order ∙ ground (arith, f);
    starved = ends.starved;
  }

  run_server-serves :
      (fuel : ℕ) (coming : List (Request A)) (st : Server A) (xs : List A) (ds : List (Request A))
      → Holds st.sb xs
      → Holds st.db ds
      → AllTakers nil print ds
      → 2 * length coming + length ds < fuel
      → Ends nil print xs ds coming (run_server nil print fuel coming st)
  run_server-serves zero coming st xs ds h d all lt = absurd (omega (arith, lt))
  run_server-serves (suc fuel) coming st (x ∷ xs) (r ∷ ds) h d all lt =
      let (db', p, d') = pop-Holds st.db (r ∷ ds) d in
      let (sb', q, h') = dispatch-Holds nil print r.op r.val st.sb (x ∷ xs) h in
      handled nil print r (x ∷ xs) (r ∷ ds) ds coming coming _ _
        (run-goes nil print fuel coming coming st (record { sb = sb'; db = db' }) _
          (turn-deferred nil print coming st db' sb' r _ (is_empty-Holds st.sb (x ∷ xs) h)
            (is_empty-Holds st.db (r ∷ ds) d) p q))
        (λ _ e. cc) (ap (λ l. l ++ (ds ++ takers coming)) (takers-AllTakers nil print r all.0))
        (ap (λ l. l ++ others coming) (others-AllTakers nil print r all.0))
        (run_server-serves fuel coming (record { sb = sb'; db = db' })
          (spec_dispatch nil print r.op r.val (x ∷ xs)).0 ds h' d' all.1 (omega (arith, lt)))
  run_server-serves (suc fuel) [] st [] ds h d all lt =
      waiting nil print fuel st [] ds h d (inl refl)
        (turn-blocks nil print st (ground (arith, is_empty-Holds st.sb [] h)))
  run_server-serves (suc fuel) [] st (x ∷ xs) [] h d all lt =
      waiting nil print fuel st (x ∷ xs) [] h d (inr refl)
        (turn-blocks nil print st (ground (arith, is_empty-Holds st.db [] d)))
  run_server-serves (suc fuel) (r ∷ coming) st (x ∷ xs) [] h d all lt =
      received fuel r coming st (x ∷ xs) [] h (ground (arith, is_empty-Holds st.db [] d))
        (λ _ e. cc) (λ _. refl)
        (λ sb' h'.
          run_server-serves fuel coming (record st { sb = sb' })
            (spec_dispatch nil print r.op r.val (x ∷ xs)).0 [] h' d tt (omega (arith, lt)))
  run_server-serves (suc fuel) (r ∷ coming) st [] ds h d all lt =
      elim (Bool-cases (defer_on_empty r.op)) [
        | inl f ↦
            let (db', p, d') = push-Holds r st.db ds d in
            put_off fuel r coming st db' ds f
              (turn-defers nil print r coming st db' (is_empty-Holds st.sb [] h) f p)
              (run_server-serves fuel coming (record st { db = db' }) [] (ds ++ r ∷ []) h d'
                (All-append (λ (x : Request A). defer_on_empty x.op ≡ true) ds (r ∷ []) all (f, tt))
                (omega (arith, lt, length-append ds (r ∷ []))))
        | inr f ↦
            received fuel r coming st [] ds h (ground (arith, is_empty-Holds st.sb [] h)) (λ t. cc)
              (λ t. cc)
              (λ sb' h'.
                run_server-serves fuel coming (record st { sb = sb' })
                  (spec_dispatch nil print r.op r.val []).0 ds h' d all (omega (arith, lt)))
      ]

  -- Whatever requests reach a new server, with fuel above twice their number it ends waiting for the
  -- next: it has replied to the served ones as a first-in-first-out queue does, each request for a
  -- value when there was one, and serves these in the order of their arrival, and the others in
  -- theirs; what is deferred still waits only for a value.
  pub run_server-Ends :
      (coming : List (Request A)) (fuel : ℕ)
      → 2 * length coming < fuel
      → Ends nil print [] [] coming (run_server nil print fuel coming (new_server nil print))
  run_server-Ends coming fuel lt =
      run_server-serves fuel coming (new_server nil print) [] [] (refl, refl, refl)
        (refl, refl, refl) tt (omega (arith, lt))
