-- ===== src/BufServer/Rounds.antt =====
-- The rounds of the buffer server, by what its buffers hold (15-440/class07/dserver/dserver.go).
use golang_programming.Prelude.{
  ℕ, suc, ◌≡◌, ◌≢◌, ◌⊎◌, inl, inr, refl, sym, ap, ◌∙◌, String, Bool, true, false, some, List, [],
  ◌∷◌, ◌++◌, arith, Bool-cases, not, ◌&&◌, All,
}
use mathlib.Core.List.{append-nil, append_assoc}
use golang_programming.LinkedBuf.{Buf, is_empty, push, pop}
use golang_programming.LinkedBuf.Queue.{Holds}
use golang_programming.BufServer.{
  defer_on_empty, Request, Reply, Server, blocks, goes, Run, waits, dispatch, handle,
  serve_deferred, receive, turn, after, run_server,
}
use golang_programming.BufServer.Spec.{
  is_empty-Holds, spec_dispatch, replies, remains, AllFind, takers, others,
}

module _ {A : Type 0} (nil : A) (print : List A → String) where
  -- A run from a queue `xs` with the requests `ds` deferred and `coming` still to come: it ends
  -- waiting, having served some requests.
  pub record Ends (xs : List A) (ds coming : List (Request A)) (run : Run A) : Type 0 where
    pub served : List (Request A)
    pub left : List (Request A)
    pub state : Server A
    pub ends : run ≡ waits state (replies nil print xs served)
    pub holds : Holds state.sb (remains nil print xs served)
    pub deferred : Holds state.db left
    pub find : AllFind nil print xs served
    pub in_turn : takers served ++ left ≡ ds ++ takers coming
    pub in_order : others served ≡ others coming
    pub starved : (remains nil print xs served ≡ []) ⊎ (left ≡ [])

  takers-cons :
      (r : Request A) (rs : List (Request A)) → takers (r ∷ rs) ≡ takers (r ∷ []) ++ takers rs
  takers-cons r rs = ground arith

  pub others-cons :
      (r : Request A) (rs : List (Request A)) → others (r ∷ rs) ≡ others (r ∷ []) ++ others rs
  others-cons r rs = ground arith

  -- The run after a request was handled.
  pub handled :
      (r : Request A) (xs : List A) (ds ds' coming coming' : List (Request A)) (run run' : Run A)
      → run ≡ after nil print ((r.replyc, (spec_dispatch nil print r.op r.val xs).1) ∷ []) run'
      → (defer_on_empty r.op ≡ true → xs ≢ [])
      → takers (r ∷ []) ++ (ds' ++ takers coming') ≡ ds ++ takers coming
      → others (r ∷ []) ++ others coming' ≡ others coming
      → Ends (spec_dispatch nil print r.op r.val xs).0 ds' coming' run'
      → Ends xs ds coming run
  handled r xs ds ds' coming coming' run run' e f t o ends = record {
    served = r ∷ ends.served;
    left = ends.left;
    state = ends.state;
    ends =
        e
        ∙ ap (after nil print ((r.replyc, (spec_dispatch nil print r.op r.val xs).1) ∷ []))
            ends.ends;
    holds = ends.holds;
    deferred = ends.deferred;
    find = (f, ends.find);
    in_turn =
        ap (λ l. l ++ ends.left) (takers-cons r ends.served)
        ∙ append_assoc (takers (r ∷ [])) (takers ends.served) ends.left
        ∙ ap (λ l. takers (r ∷ []) ++ l) ends.in_turn
        ∙ t;
    in_order = others-cons r ends.served ∙ ap (λ l. others (r ∷ []) ++ l) ends.in_order ∙ o;
    starved = ends.starved;
  }

  pub run-goes :
      (fuel : ℕ) (coming coming' : List (Request A)) (st st' : Server A) (sent : List (ℕ × Reply A))
      → turn nil print coming st ≡ goes coming' st' sent
      → run_server nil print (suc fuel) coming st
        ≡ after nil print sent (run_server nil print fuel coming' st')
  unfolding run_server
  run-goes fuel coming coming' st st' sent e = ground (arith, e)

  -- The rounds of the loop, by what the buffers hold.
  pub turn-deferred :
      (coming : List (Request A)) (st : Server A) (db' : Buf (Request A)) (sb' : Buf A)
      (d : Request A) (reply : Reply A)
      → is_empty st.sb ≡ false
      → is_empty st.db ≡ false
      → pop st.db ≡ some (db', some d)
      → dispatch nil print d.op d.val st.sb ≡ some (sb', reply)
      → turn nil print coming st
        ≡ goes coming (record { sb = sb'; db = db' }) ((d.replyc, reply) ∷ [])
  unfolding turn serve_deferred handle
  turn-deferred coming st db' sb' d reply p q e f = ground (arith, p, q, e, f)

  pub turn-received :
      (r : Request A) (coming : List (Request A)) (st : Server A) (sb' : Buf A) (reply : Reply A)
      → not (is_empty st.sb) && not (is_empty st.db) ≡ false
      → is_empty st.sb && defer_on_empty r.op ≡ false
      → dispatch nil print r.op r.val st.sb ≡ some (sb', reply)
      → turn nil print (r ∷ coming) st
        ≡ goes coming (record st { sb = sb' }) ((r.replyc, reply) ∷ [])
  unfolding turn receive handle
  turn-received r coming st sb' reply p q e = ground (arith, p, q, e)

  pub turn-defers :
      (r : Request A) (coming : List (Request A)) (st : Server A) (db' : Buf (Request A))
      → is_empty st.sb ≡ true
      → defer_on_empty r.op ≡ true
      → push r st.db ≡ some db'
      → turn nil print (r ∷ coming) st ≡ goes coming (record st { db = db' }) []
  unfolding turn receive
  turn-defers r coming st db' p q e = ground (arith, p, q, e)

  pub turn-blocks :
      (st : Server A)
      → not (is_empty st.sb) && not (is_empty st.db) ≡ false
      → turn nil print [] st ≡ blocks
  unfolding turn receive
  turn-blocks st p = ground (arith, p)

  abbrev pub AllTakers : List (Request A) → Type 0
  AllTakers = All (λ (r : Request A). defer_on_empty r.op ≡ true)

  pub takers-AllTakers : (d : Request A) → defer_on_empty d.op ≡ true → takers (d ∷ []) ≡ d ∷ []
  takers-AllTakers d e = ground (arith, e)

  pub others-AllTakers : (d : Request A) → defer_on_empty d.op ≡ true → others (d ∷ []) ≡ []
  others-AllTakers d e = ground (arith, e)

  pub waiting :
      (fuel : ℕ) (st : Server A) (xs : List A) (ds : List (Request A))
      → Holds st.sb xs
      → Holds st.db ds
      → (xs ≡ []) ⊎ (ds ≡ [])
      → turn nil print [] st ≡ blocks
      → Ends xs ds [] (run_server nil print (suc fuel) [] st)
  unfolding run_server
  waiting fuel st xs ds h d s e = record {
    served = [];
    left = ds;
    state = st;
    ends = ground (arith, e);
    holds = h;
    deferred = d;
    find = tt;
    in_turn = sym (append-nil ds);
    in_order = refl;
    starved = s;
  }

  pub is_empty-taken :
      (sb : Buf A) (xs : List A) (b : Bool) → Holds sb xs → xs ≢ [] → is_empty sb && b ≡ false
  is_empty-taken sb [] b h ne = absurd (ne refl)
  is_empty-taken sb (x ∷ xs) b h ne = ground (arith, is_empty-Holds sb (x ∷ xs) h)

  pub takers-late :
      (r : Request A) (ds coming : List (Request A))
      → (defer_on_empty r.op ≡ true → ds ≡ [])
      → takers (r ∷ []) ++ (ds ++ takers coming) ≡ ds ++ takers (r ∷ coming)
  takers-late r ds coming none_wait = elim (Bool-cases (defer_on_empty r.op)) [
    | inl e ↦
        ap (λ l. takers (r ∷ []) ++ (l ++ takers coming)) (none_wait e)
        ∙ sym (takers-cons r coming)
        ∙ ap (λ l. l ++ takers (r ∷ coming)) (sym (none_wait e))
    | inr e ↦ ground (arith, e)
  ]
