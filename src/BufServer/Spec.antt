-- ===== src/BufServer/Spec.antt =====
-- What a queue of values replies to the requests of the buffer server (15-440/class07/dserver/dserver.go).
use golang_programming.Prelude.{
  ℕ, ◌≡◌, ◌≢◌, refl, ap, String, true, some, List, [], ◌∷◌, ◌++◌, arith, ◌>>=◌, if◌then◌else◌,
}
use golang_programming.LinkedBuf.{Buf, is_empty, flush}
use golang_programming.LinkedBuf.Queue.{
  Holds, first, rest, push-Holds, front-Holds, pop-Holds, contents-Holds,
}
use golang_programming.LinkedBuf.Runs.{no_items}
use golang_programming.BufServer.{
  DoOp, do_insert, do_remove, do_flush, do_empty, do_front, do_contents, do_list, do_string,
  defer_on_empty, Request, Reply, value, truth, slice, text, pointer, or_nil, dispatch,
}

module _ {A : Type 0} where
  pub is_empty-Holds : (bp : Buf A) (xs : List A) → Holds bp xs → is_empty bp ≡ no_items xs
  is_empty-Holds bp [] h = ground (arith, h.0)
  is_empty-Holds bp (a ∷ xs) h = ground (arith, h.2)

module _ {A : Type 0} (nil : A) (print : List A → String) where
  -- The reply of a queue of values, and the queue after it.
  abbrev pub spec_dispatch : DoOp → A → List A → List A × Reply A
  spec_dispatch do_insert val xs = (xs ++ val ∷ [], value nil)
  spec_dispatch do_remove val xs = (rest xs, value (or_nil nil print (first xs)))
  spec_dispatch do_empty val xs = (xs, truth (no_items xs))
  spec_dispatch do_flush val xs = ([], value nil)
  spec_dispatch do_front val xs = (xs, value (or_nil nil print (first xs)))
  spec_dispatch do_contents val xs = (xs, slice xs)
  spec_dispatch do_string val xs = (xs, text (print xs))
  spec_dispatch do_list val xs = (xs, pointer)

  pub dispatch-Holds :
      (op : DoOp) (val : A) (sb : Buf A) (xs : List A)
      → Holds sb xs
      → (sb' : Buf A) × (dispatch nil print op val sb ≡ some (sb', (spec_dispatch op val xs).1))
        × Holds sb' (spec_dispatch op val xs).0
  dispatch-Holds do_insert val sb xs h =
      let (sb', e, h') = push-Holds val sb xs h in
      (sb', ap (λ m. m >>= λ b. some (b, value nil)) e, h')
  dispatch-Holds do_remove val sb xs h =
      let (sb', e, h') = pop-Holds sb xs h in
      (sb', ap (λ m. m >>= λ r. some (r.0, value (or_nil nil print r.1))) e, h')
  dispatch-Holds do_empty val sb xs h =
      (sb, ap (λ b. some (sb, truth b)) (is_empty-Holds sb xs h), h)
  dispatch-Holds do_flush val sb xs h = (flush sb, refl, (refl, refl, refl))
  dispatch-Holds do_front val sb xs h =
      (sb, ap (λ m. m >>= λ v. some (sb, value (or_nil nil print v))) (front-Holds sb xs h), h)
  dispatch-Holds do_contents val sb xs h =
      (sb, ap (λ m. m >>= λ l. some (sb, slice l)) (contents-Holds sb xs h), h)
  dispatch-Holds do_string val sb xs h =
      (sb, ap (λ m. m >>= λ l. some (sb, text (print l))) (contents-Holds sb xs h), h)
  dispatch-Holds do_list val sb xs h = (sb, refl, h)

  -- What a queue replies to these requests one after another.
  abbrev pub replies : List A → List (Request A) → List (ℕ × Reply A)
  replies xs [] = []
  replies xs (r ∷ rs) =
      let (xs', reply) = spec_dispatch r.op r.val xs in (r.replyc, reply) ∷ replies xs' rs

  -- The queue after these requests.
  abbrev pub remains : List A → List (Request A) → List A
  remains xs [] = xs
  remains xs (r ∷ rs) = remains (spec_dispatch r.op r.val xs).0 rs

  -- A request for a value always finds one.
  abbrev pub AllFind : List A → List (Request A) → Type 0
  AllFind xs [] = Unit
  AllFind xs (r ∷ rs) =
      (defer_on_empty r.op ≡ true → xs ≢ []) × AllFind (spec_dispatch r.op r.val xs).0 rs

-- The requests for a value, and the others.
abbrev pub takers : {A : Type 0} → List (Request A) → List (Request A)
takers [] = []
takers (r ∷ rs) = if defer_on_empty r.op then r ∷ takers rs else takers rs

abbrev pub others : {A : Type 0} → List (Request A) → List (Request A)
others [] = []
others (r ∷ rs) = if defer_on_empty r.op then others rs else r ∷ others rs
