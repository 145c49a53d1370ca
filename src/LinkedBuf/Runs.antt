-- ===== src/LinkedBuf/Runs.antt =====
-- Sequences of operations on a linked buffer (15-440/P1-F11/bufi/bufi.go).
use golang_programming.Prelude.{
  ◌≡◌, refl, ap, ◌∙◌, Bool, true, false, Option, some, List, [], ◌∷◌, ◌++◌, arith, ◌>>=◌,
}
use golang_programming.LinkedBuf.{Buf, new_buf, push, front, pop, is_empty, flush, contents}
use golang_programming.LinkedBuf.Queue.{
  Holds, first, rest, push-Holds, front-Holds, pop-Holds, contents-Holds,
}

-- The methods of Buf.
pub data Op (A : Type 0) : Type 0 where
  inserts : A → Op A
  fronts removes empties flushes lists : Op A

-- What a method returns; the inner `none` is the error of an empty buffer.
pub data Result (A : Type 0) : Type 0 where
  nothing : Result A
  one : Option A → Result A
  flag : Bool → Result A
  all : List A → Result A

module _ {A : Type 0} where
  unfoldable pub call : Op A → Buf A → Option (Buf A × Result A)
  call (inserts v) bp = do bp' ← push v bp; some (bp', nothing)
  call fronts bp = do r ← front bp; some (bp, one r)
  call removes bp = do r ← pop bp; some (r.0, one r.1)
  call empties bp = some (bp, flag (is_empty bp))
  call flushes bp = some (flush bp, nothing)
  call lists bp = do l ← contents bp; some (bp, all l)

  abbrev pub no_items : List A → Bool
  no_items [] = true
  no_items (a ∷ xs) = false

  -- The abstract queue, oldest first.
  abbrev pub spec_call : Op A → List A → List A × Result A
  spec_call (inserts v) xs = (xs ++ v ∷ [], nothing)
  spec_call fronts xs = (xs, one (first xs))
  spec_call removes xs = (rest xs, one (first xs))
  spec_call empties xs = (xs, flag (no_items xs))
  spec_call flushes xs = ([], nothing)
  spec_call lists xs = (xs, all xs)

  unfoldable pub calls : List (Op A) → Buf A → Option (List (Result A))
  calls [] bp = some []
  calls (op ∷ ops) bp = do r ← call op bp; results ← calls ops r.0; some (r.1 ∷ results)

  unfoldable pub spec_calls : List (Op A) → List A → List (Result A)
  spec_calls [] xs = []
  spec_calls (op ∷ ops) xs = let (xs', result) = spec_call op xs in result ∷ spec_calls ops xs'

  pub call-spec_call :
      (op : Op A) (bp : Buf A) (xs : List A)
      → Holds bp xs
      → (bp' : Buf A) × (call op bp ≡ some (bp', (spec_call op xs).1))
        × Holds bp' (spec_call op xs).0
  unfolding call
  call-spec_call (inserts v) bp xs h =
      let (bp', e, h') = push-Holds v bp xs h in (bp', ap (λ m. m >>= λ b. some (b, nothing)) e, h')
  call-spec_call fronts bp xs h =
      (bp, ap (λ m. m >>= λ r. some (bp, one r)) (front-Holds bp xs h), h)
  call-spec_call removes bp xs h =
      let (bp', e, h') = pop-Holds bp xs h in (bp', ap (λ m. m >>= λ r. some (r.0, one r.1)) e, h')
  call-spec_call empties bp [] h = (bp, ground (arith, h.0), h)
  call-spec_call empties bp (a ∷ xs) h = (bp, ground (arith, h.2), h)
  call-spec_call flushes bp xs h = (flush bp, refl, (refl, refl, refl))
  call-spec_call lists bp xs h =
      (bp, ap (λ m. m >>= λ l. some (bp, all l)) (contents-Holds bp xs h), h)

  calls-Holds :
      (ops : List (Op A)) (bp : Buf A) (xs : List A)
      → Holds bp xs
      → calls ops bp ≡ some (spec_calls ops xs)
  unfolding calls spec_calls
  calls-Holds [] bp xs h = refl
  calls-Holds (op ∷ ops) bp xs h =
      let (bp', e, h') = call-spec_call op bp xs h in
      ap (λ m. m >>= λ r. (calls ops r.0 >>= λ results. some (r.1 ∷ results))) e
      ∙ ap (λ m. m >>= λ results. some ((spec_call op xs).1 ∷ results))
          (calls-Holds ops bp' (spec_call op xs).0 h')

  -- Whatever methods are called on a new buffer, none dereferences nil, and the results are those of a
  -- first-in-first-out queue.
  pub calls-spec_calls : (ops : List (Op A)) → calls ops new_buf ≡ some (spec_calls ops [])
  calls-spec_calls ops = calls-Holds ops new_buf [] (refl, refl, refl)
