-- ===== src/LinkedBuf/Queue.antt =====
-- The linked buffer is a queue (15-440/P1-F11/bufi/bufi.go).
use golang_programming.Prelude.{
  ℕ, suc, ◌<◌, ◌≤◌, ◌≡◌, refl, Option, none, some, List, [], ◌∷◌, ◌++◌, arith, length, GoMap,
  insert, nat_eq, length-append, ◌+◌, ◌-◌,
}
use golang_programming.LinkedBuf.{BufEle, Buf, push, front, pop, contents, contents_from, alloc}

module _ {A : Type 0} where
  -- From pointer `p` on stand `a` and then `xs`, at rising pointers below `free`, and `t` is the last.
  abbrev pub Chain : GoMap ℕ (BufEle A) → ℕ → ℕ → ℕ → A → List A → Type 0
  Chain cells free p t a [] =
      (cells p ≡ some (record { val = a; next = none })) × (p ≡ t) × (t < free)
  Chain cells free p t a (b ∷ xs) =
      (q : ℕ) × (cells p ≡ some (record { val = a; next = some q }))
      × (p < q)
      × Chain cells free q t b xs

  -- The buffer holds these values, oldest first.
  abbrev pub Holds : Buf A → List A → Type 0
  Holds bp [] = (bp.head ≡ none) × (bp.tail ≡ none) × (bp.cnt ≡ 0)
  Holds bp (a ∷ xs) =
      (p : ℕ) × (t : ℕ) × (bp.head ≡ some p)
      × (bp.tail ≡ some t)
      × (bp.cnt ≡ suc (length xs))
      × Chain bp.cells bp.free p t a xs

  Chain-bounds :
      (cells : GoMap ℕ (BufEle A)) (free p t : ℕ) (a : A) (xs : List A)
      → Chain cells free p t a xs
      → (p ≤ t) × (t < free)
  Chain-bounds cells free p t a [] c = (omega (arith, c.1), c.2)
  Chain-bounds cells free p t a (b ∷ xs) (q, e, lt, c) =
      let (le, below) = Chain-bounds cells free q t b xs c in (omega arith, below)

  abbrev pub first : List A → Option A
  first [] = none
  first (a ∷ xs) = some a

  abbrev pub rest : List A → List A
  rest [] = []
  rest (a ∷ xs) = xs

  -- The heap after an insertion.
  abbrev linked : GoMap ℕ (BufEle A) → ℕ → A → ℕ → A → GoMap ℕ (BufEle A)
  linked cells free v t last =
      insert t (record { val = last; next = some free })
        (insert free (record { val = v; next = none }) cells)

  Chain-push :
      (cells : GoMap ℕ (BufEle A)) (free p t : ℕ) (a v : A) (xs : List A)
      → Chain cells free p t a xs
      → (last : A) × (cells t ≡ some (record { val = last; next = none }))
        × Chain (linked cells free v t last) (suc free) p free a (xs ++ v ∷ [])
  Chain-push cells free p t a v [] (e, s, lt) =
      (a, ground arith, (free, ground arith, omega arith, (ground arith, refl, omega arith)))
  Chain-push cells free p t a v (b ∷ xs) (q, e, lt, c) =
      let (last, f, d) = Chain-push cells free q t b v xs c in
      let (le, below) = Chain-bounds cells free q t b xs c in (last, f, (q, ground arith, lt, d))

  pub push-Holds :
      (v : A) (bp : Buf A) (xs : List A)
      → Holds bp xs
      → (bp' : Buf A) × (push v bp ≡ some bp') × Holds bp' (xs ++ v ∷ [])
  unfolding push
  push-Holds v bp [] (h, t, n) = (
    record (alloc v bp) { head = some bp.free; tail = some bp.free; cnt = bp.cnt + 1 },
    ground arith,
    (bp.free, bp.free, refl, refl, ground arith, (ground arith, refl, omega arith)),
  )
  push-Holds v bp (a ∷ xs) (p, t, h, e, n, c) =
      let (last, f, d) = Chain-push bp.cells bp.free p t a v xs c in
      let (le, below) = Chain-bounds bp.cells bp.free p t a xs c in
      (
        record bp {
          cells = linked bp.cells bp.free v t last;
          free = suc bp.free;
          tail = some bp.free;
          cnt = bp.cnt + 1;
        },
        ground arith,
        (p, bp.free, h, refl, omega (arith, n, length-append xs (v ∷ [])), d),
      )

  pub front-Holds : (bp : Buf A) (xs : List A) → Holds bp xs → front bp ≡ some (first xs)
  unfolding front
  front-Holds bp [] (h, t, n) = ground arith
  front-Holds bp (a ∷ []) (p, t, h, e, n, c) = ground (arith, c.0)
  front-Holds bp (a ∷ b ∷ xs) (p, t, h, e, n, c) = ground (arith, c.1)

  pub pop-Holds :
      (bp : Buf A) (xs : List A)
      → Holds bp xs
      → (bp' : Buf A) × (pop bp ≡ some (bp', first xs)) × Holds bp' (rest xs)
  unfolding pop
  pop-Holds bp [] (h, t, n) = (bp, ground arith, (h, t, n))
  pop-Holds bp (a ∷ []) (p, t, h, e, n, c) = (
    record bp { head = none; tail = none; cnt = bp.cnt - 1 },
    ground (arith, c.0, c.1),
    (refl, refl, omega (arith, n)),
  )
  pop-Holds bp (a ∷ b ∷ xs) (p, t, h, e, n, (q, f, lt, c)) =
      let (le, below) = Chain-bounds bp.cells bp.free q t b xs c in
      (
        record bp { head = some q; cnt = bp.cnt - 1 },
        ground arith,
        (q, t, refl, e, omega (arith, n), c),
      )

  contents_from-Chain :
      (bp : Buf A) (p t : ℕ) (a : A) (xs : List A)
      → Chain bp.cells bp.free p t a xs
      → contents_from (suc (length xs)) (some p) bp ≡ some (a ∷ xs)
  unfolding contents_from
  contents_from-Chain bp p t a [] (e, s, lt) = ground arith
  contents_from-Chain bp p t a (b ∷ xs) (q, e, lt, c) =
      ground (arith, contents_from-Chain bp q t b xs c)

  pub contents-Holds : (bp : Buf A) (xs : List A) → Holds bp xs → contents bp ≡ some xs
  unfolding contents contents_from
  contents-Holds bp [] (h, t, n) = ground arith
  contents-Holds bp (a ∷ xs) (p, t, h, e, n, c) =
      ground (arith, h, n, contents_from-Chain bp p t a xs c)
