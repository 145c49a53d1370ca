-- ===== src/LinkedBuf.antt =====
-- The linked buffer: 15-440/P1-F11/bufi/bufi.go (the same code as 15-440/class07/bufi/bufi.go). The
-- elements stand in a heap, a pointer is a number, and `free` is the next pointer that `&BufEle{…}`
-- gives. `none` is a nil dereference, which Go answers with a panic. `String` is not modelled.
pub mod Queue
pub mod Runs
use golang_programming.Prelude.{
  ℕ, zero, suc, ◌-◌, ◌+◌, Bool, true, false, Option, none, some, List, [], ◌∷◌, if◌then◌else◌, ◌==◌,
  nat_eq, GoMap, empty, insert, ◌>>=◌,
}

pub record BufEle (A : Type 0) : Type 0 where
  pub val : A
  pub next : Option ℕ

pub record Buf (A : Type 0) : Type 0 where
  pub cells : GoMap ℕ (BufEle A)
  pub free : ℕ
  pub head : Option ℕ
  pub tail : Option ℕ
  pub cnt : ℕ

module _ {A : Type 0} where
  abbrev pub new_buf : Buf A
  new_buf = record { cells = empty; free = 0; head = none; tail = none; cnt = 0 }

  -- The buffer with a new element in the heap.
  abbrev pub alloc : A → Buf A → Buf A
  alloc val bp = record bp {
    cells = insert bp.free (record { val = val; next = none }) bp.cells;
    free = suc bp.free;
  }

  -- bp.tail.Next = ele
  abbrev pub link_tail : ℕ → Buf A → Option (Buf A)
  link_tail ele bp = do
    t ← bp.tail
    c ← bp.cells t
    some (record bp { cells = insert t (record c { next = some ele }) bp.cells })

  -- Insert
  unfoldable pub push : A → Buf A → Option (Buf A)
  push val bp =
      let ele : ℕ = bp.free in
      elim bp.head [
        | none ↦ some (record (alloc val bp) { head = some ele; tail = some ele; cnt = bp.cnt + 1 })
        | some h ↦ do
          bp' ← link_tail ele (alloc val bp)
          some (record bp' { tail = some ele; cnt = bp.cnt + 1 })
      ]

  -- Front: the inner `none` is the error of an empty buffer
  unfoldable pub front : Buf A → Option (Option A)
  front bp = elim bp.head [ none ↦ some none | some h ↦ (do c ← bp.cells h; some (some c.val)) ]

  -- e == bp.tail
  abbrev pub is_tail : ℕ → Buf A → Bool
  is_tail e bp = elim bp.tail [ none ↦ false | some t ↦ e == t ]

  -- Remove
  unfoldable pub pop : Buf A → Option (Buf A × Option A)
  pop bp = elim bp.head [
    | none ↦ some (bp, none)
    | some e ↦ do
      c ← bp.cells e
      some (
        record bp {
          head = c.next;
          tail = if is_tail e bp then none else bp.tail;
          cnt = bp.cnt - 1;
        },
        some c.val,
      )
  ]

  abbrev pub is_empty : Buf A → Bool
  is_empty bp = elim bp.head [ none ↦ true | some h ↦ false ]

  abbrev pub flush : Buf A → Buf A
  flush bp = record bp { head = none; tail = none; cnt = 0 }

  -- The loop of Contents: `n` elements from `e` on.
  unfoldable pub contents_from : ℕ → Option ℕ → Buf A → Option (List A)
  contents_from zero e bp = some []
  contents_from (suc n) none bp = none
  contents_from (suc n) (some e) bp = do
    c ← bp.cells e
    l ← contents_from n c.next bp
    some (c.val ∷ l)

  unfoldable pub contents : Buf A → Option (List A)
  contents bp = contents_from bp.cnt bp.head bp
