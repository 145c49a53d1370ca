-- ===== src/ChanBuf.antt =====
-- The buffer with a director: 15-440/class05/chanbuf/abuf/abuf.go, on the linked buffer of LinkedBuf (its own
-- bufi has the same methods without the count). Any number of goroutines call the methods; a step is one of
-- theirs or of the director's, and a rendezvous on a channel is one step of both.
pub mod Exclusion
use golang_programming.Prelude.{
  ℕ, ◌≡◌, ◌≢◌, Bool, true, false, Option, some, List, [], ◌∷◌, if◌then◌else◌, ◌==◌, nat_eq,
}
use golang_programming.LinkedBuf.{Buf, new_buf, is_empty}
use golang_programming.LinkedBuf.Runs.{
  Op, Result, inserts, fronts, removes, empties, flushes, lists, call,
}

-- startread is for Remove and Front, startop for the others.
abbrev pub is_read : {A : Type 0} → Op A → Bool
is_read removes = true
is_read fronts = true
is_read _ = false

-- A goroutine: outside, before its start of the method, before the method of the buffer, and before
-- its finish.
pub data Thread (A : Type 0) : Type 0 where
  outside : Thread A
  starting : Op A → Thread A
  inside : Op A → Thread A
  finishing : Op A → Result A → Thread A

-- The director's loop: before its test, before the select (`offering true` sends on opchan only), and
-- before `<-bp.ackchan`.
pub data Director : Type 0 where
  testing : Director
  offering : Bool → Director
  waiting : Director

-- `log` has what the methods of the buffer returned, the latest in front.
pub record System (A : Type 0) : Type 0 where
  pub buf : Buf A
  pub director : Director
  pub thread : ℕ → Thread A
  pub log : List (Op A × Result A)

abbrev pub set_thread : {A : Type 0} → ℕ → Thread A → System A → System A
set_thread i t s = record s { thread = λ j. if j == i then t else s.thread j }

module _ {A : Type 0} where
  -- NewBuf
  abbrev pub new_system : System A
  new_system = record { buf = new_buf; director = testing; thread = λ i. outside; log = [] }

  -- Contents is no method of this buffer.
  abbrev pub is_method : Op A → Bool
  is_method lists = false
  is_method _ = true

  pub data Step : System A → System A → Type 0 where
    calls :
        (s : System A) (i : ℕ) (op : Op A)
        → is_method op ≡ true
        → s.thread i ≡ outside
        → Step s (set_thread i (starting op) s)
    tests :
        (s : System A)
        → s.director ≡ testing
        → Step s (record s { director = offering (is_empty s.buf) })
    starts :
        (s : System A) (i : ℕ) (op : Op A) (was_empty : Bool)
        → s.director ≡ offering was_empty
        → s.thread i ≡ starting op
        → (was_empty ≡ true → is_read op ≡ false)
        → Step s (record (set_thread i (inside op) s) { director = waiting })
    works :
        (s : System A) (i : ℕ) (op : Op A) (buf : Buf A) (result : Result A)
        → s.thread i ≡ inside op
        → call op s.buf ≡ some (buf, result)
        → Step s (record (set_thread i (finishing op result) s) {
          buf = buf;
          log = (op, result) ∷ s.log;
        })
    finishes :
        (s : System A) (i : ℕ) (op : Op A) (result : Result A)
        → s.director ≡ waiting
        → s.thread i ≡ finishing op result
        → Step s (record (set_thread i outside s) { director = testing })

  pub data Reach : System A → Type 0 where
    start : Reach new_system
    later : {s t : System A} → Reach s → Step s t → Reach t
