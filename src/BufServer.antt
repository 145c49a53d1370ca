-- ===== src/BufServer.antt =====
-- The buffer server: 15-440/class07/dserver/dserver.go, on the linked buffers of LinkedBuf (class07/bufi has
-- the same code as P1-F11/bufi). `A` is Go's `interface{}` with its `nil`, a channel for a reply is its
-- number, and `print` is the JSON that String makes of the elements. A run of the server's goroutine takes
-- the requests in the order in which the channel gives them.
pub mod Spec
pub mod Rounds
pub mod Order
use golang_programming.Prelude.{
  ℕ, zero, suc, String, Bool, true, false, not, ◌&&◌, Option, none, some, List, [], ◌∷◌, ◌++◌,
  if◌then◌else◌, ◌>>=◌,
}
use golang_programming.LinkedBuf.{Buf, new_buf, push, pop, front, is_empty, flush, contents}

pub data DoOp : Type 0 where
  do_insert do_remove do_flush do_empty do_front do_contents do_list do_string : DoOp

abbrev pub defer_on_empty : DoOp → Bool
defer_on_empty do_remove = true
defer_on_empty do_front = true
defer_on_empty _ = false

pub record Request (A : Type 0) : Type 0 where
  pub op : DoOp
  pub val : A
  pub replyc : ℕ

-- `pointer` is the server's own buffer.
pub data Reply (A : Type 0) : Type 0 where
  value : A → Reply A
  truth : Bool → Reply A
  slice : List A → Reply A
  text : String → Reply A
  pointer : Reply A

-- The variables of runServer: the buffer, and the deferred requests.
pub record Server (A : Type 0) : Type 0 where
  pub sb : Buf A
  pub db : Buf (Request A)

-- A round of the loop: it waits for a request, panics, or goes on with the requests still to come.
pub data Turn (A : Type 0) : Type 0 where
  blocks panics : Turn A
  goes : List (Request A) → Server A → List (ℕ × Reply A) → Turn A

pub data Run (A : Type 0) : Type 0 where
  waits : Server A → List (ℕ × Reply A) → Run A
  panicked out_of_fuel : Run A

module _ {A : Type 0} (nil : A) (print : List A → String) where
  abbrev pub new_server : Server A
  new_server = record { sb = new_buf; db = new_buf }

  -- The value, or nil with an ignored error.
  abbrev pub or_nil : Option A → A
  or_nil none = nil
  or_nil (some v) = v

  -- switch r.op
  abbrev pub dispatch : DoOp → A → Buf A → Option (Buf A × Reply A)
  dispatch do_insert val sb = do sb' ← push val sb; some (sb', value nil)
  dispatch do_remove val sb = do r ← pop sb; some (r.0, value (or_nil r.1))
  dispatch do_empty val sb = some (sb, truth (is_empty sb))
  dispatch do_flush val sb = some (flush sb, value nil)
  dispatch do_front val sb = do v ← front sb; some (sb, value (or_nil v))
  dispatch do_contents val sb = do l ← contents sb; some (sb, slice l)
  dispatch do_string val sb = do l ← contents sb; some (sb, text (print l))
  dispatch do_list val sb = some (sb, pointer)

  -- The switch, and the reply on the request's channel.
  unfoldable pub handle : Request A → List (Request A) → Server A → Turn A
  handle r coming st = elim (dispatch r.op r.val st.sb) [
    | none ↦ panics
    | some (sb', reply) ↦ goes coming (record st { sb = sb' }) ((r.replyc, reply) ∷ [])
  ]

  -- A round while both buffers have something: `b.(*request)` of nil would panic.
  unfoldable pub serve_deferred : List (Request A) → Server A → Turn A
  unfolding handle
  serve_deferred coming st = elim (pop st.db) [
    | none ↦ panics
    | some (db', none) ↦ panics
    | some (db', some r) ↦ handle r coming (record st { db = db' })
  ]

  unfoldable pub receive : List (Request A) → Server A → Turn A
  unfolding handle
  receive [] st = blocks
  receive (r ∷ coming) st =
      if is_empty st.sb && defer_on_empty r.op
      then (elim (push r st.db) [
        | none ↦ panics
        | some db' ↦ goes coming (record st { db = db' }) []
      ])
      else handle r coming st

  unfoldable pub turn : List (Request A) → Server A → Turn A
  turn coming st =
      if not (is_empty st.sb) && not (is_empty st.db)
      then serve_deferred coming st
      else receive coming st

  abbrev pub after : List (ℕ × Reply A) → Run A → Run A
  after replies (waits st later) = waits st (replies ++ later)
  after replies panicked = panicked
  after replies out_of_fuel = out_of_fuel

  -- runServer, until it waits for a request that does not come.
  unfoldable pub run_server : ℕ → List (Request A) → Server A → Run A
  run_server zero coming st = out_of_fuel
  run_server (suc fuel) coming st = elim (turn coming st) [
    | blocks ↦ waits st []
    | panics ↦ panicked
    | goes coming' st' replies ↦ after replies (run_server fuel coming' st')
  ]
