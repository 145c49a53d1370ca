-- ===== src/BufRpc.antt =====
-- The buffer server over RPC: 15-440/class07/rpclib/rpclib.go, on the server of BufServer and its methods in
-- 15-440/class07/dserver/dserver.go. One client calls, one call after another. `none` of a handler is a panic of the
-- server's program, or a call whose reply does not come since it waits for a value. Of the
-- logging, only the requests for the text of the buffer are modelled.
pub mod Calls
use golang_programming.Prelude.{
  ℕ, String, Bool, true, false, Option, none, some, List, [], ◌∷◌, ◌>>=◌,
}
use golang_programming.Network as Network
use golang_programming.Network.{unreached, unanswered, answered}
use golang_programming.Libstore.{Outcome, returned, error, panic}
use golang_programming.BufServer.{
  DoOp, do_insert, do_remove, do_flush, do_empty, do_front, do_contents, do_list, do_string,
  Request, Reply, value, truth, slice, text, pointer, Server, Run, waits, run_server,
}

pub data Method (A : Type 0) : Type 0 where
  inserts : A → Method A
  fronts removes empties flushes gets_contents gets_list : Method A

-- What a method of the client returns: nothing, the value of a reply, the Val of nil for a failed
-- Front or Remove, a truth value, a slice, or the server's buffer.
pub data Got (A : Type 0) : Type 0 where
  nothing null_val buffer : Got A
  got : A → Got A
  flag : Bool → Got A
  items : List A → Got A

-- The one reply to the one request.
abbrev pub only_reply : {A : Type 0} → Run A → Option (Server A × Reply A)
only_reply (waits st ((c, reply) ∷ [])) = some (st, reply)
only_reply _ = none

-- v.(bool), v.([]interface{}), v.(string) and v.(*bufi.Buf)
abbrev pub assert_truth : {A : Type 0} → Reply A → Option Bool
assert_truth (truth b) = some b
assert_truth _ = none

abbrev pub assert_slice : {A : Type 0} → Reply A → Option (List A)
assert_slice (slice l) = some l
assert_slice _ = none

abbrev pub assert_text : {A : Type 0} → Reply A → Option String
assert_text (text s) = some s
assert_text _ = none

abbrev pub is_pointer : {A : Type 0} → Reply A → Bool
is_pointer pointer = true
is_pointer _ = false

-- After a call of the client: it waits for its reply, which does not come, or it has a result; `none`
-- is a server where the call still waits for a value, which is not followed any further.
pub data Called (A S : Type 0) : Type 0 where
  waits_there : Called A S
  returns : Option S → Outcome (Got A) → Called A S

module _ {A : Type 0} (nil : A) (print : List A → String) where
  -- dorequest, at a server that has nothing else to do
  unfoldable pub ask : DoOp → A → Server A → Option (Server A × Reply A)
  ask op val st =
      only_reply (run_server nil print 3 (record { op = op; val = val; replyc = 0 } ∷ []) st)

  -- A request, and then the one for the text that is logged.
  unfoldable pub ask_logged : DoOp → A → Server A → Option (Server A × Reply A)
  ask_logged op val st = do
    r ← ask op val st
    l ← ask do_string nil r.0
    s ← assert_text l.1
    some (l.0, r.1)

  -- The handlers of SrvBuf.
  unfoldable pub serve : Method A → Server A → Option (Server A × Reply A)
  serve (inserts v) st = do r ← ask_logged do_insert v st; some (r.0, value nil)
  serve fronts st = ask_logged do_front nil st
  serve removes st = ask_logged do_remove nil st
  serve empties st = do r ← ask_logged do_empty nil st; b ← assert_truth r.1; some (r.0, truth b)
  serve flushes st = do r ← ask_logged do_flush nil st; some (r.0, value nil)
  serve gets_contents st = do r ← ask do_contents nil st; l ← assert_slice r.1; some (r.0, slice l)
  serve gets_list st = ask do_list nil st

  -- rv.X of the reply
  abbrev pub value_of : Reply A → Outcome (Got A)
  value_of (value x) = returned (got x)
  value_of _ = panic

  -- What the client makes of the reply, `none` an error.
  abbrev pub result_of : Method A → Option (Reply A) → Outcome (Got A)
  result_of (inserts v) reply = returned nothing
  result_of flushes reply = returned nothing
  result_of fronts none = returned null_val
  result_of fronts (some reply) = value_of reply
  result_of removes none = returned null_val
  result_of removes (some reply) = value_of reply
  result_of empties none = returned (flag false)
  result_of empties (some (truth b)) = returned (flag b)
  result_of empties (some reply) = panic
  result_of gets_contents (some (slice l)) = returned (items l)
  result_of gets_contents reply = panic
  result_of gets_list (some pointer) = returned buffer
  result_of gets_list reply = panic

  -- SClient.Call, with what becomes of the call.
  unfoldable pub call : Method A → Network.Outcome → Server A → Called A (Server A)
  call m unreached st = returns (some st) (result_of m none)
  call m unanswered st = elim (serve m st) [
    | none ↦ returns none (result_of m none)
    | some (st', reply) ↦ returns (some st') (result_of m none)
  ]
  call m answered st = elim (serve m st) [
    | none ↦ waits_there
    | some (st', reply) ↦ returns (some st') (result_of m (some reply))
  ]

  -- The results of these calls, up to a panic of the client or a call that waits at the server.
  unfoldable pub calls : List (Method A × Network.Outcome) → Server A → List (Outcome (Got A))
  calls [] st = []
  calls ((m, o) ∷ more) st = elim (call m o st) [
    | waits_there ↦ []
    | returns none result ↦ result ∷ []
    | returns (some st') panic ↦ panic ∷ []
    | returns (some st') error ↦ error ∷ calls more st'
    | returns (some st') (returned x) ↦ returned x ∷ calls more st'
  ]
