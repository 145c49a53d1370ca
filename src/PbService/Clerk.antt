-- ===== src/PbService/Clerk.antt =====
-- The client of the primary/backup service: 6.824-labs/pbservice/client.go. The view service and the
-- servers are a record of functions on a state `B` of everything else; a call that returns false
-- gives `none`. Where Go loops without a bound, `none` of the whole is fuel that ran out.
pub mod Calls
pub mod Retries
pub mod Reads
use golang_programming.Prelude.{
  ℕ, zero, suc, String, Bool, true, false, Option, none, some, if◌then◌else◌, ◌==◌, text_eq, ◌>>=◌,
}
use golang_programming.ViewService.{View}
use golang_programming.PbService.{Err, unset, ok, err_no_key, err_wrong_server, GetReply, no_view}

pub record Clerk : Type 0 where
  pub view : View

-- MakeClerk
abbrev pub make_clerk : Clerk
make_clerk = record { view = no_view }

pub record Servers (B : Type 0) : Type 0 where
  pub get_view : B → B × Option View
  pub call_get : String → String → B → B × Option GetReply
  pub call_put : String → String → String → B → B × Option Err

-- string(reply.Err)
abbrev pub text_of : Err → String
text_of unset = ""
text_of ok = "OK"
text_of err_no_key = "ErrNoKey"
text_of err_wrong_server = "ErrWrongServer"

-- !ok || reply.Err == ErrWrongServer
abbrev pub must_retry : Option Err → Bool
must_retry none = true
must_retry (some err_wrong_server) = true
must_retry _ = false

-- The error of a reply, if there was one.
abbrev pub err_of : Option GetReply → Option Err
err_of none = none
err_of (some reply) = some reply.err

-- What Get returns.
abbrev pub answer_of : Option GetReply → String
answer_of none = ""
answer_of (some reply) = elim reply.err [ ok ↦ reply.value | err ↦ text_of err ]

module _ {B : Type 0} (net : Servers B) where
  unfoldable pub update_view : Clerk → B → Clerk × B
  update_view ck b =
      let (b', found) = net.get_view b in
      elim found [ none ↦ (ck, b') | some v ↦ (record ck { view = v }, b') ]

  -- for ck.view.Primary == "" { ck.updateView() }
  unfoldable pub find_primary : ℕ → Clerk → B → Option (Clerk × B)
  find_primary zero ck b = if ck.view.primary == "" then none else some (ck, b)
  find_primary (suc fuel) ck b =
      let (ck', b') = update_view ck b in
      let again : Option (Clerk × B) = find_primary fuel ck' b' in
      if ck.view.primary == "" then again else some (ck, b)

  -- The loops of Get and Put after the first call: `call` is their RPC at a host, `err` the error of
  -- its reply.
  unfoldable pub retry :
      {R : Type 0}
      → (String → B → B × Option R)
      → (Option R → Option Err)
      → ℕ
      → Clerk
      → B
      → Option R
      → Option (Clerk × B × Option R)
  retry call err zero ck b reply = if must_retry (err reply) then none else some (ck, b, reply)
  retry call err (suc fuel) ck b reply =
      let (ck', b₁) = update_view ck b in
      let (b₂, reply') = call ck'.view.primary b₁ in
      let again = retry call err fuel ck' b₂ reply' in
      if must_retry (err reply) then again else some (ck, b, reply)

  unfoldable pub get : ℕ → String → Clerk → B → Option (Clerk × B × String)
  get fuel key ck b = do
    r ← find_primary fuel ck b
    let (b', reply) = net.call_get r.0.view.primary key r.1
    s ← retry (λ host. net.call_get host key) err_of fuel r.0 b' reply
    some (s.0, s.1, answer_of s.2)

  unfoldable pub put : ℕ → String → String → Clerk → B → Option (Clerk × B)
  put fuel key value ck b = do
    r ← find_primary fuel ck b
    let (b', reply) = net.call_put r.0.view.primary key value r.1
    s ← retry (λ host. net.call_put host key value) (λ e. e) fuel r.0 b' reply
    some (s.0, s.1)
