-- ===== src/Network.antt =====
-- What the `call` functions of 6.824-labs do to an RPC (lockservice/client.go, pbservice/client.go):
-- the handler runs or not, and its reply arrives or not. Dialling and the wire are not modelled.
use golang_programming.Prelude.{Option, none, some}

pub data Outcome : Type 0 where
  unreached unanswered answered : Outcome

-- The other side after the call, and the reply if `call` returns true.
abbrev pub deliver {ℓ κ} : {B : Type ℓ} {R : Type κ} → Outcome → (B → B × R) → B → B × Option R
deliver unreached handler b = (b, none)
deliver unanswered handler b = ((handler b).0, none)
deliver answered handler b = ((handler b).0, some (handler b).1)
