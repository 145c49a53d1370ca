-- ===== src/Tribbler.antt =====
-- The tribbler server: 15-440/P2-F11/tribimpl/tribimpl.go and 15-440/P2-F11/tribproto/tribproto.go.
-- The library store is a record of its operations on a state `S`; an operation that returns an error
-- gives `none` or `false`. The JSON text of a tribble is made and read by two functions that are
-- parameters. Times are numbers, and the id is the bit pattern of an int32. Logging is not modelled.
pub mod Messages
pub mod Laws
pub mod Feed
pub mod Timeline
pub mod Posts
use Prim.Native.Char.{Char}
use Prim.Native.String
use Prim.Native.String.{◌++◌ as ◌<>◌}
use golang_programming.Prelude.{
  ℕ, zero, suc, ◌+◌, ◌-◌, ◌/◌, ◌%◌, ◌^◌, String, Bool, true, false, Option, none, some, List, [],
  ◌∷◌, ◌++◌, length, get_elem?, leb, ltb, if◌then◌else◌, ◌==◌, nat_eq,
}

pub data Status : Type 0 where
  ok e_no_such_user e_no_such_target_user e_exists : Status

pub record Tribble : Type 0 where
  pub userid : String
  pub posted : ℕ
  pub contents : String

-- The methods of *libstore.Libstore.
pub record Store (S : Type 0) : Type 0 where
  pub get : String → S → S × Option String
  pub put : String → String → S → S × Bool
  pub get_list : String → S → S × Option (List String)
  pub append_to_list : String → String → S → S × Bool
  pub remove_from_list : String → String → S → S × Bool

-- json.Marshal and json.Unmarshal of a tribble
pub record Codec : Type 0 where
  pub encode : Tribble → String
  pub decode : String → Tribble

abbrev pub user_key : String → String
user_key userid = userid <> ":U"

abbrev pub trib_key : String → String
trib_key userid = userid <> ":T"

abbrev pub foll_key : String → String
foll_key userid = userid <> ":F"

-- "%s:%s:%s"
abbrev pub post_key : String → String → String → String
post_key userid id host_port = userid <> ":" <> id <> ":" <> host_port

module _ {S : Type 0} (store : Store S) where
  unfoldable pub create_user : String → S → S × Status
  create_user userid s =
      let (s₁, user) = store.get (user_key userid) s in
      let (s₂, put) = store.put (user_key userid) userid s₁ in
      elim user [ some u ↦ (s₁, e_exists) | none ↦ if put then (s₂, ok) else (s₂, e_exists) ]

  -- The two lookups of AddSubscription and RemoveSubscription, and then `change` of the list.
  abbrev pub subscription :
      (String → String → S → S × Bool) → Status → String → String → S → S × Status
  subscription change err userid target s =
      let (s₁, user) = store.get (user_key userid) s in
      let (s₂, other) = store.get (user_key target) s₁ in
      let (s₃, changed) = change (foll_key userid) target s₂ in
      elim user [
        | none ↦ (s₁, e_no_such_user)
        | some u ↦ elim other [
          | none ↦ (s₂, e_no_such_target_user)
          | some v ↦ if changed then (s₃, ok) else (s₃, err)
        ]
      ]

  abbrev pub add_subscription : String → String → S → S × Status
  add_subscription = subscription store.append_to_list e_exists

  abbrev pub remove_subscription : String → String → S → S × Status
  remove_subscription = subscription store.remove_from_list e_no_such_target_user

  unfoldable pub get_subscriptions : String → S → S × Status × List String
  get_subscriptions userid s =
      let (s₁, user) = store.get (user_key userid) s in
      let (s₂, ids) = store.get_list (foll_key userid) s₁ in
      elim user [
        | none ↦ (s₁, e_no_such_user, [])
        | some u ↦ elim ids [ none ↦ (s₂, e_no_such_user, []) | some l ↦ (s₂, ok, l) ]
      ]
