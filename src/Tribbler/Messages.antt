-- ===== src/Tribbler/Messages.antt =====
-- Posts and the lists of tribbles: 15-440/P2-F11/tribimpl/tribimpl.go.
use Prim.Native.Char.{Char}
use Prim.Native.String.{◌++◌ as ◌<>◌}
use golang_programming.Prelude.{
  ℕ, zero, suc, ◌+◌, ◌-◌, ◌/◌, ◌%◌, ◌^◌, String, Bool, Option, none, some, List, [], ◌∷◌, ◌++◌,
  length, get_elem?, ltb, if◌then◌else◌, ◌==◌, nat_eq,
}
use golang_programming.Tribbler.{
  Status, ok, e_no_such_user, e_exists, Tribble, Store, Codec, user_key, trib_key, foll_key,
  post_key,
}

-- The character at a position, and "9" past the end.
abbrev pub char_of : String → ℕ → Char
char_of String.[] n = "9"
char_of (String.◌∷◌ c s) zero = c
char_of (String.◌∷◌ c s) (suc n) = char_of s n

abbrev pub digit : ℕ → Char
digit = char_of "0123456789"

-- The last `fuel` decimal digits of a number, in front of a text.
unfoldable pub decimal : ℕ → ℕ → String → String
decimal zero n text = text
decimal (suc fuel) n text =
    let text' : String = String.◌∷◌ (digit (n % 10)) text in
    let more : String = decimal fuel (n / 10) text' in if n / 10 == 0 then text' else more

-- strconv.Itoa(int(id)) of an int32
unfoldable pub itoa : ℕ → String
itoa id =
    if ltb id (2 ^ 31) then decimal 10 id String.[] else "-" <> decimal 10 (2 ^ 32 - id) String.[]

-- atomic.AddInt32(&ts.id, 1)
abbrev pub next_id : ℕ → ℕ
next_id id = (id + 1) % 2 ^ 32

-- What GetTribbles and GetTribblesBySubscription leave in the reply; `failed` is an error that the
-- handler returns, with which net/rpc drops the reply.
pub data TribblesReply : Type 0 where
  replied : Status → List Tribble → TribblesReply
  failed : TribblesReply

-- t[i].Posted.After(t[j].Posted)
abbrev pub is_newer : Tribble → Tribble → Bool
is_newer t u = ltb u.posted t.posted

-- sort.Sort by Less
unfoldable pub insert_trib : Tribble → List Tribble → List Tribble
insert_trib t [] = t ∷ []
insert_trib t (u ∷ tribs) =
    let rest : List Tribble = insert_trib t tribs in
    if is_newer u t then u ∷ rest else t ∷ u ∷ tribs

unfoldable pub sort_tribs : List Tribble → List Tribble
sort_tribs [] = []
sort_tribs (t ∷ tribs) = insert_trib t (sort_tribs tribs)

-- tribs[:n] of a list that is long enough
abbrev pub first_of : ℕ → List Tribble → List Tribble
first_of zero tribs = []
first_of (suc n) [] = []
first_of (suc n) (t ∷ tribs) = t ∷ first_of n tribs

-- The tribbler server: its store, its address and its counter.
pub record Tribserver (S : Type 0) : Type 0 where
  pub store : S
  pub host_port : String
  pub id : ℕ

-- length := len(ids); if length > 100 { length = 100 }
abbrev pub shown : List String → ℕ
shown ids = if ltb 100 (length ids) then 100 else length ids

-- if len(tribs) > 100 { reply.Tribbles = tribs[:100] }
abbrev pub newest : List Tribble → List Tribble
newest tribs = if ltb 100 (length tribs) then first_of 100 tribs else tribs

module _ {S : Type 0} (store : Store S) (codec : Codec) where
  -- The loop of GetTribbles from index `i` on, with `n` rounds left; `none` is the error of a Get.
  unfoldable pub load_tribbles :
      ℕ → ℕ → String → String → List String → S → S × Option (List Tribble)
  load_tribbles zero i userid host_port ids s = (s, some [])
  load_tribbles (suc n) i userid host_port ids s = elim (get_elem? ids (length ids - 1 - i)) [
    | none ↦ (s, none)
    | some id ↦
        let (s₁, post) = store.get (post_key userid id host_port) s in
        let (s₂, later) = load_tribbles n (i + 1) userid host_port ids s₁ in
        elim post [
          | none ↦ (s₁, none)
          | some text ↦ elim later [
            | none ↦ (s₂, none)
            | some tribs ↦ (s₂, some (codec.decode text ∷ tribs))
          ]
        ]
  ]

  unfoldable pub get_tribbles : String → String → S → S × TribblesReply
  get_tribbles userid host_port s =
      let (s₁, user) = store.get (user_key userid) s in
      let (s₂, list) = store.get_list (trib_key userid) s₁ in
      elim user [
        | none ↦ (s₁, replied e_no_such_user [])
        | some u ↦ elim list [
          | none ↦ (s₂, replied e_no_such_user [])
          | some ids ↦
              let (s₃, tribs) = load_tribbles (shown ids) 0 userid host_port ids s₂ in
              (s₃, elim tribs [ none ↦ failed | some l ↦ replied ok l ])
        ]
      ]

  unfoldable pub post_tribble : String → String → ℕ → Tribserver S → Tribserver S × Status
  post_tribble userid contents now ts =
      let (s₁, user) = store.get (user_key userid) ts.store in
      let id : ℕ = next_id ts.id in
      let (s₂, listed) = store.append_to_list (trib_key userid) (itoa id) s₁ in
      let trib : Tribble = record { userid = userid; posted = now; contents = contents } in
      let (s₃, put) = store.put (post_key userid (itoa id) ts.host_port) (codec.encode trib) s₂ in
      elim user [
        | none ↦ (record ts { store = s₁ }, e_no_such_user)
        | some u ↦
            if listed
            then (record ts { store = s₃; id = id }, if put then ok else e_exists)
            else (record ts { store = s₂; id = id }, e_exists)
      ]

  -- The loop over the users that are followed; `none` is an error of GetTribbles.
  unfoldable pub collect : List String → String → S → S × Option (List Tribble)
  collect [] host_port s = (s, some [])
  collect (userid ∷ follows) host_port s =
      let (s₁, reply) = get_tribbles userid host_port s in
      let (s₂, rest) = collect follows host_port s₁ in
      elim reply [
        | failed ↦ (s₁, none)
        | replied status tribs ↦ elim rest [
          | none ↦ (s₂, none)
          | some later ↦ (s₂, some (tribs ++ later))
        ]
      ]

  unfoldable pub get_tribbles_by_subscription : String → String → S → S × TribblesReply
  get_tribbles_by_subscription userid host_port s =
      let (s₁, user) = store.get (user_key userid) s in
      let (s₂, list) = store.get_list (foll_key userid) s₁ in
      elim user [
        | none ↦ (s₁, replied e_no_such_user [])
        | some u ↦ elim list [
          | none ↦ (s₂, replied e_no_such_user [])
          | some follows ↦
              let (s₃, tribs) = collect follows host_port s₂ in
              (s₃, elim tribs [ none ↦ failed | some l ↦ replied ok (newest (sort_tribs l)) ])
        ]
      ]
