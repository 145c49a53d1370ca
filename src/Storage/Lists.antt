-- ===== src/Storage/Lists.antt =====
-- What the handlers of the storage server read and write (15-440/P2-F11/storageimpl/storageimpl.go).
use golang_programming.Prelude.{
  ℕ, String, ◌≡◌, refl, ap, subst, ◌∙◌, true, false, none, some, List, [], ◌∷◌, ◌++◌, arith,
  if◌then◌else◌, ◌==◌, text_eq, ◌>>=◌, Option-cases, Bool-cases, inl, inr,
}
use golang_programming.Storage.{
  ok, text, StorageServer, GetArgs, Holder, Net, tell, tell_all, is_expired, set_pending,
  revoke_lease, get,
}
use golang_programming.Storage.Handlers.{put, write, contains, remove_item, list_of}

-- No text stands in the list twice.
abbrev pub IsDistinct : List String → Type 0
IsDistinct [] = Unit
IsDistinct (x ∷ l) = (contains x l ≡ false) × IsDistinct l

-- No stored list has a text twice.
abbrev pub IsTidy : StorageServer → Type 0
IsTidy ss = (key : String) → IsDistinct (list_of key ss)

contains-append :
    (x v : String) (l : List String)
    → contains x (l ++ v ∷ []) ≡ (if contains x l then true else v == x)
contains-append x v [] = ground arith
contains-append x v (y ∷ l) = ground (arith, contains-append x v l)

pub append-IsDistinct :
    (v : String) (l : List String) → IsDistinct l → contains v l ≡ false → IsDistinct (l ++ v ∷ [])
append-IsDistinct v [] d h = (refl, tt)
append-IsDistinct v (x ∷ l) d h =
    (ground (arith, contains-append x v l, d.0), append-IsDistinct v l d.1 (ground arith))

contains-remove_item :
    (x v : String) (l l' : List String)
    → remove_item v l ≡ some l'
    → contains x l ≡ false
    → contains x l' ≡ false
contains-remove_item x v [] l' r h = cc
contains-remove_item x v (y ∷ l) l' r h = elim (Option-cases (remove_item v l)) [
  | inl e ↦ ground arith
  | inr (l₁, e) ↦ ground (arith, contains-remove_item x v l l₁ e)
]

pub remove_item-IsDistinct :
    (v : String) (l l' : List String) → remove_item v l ≡ some l' → IsDistinct l → IsDistinct l'
remove_item-IsDistinct v [] l' r d = cc
remove_item-IsDistinct v (y ∷ l) l' r d = elim (Bool-cases (y == v)) [
  | inl e ↦ subst IsDistinct (ground arith) d.1
  | inr e ↦ elim (Option-cases (remove_item v l)) [
    | inl f ↦ ground arith
    | inr (l₁, f) ↦
        let p : y ∷ l₁ ≡ l' = ground arith in
        subst IsDistinct p
          (contains-remove_item y v l l₁ f d.0, remove_item-IsDistinct v l l₁ f d.1)
  ]
]

-- One after another, each of these holders can be dialled when its turn comes, or its lease is over.
abbrev pub Reachable : {B : Type 0} → Net B → String → List Holder → B → Type 0
Reachable net key [] b = Unit
Reachable net key (h ∷ holders) b =
    (is_expired (net.clock b) h ≡ false → (net.dial h.address b).1 ≡ true)
    × ((b' : _) → tell net key h b ≡ some b' → Reachable net key holders b')

abbrev pub holders_at : String → StorageServer → List Holder
holders_at key ss = elim (ss.lease_pool key) [ none ↦ [] | some e ↦ e.holders ]

tell-total :
    {B : Type 0} (net : Net B) (key : String) (h : Holder) (b : B)
    → (is_expired (net.clock b) h ≡ false → (net.dial h.address b).1 ≡ true)
    → (b' : B) × (tell net key h b ≡ some b')
tell-total net key h b up = elim (Bool-cases (is_expired (net.clock b) h)) [
  | inl e ↦ (b, ground arith)
  | inr e ↦ (net.call_revoke h.address key (net.dial h.address b).0, ground (arith, e, up e))
]

tell_all-total :
    {B : Type 0} (net : Net B) (key : String) (holders : List Holder) (b : B)
    → Reachable net key holders b
    → (b' : B) × (tell_all net key holders b ≡ some b')
unfolding tell_all
tell_all-total net key [] b up = (b, refl)
tell_all-total net key (h ∷ holders) b (up, later) =
    let (b₁, e) = tell-total net key h b up in
    let (b₂, f) = tell_all-total net key holders b₁ (later b₁ e) in
    (b₂, ap (λ m. m >>= tell_all net key holders) e ∙ f)

-- The revocation of leases does not touch what is stored.
pub revoke_lease-hashmap :
    {B : Type 0} (net : Net B) (key : String) (ss ss' : StorageServer) (b b' : B)
    → revoke_lease net key ss b ≡ some (ss', b')
    → ss'.hashmap ≡ ss.hashmap
unfolding revoke_lease
revoke_lease-hashmap net key ss ss' b b' h = elim (Option-cases (ss.lease_pool key)) [
  | inl e ↦ ground arith
  | inr (entry, e) ↦ elim (Option-cases (tell_all net key entry.holders b)) [
    | inl f ↦ ground arith
    | inr (c, f) ↦ ground arith
  ]
]

pub revoke_lease-total :
    {B : Type 0} (net : Net B) (key : String) (ss : StorageServer) (b : B)
    → Reachable net key (holders_at key ss) b
    → (ss' : StorageServer) × (b' : B) × (revoke_lease net key ss b ≡ some (ss', b'))
      × (ss'.hashmap ≡ ss.hashmap)
      × (holders_at key ss' ≡ holders_at key ss)
unfolding revoke_lease
revoke_lease-total net key ss b up = elim (Option-cases (ss.lease_pool key)) [
  | inl e ↦ (ss, b, ground arith, refl, refl)
  | inr (entry, e) ↦
      let here : holders_at key ss ≡ entry.holders = ground (arith, e) in
      let (c, f) =
        tell_all-total net key entry.holders b (subst (λ l. Reachable net key l b) here up) in
      (
        set_pending false key entry (set_pending true key entry ss),
        c,
        ground arith,
        refl,
        ground (arith, here),
      )
]

-- A get depends on nothing but what is stored under its key.
get-reads :
    (args : GetArgs) (now : ℕ) (ss ss' : StorageServer)
    → ss'.hashmap args.key ≡ ss.hashmap args.key
    → ((get args now ss').1.status ≡ (get args now ss).1.status)
      × ((get args now ss').1.value ≡ (get args now ss).1.value)
unfolding get
get-reads args now ss ss' same = elim (Option-cases (ss.hashmap args.key)) [
  | inl e ↦ (ground arith, ground arith)
  | inr (v, e) ↦ (ground arith, ground arith)
]

pub get-written :
    (args : GetArgs) (now : ℕ) (ss : StorageServer) (value : String)
    → ss.hashmap args.key ≡ some (text value)
    → ((get args now ss).1.status ≡ ok) × ((get args now ss).1.value ≡ value)
unfolding get
get-written args now ss value e = (ground arith, ground arith)

write-reads :
    (args : GetArgs) (now : ℕ) (key value : String) (ss ss' : StorageServer)
    → ((k : String) → ss'.hashmap k ≡ ss.hashmap k)
    → ((get args now (write key (text value) ss')).1.status
        ≡ (if args.key == key then ok else (get args now ss).1.status))
      × ((get args now (write key (text value) ss')).1.value
          ≡ (if args.key == key then value else (get args now ss).1.value))
write-reads args now key value ss ss' same = elim (Bool-cases (args.key == key)) [
  | inl e ↦
      let (p, q) = get-written args now (write key (text value) ss') value (ground arith) in
      (ground arith, ground arith)
  | inr e ↦
      let (p, q) =
        get-reads args now ss (write key (text value) ss') (ground (arith, same args.key)) in
      (ground arith, ground arith)
]

module _ {B : Type 0} (net : Net B) where
  -- When every holder of a lease on the key can be dialled when its turn comes, or its lease is over, a
  -- put returns OK, and a get with any arguments then finds the value under that key, and under
  -- another key what it would have found before.
  pub put-reads :
      (key value : String) (ss : StorageServer) (b : B)
      → Reachable net key (holders_at key ss) b
      → (args : GetArgs) (now : ℕ)
      → (ss' : StorageServer) × (b' : B) × (put net key value ss b ≡ some (ss', b', ok))
        × ((get args now ss').1.status
            ≡ (if args.key == key then ok else (get args now ss).1.status))
        × ((get args now ss').1.value
            ≡ (if args.key == key then value else (get args now ss).1.value))
  unfolding put
  put-reads key value ss b up args now =
      let (ss₁, b₁, e, same, _) = revoke_lease-total net key ss b up in
      let reads = write-reads args now key value ss ss₁ (λ k. ap (λ m. m k) same) in
      (
        write key (text value) ss₁,
        b₁,
        ap (λ m. m >>= λ r. some (write key (text value) r.0, r.1, ok)) e,
        reads.0,
        reads.1,
      )
