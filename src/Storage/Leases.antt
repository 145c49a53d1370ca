-- ===== src/Storage/Leases.antt =====
-- Leases and their revocation (15-440/P2-F11/storageimpl/storageimpl.go).
use golang_programming.Prelude.{
  ℕ, String, ◌≡◌, refl, ap, ◌∙◌, true, false, none, some, List, [], ◌∷◌, ◌++◌, arith, text_eq,
  ◌>>=◌, All, Option-cases, inl, inr, ◌⊎◌, ◌↔◌,
}
use golang_programming.Storage.{
  ok, text, Stored, StorageServer, GetArgs, Holder, LeaseEntry, full_lease, has_holder, Net, tell,
  tell_all, is_expired, set_pending, revoke_lease, get, add_lease_pool,
}
use golang_programming.Storage.Handlers.{write, put}

-- Every holder's time is over.
abbrev pub AllExpired : ℕ → List Holder → Type 0
AllExpired now = All (λ h. is_expired now h ≡ true)

tell_all-expired :
    {B : Type 0} (net : Net B) (key : String) (holders : List Holder) (b : B)
    → AllExpired (net.clock b) holders
    → tell_all net key holders b ≡ some b
unfolding tell_all
tell_all-expired net key [] b a = refl
tell_all-expired net key (h ∷ holders) b a =
    ground (arith, a.0, tell_all-expired net key holders b a.1)

-- A client that is among the holders of a key gets a new lease, yet its time is not renewed: when the
-- holders' first leases are over, a put after that get calls nobody and returns OK.
pub renewal_not_revoked :
    {B : Type 0} (net : Net B) (args : GetArgs) (value : String) (stored : Stored)
    (ss : StorageServer) (e : LeaseEntry) (b : B)
    → ss.hashmap args.key ≡ some stored
    → ss.lease_pool args.key ≡ some e
    → e.pending ≡ false
    → args.want_lease ≡ true
    → has_holder args.lease_client e.holders ≡ true
    → AllExpired (net.clock b) e.holders
    → let (ss', reply) = get args (net.clock b) ss in
      (reply.lease ≡ full_lease)
      × (ss'' : StorageServer) × (put net args.key value ss' b ≡ some (ss'', b, ok))
unfolding get add_lease_pool put revoke_lease
renewal_not_revoked net args value stored ss e b h p q w i a = (
  ground arith,
  write args.key (text value) (set_pending false args.key e (set_pending true args.key e ss)),
  ground (arith, tell_all-expired net args.key e.holders b a),
)

-- A revocation leaves what is stored, and an entry that is not pending.
revoke_lease-free :
    {B : Type 0} (net : Net B) (key : String) (ss ss' : StorageServer) (b b' : B)
    → revoke_lease net key ss b ≡ some (ss', b')
    → (ss'.hashmap key ≡ ss.hashmap key)
      × ((ss'.lease_pool key ≡ none)
          ⊎ ((e : LeaseEntry) × (ss'.lease_pool key ≡ some e) × (e.pending ≡ false)))
unfolding revoke_lease
revoke_lease-free net key ss ss' b b' r = elim (Option-cases (ss.lease_pool key)) [
  | inl p ↦ (ground arith, inl (ground arith))
  | inr (e, p) ↦ elim (Option-cases (tell_all net key e.holders b)) [
    | inl q ↦ ground arith
    | inr (c, q) ↦ (ground arith, inr (record e { pending = false }, ground arith, refl))
  ]
]

-- Without a pending revocation a get that wants a lease is granted one.
get-grants :
    (args : GetArgs) (now : ℕ) (old : String) (ss : StorageServer)
    → ss.hashmap args.key ≡ some (text old)
    → (ss.lease_pool args.key ≡ none)
      ⊎ ((e : LeaseEntry) × (ss.lease_pool args.key ≡ some e) × (e.pending ≡ false))
    → args.want_lease ≡ true
    → ((get args now ss).1.lease ≡ full_lease) × ((get args now ss).1.value ≡ old)
unfolding get add_lease_pool
get-grants args now old ss h (inl p) w = (ground arith, ground arith)
get-grants args now old ss h (inr (e, p, q)) w = (ground arith, ground arith)

-- Between the revocation of the leases on a key and the write of a put, a get by a new holder is
-- granted a lease on the old value, and after the write every get of the key reads the new one.
pub gap_lease_is_stale :
    {B : Type 0} (net : Net B) (args again : GetArgs) (now later : ℕ) (old value : String)
    (ss ss' : StorageServer) (b b' : B)
    → ss.hashmap args.key ≡ some (text old)
    → revoke_lease net args.key ss b ≡ some (ss', b')
    → args.want_lease ≡ true
    → again.key ≡ args.key
    → let (ss₁, reply) = get args now ss' in
      (reply.lease ≡ full_lease)
      × (reply.value ≡ old)
      × ((get again later (write args.key (text value) ss₁)).1.value ≡ value)
unfolding get add_lease_pool revoke_lease
gap_lease_is_stale net args again now later old value ss ss' b b' h r w s =
    let (stored, entry) = revoke_lease-free net args.key ss ss' b b' r in
    let (granted, read) = get-grants args now old ss' (stored ∙ h) entry w in
    (granted, read, ground arith)

-- How a put can panic: some holder, after the holders before it were told, still has its time, and the
-- dial fails.
pub record Unreached {B : Type 0} (net : Net B) (key : String) (holders : List Holder) (b : B)
    : Type 0 where
  pub before : List Holder
  pub holder : Holder
  pub after : List Holder
  pub then_world : B
  pub split : holders ≡ before ++ holder ∷ after
  pub told : tell_all net key before b ≡ some then_world
  pub alive : is_expired (net.clock then_world) holder ≡ false
  pub no_dial : (net.dial holder.address then_world).1 ≡ false

tell_all-append :
    {B : Type 0} (net : Net B) (key : String) (front rest : List Holder) (b : B)
    → tell_all net key (front ++ rest) b ≡ (tell_all net key front b >>= tell_all net key rest)
unfolding tell_all
tell_all-append net key [] rest b = refl
tell_all-append net key (h ∷ front) rest b = elim (Option-cases (tell net key h b)) [
  | inl e ↦ ground arith
  | inr (c, e) ↦ ground (arith, tell_all-append net key front rest c)
]

tell_all-none :
    {B : Type 0} (net : Net B) (key : String) (holders : List Holder) (b : B)
    → tell_all net key holders b ≡ none
    → Unreached net key holders b
unfolding tell_all
tell_all-none net key [] b h = cc
tell_all-none net key (x ∷ holders) b h = elim (Option-cases (tell net key x b)) [
  | inl e ↦ record {
    before = [];
    holder = x;
    after = holders;
    then_world = b;
    split = refl;
    told = refl;
    alive = ground arith;
    no_dial = ground arith;
  }
  | inr (c, e) ↦
      let u = tell_all-none net key holders c (ground arith) in
      record {
        before = x ∷ u.before;
        holder = u.holder;
        after = u.after;
        then_world = u.then_world;
        split = ap (λ l. x ∷ l) u.split;
        told = ground (arith, u.told);
        alive = u.alive;
        no_dial = u.no_dial;
      }
]

tell_all-Unreached :
    {B : Type 0} (net : Net B) (key : String) (holders : List Holder) (b : B)
    → Unreached net key holders b
    → tell_all net key holders b ≡ none
unfolding tell_all
tell_all-Unreached net key holders b u =
    ap (λ l. tell_all net key l b) u.split
    ∙ tell_all-append net key u.before (u.holder ∷ u.after) b
    ∙ ap (λ m. m >>= tell_all net key (u.holder ∷ u.after)) u.told
    ∙ ground (arith, u.alive, u.no_dial)

-- A put to a key with a lease entry panics exactly if the dial of a holder fails whose time is not over,
-- after the holders before it were told.
pub put-Unreached :
    {B : Type 0} (net : Net B) (key value : String) (ss : StorageServer) (e : LeaseEntry) (b : B)
    → ss.lease_pool key ≡ some e
    → (put net key value ss b ≡ none) ↔ Unreached net key e.holders b
unfolding put revoke_lease
put-Unreached net key value ss e b p = (
  (λ h. tell_all-none net key e.holders b (elim (Option-cases (tell_all net key e.holders b)) [
    | inl q ↦ q
    | inr (c, q) ↦ ground arith
  ])),
  (λ u. ground (arith, tell_all-Unreached net key e.holders b u)),
)
