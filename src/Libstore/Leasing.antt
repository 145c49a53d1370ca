-- ===== src/Libstore/Leasing.antt =====
-- One client of a storage server and the leases between them (15-440/P2-F11/libstore/libstoreimpl.go,
-- 15-440/P2-F11/storageimpl/storageimpl.go).
use golang_programming.Prelude.{
  ℕ, ◌+◌, ◌≤◌, ◌≡◌, ◌≢◌, ◌⊎◌, inl, inr, refl, ap, ◌∙◌, String, Bool, true, false, not, ◌&&◌, Option,
  none, some, List, [], ◌∷◌, arith, if◌then◌else◌, ◌==◌, nat_eq, text_eq, Bool-cases, Option-cases,
  GoMap, All,
}
use golang_programming.Storage.{
  ok, Stored, text, StorageServer, Holder, GetArgs, LeaseEntry, is_expired, tell, tell_all,
  add_lease_pool,
}
use golang_programming.Storage as Server
use golang_programming.Cache
use golang_programming.Cache.{Entry, is_over}
use golang_programming.Libstore.{Libstore, Net, revoke_lease}

-- The client takes this entry for an answer.
abbrev pub is_usable : ℕ → Option (Entry Stored) → Bool
is_usable now none = false
is_usable now (some e) = e.granted && not (is_over now e)

-- One of the holders is this client, and its lease was issued at most two seconds before this time.
abbrev pub HoldsFrom : String → ℕ → List Holder → Type 0
HoldsFrom client time [] = ⊥
HoldsFrom client time (h ∷ holders) =
    ((h.address ≡ client) × (time ≤ h.issue_time + 2000)) ⊎ HoldsFrom client time holders

-- The holders know of the lease of an entry that is granted, which is no longer than the source's.
abbrev pub CoversEntry : String → List Holder → Option (Entry Stored) → Type 0
CoversEntry client holders none = Unit
CoversEntry client holders (some e) =
    e.granted ≡ true → (e.lease_dur ≤ 10000) × HoldsFrom client e.lease_time holders

abbrev pub holders_of : Option LeaseEntry → List Holder
holders_of none = []
holders_of (some le) = le.holders

abbrev pub IsCovered : String → Libstore → StorageServer → Type 0
IsCovered key ls ss = CoversEntry ls.host_port (holders_of (ss.lease_pool key)) (ls.leases key)

-- What the server reaches when it revokes: this client, and others that do not matter to it. `up`
-- says which of them can be dialled.
abbrev pub client_net : (String → Bool) → Server.Net (Libstore × ℕ)
client_net up = record {
  clock = λ b. b.1;
  dial = λ host b. (b, up host);
  call_revoke = λ host key b. if host == b.0.host_port then ((revoke_lease key b.0).0, b.1) else b;
}

-- What the client reaches: the storage server, whose answer takes `delay` milliseconds.
abbrev pub server_net : ℕ → Net (StorageServer × ℕ) → Net (StorageServer × ℕ)
server_net delay base = record base {
  clock = λ b. b.1;
  call_get =
      λ host args b. let (ss', reply) = Server.get args b.1 b.0 in ((ss', b.1 + delay), some reply);
}

-- These holders can be dialled.
abbrev pub AllUp : (String → Bool) → List Holder → Type 0
AllUp up = All (λ (h : Holder). up h.address ≡ true)

pub is_usable-later :
    (now later : ℕ) (o : Option (Entry Stored))
    → now ≤ later
    → is_usable now o ≡ false
    → is_usable later o ≡ false
is_usable-later now later none le h = refl
is_usable-later now later (some e) le h = ground (arith, le, h)

-- A client after a revocation of the key.
revoke_lease-unusable :
    (key : String) (now : ℕ) (ls : Libstore)
    → ((revoke_lease key ls).0 ≡ record ls { leases = (revoke_lease key ls).0.leases })
      × (is_usable now ((revoke_lease key ls).0.leases key) ≡ false)
unfolding revoke_lease Cache.revoke
revoke_lease-unusable key now ls = elim (Option-cases (ls.leases key)) [
  | inl e ↦ (refl, ground arith)
  | inr (e, f) ↦ (refl, ground arith)
]

-- The lease of a holder that is taken for expired covers an entry only if that is over.
CoversEntry-expired :
    (client : String) (now : ℕ) (h : Holder) (holders : List Holder) (o : Option (Entry Stored))
    → is_expired now h ≡ true
    → CoversEntry client (h ∷ holders) o
    → (is_usable now o ≡ false) ⊎ CoversEntry client holders o
CoversEntry-expired client now h holders none x c = inl refl
CoversEntry-expired client now h holders (some e) x c = elim (Bool-cases e.granted) [
  | inr g ↦ inl (ground (arith, g))
  | inl g ↦ elim ((c g).1) [
    | inl (_, t) ↦ let d = (c g).0 in inl (ground (arith, x, d, t, g))
    | inr rest ↦ inr (λ g'. ((c g).0, rest))
  ]
]

pub CoversEntry-nil :
    (client : String) (now : ℕ) (o : Option (Entry Stored))
    → CoversEntry client [] o
    → is_usable now o ≡ false
CoversEntry-nil client now none c = refl
CoversEntry-nil client now (some e) c = elim (Bool-cases e.granted) [
  | inl g ↦ absurd ((c g).1)
  | inr g ↦ ground (arith, g)
]

CoversEntry-other :
    (client : String) (h : Holder) (holders : List Holder) (o : Option (Entry Stored))
    → h.address ≢ client
    → CoversEntry client (h ∷ holders) o
    → CoversEntry client holders o
CoversEntry-other client h holders none ne c = tt
CoversEntry-other client h holders (some e) ne c =
    λ g. elim ((c g).1) [ inl (a, _) ↦ absurd (ne a) | inr rest ↦ ((c g).0, rest) ]

-- A client after a revocation reached it or was not needed.
abbrev pub Revoked : (String → Bool) → String → ℕ → List Holder → Libstore → Type 0
Revoked up key now holders ls =
    (leases : GoMap String (Entry Stored)) × (tell_all (client_net up) key holders (ls, now)
      ≡ some (record ls { leases = leases }, now))
    × ((is_usable now (ls.leases key) ≡ false) ⊎ CoversEntry ls.host_port holders (ls.leases key)
        → is_usable now (leases key) ≡ false)

pub tell_all-Revoked :
    (up : String → Bool) (key : String) (now : ℕ) (holders : List Holder) (ls : Libstore)
    → AllUp up holders
    → Revoked up key now holders ls
unfolding tell_all
tell_all-Revoked up key now [] ls all = (
  ls.leases,
  refl,
  λ c. elim c [ inl u ↦ u | inr c' ↦ CoversEntry-nil ls.host_port now (ls.leases key) c' ],
)
tell_all-Revoked up key now (h ∷ holders) ls all = elim (Bool-cases (is_expired now h)) [
  | inl x ↦
      let (leases, p, q) = tell_all-Revoked up key now holders ls all.1 in
      (
        leases,
        ground (arith, x, p),
        λ c. elim c [
          | inl u ↦ q (inl u)
          | inr c' ↦ q (CoversEntry-expired ls.host_port now h holders (ls.leases key) x c')
        ],
      )
  | inr x ↦ elim (Bool-cases (h.address == ls.host_port)) [
    | inl e ↦
        let ls' : Libstore = (revoke_lease key ls).0 in
        let (same, u) = revoke_lease-unusable key now ls in
        let (leases, p, q) = tell_all-Revoked up key now holders ls' all.1 in
        (
          leases,
          ground (arith, x, e, p, all.0) ∙ ap (λ l. some (record l { leases = leases }, now)) same,
          λ c. q (inl u),
        )
    | inr e ↦
        let (leases, p, q) = tell_all-Revoked up key now holders ls all.1 in
        (
          leases,
          ground (arith, x, p, e, all.0),
          λ c. elim c [
            | inl u ↦ q (inl u)
            | inr c' ↦ q (
                inr (
                  CoversEntry-other ls.host_port h holders (ls.leases key)
                    (λ a. ground (arith, e, a)) c'))
          ],
        )
  ]
]
