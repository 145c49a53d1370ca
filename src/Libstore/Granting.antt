-- ===== src/Libstore/Granting.antt =====
-- What a get of a client leaves at the server and in the cache (15-440/P2-F11/libstore/libstoreimpl.go,
-- 15-440/P2-F11/storageimpl/storageimpl.go, 15-440/P2-F11/cache/cache.go).
use golang_programming.Prelude.{
  ℕ, ◌+◌, ◌*◌, ◌≤◌, ◌≡◌, ◌⊎◌, inl, inr, refl, subst, String, Bool, true, false, some, List, [], ◌∷◌,
  ◌++◌, arith, ltb, length, if◌then◌else◌, nat_eq, text_eq, get_elem?, Bool-cases, Option-cases,
  GoMap, insert, All-append,
}
use golang_programming.Storage.{
  ok, Stored, text, StorageServer, Holder, GetArgs, LeaseEntry, set_pending, add_lease_pool,
  has_holder, no_lease, full_lease, LeaseStruct, Node, Reply,
}
use golang_programming.Storage as Server
use golang_programming.Storage.Handlers.{write}
use golang_programming.Storage.Handlers as Handlers
use golang_programming.Cache
use golang_programming.Cache.{
  Entry, entry_or_new, is_over, miss, evict, evict_entry, clean, query_cache_thresh,
}
use golang_programming.Libstore.{Libstore, Net, returned, server_of, pick_server, granted}
use golang_programming.Libstore.Leasing.{
  is_usable, HoldsFrom, CoversEntry, holders_of, IsCovered, client_net, tell_all-Revoked,
  CoversEntry-nil, AllUp,
}

-- A put at the server while this client is covered.
pub put-unusable :
    (up : String → Bool) (key value : String) (now : ℕ) (ss : StorageServer) (ls : Libstore)
    → AllUp up (holders_of (ss.lease_pool key))
    → IsCovered key ls ss
    → (ss' : StorageServer) × (leases : GoMap String (Entry Stored)) × (Handlers.put
          (client_net up)
          key
          value
          ss
          (ls, now)
        ≡ some (ss', (record ls { leases = leases }, now), ok))
      × (ss'.hashmap key ≡ some (text value))
      × (is_usable now (leases key) ≡ false)
unfolding Handlers.put Server.revoke_lease
put-unusable up key value now ss ls all c = elim (Option-cases (ss.lease_pool key)) [
  | inl e ↦ (
    write key (text value) ss,
    ls.leases,
    ground (arith, e),
    ground arith,
    CoversEntry-nil ls.host_port now (ls.leases key)
        (subst (λ o. CoversEntry ls.host_port (holders_of o) (ls.leases key)) e c),
  )
  | inr (le, e) ↦
      let (leases, p, q) =
        tell_all-Revoked up key now le.holders ls (subst (λ o. AllUp up (holders_of o)) e all) in
      (
        write key (text value) (set_pending false key le (set_pending true key le ss)),
        leases,
        ground (arith, e, p),
        ground arith,
        q (inr (subst (λ o. CoversEntry ls.host_port (holders_of o) (ls.leases key)) e c)),
      )
]

HoldsFrom-append :
    (client : String) (time now : ℕ) (holders : List Holder)
    → time ≤ now + 2000
    → HoldsFrom client time (holders ++ record { address = client; issue_time = now } ∷ [])
HoldsFrom-append client time now [] le = inl (refl, le)
HoldsFrom-append client time now (h ∷ holders) le =
    inr (HoldsFrom-append client time now holders le)

pub get-hashmap :
    (args : GetArgs) (now : ℕ) (ss : StorageServer)
    → (Server.get args now ss).0.hashmap ≡ ss.hashmap
unfolding Server.get add_lease_pool
get-hashmap args now ss = elim (Option-cases (ss.hashmap args.key)) [
  | inl e ↦ ground arith
  | inr (stored, e) ↦ elim (Option-cases (ss.lease_pool args.key)) [
    | inl f ↦ ground arith
    | inr (le, f) ↦ ground arith
  ]
]

-- A get adds at most its own client to the holders.
pub get-AllUp :
    (up : String → Bool) (args : GetArgs) (now : ℕ) (ss : StorageServer)
    → AllUp up (holders_of (ss.lease_pool args.key))
    → up args.lease_client ≡ true
    → AllUp up (holders_of ((Server.get args now ss).0.lease_pool args.key))
unfolding Server.get add_lease_pool
get-AllUp up args now ss all own =
    let client : Holder = record { address = args.lease_client; issue_time = now } in
    let left : List Holder = holders_of ((Server.get args now ss).0.lease_pool args.key) in
    let added : (holders : List Holder)
        → AllUp up holders
        → holders ++ client ∷ [] ≡ left
        → AllUp up left =
      λ holders h e.
        subst (AllUp up) e
          (All-append (λ (h : Holder). up h.address ≡ true) holders (client ∷ []) h (own, tt)) in
    let kept : holders_of (ss.lease_pool args.key) ≡ left → AllUp up left =
      λ e. subst (AllUp up) e all in
    elim (Option-cases (ss.hashmap args.key)) [
      | inl e ↦ kept (ground arith)
      | inr (stored, e) ↦ elim (Bool-cases args.want_lease) [
        | inr w ↦ kept (ground arith)
        | inl w ↦ elim (Option-cases (ss.lease_pool args.key)) [
          | inl f ↦ added [] tt (ground arith)
          | inr (le, f) ↦
              let held = subst (λ o. AllUp up (holders_of o)) f all in
              elim (Bool-cases le.pending) [
                | inl p ↦ kept (ground arith)
                | inr p ↦ elim (Bool-cases (has_holder args.lease_client le.holders)) [
                  | inl n ↦ kept (ground arith)
                  | inr n ↦ added le.holders held (ground arith)
                ]
              ]
        ]
      ]
    ]

-- The server's answer to a client that is not among the holders.
pub get-leases :
    (args : GetArgs) (now : ℕ) (value : String) (ss : StorageServer)
    → ss.hashmap args.key ≡ some (text value)
    → has_holder args.lease_client (holders_of (ss.lease_pool args.key)) ≡ false
    → let (ss', reply) = Server.get args now ss in
      (reply.status ≡ ok)
      × (reply.value ≡ value)
      × (ss'.hashmap ≡ ss.hashmap)
      × ((reply.lease ≡ no_lease)
          ⊎ ((reply.lease ≡ full_lease)
              × ((time : ℕ)
                  → time ≤ now + 2000
                  → HoldsFrom args.lease_client time (holders_of (ss'.lease_pool args.key)))))
unfolding Server.get add_lease_pool
get-leases args now value ss h n =
    let client : String = args.lease_client in
    let held : List Holder → Type 0 =
      λ holders. (time : ℕ) → time ≤ now + 2000 → HoldsFrom client time holders in
    let issued : List Holder → List Holder =
      λ holders. holders ++ record { address = client; issue_time = now } ∷ [] in
    let holds : (holders : List Holder) → held (issued holders) =
      λ holders time le. HoldsFrom-append client time now holders le in
    let left : List Holder = holders_of ((Server.get args now ss).0.lease_pool args.key) in
    let after : (holders : List Holder) → issued holders ≡ left → held left =
      λ holders e. subst held e (holds holders) in
    (
      ground arith,
      ground arith,
      get-hashmap args now ss,
      elim (Bool-cases args.want_lease) [
        | inr w ↦ inl (ground arith)
        | inl w ↦ elim (Option-cases (ss.lease_pool args.key)) [
          | inl e ↦ inr (ground arith, after [] (ground arith))
          | inr (le, e) ↦ elim (Bool-cases le.pending) [
            | inl p ↦ inl (ground arith)
            | inr p ↦ inr (ground arith, after le.holders (ground arith))
          ]
        ]
      ],
    )

-- An entry that cannot answer is not granted after the eviction.
evict-granted :
    (key : String) (now : ℕ) (c : GoMap String (Entry Stored))
    → is_usable now (c key) ≡ false
    → (entry_or_new (evict now c key)).granted ≡ false
unfolding evict evict_entry
evict-granted key now c u = elim (Option-cases (c key)) [
  | inl p ↦ ground (arith, p)
  | inr (e, p) ↦ ground (arith, p, u)
]

-- A cache that cannot answer.
pub Cache_get-miss :
    (key : String) (now : ℕ) (c : GoMap String (Entry Stored))
    → is_usable now (c key) ≡ false
    → (want : Bool) × (c' : GoMap String (Entry Stored)) × (e : Entry Stored) × (Cache.get key now
          false c
        ≡ (c', miss want))
      × (c' key ≡ some e)
      × (e.granted ≡ false)
unfolding Cache.get
Cache_get-miss key now c u =
    let e : Entry Stored = entry_or_new (evict now c key) in
    let g : e.granted ≡ false = evict-granted key now c u in
    let e' : Entry Stored = record e { ll = e.ll ++ now ∷ [] } in
    (
      (if ltb query_cache_thresh (length e'.ll) then true else false),
      insert key e' (evict now c),
      e',
      ground (arith, g),
      ground arith,
      g,
    )

-- The server that the key belongs to is known and connected.
abbrev pub IsRouted : String → Libstore → Type 0
IsRouted key ls =
    (n : Node) × (get_elem? ls.nodes (server_of key ls.nodes) ≡ some n)
    × (ls.rpc_conn (server_of key ls.nodes) ≡ true)

pub pick_server-routed :
    {B : Type 0} (net : Net B) (key : String) (ls : Libstore) (b : B)
    → IsRouted key ls
    → (host : String) × (pick_server net key ls b ≡ (ls, b, returned host))
unfolding pick_server
pick_server-routed net key ls b (n, p, q) = (n.host_port, ground (arith, p, q))

-- What iGet does with the server's reply, when the cache has the key.
pub granted-returns :
    {B : Type 0} (net : Net B) (key value : String) (ls : Libstore) (b : B) (e : Entry Stored)
    (lease : LeaseStruct)
    → ls.leases key ≡ some e
    → (e' : Entry Stored) × (leases : GoMap String (Entry Stored)) × (granted net key
          (text value)
          value
          lease
          ls
          b
        ≡ (record ls { leases = leases }, b, returned value))
      × (leases key ≡ some e')
      × (((lease.granted ≡ false) × (e' ≡ e))
          ⊎ ((lease.granted ≡ true)
              × (e'.lease_time ≡ net.clock b)
              × (e'.lease_dur ≡ 1000 * lease.valid_seconds)))
unfolding Cache.grant
granted-returns net key value ls b e lease p = elim (Bool-cases lease.granted) [
  | inr g ↦ (e, ls.leases, ground (arith, g), p, inl (g, refl))
  | inl g ↦
      let e' : Entry Stored = record e {
        granted = true;
        val = some (text value);
        lease_time = net.clock b;
        lease_dur = 1000 * lease.valid_seconds;
      } in
      (e', insert key e' ls.leases, ground (arith, g, p), ground arith, inr (g, refl, refl))
]
