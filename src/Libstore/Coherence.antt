-- ===== src/Libstore/Coherence.antt =====
-- What a client of a storage server reads while it has leases (15-440/P2-F11/libstore/libstoreimpl.go,
-- 15-440/P2-F11/storageimpl/storageimpl.go, 15-440/P2-F11/cache/cache.go).
use golang_programming.Prelude.{
  ℕ, ◌+◌, ◌*◌, ◌≤◌, ◌≡◌, ◌⊎◌, inl, inr, refl, sym, ap, subst, ◌∙◌, String, Bool, true, false, some,
  List, arith, nat_eq, text_eq, false-ne-true, GoMap,
}
use golang_programming.Storage.{
  ok, Stored, text, StorageServer, Holder, GetArgs, LeaseEntry, set_pending, add_lease_pool,
  has_holder, no_lease, full_lease, LeaseStruct, Node, Reply,
}
use golang_programming.Storage as Server
use golang_programming.Storage.Handlers.{write}
use golang_programming.Storage.Handlers as Handlers
use golang_programming.Cache
use golang_programming.Cache.{
  Entry, entry_or_new, is_over, miss, evict, evict_entry, clean, query_cache_thresh,
}
use golang_programming.Libstore.{Libstore, Net, returned, get, fetch, args_of, pick_server, granted}
use golang_programming.Libstore.Leasing.{
  is_usable, HoldsFrom, CoversEntry, holders_of, IsCovered, client_net, AllUp, server_net,
  is_usable-later,
}
use golang_programming.Storage.Lists.{get-written}
use golang_programming.Libstore.Granting.{
  put-unusable, get-AllUp, get-leases, get-hashmap, Cache_get-miss, IsRouted, pick_server-routed,
  granted-returns,
}

module _ {B : Type 0} (net : Net B) where
  get-miss :
      (key : String) (ls : Libstore) (b : B) (want : Bool) (c : GoMap String (Entry Stored))
      → Cache.get key (net.clock b) false ls.leases ≡ (c, miss want)
      → get net key ls b
        ≡ fetch net net.call_get text (args_of net key want ls) (record ls { leases = c }) b
  unfolding get
  get-miss key ls b want c p = ground (arith, p)

  fetch-routed :
      (args : GetArgs) (value host : String) (ls : Libstore) (b b' : B) (reply : Reply String)
      → pick_server net args.key ls b ≡ (ls, b, returned host)
      → net.call_get host args b ≡ (b', some reply)
      → reply.status ≡ ok
      → reply.value ≡ value
      → fetch net net.call_get text args ls b
        ≡ granted net args.key (text value) value reply.lease ls b'
  fetch-routed args value host ls b b' reply p c fine read = ground (arith, p, c, fine, read)

-- A get that the cache could not answer leaves a covered entry.
CoversEntry-kept :
    (client : String) (holders : List Holder) (now delay : ℕ) (e e' : Entry Stored)
    (lease : LeaseStruct)
    → delay ≤ 2000
    → e.granted ≡ false
    → ((lease.granted ≡ false) × (e' ≡ e))
      ⊎ ((lease.granted ≡ true)
          × (e'.lease_time ≡ now + delay)
          × (e'.lease_dur ≡ 1000 * lease.valid_seconds))
    → (lease ≡ no_lease)
      ⊎ ((lease ≡ full_lease) × ((time : ℕ) → time ≤ now + 2000 → HoldsFrom client time holders))
    → CoversEntry client holders (some e')
CoversEntry-kept client holders now delay e e' lease d g (inl (_, same)) given =
    λ g'. absurd (false-ne-true (sym g ∙ ap (λ x. x.granted) (sym same) ∙ g'))
CoversEntry-kept client holders now delay e e' lease d g (inr (l, t, dur)) (inl bare) =
    absurd (false-ne-true (sym (ap (λ x. x.granted) bare) ∙ l))
CoversEntry-kept client holders now delay e e' lease d g (inr (l, t, dur)) (inr (full, holds)) =
    λ g'. (
      omega (arith, dur, ap (λ x. x.valid_seconds) full),
      holds e'.lease_time (omega (arith, t, d)),
    )

module _ (delay : ℕ) (base : Net (StorageServer × ℕ)) (key : String) where
  abbrev net : Net (StorageServer × ℕ)
  net = server_net delay base

  -- A get that the cache cannot answer reads what the server stores.
  get-unusable :
      (value : String) (now : ℕ) (ss : StorageServer) (ls : Libstore)
      → is_usable now (ls.leases key) ≡ false
      → ss.hashmap key ≡ some (text value)
      → IsRouted key ls
      → (ss' : StorageServer) × (leases : GoMap String (Entry Stored)) × (get net key ls (ss, now)
          ≡ (record ls { leases = leases }, (ss', now + delay), returned value))
        × (ss'.hashmap ≡ ss.hashmap)
        × (delay ≤ 2000
            → has_holder ls.host_port (holders_of (ss.lease_pool key)) ≡ false
            → IsCovered key (record ls { leases = leases }) ss')
        × ((up : String → Bool)
            → AllUp up (holders_of (ss.lease_pool key))
            → up ls.host_port ≡ true
            → AllUp up (holders_of (ss'.lease_pool key)))
  unfolding get
  get-unusable value now ss ls u stored routed =
      let (want, c, e, p, q, g) = Cache_get-miss key now ls.leases u in
      let ls₁ : Libstore = record ls { leases = c } in
      let args : GetArgs = args_of net key want ls in
      let ss' : StorageServer = (Server.get args now ss).0 in
      let lease : LeaseStruct = (Server.get args now ss).1.lease in
      let (host, r) = pick_server-routed net key ls₁ (ss, now) routed in
      let (fine, read) = get-written args now ss value stored in
      let (e', leases, returns, at, kept) =
        granted-returns net key value ls₁ (ss', now + delay) e lease q in
      (
        ss',
        leases,
        get-miss net key ls (ss, now) want c p
            ∙ fetch-routed net args value host ls₁ (ss, now) (ss', now + delay)
                (Server.get args now ss).1 r refl fine read
            ∙ returns,
        get-hashmap args now ss,
        (λ d absent.
            let (_, _, _, given) = get-leases args now value ss stored absent in
            subst (CoversEntry ls.host_port (holders_of (ss'.lease_pool key))) (sym at) (
              CoversEntry-kept ls.host_port (holders_of (ss'.lease_pool key)) now delay e e' lease d
                g kept given)),
        λ up all own. get-AllUp up args now ss all own,
      )

  -- When a client whose key is routed to the storage server holds no lease on it there, and has no
  -- answer for it in its cache, and the server can dial the client and all holders of leases on the
  -- key, a get gives the stored value; if that answer takes at most two seconds, a put at the server
  -- then returns OK, and a later get of the client gives the new value.
  pub get_put_get :
      (up : String → Bool) (old value : String) (t₀ t₁ t₂ : ℕ) (ss : StorageServer) (ls : Libstore)
      → delay ≤ 2000
      → t₁ ≤ t₂
      → is_usable t₀ (ls.leases key) ≡ false
      → has_holder ls.host_port (holders_of (ss.lease_pool key)) ≡ false
      → ss.hashmap key ≡ some (text old)
      → IsRouted key ls
      → AllUp up (holders_of (ss.lease_pool key))
      → up ls.host_port ≡ true
      → (ls₁ : Libstore) × (ss₁ : StorageServer) × (get net key ls (ss, t₀)
          ≡ (ls₁, (ss₁, t₀ + delay), returned old))
        × (ls₂ : Libstore) × (ss₂ : StorageServer) × (Handlers.put
              (client_net up)
              key
              value
              ss₁
              (ls₁, t₁)
            ≡ some (ss₂, (ls₂, t₁), ok))
        × ((get net key ls₂ (ss₂, t₂)).2 ≡ returned value)
  get_put_get up old value t₀ t₁ t₂ ss ls d later u absent stored routed all own =
      let (ss₁, c₁, p, _, covers, still_up) = get-unusable old t₀ ss ls u stored routed in
      let ls₁ : Libstore = record ls { leases = c₁ } in
      let (ss₂, c₂, q, written, over) =
        put-unusable up key value t₁ ss₁ ls₁ (still_up up all own) (covers d absent) in
      let ls₂ : Libstore = record ls { leases = c₂ } in
      let (_, _, r, _, _, _) =
        get-unusable value t₂ ss₂ ls₂ (is_usable-later t₁ t₂ (c₂ key) later over) written routed in
      (ls₁, ss₁, p, ls₂, ss₂, q, ap (λ x. x.2) r)
