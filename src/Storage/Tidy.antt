-- ===== src/Storage/Tidy.antt =====
-- The stored lists have no text twice, whatever the clients call (15-440/P2-F11/storageimpl/storageimpl.go).
use golang_programming.Prelude.{
  ℕ, String, ◌≡◌, ap, subst, Option, some, List, [], ◌∷◌, ◌++◌, arith, ◌==◌, text_eq, ◌>>=◌,
  >>=-eq-some, Option-cases, Bool-cases, inl, inr,
}
use golang_programming.Storage.{
  Stored, text, texts, StorageServer, GetArgs, as_texts, Net, revoke_lease, get, get_list,
  add_lease_pool,
}
use golang_programming.Storage.Handlers.{
  put, write, append_item, remove_listed, append_to_list, remove_from_list, contains, remove_item,
  list_of,
}
use golang_programming.Storage.Lists.{
  IsDistinct, IsTidy, append-IsDistinct, remove_item-IsDistinct, revoke_lease-hashmap,
}

-- The calls of the handlers, in some order.
pub data Request : Type 0 where
  gets get_lists : GetArgs → ℕ → Request
  puts appends removes : String → String → Request

module _ {B : Type 0} (net : Net B) where
  unfoldable pub serve_one : Request → StorageServer → B → Option (StorageServer × B)
  serve_one (gets args now) ss b = some ((get args now ss).0, b)
  serve_one (get_lists args now) ss b = some ((get_list args now ss).0, b)
  serve_one (puts key value) ss b = do r ← put net key value ss b; some (r.0, r.1)
  serve_one (appends key v) ss b = do r ← append_to_list net key v ss b; some (r.0, r.1)
  serve_one (removes key v) ss b = do r ← remove_from_list net key v ss b; some (r.0, r.1)

  unfoldable pub serve_all : List Request → StorageServer → B → Option (StorageServer × B)
  serve_all [] ss b = some (ss, b)
  serve_all (q ∷ requests) ss b = do r ← serve_one q ss b; serve_all requests r.0 r.1

module _ {B : Type 0} (net : Net B) where
  IsTidy-kept :
      (ss ss' : StorageServer)
      → ((k : String) → ss'.hashmap k ≡ ss.hashmap k)
      → IsTidy ss
      → IsTidy ss'
  IsTidy-kept ss ss' same tidy k = subst IsDistinct (ground (arith, same k)) (tidy k)

  IsTidy-written :
      (key : String) (stored : Stored) (ss : StorageServer)
      → IsDistinct (as_texts stored)
      → IsTidy ss
      → IsTidy (write key stored ss)
  IsTidy-written key stored ss d tidy k = elim (Bool-cases (k == key)) [
    | inl e ↦ subst IsDistinct (ground arith) d
    | inr e ↦ subst IsDistinct (ground arith) (tidy k)
  ]

  revoke_lease-IsTidy :
      (key : String) (ss ss' : StorageServer) (b b' : B)
      → revoke_lease net key ss b ≡ some (ss', b')
      → IsTidy ss
      → IsTidy ss'
  revoke_lease-IsTidy key ss ss' b b' e =
      IsTidy-kept ss ss' (λ k. ap (λ m. m k) (revoke_lease-hashmap net key ss ss' b b' e))

  get-hashmap :
      (args : GetArgs) (now : ℕ) (ss : StorageServer)
      → ((get args now ss).0.hashmap ≡ ss.hashmap) × ((get_list args now ss).0.hashmap ≡ ss.hashmap)
  unfolding get get_list add_lease_pool
  get-hashmap args now ss = (ground arith, ground arith)

  append_item-IsTidy :
      (key v : String) (ss : StorageServer) → IsTidy ss → IsTidy (append_item key v ss).0
  append_item-IsTidy key v ss tidy = elim (Bool-cases (contains v (list_of key ss))) [
    | inl e ↦ IsTidy-kept ss (append_item key v ss).0 (λ k. ground arith) tidy
    | inr e ↦
        IsTidy-kept (write key (texts (list_of key ss ++ v ∷ [])) ss) (append_item key v ss).0
          (λ k. ground arith)
          (IsTidy-written key (texts (list_of key ss ++ v ∷ [])) ss
            (append-IsDistinct v (list_of key ss) (tidy key) e) tidy)
  ]

  remove_listed-IsTidy :
      (key v : String) (l : List String) (ss : StorageServer)
      → IsDistinct l
      → IsTidy ss
      → IsTidy (remove_listed key v l ss).0
  remove_listed-IsTidy key v l ss d tidy = elim (Option-cases (remove_item v l)) [
    | inl e ↦ IsTidy-kept ss (remove_listed key v l ss).0 (λ k. ground arith) tidy
    | inr (l', e) ↦
        IsTidy-kept (write key (texts l') ss) (remove_listed key v l ss).0 (λ k. ground arith)
          (IsTidy-written key (texts l') ss (remove_item-IsDistinct v l l' e d) tidy)
  ]

  serve_one-IsTidy :
      (q : Request) (ss ss' : StorageServer) (b b' : B)
      → serve_one net q ss b ≡ some (ss', b')
      → IsTidy ss
      → IsTidy ss'
  unfolding serve_one put append_to_list remove_from_list
  serve_one-IsTidy (gets args now) ss ss' b b' h tidy =
      IsTidy-kept ss ss' (λ k. ground (arith, ap (λ m. m k) (get-hashmap args now ss).0)) tidy
  serve_one-IsTidy (get_lists args now) ss ss' b b' h tidy =
      IsTidy-kept ss ss' (λ k. ground (arith, ap (λ m. m k) (get-hashmap args now ss).1)) tidy
  serve_one-IsTidy (puts key value) ss ss' b b' h tidy =
      elim (Option-cases (revoke_lease net key ss b)) [
        | inl e ↦ ground arith
        | inr ((r, c), e) ↦
            IsTidy-kept (write key (text value) r) ss' (λ k. ground arith)
              (IsTidy-written key (text value) r tt (revoke_lease-IsTidy key ss r b c e tidy))
      ]
  serve_one-IsTidy (appends key v) ss ss' b b' h tidy =
      elim (Option-cases (revoke_lease net key ss b)) [
        | inl e ↦ ground arith
        | inr ((r, c), e) ↦
            IsTidy-kept (append_item key v r).0 ss' (λ k. ground arith)
              (append_item-IsTidy key v r (revoke_lease-IsTidy key ss r b c e tidy))
      ]
  serve_one-IsTidy (removes key v) ss ss' b b' h tidy = elim (Option-cases (ss.hashmap key)) [
    | inl e ↦ IsTidy-kept ss ss' (λ k. ground arith) tidy
    | inr (stored, f) ↦ elim (Option-cases (revoke_lease net key ss b)) [
      | inl e ↦ ground arith
      | inr ((r, c), e) ↦
          IsTidy-kept (remove_listed key v (as_texts stored) r).0 ss' (λ k. ground arith)
            (remove_listed-IsTidy key v (as_texts stored) r
              (subst IsDistinct (ground arith) (tidy key))
              (revoke_lease-IsTidy key ss r b c e tidy))
    ]
  ]

  -- However many calls return one after another, no stored list gets a text twice.
  pub serve_all-IsTidy :
      (requests : List Request) (ss ss' : StorageServer) (b b' : B)
      → serve_all net requests ss b ≡ some (ss', b')
      → IsTidy ss
      → IsTidy ss'
  unfolding serve_all
  serve_all-IsTidy [] ss ss' b b' h tidy = subst IsTidy {x = ss} {y = ss'} (ground arith) tidy
  serve_all-IsTidy (q ∷ requests) ss ss' b b' h tidy =
      let ((r, c), e, f) =
        >>=-eq-some (serve_one net q ss b) (λ p. serve_all net requests p.0 p.1) h in
      serve_all-IsTidy requests r ss' c b' f (serve_one-IsTidy q ss r b c e tidy)
