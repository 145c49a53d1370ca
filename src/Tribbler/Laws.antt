-- ===== src/Tribbler/Laws.antt =====
-- What the handlers of the tribbler server rely on in a library store, and the store of one storage
-- server without leases (15-440/P2-F11/storageimpl/storageimpl.go), which has these laws.
use golang_programming.Prelude.{
  ◌≡◌, ◌≢◌, refl, String, Bool, true, false, Option, none, some, List, [], ◌∷◌, ◌++◌, arith,
  text_eq, Option-cases, Bool-cases, inl, inr,
}
use golang_programming.Storage.{Status, ok, text, StorageServer, as_text, as_texts}
use golang_programming.Storage.Handlers.{write, contains, list_of, append_item, remove_listed}
use golang_programming.Tribbler.{Store}

-- `text_at` and `list_at` are what a key holds.
pub record IsLawful {S : Type 0} (store : Store S) (text_at : S → String → Option String)
    (list_at : S → String → Option (List String)) : Type 0 where
  pub get_lem : (s : S) (k : String) → (store.get k s).1 ≡ text_at s k
  pub get-text_at : (s : S) (k j : String) → text_at (store.get k s).0 j ≡ text_at s j
  pub get-list_at : (s : S) (k j : String) → list_at (store.get k s).0 j ≡ list_at s j
  pub get_list_lem : (s : S) (k : String) → (store.get_list k s).1 ≡ list_at s k
  pub get_list-text_at : (s : S) (k j : String) → text_at (store.get_list k s).0 j ≡ text_at s j
  pub get_list-list_at : (s : S) (k j : String) → list_at (store.get_list k s).0 j ≡ list_at s j
  pub put-text_at :
      (s : S) (k v : String) → (store.put k v s).1 ≡ true → text_at (store.put k v s).0 k ≡ some v
  pub put-others :
      (s : S) (k v j : String)
      → j ≢ k
      → (text_at (store.put k v s).0 j ≡ text_at s j)
        × (list_at (store.put k v s).0 j ≡ list_at s j)
  pub append-list_at :
      (s : S) (k v : String) (l : List String)
      → list_at s k ≡ some l
      → (store.append_to_list k v s).1 ≡ true
      → list_at (store.append_to_list k v s).0 k ≡ some (l ++ v ∷ [])
  pub append-others :
      (s : S) (k v j : String)
      → j ≢ k
      → (text_at (store.append_to_list k v s).0 j ≡ text_at s j)
        × (list_at (store.append_to_list k v s).0 j ≡ list_at s j)

abbrev is_ok : Status → Bool
is_ok ok = true
is_ok _ = false

abbrev pub stored_text : StorageServer → String → Option String
stored_text ss k = elim (ss.hashmap k) [ none ↦ none | some stored ↦ some (as_text stored) ]

abbrev pub stored_list : StorageServer → String → Option (List String)
stored_list ss k = elim (ss.hashmap k) [ none ↦ none | some stored ↦ some (as_texts stored) ]

abbrev appended : String → String → StorageServer → StorageServer × Bool
appended k v ss = let (ss', status) = append_item k v ss in (ss', is_ok status)

abbrev removed : String → String → StorageServer → StorageServer × Bool
removed k v ss = elim (ss.hashmap k) [
  | none ↦ (ss, false)
  | some stored ↦ let (ss', status) = remove_listed k v (as_texts stored) ss in (ss', is_ok status)
]

-- Get, Put, GetList, AppendToList and RemoveFromList of a storage server that no one has a lease of.
abbrev pub storage_store : Store StorageServer
storage_store = record {
  get = λ k ss. (ss, stored_text ss k);
  put = λ k v ss. (write k (text v) ss, true);
  get_list = λ k ss. (ss, stored_list ss k);
  append_to_list = appended;
  remove_from_list = removed;
}

append-list :
    (ss : StorageServer) (k v : String) (l : List String)
    → stored_list ss k ≡ some l
    → (appended k v ss).1 ≡ true
    → stored_list (appended k v ss).0 k ≡ some (l ++ v ∷ [])
append-list ss k v l e h = elim (Option-cases (ss.hashmap k)) [
  | inl f ↦ ground arith
  | inr (stored, f) ↦ elim (Bool-cases (contains v (list_of k ss))) [
    | inl g ↦ ground arith
    | inr g ↦ ground arith
  ]
]

append-hashmap :
    (ss : StorageServer) (k v j : String) → j ≢ k → (appended k v ss).0.hashmap j ≡ ss.hashmap j
append-hashmap ss k v j ne = elim (Bool-cases (contains v (list_of k ss))) [
  | inl g ↦ ground arith
  | inr g ↦ ground arith
]

-- The storage server has the laws.
pub storage_store-IsLawful : IsLawful storage_store stored_text stored_list
storage_store-IsLawful = record {
  get_lem = λ ss k. refl;
  get-text_at = λ ss k j. refl;
  get-list_at = λ ss k j. refl;
  get_list_lem = λ ss k. refl;
  get_list-text_at = λ ss k j. refl;
  get_list-list_at = λ ss k j. refl;
  put-text_at = λ ss k v h. ground arith;
  put-others = λ ss k v j ne. (ground arith, ground arith);
  append-list_at = append-list;
  append-others = λ ss k v j ne.
      (ground (arith, append-hashmap ss k v j ne), ground (arith, append-hashmap ss k v j ne));
}
