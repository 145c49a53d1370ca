-- ===== src/Libstore/Routing.antt =====
-- Which server a key belongs to (15-440/P2-F11/libstore/libstoreimpl.go and libstore.go).
use Prim.Native.Char.{code}
use Prim.Native.String.{◌++◌ as ◌<>◌}
use text.Mathlib.TextLemmas.{nil-append, cons-append}
use golang_programming.Prelude.{
  ℕ, suc, ◌+◌, ◌≤◌, ◌<◌, ◌≡◌, ◌≢◌, ◌⊎◌, inl, inr, refl, sym, ap, subst, ◌∙◌, String, Bool, true,
  not, ◌&&◌, some, List, [], ◌∷◌, arith, leb, ◌==◌, nat_eq, get_elem?, All, Bool-cases, All-weaken,
  ℕ_discrete,
}
use golang_programming.Storage.{Node}
use golang_programming.Libstore.{
  before_colon, store_hash, pick_id, server_of, insert_node, sort_nodes,
}

abbrev pub no_colon : String → Bool
no_colon String.[] = true
no_colon (String.◌∷◌ c s) = not (code c == b':') && no_colon s

before_colon-user :
    (user rest : String) → no_colon user ≡ true → before_colon (user <> ":" <> rest) ≡ user
unfolding before_colon ℕ_discrete
before_colon-user String.[] rest h =
    ap before_colon (nil-append (":" <> rest)) ∙ ap before_colon (cons-append ":" String.[] rest)
before_colon-user (String.◌∷◌ c s) rest h =
    ap before_colon (cons-append c s (":" <> rest)) ∙ ground (arith, before_colon-user s rest)

-- The ids of the nodes rise.
abbrev pub AreAscending : List Node → Type 0
AreAscending [] = Unit
AreAscending (n ∷ nodes) = All (λ m. n.node_id ≤ m.node_id) nodes × AreAscending nodes

insert_node-cases :
    (n m : Node) (nodes : List Node)
    → ((insert_node n (m ∷ nodes) ≡ n ∷ m ∷ nodes) × (n.node_id ≤ m.node_id))
      ⊎ ((insert_node n (m ∷ nodes) ≡ m ∷ insert_node n nodes) × (m.node_id ≤ n.node_id))
insert_node-cases n m nodes = elim (Bool-cases (leb n.node_id m.node_id)) [
  | inl e ↦ inl (ground arith, ground arith)
  | inr e ↦ inr (ground arith, ground arith)
]

insert_node-All :
    (P : Node → Type 0) (n : Node) (nodes : List Node)
    → P n
    → All P nodes
    → All P (insert_node n nodes)
insert_node-All P n [] p all = (p, tt)
insert_node-All P n (m ∷ nodes) p all = elim (insert_node-cases n m nodes) [
  | inl (e, le) ↦ subst (All P) (sym e) (p, all)
  | inr (e, le) ↦ subst (All P) (sym e) (all.0, insert_node-All P n nodes p all.1)
]

insert_node-AreAscending :
    (n : Node) (nodes : List Node) → AreAscending nodes → AreAscending (insert_node n nodes)
insert_node-AreAscending n [] asc = (tt, tt)
insert_node-AreAscending n (m ∷ nodes) asc = elim (insert_node-cases n m nodes) [
  | inl (e, le) ↦
      subst AreAscending (sym e)
        ((le, All-weaken _ _ nodes (λ k lt. omega (arith, le, lt)) asc.0), asc)
  | inr (e, le) ↦
      subst AreAscending (sym e)
        (insert_node-All _ n nodes le asc.0, insert_node-AreAscending n nodes asc.1)
]

sort_nodes-AreAscending : (servers : List Node) → AreAscending (sort_nodes servers)
unfolding sort_nodes
sort_nodes-AreAscending [] = tt
sort_nodes-AreAscending (n ∷ servers) =
    insert_node-AreAscending n (sort_nodes servers) (sort_nodes-AreAscending servers)

-- A predicate of all sorted nodes is one of all nodes.
insert_node-All_back :
    (P : Node → Type 0) (n : Node) (nodes : List Node)
    → All P (insert_node n nodes)
    → P n × All P nodes
insert_node-All_back P n [] all = (all.0, tt)
insert_node-All_back P n (m ∷ nodes) all = elim (insert_node-cases n m nodes) [
  | inl (e, le) ↦ subst (All P) e all
  | inr (e, le) ↦
      let (q, rest) = subst (All P) e all in
      let (p, back) = insert_node-All_back P n nodes rest in (p, (q, back))
]

sort_nodes-All :
    (P : Node → Type 0) (servers : List Node) → All P (sort_nodes servers) → All P servers
unfolding sort_nodes
sort_nodes-All P [] all = tt
sort_nodes-All P (n ∷ servers) all =
    let (p, rest) = insert_node-All_back P n (sort_nodes servers) all in
    (p, sort_nodes-All P servers rest)

-- The owner of a hash among the nodes is the one with the least id from the hash on, and the one with
-- the least id of all if every id is below the hash.
abbrev pub IsOwner : ℕ → Node → List Node → Type 0
IsOwner hash n nodes =
    ((hash ≤ n.node_id) × All (λ m. hash ≤ m.node_id → n.node_id ≤ m.node_id) nodes)
    ⊎ (All (λ m. m.node_id < hash) nodes × All (λ m. n.node_id ≤ m.node_id) nodes)

-- The loop from index `i` on finds the first node whose id is not below the hash, or returns 0.
pick_id-first :
    (hash i : ℕ) (nodes : List Node)
    → AreAscending nodes
    → ((j : ℕ) × (n : Node) × (pick_id hash i nodes ≡ i + j)
        × (get_elem? nodes j ≡ some n)
        × (hash ≤ n.node_id)
        × All (λ m. hash ≤ m.node_id → n.node_id ≤ m.node_id) nodes)
      ⊎ ((pick_id hash i nodes ≡ 0) × All (λ m. m.node_id < hash) nodes)
unfolding pick_id
pick_id-first hash i [] asc = inr (refl, tt)
pick_id-first hash i (n ∷ nodes) asc = elim (Bool-cases (leb hash n.node_id)) [
  | inl e ↦ inl (
    0,
    n,
    ground arith,
    refl,
    ground arith,
    ((λ h. omega arith), All-weaken _ _ nodes (λ m le h. le) asc.0),
  )
  | inr e ↦ elim (pick_id-first hash (i + 1) nodes asc.1) [
    | inl (j, m, p, q, le, all) ↦
        inl (suc j, m, ground (arith, p), q, le, ((λ h. ground arith), all))
    | inr (p, all) ↦ inr (ground (arith, p), (ground arith, all))
  ]
]

sort_nodes-head :
    (nodes : List Node)
    → AreAscending nodes
    → nodes ≢ []
    → (n : Node) × (get_elem? nodes 0 ≡ some n) × All (λ m. n.node_id ≤ m.node_id) nodes
sort_nodes-head [] asc ne = absurd (ne refl)
sort_nodes-head (n ∷ nodes) asc ne = (n, refl, (omega arith, asc.0))

sorted-IsOwner :
    (hash : ℕ) (nodes : List Node)
    → AreAscending nodes
    → nodes ≢ []
    → (n : Node) × (get_elem? nodes (pick_id hash 0 nodes) ≡ some n) × IsOwner hash n nodes
sorted-IsOwner hash nodes asc ne = elim (pick_id-first hash 0 nodes asc) [
  | inl (j, n, p, q, le, all) ↦ (n, ap (get_elem? nodes) (omega (arith, p)) ∙ q, inl (le, all))
  | inr (p, all) ↦
      let (n, q, least) = sort_nodes-head nodes asc ne in
      (n, ap (get_elem? nodes) p ∙ q, inr (all, least))
]

sort_nodes-IsOwner :
    (hash : ℕ) (n : Node) (servers : List Node)
    → IsOwner hash n (sort_nodes servers)
    → IsOwner hash n servers
sort_nodes-IsOwner hash n servers (inl (le, all)) = inl (le, sort_nodes-All _ servers all)
sort_nodes-IsOwner hash n servers (inr (all, least)) =
    inr (sort_nodes-All _ servers all, sort_nodes-All _ servers least)

insert_node-ne : (n : Node) (nodes : List Node) → insert_node n nodes ≢ []
insert_node-ne n [] h = cc
insert_node-ne n (m ∷ nodes) h = elim (insert_node-cases n m nodes) [
  | inl (e, _) ↦ cc
  | inr (e, _) ↦ cc
]

sort_nodes-ne : (servers : List Node) → servers ≢ [] → sort_nodes servers ≢ []
unfolding sort_nodes
sort_nodes-ne [] ne h = ne refl
sort_nodes-ne (n ∷ servers) ne h = insert_node-ne n (sort_nodes servers) h

-- Every key that begins with the name of a user and a colon goes to one node, if the name has no
-- colon: the one with the least id from the name's hash on, or with the least id of all if there is
-- none, and the server exists.
pub server_of-IsOwner :
    (user rest : String) (servers : List Node)
    → no_colon user ≡ true
    → servers ≢ []
    → (n : Node) × (get_elem?
          (sort_nodes servers)
          (server_of (user <> ":" <> rest) (sort_nodes servers))
        ≡ some n)
      × IsOwner (store_hash user) n servers
unfolding server_of
server_of-IsOwner user rest servers plain ne =
    let nodes : List Node = sort_nodes servers in
    let (n, p, owns) =
      sorted-IsOwner (store_hash user) nodes (sort_nodes-AreAscending servers)
        (sort_nodes-ne servers ne) in
    (
      n,
      ap (λ u. get_elem? nodes (pick_id (store_hash u) 0 nodes)) (before_colon-user user rest plain)
          ∙ p,
      sort_nodes-IsOwner (store_hash user) n servers owns,
    )
