-- ===== src/Storage/Registering.antt =====
-- A server that starts and registers at a master, while calls are lost
-- (15-440/P2-F11/storageimpl/storageimpl.go).
use golang_programming.Prelude.{
  ℕ, zero, suc, ◌<◌, ◌≡◌, refl, sym, subst, ap, ◌∙◌, String, Bool, true, Option, none, some, List,
  [], ◌∷◌, arith, length, text_eq, nat_eq, Bool-cases, inl, inr,
}
use golang_programming.Network as Network
use golang_programming.Network.{unreached, unanswered, deliver}
use golang_programming.Storage.{Node, StorageServer}
use golang_programming.Storage.Handlers.{RegisterReply, register_server, get_servers, is_node}
use golang_programming.Storage.Start.{Master, is_ready, register_loop}
use golang_programming.Storage.Nodes.{register_server-known, register_server-nodes, same_node_refl}

-- A master that servers and clients call, and what becomes of their calls to come; after those every
-- call is answered.
pub record World : Type 0 where
  pub master : StorageServer
  pub fates : List Network.Outcome

abbrev pub world : StorageServer → List Network.Outcome → World
world ss fates = record { master = ss; fates = fates }

-- A call of the master, with its fate.
abbrev pub call_master :
    {R : Type 0} → (StorageServer → StorageServer × R) → World → World × Option R
call_master handler w = elim w.fates [
  | [] ↦ let (ss, reply) = handler w.master in (world ss [], some reply)
  | o ∷ fates ↦
      deliver o (λ (t : World). let (ss, reply) = handler t.master in (world ss t.fates, reply))
        (world w.master fates)
]

-- What a server reaches that starts; `up` says which hosts can be dialled.
abbrev pub master_net : (String → Bool) → Master World
master_net up = record {
  dial = λ host w. (w, up host);
  call_register = λ n. call_master (register_server n);
}

is_node-register_server :
    (n : Node) (ss : StorageServer)
    → ss.is_master ≡ true
    → is_node n (register_server n ss).0.nodes ≡ true
is_node-register_server n ss m =
    let e = (register_server-nodes n ss m).1 in
    elim (Bool-cases (is_node n ss.nodes)) [
      | inl f ↦ ap (is_node n) e ∙ ground (arith, f)
      | inr f ↦ ap (is_node n) e ∙ ground (arith, f, same_node_refl n)
    ]

-- Where calls of Register leave the master: only the fates are used up.
abbrev pub Leaves : World → StorageServer → Type 0
Leaves w ss = (fates : List Network.Outcome) × (w ≡ world ss fates)

module _ (up : String → Bool) where
  loop-lost :
      (rounds : ℕ) (n : Node) (w w' : World)
      → (master_net up).call_register n w ≡ (w', none)
      → register_loop (master_net up) (suc rounds) n w ≡ register_loop (master_net up) rounds n w'
  unfolding register_loop
  loop-lost rounds n w w' e = ground (arith, e)

  loop-replied :
      (rounds : ℕ) (n : Node) (w w' : World) (reply : RegisterReply) (ss : StorageServer)
      → (master_net up).call_register n w ≡ (w', some reply)
      → Leaves w' ss
      → Leaves (register_loop (master_net up) rounds n w') ss
      → Leaves (register_loop (master_net up) (suc rounds) n w) ss
  unfolding register_loop
  loop-replied rounds n w w' reply ss e (fates, p) (fates', q) =
      elim (Bool-cases (is_ready (some reply))) [
        | inl r ↦ (fates, ground (arith, e, r, p))
        | inr r ↦ (fates', ground (arith, e, r, q))
      ]

  loop-known :
      (rounds : ℕ) (n : Node) (ss : StorageServer) (fates : List Network.Outcome)
      → ss.is_master ≡ true
      → is_node n ss.nodes ≡ true
      → Leaves (register_loop (master_net up) rounds n (world ss fates)) ss
  unfolding register_loop
  loop-known zero n ss fates m k = (fates, refl)
  loop-known (suc rounds) n ss [] m k =
      loop-replied rounds n (world ss []) (world ss []) (get_servers ss) ss
        (ap (λ r. (world r.0 [], some r.1)) (register_server-known n ss m k)) ([], refl)
        (loop-known rounds n ss [] m k)
  loop-known (suc rounds) n ss (unreached ∷ fates) m k =
      subst (λ w. Leaves w ss)
        (sym (loop-lost rounds n (world ss (unreached ∷ fates)) (world ss fates) refl))
        (loop-known rounds n ss fates m k)
  loop-known (suc rounds) n ss (unanswered ∷ fates) m k =
      subst (λ w. Leaves w ss)
        (sym (
          loop-lost rounds n (world ss (unanswered ∷ fates)) (world ss fates)
            (ap (λ r. (world r.0 fates, none)) (register_server-known n ss m k))))
        (loop-known rounds n ss fates m k)
  loop-known (suc rounds) n ss (Network.answered ∷ fates) m k =
      loop-replied rounds n (world ss (Network.answered ∷ fates)) (world ss fates) (get_servers ss)
        ss (ap (λ r. (world r.0 fates, some r.1)) (register_server-known n ss m k)) (fates, refl)
        (loop-known rounds n ss fates m k)

  -- One call that gets to the master is enough.
  pub loop-registers :
      (rounds : ℕ) (n : Node) (ss : StorageServer) (fates : List Network.Outcome)
      → ss.is_master ≡ true
      → length fates < rounds
      → Leaves (register_loop (master_net up) rounds n (world ss fates)) (register_server n ss).0
  loop-registers zero n ss fates m lt = absurd (omega (arith, lt))
  loop-registers (suc rounds) n ss [] m lt =
      let ss' : StorageServer = (register_server n ss).0 in
      loop-replied rounds n (world ss []) (world ss' []) (register_server n ss).1 ss' refl
        ([], refl)
        (loop-known rounds n ss' [] (register_server-nodes n ss m).0
          (is_node-register_server n ss m))
  loop-registers (suc rounds) n ss (unreached ∷ fates) m lt =
      subst (λ w. Leaves w (register_server n ss).0)
        (sym (loop-lost rounds n (world ss (unreached ∷ fates)) (world ss fates) refl))
        (loop-registers rounds n ss fates m (omega (arith, lt)))
  loop-registers (suc rounds) n ss (unanswered ∷ fates) m lt =
      let ss' : StorageServer = (register_server n ss).0 in
      subst (λ w. Leaves w ss')
        (sym (loop-lost rounds n (world ss (unanswered ∷ fates)) (world ss' fates) refl))
        (loop-known rounds n ss' fates (register_server-nodes n ss m).0
          (is_node-register_server n ss m))
  loop-registers (suc rounds) n ss (Network.answered ∷ fates) m lt =
      let ss' : StorageServer = (register_server n ss).0 in
      loop-replied rounds n (world ss (Network.answered ∷ fates)) (world ss' fates)
        (register_server n ss).1 ss' refl (fates, refl)
        (loop-known rounds n ss' fates (register_server-nodes n ss m).0
          (is_node-register_server n ss m))
