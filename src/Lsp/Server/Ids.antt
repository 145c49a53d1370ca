-- ===== src/Lsp/Server/Ids.antt =====
-- The ids of a server's connections (15-440/P1-F11/lsp/lsp_server.go).
use golang_programming.Prelude.{
  ℕ, ◌≤◌, ◌<◌, ◌≡◌, refl, sym, ap, ◌∙◌, subst, String, none, some, List, [], ◌∷◌, arith, ◌==◌,
  nat_eq, text_eq, Bool-cases, inl, inr,
}
use golang_programming.Lsp.{
  LspMsg, LspConn, msg_ack, Event, serve_round, send, receive, to_send, arrived, reader_ready,
  close_asked, timed_out, epoch_trigger,
}
use golang_programming.Lsp.Server.{lookup, update, delete, get_conn_by_id}

abbrev pub Conns : Type 0
Conns = List (String × LspConn)

-- The newest connection is in front: the ids fall from below `bound` on, and none is 0.
abbrev pub AreFalling : ℕ → Conns → Type 0
AreFalling bound [] = Unit
AreFalling bound ((host, conn) ∷ conns) =
    (conn.conn_id < bound) × (1 ≤ conn.conn_id) × AreFalling conn.conn_id conns

pub AreFalling-weaken : (a b : ℕ) (conns : Conns) → a ≤ b → AreFalling a conns → AreFalling b conns
AreFalling-weaken a b [] le f = tt
AreFalling-weaken a b ((h, c) ∷ conns) le (lt, pos, f) = (omega arith, pos, f)

-- A message that arrives keeps the id of its connection, but for an acknowledgement of number 0 that
-- names another one.
abbrev pub KeepsId : Event → LspConn → Type 0
KeepsId (arrived now msg) conn = msg.typ ≡ msg_ack → msg.seq_num ≡ 0 → msg.conn_id ≡ conn.conn_id
KeepsId _ conn = Unit

pub send-conn_id : (msg : LspMsg) (conn : LspConn) → (send msg conn).0.conn_id ≡ conn.conn_id
unfolding send
send-conn_id msg conn = ground arith

pub serve_round-conn_id :
    (e : Event) (conn : LspConn) → KeepsId e conn → (serve_round e conn).conn.conn_id ≡ conn.conn_id
unfolding serve_round send receive epoch_trigger
serve_round-conn_id (to_send msg) conn k = ground arith
serve_round-conn_id (arrived now msg) conn k = ground (arith, k)
serve_round-conn_id reader_ready conn k = refl
serve_round-conn_id close_asked conn k = refl
serve_round-conn_id (timed_out now) conn k = refl

lookup-below :
    (bound : ℕ) (host : String) (conn : LspConn) (conns : Conns)
    → AreFalling bound conns
    → lookup host conns ≡ some conn
    → conn.conn_id < bound
unfolding lookup
lookup-below bound host conn [] f e = cc
lookup-below bound host conn ((h, c) ∷ conns) (lt, pos, f) e = elim (Bool-cases (h == host)) [
  | inl p ↦ let q : c ≡ conn = ground arith in omega (arith, lt, ap (λ (d : LspConn). d.conn_id) q)
  | inr p ↦
      let q : lookup host conns ≡ some conn = ground arith in
      omega (arith, lt, lookup-below c.conn_id host conn conns f q)
]

-- Every connection is the one that is found by its id.
pub get_conn_by_id-lookup :
    (bound : ℕ) (host : String) (conn : LspConn) (conns : Conns)
    → AreFalling bound conns
    → lookup host conns ≡ some conn
    → get_conn_by_id conn.conn_id conns ≡ some (host, conn)
unfolding lookup get_conn_by_id
get_conn_by_id-lookup bound host conn [] f e = cc
get_conn_by_id-lookup bound host conn ((h, c) ∷ conns) (lt, pos, f) e =
    elim (Bool-cases (h == host)) [
      | inl p ↦
          let q : c ≡ conn = ground arith in
          let r : h ≡ host = ground arith in
          let own : get_conn_by_id c.conn_id ((h, c) ∷ conns) ≡ some (h, c) = ground arith in
          ap (λ (d : LspConn). get_conn_by_id d.conn_id ((h, c) ∷ conns)) (sym q)
          ∙ own
          ∙ ap (λ k. some (k, c)) r
          ∙ ap (λ d. some (host, d)) q
      | inr p ↦
          let q : lookup host conns ≡ some conn = ground arith in
          let below : conn.conn_id < c.conn_id = lookup-below c.conn_id host conn conns f q in
          ground (arith, get_conn_by_id-lookup c.conn_id host conn conns f q)
    ]

pub update-AreFalling :
    (bound : ℕ) (host : String) (new old : LspConn) (conns : Conns)
    → AreFalling bound conns
    → lookup host conns ≡ some old
    → new.conn_id ≡ old.conn_id
    → AreFalling bound (update host new conns)
unfolding lookup update
update-AreFalling bound host new old [] f e same = tt
update-AreFalling bound host new old ((h, c) ∷ conns) (lt, pos, f) e same =
    elim (Bool-cases (h == host)) [
      | inl p ↦
          let q : c ≡ old = ground arith in
          let id : new.conn_id ≡ c.conn_id = same ∙ ap (λ (d : LspConn). d.conn_id) (sym q) in
          let u : update host new ((h, c) ∷ conns) ≡ (h, new) ∷ conns = ground arith in
          subst (AreFalling bound) (sym u)
            (omega (arith, id), omega (arith, id), subst (λ n. AreFalling n conns) (sym id) f)
      | inr p ↦
          let q : lookup host conns ≡ some old = ground arith in
          let u : update host new ((h, c) ∷ conns) ≡ (h, c) ∷ update host new conns =
            ground arith in
          subst (AreFalling bound) (sym u)
            (lt, pos, update-AreFalling c.conn_id host new old conns f q same)
    ]

pub delete-AreFalling :
    (bound : ℕ) (host : String) (conns : Conns)
    → AreFalling bound conns
    → AreFalling bound (delete host conns)
unfolding delete
delete-AreFalling bound host [] f = tt
delete-AreFalling bound host ((h, c) ∷ conns) (lt, pos, f) = elim (Bool-cases (h == host)) [
  | inl p ↦
      let u : delete host ((h, c) ∷ conns) ≡ delete host conns = ground arith in
      subst (AreFalling bound) (sym u) (
        AreFalling-weaken c.conn_id bound (delete host conns) (omega arith)
          (delete-AreFalling c.conn_id host conns f))
  | inr p ↦
      let u : delete host ((h, c) ∷ conns) ≡ (h, c) ∷ delete host conns = ground arith in
      subst (AreFalling bound) (sym u) (lt, pos, delete-AreFalling c.conn_id host conns f)
]

-- No address stands twice.
abbrev pub AddressesDistinct : Conns → Type 0
AddressesDistinct [] = Unit
AddressesDistinct ((host, conn) ∷ conns) = (lookup host conns ≡ none) × AddressesDistinct conns

lookup-update :
    (j host : String) (conn : LspConn) (conns : Conns)
    → lookup j conns ≡ none
    → lookup j (update host conn conns) ≡ none
unfolding lookup update
lookup-update j host conn [] e = refl
lookup-update j host conn ((h, c) ∷ conns) e = ground (arith, lookup-update j host conn conns)

lookup-delete :
    (j host : String) (conns : Conns) → lookup j conns ≡ none → lookup j (delete host conns) ≡ none
unfolding lookup delete
lookup-delete j host [] e = refl
lookup-delete j host ((h, c) ∷ conns) e = ground (arith, lookup-delete j host conns)

pub update-AddressesDistinct :
    (host : String) (conn : LspConn) (conns : Conns)
    → AddressesDistinct conns
    → AddressesDistinct (update host conn conns)
unfolding update
update-AddressesDistinct host conn [] d = tt
update-AddressesDistinct host conn ((h, c) ∷ conns) (e, d) = elim (Bool-cases (h == host)) [
  | inl p ↦
      let u : update host conn ((h, c) ∷ conns) ≡ (h, conn) ∷ conns = ground arith in
      subst AddressesDistinct (sym u) (e, d)
  | inr p ↦
      let u : update host conn ((h, c) ∷ conns) ≡ (h, c) ∷ update host conn conns = ground arith in
      subst AddressesDistinct (sym u)
        (lookup-update h host conn conns e, update-AddressesDistinct host conn conns d)
]

pub delete-AddressesDistinct :
    (host : String) (conns : Conns)
    → AddressesDistinct conns
    → AddressesDistinct (delete host conns)
unfolding delete
delete-AddressesDistinct host [] d = tt
delete-AddressesDistinct host ((h, c) ∷ conns) (e, d) = elim (Bool-cases (h == host)) [
  | inl p ↦
      let u : delete host ((h, c) ∷ conns) ≡ delete host conns = ground arith in
      subst AddressesDistinct (sym u) (delete-AddressesDistinct host conns d)
  | inr p ↦
      let u : delete host ((h, c) ∷ conns) ≡ (h, c) ∷ delete host conns = ground arith in
      subst AddressesDistinct (sym u)
        (lookup-delete h host conns e, delete-AddressesDistinct host conns d)
]

pub lookup-get_conn_by_id :
    (id : ℕ) (host : String) (conn : LspConn) (conns : Conns)
    → AddressesDistinct conns
    → get_conn_by_id id conns ≡ some (host, conn)
    → lookup host conns ≡ some conn
unfolding lookup get_conn_by_id
lookup-get_conn_by_id id host conn [] d e = cc
lookup-get_conn_by_id id host conn ((h, c) ∷ conns) (f, d) e = elim (Bool-cases (c.conn_id == id)) [
  | inl p ↦ ground arith
  | inr p ↦
      let found : lookup host conns ≡ some conn =
        lookup-get_conn_by_id id host conn conns d (ground arith) in
      ground arith
]
