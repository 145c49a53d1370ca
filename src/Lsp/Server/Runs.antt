-- ===== src/Lsp/Server/Runs.antt =====
-- Ids along runs of the server (15-440/P1-F11/lsp/lsp_server.go).
use golang_programming.Prelude.{
  ℕ, ◌+◌, ◌^◌, ◌≤◌, ◌<◌, ◌≡◌, ◌⊎◌, inl, inr, refl, sym, subst, String, Option, none, some, List, [],
  ◌∷◌, map, arith, length, text_eq, Option-cases, >>=-eq-some,
}
use golang_programming.Lsp.{
  LspMsg, LspParams, LspConn, Event, serve_round, send, arrived, timed_out, new_lsp_conn, to_send,
  close_asked, reader_ready, gen_data_msg,
}
use golang_programming.Lsp.Server.{
  Server, new_lsp_server, lookup, delete, get_conn_by_id, handle_udp_packet, accept, served_at,
  write, close_conn, close_all, remove_conn, read,
}
use golang_programming.Lsp.Server.Ids.{
  AreFalling, KeepsId, send-conn_id, serve_round-conn_id, get_conn_by_id-lookup, update-AreFalling,
  delete-AreFalling, AddressesDistinct, update-AddressesDistinct, delete-AddressesDistinct,
  lookup-get_conn_by_id,
}
use golang_programming.Lsp.Server.Packets.{
  Call, packet, writes, closes, removes, closes_all, reads, times_out, call, run, IsHonest,
  AreHonest,
}

-- The ids fall from the next one on, and no address has two connections.
pub record IsNumbered (srv : Server) : Type 0 where
  pub positive : 1 ≤ srv.next_conn_id
  pub falling : AreFalling srv.next_conn_id srv.conn_map
  pub distinct : AddressesDistinct srv.conn_map

-- A round of a connection keeps the numbering.
served_at-IsNumbered :
    (host : String) (e : Event) (conn : LspConn) (srv : Server)
    → lookup host srv.conn_map ≡ some conn
    → KeepsId e conn
    → IsNumbered srv
    → IsNumbered (served_at host (serve_round e conn) srv).0
served_at-IsNumbered host e conn srv found keeps n = record {
  positive = n.positive;
  falling =
      update-AreFalling srv.next_conn_id host (serve_round e conn).conn conn srv.conn_map n.falling
        found (serve_round-conn_id e conn keeps);
  distinct = update-AddressesDistinct host (serve_round e conn).conn srv.conn_map n.distinct;
}

accept-IsNumbered :
    (now : ℕ) (host : String) (srv : Server)
    → lookup host srv.conn_map ≡ none
    → srv.next_conn_id + 1 < 2 ^ 16
    → IsNumbered srv
    → IsNumbered (accept now host srv).0
unfolding new_lsp_conn
accept-IsNumbered now host srv absent lt n =
    let (conn, greeting) = new_lsp_conn srv.params srv.next_conn_id now in
    let id : (send greeting conn).0.conn_id ≡ srv.next_conn_id = send-conn_id greeting conn in
    record {
      positive = omega (arith, lt);
      falling = (
        omega (arith, id, lt),
        omega (arith, id, n.positive),
        subst (λ b. AreFalling b srv.conn_map) (sym id) n.falling,
      );
      distinct = (absent, n.distinct);
    }

close_all-AreFalling :
    (bound : ℕ) (conns : List (String × LspConn))
    → AreFalling bound conns
    → AreFalling bound (map (λ (host, conn). (host, (serve_round close_asked conn).conn)) conns)
unfolding serve_round
close_all-AreFalling bound [] f = tt
close_all-AreFalling bound ((h, c) ∷ conns) (lt, pos, f) =
    (lt, pos, close_all-AreFalling c.conn_id conns f)

close_all-absent :
    (j : String) (conns : List (String × LspConn))
    → lookup j conns ≡ none
    → lookup j (map (λ (host, conn). (host, (serve_round close_asked conn).conn)) conns) ≡ none
unfolding lookup
close_all-absent j [] e = refl
close_all-absent j ((k, c) ∷ conns) e = ground (arith, close_all-absent j conns)

close_all-AddressesDistinct :
    (conns : List (String × LspConn))
    → AddressesDistinct conns
    → AddressesDistinct (map (λ (host, conn). (host, (serve_round close_asked conn).conn)) conns)
close_all-AddressesDistinct [] d = tt
close_all-AddressesDistinct ((h, c) ∷ conns) (e, d) =
    (close_all-absent h conns e, close_all-AddressesDistinct conns d)

-- What a call leaves: a numbered server whose next id is at most one higher.
abbrev pub Numbers : Server → Server → Type 0
Numbers srv srv' = IsNumbered srv' × (srv'.next_conn_id ≤ srv.next_conn_id + 1)

packet-Numbers :
    (now : ℕ) (host : String) (msg : LspMsg) (srv srv' : Server)
    → IsHonest (packet now host msg) srv
    → srv.next_conn_id + 1 < 2 ^ 16
    → call (packet now host msg) srv ≡ some srv'
    → IsNumbered srv
    → Numbers srv srv'
unfolding call handle_udp_packet
packet-Numbers now host msg srv srv' honest lt e n =
    elim (Option-cases (lookup host srv.conn_map)) [
      | inl f ↦
          let q : ((accept now host srv).0 ≡ srv') ⊎ (srv ≡ srv') = ground arith in
          elim q [
            | inl p ↦
                subst (Numbers srv) p (accept-IsNumbered now host srv f lt n, omega (arith, lt))
            | inr p ↦ subst (Numbers srv) p (n, omega arith)
          ]
      | inr (conn, f) ↦
          let r = serve_round (arrived now msg) conn in
          let q : ((served_at host r srv).0 ≡ srv') ⊎ (srv ≡ srv') = ground arith in
          elim q [
            | inl p ↦ subst (Numbers srv) p (
              served_at-IsNumbered host (arrived now msg) conn srv f (honest conn f) n,
              omega arith,
            )
            | inr p ↦ subst (Numbers srv) p (n, omega arith)
          ]
    ]

served_at-Numbers :
    (id : ℕ) (host : String) (e : Event) (conn : LspConn) (srv : Server)
    → get_conn_by_id id srv.conn_map ≡ some (host, conn)
    → KeepsId e conn
    → IsNumbered srv
    → Numbers srv (served_at host (serve_round e conn) srv).0
served_at-Numbers id host e conn srv found keeps n = (
  served_at-IsNumbered host e conn srv
      (lookup-get_conn_by_id id host conn srv.conn_map n.distinct found) keeps n,
  omega arith,
)

call-Numbers :
    (c : Call) (srv srv' : Server)
    → IsHonest c srv
    → srv.next_conn_id + 1 < 2 ^ 16
    → call c srv ≡ some srv'
    → IsNumbered srv
    → Numbers srv srv'
unfolding call write close_conn remove_conn close_all read
call-Numbers (packet now host msg) srv srv' honest lt e n =
    packet-Numbers now host msg srv srv' honest lt e n
call-Numbers (writes id payload) srv srv' honest lt e n =
    elim (Option-cases (get_conn_by_id id srv.conn_map)) [
      | inl f ↦ let p : srv ≡ srv' = ground arith in subst (Numbers srv) p (n, omega arith)
      | inr ((host, conn), f) ↦
          let ev : Event = to_send (gen_data_msg id 0 payload) in
          let p : (served_at host (serve_round ev conn) srv).0 ≡ srv' = ground arith in
          subst (Numbers srv) p (served_at-Numbers id host ev conn srv f tt n)
    ]
call-Numbers (closes id) srv srv' honest lt e n =
    elim (Option-cases (get_conn_by_id id srv.conn_map)) [
      | inl f ↦ let p : srv ≡ srv' = ground arith in subst (Numbers srv) p (n, omega arith)
      | inr ((host, conn), f) ↦
          let p : (served_at host (serve_round close_asked conn) srv).0 ≡ srv' = ground arith in
          subst (Numbers srv) p (served_at-Numbers id host close_asked conn srv f tt n)
    ]
call-Numbers (removes id) srv srv' honest lt e n =
    elim (Option-cases (get_conn_by_id id srv.conn_map)) [
      | inl f ↦ let p : srv ≡ srv' = ground arith in subst (Numbers srv) p (n, omega arith)
      | inr ((host, conn), f) ↦
          let less : Server = record srv { conn_map = delete host srv.conn_map } in
          let p : less ≡ srv' = ground arith in
          subst (Numbers srv) p (
            record {
              positive = n.positive;
              falling = delete-AreFalling srv.next_conn_id host srv.conn_map n.falling;
              distinct = delete-AddressesDistinct host srv.conn_map n.distinct;
            },
            omega arith,
          )
    ]
call-Numbers closes_all srv srv' honest lt e n =
    let p : close_all srv ≡ srv' = ground arith in
    subst (Numbers srv) p (
      record {
        positive = n.positive;
        falling = close_all-AreFalling srv.next_conn_id srv.conn_map n.falling;
        distinct = close_all-AddressesDistinct srv.conn_map n.distinct;
      },
      omega arith,
    )
call-Numbers (reads host) srv srv' honest lt e n = elim (Option-cases (lookup host srv.conn_map)) [
  | inl f ↦ ground arith
  | inr (conn, f) ↦ elim (Option-cases (serve_round reader_ready conn).delivered) [
    | inl g ↦ ground arith
    | inr (msg, g) ↦
        let p : (served_at host (serve_round reader_ready conn) srv).0 ≡ srv' = ground arith in
        subst (Numbers srv) p (served_at-IsNumbered host reader_ready conn srv f tt n, omega arith)
  ]
]
call-Numbers (times_out now host) srv srv' honest lt e n =
    elim (Option-cases (lookup host srv.conn_map)) [
      | inl f ↦ ground arith
      | inr (conn, f) ↦
          let p : (served_at host (serve_round (timed_out now) conn) srv).0 ≡ srv' = ground arith in
          subst (Numbers srv) p
            (served_at-IsNumbered host (timed_out now) conn srv f tt n, omega arith)
    ]

run-IsNumbered :
    (calls : List Call) (srv srv' : Server)
    → AreHonest calls srv
    → srv.next_conn_id + length calls < 2 ^ 16
    → run calls srv ≡ some srv'
    → IsNumbered srv
    → IsNumbered srv'
unfolding run
run-IsNumbered [] srv srv' honest lt e n = subst IsNumbered {x = srv} {y = srv'} (ground arith) n
run-IsNumbered (c ∷ calls) srv srv' (h, honest) lt e n =
    let (srv₁, p, q) = >>=-eq-some (call c srv) (run calls) e in
    let (n₁, le) = call-Numbers c srv srv₁ h (omega arith) p n in
    run-IsNumbered calls srv₁ srv' (honest srv₁ p) (omega arith) q n₁

-- After fewer than 65535 calls of a new server in which no packet changes the id of a connection, the
-- connection of every address is the one that is found by its id.
pub run-get_conn_by_id :
    (params : Option LspParams) (calls : List Call) (srv : Server)
    → AreHonest calls (new_lsp_server params)
    → 1 + length calls < 2 ^ 16
    → run calls (new_lsp_server params) ≡ some srv
    → (host : String) (conn : LspConn) → lookup host srv.conn_map ≡ some conn
    → get_conn_by_id conn.conn_id srv.conn_map ≡ some (host, conn)
run-get_conn_by_id params calls srv honest lt e host conn found =
    let n =
      run-IsNumbered calls (new_lsp_server params) srv honest lt e
        (record { positive = omega arith; falling = tt; distinct = tt }) in
    get_conn_by_id-lookup srv.next_conn_id host conn srv.conn_map n.falling found
