-- ===== src/Lsp/Server.antt =====
-- The LSP server: 15-440/P1-F11/lsp/lsp_server.go. The connections of the Go map are an association list
-- by address. What the loop of the server sends to a connection's channel is served there at once, by
-- a round of its `serve`; the messages that go to the network are returned. `none` is a nil
-- dereference. Sockets, JSON and logging are not modelled.
pub mod Ids
pub mod Packets
pub mod Runs
use golang_programming.Prelude.{
  ℕ, ◌+◌, ◌%◌, ◌^◌, String, Bool, true, false, ◌&&◌, Option, none, some, List, [], ◌∷◌, map,
  if◌then◌else◌, ◌==◌, nat_eq, text_eq, ◌>>=◌,
}
use golang_programming.Lsp.{
  LspMsg, LspParams, LspConn, msg_connect, msg_data, msg_ack, msg_invalid, gen_data_msg,
  new_lsp_conn, send, Served, serve_round, to_send, arrived, reader_ready, close_asked,
}

pub record Server : Type 0 where
  pub next_conn_id : ℕ
  pub conn_map : List (String × LspConn)
  pub params : LspParams
  pub stop : Bool

-- newLspServer; params that are nil are those of five epochs of two seconds
abbrev pub new_lsp_server : Option LspParams → Server
new_lsp_server params = record {
  next_conn_id = 1;
  conn_map = [];
  params = elim params [
    | none ↦ record { epoch_limit = 5; epoch_milliseconds = 2000 }
    | some p ↦ p
  ];
  stop = false;
}

-- A message for the address of a connection.
abbrev pub Write : Type 0
Write = String × LspMsg

-- srv.connMap[hostport]
unfoldable pub lookup : String → List (String × LspConn) → Option LspConn
lookup host [] = none
lookup host ((h, conn) ∷ conns) = if h == host then some conn else lookup host conns

-- The connection of an address after a change; Go has a pointer to it.
unfoldable pub update : String → LspConn → List (String × LspConn) → List (String × LspConn)
update host conn [] = []
update host conn ((h, c) ∷ conns) =
    let rest : List (String × LspConn) = update host conn conns in
    if h == host then (h, conn) ∷ conns else (h, c) ∷ rest

-- delete(srv.connMap, host)
unfoldable pub delete : String → List (String × LspConn) → List (String × LspConn)
delete host [] = []
delete host ((h, c) ∷ conns) =
    let rest : List (String × LspConn) = delete host conns in
    if h == host then rest else (h, c) ∷ rest

-- getConnById, with the address of the connection
unfoldable pub get_conn_by_id : ℕ → List (String × LspConn) → Option (String × LspConn)
get_conn_by_id id [] = none
get_conn_by_id id ((h, conn) ∷ conns) =
    if conn.conn_id == id then some (h, conn) else get_conn_by_id id conns

abbrev pub to_host : String → List LspMsg → List Write
to_host host = map (λ msg. (host, msg))

-- A round of the connection of an address.
abbrev pub served_at : String → Served → Server → Server × List Write
served_at host r srv =
    (record srv { conn_map = update host r.conn srv.conn_map }, to_host host r.writes)

-- The MsgCONNECT case of handleUdpPacket for a new address, with the first round of the connection.
abbrev pub accept : ℕ → String → Server → Server × List Write
accept now host srv =
    let (conn, greeting) = new_lsp_conn srv.params srv.next_conn_id now in
    let (conn', writes) = send greeting conn in
    (
      record srv {
        next_conn_id = (srv.next_conn_id + 1) % 2 ^ 16;
        conn_map = (host, conn') ∷ srv.conn_map;
      },
      to_host host writes,
    )

-- handleUdpPacket
unfoldable pub handle_udp_packet : ℕ → String → LspMsg → Server → Option (Server × List Write)
handle_udp_packet now host msg srv = elim msg.typ [
  | msg_connect ↦ elim (lookup host srv.conn_map) [
    | some conn ↦ some (srv, [])
    | none ↦ some (accept now host srv)
  ]
  | msg_data ↦ (do
    conn ← lookup host srv.conn_map
    some (served_at host (serve_round (arrived now msg) conn) srv))
  | msg_ack ↦ (do
    conn ← lookup host srv.conn_map
    some (served_at host (serve_round (arrived now msg) conn) srv))
  | msg_invalid ↦ some (srv, [])
]

-- write, and its case in loopServe
unfoldable pub write : ℕ → List ℕ → Server → Server × List Write
write id payload srv = elim (get_conn_by_id id srv.conn_map) [
  | none ↦ (srv, [])
  | some (host, conn) ↦ served_at host (serve_round (to_send (gen_data_msg id 0 payload)) conn) srv
]

-- closeConn, and its case in loopServe
unfoldable pub close_conn : ℕ → Server → Server
close_conn id srv = elim (get_conn_by_id id srv.conn_map) [
  | none ↦ srv
  | some (host, conn) ↦ (served_at host (serve_round close_asked conn) srv).0
]

-- closeAll, up to the wait for the last connection
unfoldable pub close_all : Server → Server
close_all srv = record srv {
  stop = true;
  conn_map = map (λ (host, conn). (host, (serve_round close_asked conn).conn)) srv.conn_map;
}

-- The case of removeConnChan, and whether the loop ends.
unfoldable pub remove_conn : ℕ → Server → Server × Bool
remove_conn id srv =
    let conns : List (String × LspConn) = elim (get_conn_by_id id srv.conn_map) [
      | none ↦ srv.conn_map
      | some (host, conn) ↦ delete host srv.conn_map
    ] in
    (record srv { conn_map = conns }, elim conns [ [] ↦ srv.stop | c ∷ rest ↦ false ])

-- read, when the connection of this address gives its oldest message: the id and the payload. A message
-- in the buffer has the type MsgDATA.
unfoldable pub read : String → Server → Option (Server × ℕ × List ℕ)
read host srv = do
  conn ← lookup host srv.conn_map
  let r = serve_round reader_ready conn
  msg ← r.delivered
  some ((served_at host r srv).0, msg.conn_id, msg.payload)
