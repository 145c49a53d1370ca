-- ===== src/Lsp/Server/Packets.antt =====
-- Runs of the server (15-440/P1-F11/lsp/lsp_server.go).
use golang_programming.Prelude.{
  ℕ, ◌≡◌, ◌↔◌, ◌⊎◌, String, Option, none, some, List, [], ◌∷◌, arith, text_eq, ◌>>=◌,
}
use golang_programming.Lsp.{LspMsg, LspConn, msg_data, msg_ack, serve_round, arrived, timed_out}
use golang_programming.Lsp.Server.{
  Server, lookup, handle_udp_packet, served_at, write, close_conn, close_all, remove_conn, read,
}
use golang_programming.Lsp.Server.Ids.{KeepsId}

-- A packet makes the server dereference a nil connection exactly if it is data or an acknowledgement
-- from an address that has no connection.
pub handle_udp_packet-none :
    (now : ℕ) (host : String) (msg : LspMsg) (srv : Server)
    → (handle_udp_packet now host msg srv ≡ none)
      ↔ (((msg.typ ≡ msg_data) ⊎ (msg.typ ≡ msg_ack)) × (lookup host srv.conn_map ≡ none))
unfolding handle_udp_packet
handle_udp_packet-none now host msg srv = ground arith

-- What the loop of the server receives, and the timeouts of its connections.
pub data Call : Type 0 where
  packet : ℕ → String → LspMsg → Call
  writes : ℕ → List ℕ → Call
  closes removes : ℕ → Call
  closes_all : Call
  reads : String → Call
  times_out : ℕ → String → Call

-- A read that finds nothing waits, and is no step.
unfoldable pub call : Call → Server → Option Server
call (packet now host msg) srv = do r ← handle_udp_packet now host msg srv; some r.0
call (writes id payload) srv = some (write id payload srv).0
call (closes id) srv = some (close_conn id srv)
call (removes id) srv = some (remove_conn id srv).0
call closes_all srv = some (close_all srv)
call (reads host) srv = do r ← read host srv; some r.0
call (times_out now host) srv = do
  conn ← lookup host srv.conn_map
  some (served_at host (serve_round (timed_out now) conn) srv).0

unfoldable pub run : List Call → Server → Option Server
run [] srv = some srv
run (c ∷ calls) srv = call c srv >>= run calls

-- A packet does not make a connection take another id.
abbrev pub IsHonest : Call → Server → Type 0
IsHonest (packet now host msg) srv =
    (conn : LspConn) → lookup host srv.conn_map ≡ some conn → KeepsId (arrived now msg) conn
IsHonest _ srv = Unit

abbrev pub AreHonest : List Call → Server → Type 0
AreHonest [] srv = Unit
AreHonest (c ∷ calls) srv =
    IsHonest c srv × ((srv' : Server) → call c srv ≡ some srv' → AreHonest calls srv')
