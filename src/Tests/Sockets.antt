-- ===== src/Tests/Sockets.antt =====
-- The LSP server at fixed inputs.
use golang_programming.Prelude.{
  ◌≡◌, ◌↔◌, ◌⊎◌, refl, none, some, List, [], ◌∷◌, arith, ℕ_discrete, text_discrete,
}
use golang_programming.Lsp.{
  LspConn, msg_data, msg_ack, gen_conn_msg, gen_data_msg, new_lsp_conn, send,
}
use golang_programming.Lsp.Server.{
  Server, new_lsp_server, lookup, get_conn_by_id, handle_udp_packet,
}
use golang_programming.Lsp.Server.Packets.{handle_udp_packet-none, Call, packet, call, run}
use golang_programming.Lsp.Server.Runs.{run-get_conn_by_id}

handle_udp_packet-none_example :
    (handle_udp_packet 7 "a:1" (gen_data_msg 1 1 []) (new_lsp_server none) ≡ none)
    ↔ (((msg_data ≡ msg_data) ⊎ (msg_data ≡ msg_ack)) × (lookup "a:1" [] ≡ none))
handle_udp_packet-none_example =
    handle_udp_packet-none 7 "a:1" (gen_data_msg 1 1 []) (new_lsp_server none)

abbrev connects : List Call
connects = packet 7 "a:1" (gen_conn_msg 0) ∷ []

served : Server
unfolding run call handle_udp_packet new_lsp_conn send lookup ℕ_discrete
served = elim (run connects (new_lsp_server none)) [ none ↦ new_lsp_server none | some srv ↦ srv ]

accepted : LspConn
unfolding new_lsp_conn send ℕ_discrete
accepted =
    (send (new_lsp_conn (new_lsp_server none).params 1 7).1
      (new_lsp_conn (new_lsp_server none).params 1 7).0).0

run-get_conn_by_id_example :
    get_conn_by_id accepted.conn_id served.conn_map ≡ some ("a:1", accepted)
unfolding served accepted text_discrete lookup
run-get_conn_by_id_example =
    run-get_conn_by_id none connects served ((λ conn h. ground arith), λ srv h. tt) (omega arith)
      refl "a:1" accepted refl
