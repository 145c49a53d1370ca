-- ===== src/Lsp/Closing.antt =====
-- How a connection ends (15-440/P1-F11/lsp/lsp_conn.go).
use golang_programming.Prelude.{
  ℕ, ◌≡◌, ◌≢◌, refl, true, List, [], ◌∷◌, ◌≤◌, ◌*◌, ◌-◌, ◌↔◌, arith, nat_eq,
}
use golang_programming.Lsp.{
  LspMsg, LspConn, msg_ack, arrived, timed_out, to_send, running, removing, blocked, serve_round,
  reader_ready, close_asked,
}

-- The message is the acknowledgement of the last one that a closed connection has to send.
abbrev pub IsLastAck : LspMsg → LspConn → Type 0
IsLastAck msg conn =
    (conn.closed ≡ true)
    × (msg.typ ≡ msg_ack)
    × ((expect : LspMsg) × (conn.send_buf ≡ expect ∷ []) × (msg.seq_num ≡ expect.seq_num))

blocked-IsLastAck :
    (now : ℕ) (msg : LspMsg) (conn : LspConn) (buf : List LspMsg)
    → conn.send_buf ≡ buf
    → (serve_round (arrived now msg) conn).status ≡ blocked
    → IsLastAck msg conn
unfolding serve_round
blocked-IsLastAck now msg conn [] e h = absurd (ground arith)
blocked-IsLastAck now msg conn (expect ∷ []) e h =
    (ground arith, ground arith, (expect, e, ground arith))
blocked-IsLastAck now msg conn (expect ∷ m ∷ buf) e h = absurd (ground arith)

IsLastAck-blocked :
    (now : ℕ) (msg : LspMsg) (conn : LspConn)
    → IsLastAck msg conn
    → (serve_round (arrived now msg) conn).status ≡ blocked
unfolding serve_round
IsLastAck-blocked now msg conn (closed, typ, (expect, e, same)) = ground arith

removing_iff :
    (now : ℕ) (conn : LspConn)
    → ((serve_round (timed_out now) conn).status ≡ removing)
      ↔ (conn.params.epoch_milliseconds * conn.params.epoch_limit ≤ now - conn.last_time)
unfolding serve_round
removing_iff now conn = ((λ h. ground arith), (λ h. ground arith))

-- When the goroutine of a connection stops serving: a message that arrives blocks it for good exactly
-- if it is the acknowledgement of the last message that a closed connection has to send, and a
-- timeout makes it send on removeChan as its last act exactly if nothing has arrived for the epoch
-- limit. A timeout leaves it running otherwise, and so do all other rounds.
pub blocked_iff :
    (conn : LspConn)
    → ((now : ℕ) (msg : LspMsg)
        → (((serve_round (arrived now msg) conn).status ≡ blocked) ↔ IsLastAck msg conn)
          × ((serve_round (arrived now msg) conn).status ≢ removing))
      × ((now : ℕ)
          → (((serve_round (timed_out now) conn).status ≡ removing)
              ↔ (conn.params.epoch_milliseconds * conn.params.epoch_limit ≤ now - conn.last_time))
            × ((serve_round (timed_out now) conn).status ≢ blocked))
      × ((msg : LspMsg) → (serve_round (to_send msg) conn).status ≡ running)
      × ((serve_round reader_ready conn).status ≡ running)
      × ((serve_round close_asked conn).status ≡ running)
unfolding serve_round
blocked_iff conn = (
  λ now msg. (
    (blocked-IsLastAck now msg conn conn.send_buf refl, IsLastAck-blocked now msg conn),
    ground arith,
  ),
  λ now. (removing_iff now conn, ground arith),
  λ msg. ground arith,
  refl,
  refl,
)

-- A timeout writes the oldest message that is not acknowledged and the last acknowledgement again,
-- and removes the connection exactly if nothing has arrived for the epoch limit; it changes nothing.
pub timed_out_lem :
    (now : ℕ) (m : LspMsg) (buf : List LspMsg) (conn : LspConn)
    → conn.send_buf ≡ m ∷ buf
    → let r = serve_round (timed_out now) conn in
      (r.writes ≡ m ∷ conn.last_ack ∷ [])
      × (r.conn ≡ conn)
      × ((r.status ≡ removing)
          ↔ (conn.params.epoch_milliseconds * conn.params.epoch_limit ≤ now - conn.last_time))
unfolding serve_round
timed_out_lem now m buf conn e = (ground arith, refl, (λ h. ground arith, λ h. ground arith))
