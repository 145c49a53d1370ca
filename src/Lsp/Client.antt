-- ===== src/Lsp/Client.antt =====
-- The LSP client: 15-440/P1-F11/lsp/lsp_client.go. What the loop sends to the connection's channel is
-- served there at once. A loop that is `stuck` waits for good on a channel that no other goroutine
-- receives from. Sockets, JSON and logging are not modelled.
use golang_programming.Prelude.{
  ℕ, ◌≡◌, refl, ap, ◌∙◌, Option, none, some, List, [], ◌∷◌, if◌then◌else◌, ◌==◌, nat_eq, arith,
}
use golang_programming.Lsp.{
  LspMsg, LspParams, LspConn, gen_data_msg, new_lsp_conn, send, serve_round, to_send, arrived,
  reader_ready,
}

pub data Loop : Type 0 where
  looping stuck exited : Loop

-- `conn_id_chan` is the value in the channel of size one, `first_id` the `connid` of loopServe.
pub record Client : Type 0 where
  pub conn : LspConn
  pub conn_id_chan : Option ℕ
  pub first_id : ℕ
  pub loop : Loop

-- newLspClient with a socket that is connected, after the first round of the connection
unfoldable pub new_lsp_client : Option LspParams → ℕ → Client × List LspMsg
new_lsp_client params now =
    let p : LspParams = elim params [
      | none ↦ record { epoch_limit = 5; epoch_milliseconds = 2000 }
      | some q ↦ q
    ] in
    let (conn, greeting) = new_lsp_conn p 0 now in
    let (conn', writes) = send greeting conn in
    (record { conn = conn'; conn_id_chan = none; first_id = 0; loop = looping }, writes)

-- What the loop of the client finds ready, and a read by the application.
pub data Ready : Type 0 where
  net_read : ℕ → LspMsg → Ready
  app_write : List ℕ → Ready
  conn_removed closes : Ready

-- `cli.connIdChan <- connid` after the first message: a full channel makes the loop wait.
abbrev pub note_id : ℕ → Client → Client
note_id id cli = elim cli.conn_id_chan [
  | none ↦ record cli { conn_id_chan = some id; first_id = id }
  | some other ↦ record cli { first_id = id; loop = stuck }
]

-- One round of loopServe while it is looping: the client, and what the connection writes.
unfoldable pub loop_round : Ready → Client → Client × List LspMsg
loop_round (net_read now msg) cli =
    let r = serve_round (arrived now msg) cli.conn in
    let cli' : Client = record cli { conn = r.conn } in
    (if cli.first_id == 0 then note_id msg.conn_id cli' else cli', r.writes)
loop_round (app_write payload) cli =
    let r = serve_round (to_send (gen_data_msg cli.conn.conn_id 0 payload)) cli.conn in
    (record cli { conn = r.conn }, r.writes)
loop_round conn_removed cli = (record cli { loop = exited }, [])
loop_round closes cli = (record cli { loop = stuck }, [])

-- What is ready when the loop is not there to receive it waits.
unfoldable pub step : Ready → Client → Client × List LspMsg
step e cli = elim cli.loop [ looping ↦ loop_round e cli | stuck ↦ (cli, []) | exited ↦ (cli, []) ]

-- The client after these events.
unfoldable pub run : List Ready → Client → Client
run [] cli = cli
run (e ∷ events) cli = run events (step e cli).0

-- connId: the id, or none while it waits
abbrev pub conn_id : Client → Option ℕ
conn_id cli = if cli.conn.conn_id == 0 then cli.conn_id_chan else some cli.conn.conn_id

-- read: the payload of the oldest message, or none while it waits
unfoldable pub read : Client → Option (Client × List ℕ)
read cli =
    let r = serve_round reader_ready cli.conn in
    elim r.delivered [ none ↦ none | some msg ↦ some (record cli { conn = r.conn }, msg.payload) ]

-- A client that is not looping takes no event.
step-stuck : (e : Ready) (cli : Client) → cli.loop ≡ stuck → (step e cli).0 ≡ cli
unfolding step
step-stuck e cli h = ground arith

run-stuck : (events : List Ready) (cli : Client) → cli.loop ≡ stuck → run events cli ≡ cli
unfolding run
run-stuck [] cli h = refl
run-stuck (e ∷ events) cli h = ap (run events) (step-stuck e cli h) ∙ run-stuck events cli h

-- Once a client that is looping is closed, nothing that happens changes it any more: its
-- connection is not told of the close, no message from the network or the application reaches it.
pub closed_stuck :
    (events : List Ready) (cli : Client)
    → cli.loop ≡ looping
    → run (closes ∷ events) cli ≡ record cli { loop = stuck }
unfolding run step loop_round
closed_stuck events cli h =
    let p : (step closes cli).0 ≡ record cli { loop = stuck } = ground arith in
    ap (run events) p ∙ run-stuck events (record cli { loop = stuck }) refl
