-- ===== src/Lsp.antt =====
-- One end of a live sequence protocol connection: 15-440/P1-F11/lsp/lsp_msg.go, lsp.go and
-- lsp_conn.go. The buffers are the queues of 15-440/P1-F11/bufi as lists, oldest first. Each case of
-- the `select` of `serve` is a function of the connection that returns the messages it writes to the
-- network. JSON, UDP and logging are not modelled; `now` is the time in milliseconds.
pub mod Session
pub mod Closing
pub mod Server
pub mod Client
use golang_programming.Prelude.{
  ℕ, ◌+◌, ◌-◌, ◌*◌, ◌%◌, Bool, true, false, not, ◌&&◌, Option, none, some, List, [], ◌∷◌, ◌++◌, leb,
  if◌then◌else◌, ◌==◌, nat_eq,
}

-- The values of LspMsg.Type; `msg_invalid` stands for every other byte too.
pub data MsgType : Type 0 where
  msg_connect msg_data msg_ack msg_invalid : MsgType

pub record LspMsg : Type 0 where
  pub typ : MsgType
  pub conn_id : ℕ
  pub seq_num : ℕ
  pub payload : List ℕ

-- []byte("MsgCONNECT") and []byte("MsgACK")
abbrev pub connect_text : List ℕ
connect_text = b'M' ∷ b's' ∷ b'g' ∷ b'C' ∷ b'O' ∷ b'N' ∷ b'N' ∷ b'E' ∷ b'C' ∷ b'T' ∷ []

abbrev pub ack_text : List ℕ
ack_text = b'M' ∷ b's' ∷ b'g' ∷ b'A' ∷ b'C' ∷ b'K' ∷ []

abbrev pub gen_conn_msg : ℕ → LspMsg
gen_conn_msg id = record { typ = msg_connect; conn_id = id; seq_num = 0; payload = connect_text }

abbrev pub gen_ack_msg : ℕ → ℕ → LspMsg
gen_ack_msg id seq_num = record {
  typ = msg_ack;
  conn_id = id;
  seq_num = seq_num;
  payload = ack_text;
}

abbrev pub gen_data_msg : ℕ → ℕ → List ℕ → LspMsg
gen_data_msg id seq_num content = record {
  typ = msg_data;
  conn_id = id;
  seq_num = seq_num;
  payload = content;
}

pub record LspParams : Type 0 where
  pub epoch_limit : ℕ
  pub epoch_milliseconds : ℕ

pub record LspConn : Type 0 where
  pub params : LspParams
  pub conn_id : ℕ
  pub send_buf : List LspMsg
  pub recv_buf : List LspMsg
  pub closed : Bool
  pub next_recv_seq_num : ℕ
  pub next_send_seq_num : ℕ
  pub last_ack : LspMsg
  pub last_time : ℕ

-- x++ on a byte
abbrev pub next_byte : ℕ → ℕ
next_byte x = (x + 1) % 256

abbrev pub front : List LspMsg → Option LspMsg
front [] = none
front (m ∷ buf) = some m

abbrev pub rest : List LspMsg → List LspMsg
rest [] = []
rest (m ∷ buf) = buf

abbrev pub is_empty : List LspMsg → Bool
is_empty [] = true
is_empty (m ∷ buf) = false

-- a `udpWrite` of the front of a buffer that is not empty
abbrev pub write_front : List LspMsg → List LspMsg
write_front [] = []
write_front (m ∷ buf) = m ∷ []

-- newLspConn, and the message that it sends itself first
unfoldable pub new_lsp_conn : LspParams → ℕ → ℕ → LspConn × LspMsg
new_lsp_conn params id now = (
  record {
    params = params;
    conn_id = id;
    send_buf = [];
    recv_buf = [];
    closed = false;
    next_recv_seq_num = 1;
    next_send_seq_num = 1;
    last_ack = gen_ack_msg id 0;
    last_time = now;
  },
  if id == 0 then gen_conn_msg 0 else gen_ack_msg id 0,
)

send_data : LspMsg → LspConn → LspConn × List LspMsg
send_data msg conn =
    let buf : List LspMsg = conn.send_buf ++ record msg { seq_num = conn.next_send_seq_num } ∷ [] in
    (
      record conn { next_send_seq_num = next_byte conn.next_send_seq_num; send_buf = buf },
      write_front buf,
    )

unfoldable pub send : LspMsg → LspConn → LspConn × List LspMsg
unfolding send_data
send msg conn = elim msg.typ [
  | msg_connect ↦ (record conn { send_buf = conn.send_buf ++ msg ∷ [] }, msg ∷ [])
  | msg_data ↦ send_data msg conn
  | msg_ack ↦ (conn, msg ∷ [])
  | msg_invalid ↦ (conn, msg ∷ [])
]

receive_data : LspMsg → LspConn → LspConn × List LspMsg
receive_data msg conn =
    let ack : LspMsg = gen_ack_msg conn.conn_id msg.seq_num in
    if msg.seq_num == conn.next_recv_seq_num
    then (
      record conn {
        recv_buf = conn.recv_buf ++ msg ∷ [];
        next_recv_seq_num = next_byte conn.next_recv_seq_num;
        last_ack = ack;
      },
      ack ∷ [],
    )
    else (conn, conn.last_ack ∷ [])

receive_ack : LspMsg → LspMsg → List LspMsg → LspConn → LspConn × List LspMsg
receive_ack msg expect buf conn =
    if msg.seq_num == expect.seq_num
    then (
      record conn {
        send_buf = buf;
        conn_id = if msg.seq_num == 0 then msg.conn_id else conn.conn_id;
      },
      write_front buf,
    )
    else (conn, expect ∷ [])

-- `receive` up to the last test of its MsgACK case.
unfoldable pub receive : LspMsg → LspConn → LspConn × List LspMsg
unfolding receive_data receive_ack
receive msg conn = elim msg.typ [
  | msg_data ↦ receive_data msg conn
  | msg_ack ↦ elim conn.send_buf [
    | [] ↦ (conn, [])
    | expect ∷ buf ↦ receive_ack msg expect buf conn
  ]
  | msg_connect ↦ (conn, [])
  | msg_invalid ↦ (conn, [])
]

-- The last test of the MsgACK case: `conn.writeDone <- nil` is reached.
unfoldable pub write_done : LspMsg → LspConn → Bool
unfolding receive
write_done msg conn = elim msg.typ [
  | msg_ack ↦ not (is_empty conn.send_buf) && is_empty (receive msg conn).0.send_buf && conn.closed
  | _ ↦ false
]

-- epochTrigger: the messages, and whether the connection goes on. `lastAck` is never nil.
unfoldable pub epoch_trigger : ℕ → LspConn → List LspMsg × Bool
epoch_trigger now conn = (
  write_front conn.send_buf ++ conn.last_ack ∷ [],
  not (leb (conn.params.epoch_milliseconds * conn.params.epoch_limit) (now - conn.last_time)),
)

-- What the `select` of `serve` may find ready.
pub data Event : Type 0 where
  to_send : LspMsg → Event
  arrived : ℕ → LspMsg → Event
  reader_ready : Event
  close_asked : Event
  timed_out : ℕ → Event

-- `blocked`: the goroutine waits on `writeDone`, which only itself receives from. `removing`: it sends
-- its number on `removeChan`, and ends when the loop of the server or client takes it; it waits
-- for good when that loop does not. It serves no more in either case.
pub data Status : Type 0 where
  running removing blocked : Status

pub record Served : Type 0 where
  pub conn : LspConn
  pub writes : List LspMsg
  pub delivered : Option LspMsg
  pub status : Status

-- One round of the loop of `serve`.
unfoldable pub serve_round : Event → LspConn → Served
unfolding send receive write_done epoch_trigger
serve_round (to_send msg) conn =
    let (conn', writes) = send msg conn in
    if conn.closed
    then record { conn = conn; writes = []; delivered = none; status = running }
    else record { conn = conn'; writes = writes; delivered = none; status = running }
serve_round (arrived now msg) conn =
    let timed : LspConn = record conn { last_time = now } in
    let (conn', writes) = receive msg timed in
    record {
      conn = conn';
      writes = writes;
      delivered = none;
      status = if write_done msg timed then blocked else running;
    }
serve_round reader_ready conn = record {
  conn = record conn { recv_buf = rest conn.recv_buf };
  writes = [];
  delivered = front conn.recv_buf;
  status = running;
}
serve_round close_asked conn = record {
  conn = record conn { closed = true };
  writes = [];
  delivered = none;
  status = running;
}
serve_round (timed_out now) conn =
    let (writes, goes_on) = epoch_trigger now conn in
    record {
      conn = conn;
      writes = writes;
      delivered = none;
      status = if goes_on then running else removing;
    }
