-- ===== src/Lsp/Session.antt =====
-- Two ends of a connection and the network between them, over the rounds of `serve`
-- (15-440/P1-F11/lsp/lsp_conn.go). One end, `s`, is given payloads to send; the other, `r`, is read
-- from. The network keeps every message ever written to it, and may deliver any of them, in any
-- order and as often as it likes, as long as it is not 256 numbers old: numbers are one byte. For
-- this each message carries the full number that its byte stands for; the program has no such tag.
-- An end that is blocked or has been removed serves no more.
pub mod Stream
pub mod Sender
pub mod Receiver
pub mod Safety
pub mod Progress
use golang_programming.Prelude.{
  ℕ, zero, suc, ◌+◌, ◌-◌, ◌%◌, ◌<◌, ◌≤◌, ◌≡◌, ◌⊎◌, Bool, false, Option, none, some, List, [], ◌∷◌,
  ◌++◌, map, length, get_elem?, All, In,
}
use golang_programming.Lsp.{
  LspMsg, LspConn, LspParams, msg_data, msg_ack, gen_ack_msg, gen_data_msg, Event, to_send, arrived,
  reader_ready, close_asked, timed_out, Status, running, Served, serve_round, next_byte,
}

abbrev pub Payload : Type 0
Payload = List ℕ

abbrev pub Tagged : Type 0
Tagged = ℕ × LspMsg

pub record System : Type 0 where
  pub s : LspConn
  pub r : LspConn
  pub written : List Payload
  pub read : List Payload
  pub to_r : List Tagged
  pub to_s : List Tagged
  pub s_status : Status
  pub r_status : Status

-- how many payloads have been acknowledged at `s`, and how many have got to `r`
abbrev pub acked : System → ℕ
acked t = length t.written - length t.s.send_buf

abbrev pub got : System → ℕ
got t = length t.read + length t.r.recv_buf

abbrev pub tag : ℕ → List LspMsg → List Tagged
tag n = map (λ m. (n, m))

-- A round at `s`, with what has then been written: it writes the message after those acknowledged.
abbrev pub turn_s : Event → List Payload → System → System
turn_s e written t =
    let o : Served = serve_round e t.s in
    let n : ℕ = suc (length written - length o.conn.send_buf) in
    record t { s = o.conn; written = written; to_r = tag n o.writes ++ t.to_r; s_status = o.status }

abbrev pub taken : Option LspMsg → List Payload
taken none = []
taken (some m) = m.payload ∷ []

-- A round at `r`: it writes the acknowledgement of all that it has got.
abbrev pub turn_r : Event → System → System
turn_r e t =
    let o : Served = serve_round e t.r in
    let read : List Payload = t.read ++ taken o.delivered in
    record t {
      r = o.conn;
      read = read;
      to_s = tag (length read + length o.conn.recv_buf) o.writes ++ t.to_s;
      r_status = o.status;
    }

-- An end takes a step only while its goroutine runs.
pub data Step (t : System) : System → Type 0 where
  app_writes :
      (id : ℕ) (p : Payload)
      → t.s_status ≡ running
      → t.s.closed ≡ false
      → Step t (turn_s (to_send (gen_data_msg id 0 p)) (t.written ++ p ∷ []) t)
  ack_arrives :
      (now n : ℕ) (m : LspMsg)
      → t.s_status ≡ running
      → In (n, m) t.to_s
      → suc (acked t) < n + 256
      → Step t (turn_s (arrived now m) t.written t)
  s_times_out : (now : ℕ) → t.s_status ≡ running → Step t (turn_s (timed_out now) t.written t)
  s_closes : t.s_status ≡ running → Step t (turn_s close_asked t.written t)
  data_arrives :
      (now n : ℕ) (m : LspMsg)
      → t.r_status ≡ running
      → In (n, m) t.to_r
      → suc (got t) < n + 256
      → Step t (turn_r (arrived now m) t)
  app_reads : t.r_status ≡ running → Step t (turn_r reader_ready t)
  r_times_out : (now : ℕ) → t.r_status ≡ running → Step t (turn_r (timed_out now) t)
  r_closes : t.r_status ≡ running → Step t (turn_r close_asked t)

pub data Reach (t : System) : System → Type 0 where
  start : Reach t t
  later : {u v : System} → Reach t u → Step u v → Reach t v

-- An end whose connection is established, before any data.
abbrev pub established : LspParams → ℕ → LspConn
established params id = record {
  params = params;
  conn_id = id;
  send_buf = [];
  recv_buf = [];
  closed = false;
  next_recv_seq_num = 1;
  next_send_seq_num = 1;
  last_ack = gen_ack_msg id 0;
  last_time = 0;
}

abbrev pub opened : LspParams → ℕ → System
opened params id = record {
  s = established params id;
  r = established params id;
  written = [];
  read = [];
  to_r = [];
  to_s = [];
  s_status = running;
  r_status = running;
}

-- The buffer holds the payloads from index `k` on, with their numbers.
abbrev pub QueueOf : List Payload → ℕ → List LspMsg → Type 0
QueueOf w k [] = length w ≡ k
QueueOf w k (m ∷ buf) =
    (m.typ ≡ msg_data)
    × (m.seq_num ≡ suc k % 256)
    × (get_elem? w k ≡ some m.payload)
    × QueueOf w (suc k) buf

-- The payloads from index `k` on are these.
abbrev pub AgreesAt : List Payload → ℕ → List Payload → Type 0
AgreesAt w k [] = Unit
AgreesAt w k (p ∷ ps) = (get_elem? w k ≡ some p) × AgreesAt w (suc k) ps

-- A message on its way to `r`, up to number `n`; `s` may also send its own acknowledgement.
abbrev pub DataOk : List Payload → ℕ → Tagged → Type 0
DataOk w n (i, m) =
    (m.typ ≡ msg_ack)
    ⊎ ((k : ℕ) × (i ≡ suc k)
        × (i ≤ n)
        × (m.typ ≡ msg_data)
        × (m.seq_num ≡ i % 256)
        × (get_elem? w k ≡ some m.payload))

abbrev pub AckOk : ℕ → Tagged → Type 0
AckOk n (i, m) = (m.typ ≡ msg_ack) × (i ≤ n) × (m.seq_num ≡ i % 256)

abbrev pub payloads : List LspMsg → List Payload
payloads = map (λ m. m.payload)

pub record Inv (t : System) : Type 0 where
  pub queue : QueueOf t.written (acked t) t.s.send_buf
  pub next_sent : t.s.next_send_seq_num ≡ suc (length t.written) % 256
  pub s_acks : t.s.last_ack.typ ≡ msg_ack
  pub next_got : t.r.next_recv_seq_num ≡ suc (got t) % 256
  pub r_acks : t.r.last_ack.typ ≡ msg_ack
  pub last_got : t.r.last_ack.seq_num ≡ got t % 256
  pub r_silent : t.r.send_buf ≡ []
  pub agrees : AgreesAt t.written 0 (t.read ++ payloads t.r.recv_buf)
  pub not_behind : acked t ≤ got t
  pub not_ahead : got t ≤ suc (acked t)
  pub data_ok : All (DataOk t.written (suc (acked t))) t.to_r
  pub acks_ok : All (AckOk (got t)) t.to_s
