-- ===== src/Lsp/Session/Receiver.antt =====
-- The rounds of the receiving end keep the invariant.
use mathlib.Core.List.{append-nil, append_assoc, map-append}
use golang_programming.Prelude.{
  ℕ, suc, ◌+◌, ◌%◌, ◌≤◌, ◌<◌, ◌≡◌, ◌≢◌, refl, ap, ◌⊎◌, inl, inr, subst, some, none, List, [], ◌∷◌,
  ◌++◌, arith, length, length-append, get_elem?, All, In, All-append, All-In, All-weaken, nat_eq,
  ℕ_discrete,
}
use golang_programming.Lsp.{
  LspMsg, LspConn, Event, arrived, timed_out, reader_ready, close_asked, serve_round, gen_ack_msg,
  msg_data, msg_ack,
}
use golang_programming.Lsp.Session.{
  System, acked, got, tag, taken, turn_r, AgreesAt, DataOk, AckOk, Inv, payloads,
}
use golang_programming.Lsp.Session.Stream.{AgreesAt-append, AckOk-later}

length-payloads : (buf : List LspMsg) → length (payloads buf) ≡ length buf
length-payloads [] = refl
length-payloads (m ∷ buf) = ap suc (length-payloads buf)

-- What a round at `r` has to keep.
turn_r-Inv :
    (e : Event) (t : System)
    → Inv t
    → let t' = turn_r e t in
      t'.r.next_recv_seq_num ≡ suc (got t') % 256
      → t'.r.last_ack.typ ≡ msg_ack
      → t'.r.last_ack.seq_num ≡ got t' % 256
      → t'.r.send_buf ≡ []
      → AgreesAt t.written 0 (t'.read ++ payloads t'.r.recv_buf)
      → got t ≤ got t'
      → got t' ≤ suc (acked t)
      → All (AckOk (got t')) (tag (got t') (serve_round e t.r).writes)
      → Inv t'
turn_r-Inv e t v next acks last silent agrees more le writes = record {
  queue = v.queue;
  next_sent = v.next_sent;
  s_acks = v.s_acks;
  next_got = next;
  r_acks = acks;
  last_got = last;
  r_silent = silent;
  agrees = agrees;
  not_behind = omega arith;
  not_ahead = le;
  data_ok = v.data_ok;
  acks_ok =
      All-append _ _ t.to_s writes
        (All-weaken _ _ t.to_s (AckOk-later (got t) (got (turn_r e t)) more) v.acks_ok);
}

-- A round that delivers nothing and leaves the buffer and the numbers as they were.
still :
    (e : Event) (t : System)
    → Inv t
    → let o = serve_round e t.r in
      o.delivered ≡ none
      → o.conn.recv_buf ≡ t.r.recv_buf
      → o.conn.next_recv_seq_num ≡ t.r.next_recv_seq_num
      → o.conn.last_ack ≡ t.r.last_ack
      → o.conn.send_buf ≡ t.r.send_buf
      → (o.writes ≡ []) ⊎ (o.writes ≡ t.r.last_ack ∷ [])
      → Inv (turn_r e t)
still e t v quiet buf next last send writes =
    let same : got (turn_r e t) ≡ got t = rw (quiet, buf, append-nil) refl in
    turn_r-Inv e t v (rw (next, same) v.next_got) (rw last v.r_acks) (rw (last, same) v.last_got)
      (rw send v.r_silent) (rw (quiet, buf, append-nil) v.agrees) (omega (arith, same))
      (omega (arith, same, v.not_ahead))
      (elim writes [
        | inl w ↦ rw w tt
        | inr w ↦ rw (w, same) ((v.r_acks, omega arith, v.last_got), tt)
      ])

pub r_closes-Inv : (t : System) → Inv t → Inv (turn_r close_asked t)
unfolding serve_round
r_closes-Inv t v = still close_asked t v refl refl refl refl refl (inl refl)

timeout_round :
    (now : ℕ) (c : LspConn)
    → c.send_buf ≡ []
    → let o = serve_round (timed_out now) c in
      (o.conn ≡ c) × (o.delivered ≡ none) × (o.writes ≡ c.last_ack ∷ [])
unfolding serve_round
timeout_round now c e = (refl, refl, ground arith)

pub r_times_out-Inv : (now : ℕ) (t : System) → Inv t → Inv (turn_r (timed_out now) t)
r_times_out-Inv now t v =
    let (conn, quiet, writes) = timeout_round now t.r v.r_silent in
    still (timed_out now) t v quiet (rw conn refl) (rw conn refl) (rw conn refl) (rw conn refl)
      (inr writes)

-- The reader takes the oldest message.
read_round :
    (c : LspConn) (buf : List LspMsg)
    → c.recv_buf ≡ buf
    → let o = serve_round reader_ready c in
      (taken o.delivered ++ payloads o.conn.recv_buf ≡ payloads buf)
      × (length (taken o.delivered) + length o.conn.recv_buf ≡ length buf)
unfolding serve_round
read_round c [] e = (rw e refl, rw e (omega arith))
read_round c (m ∷ buf) e = (rw e refl, rw e (omega arith))

read_rest :
    (c : LspConn)
    → let o = serve_round reader_ready c in
      (o.conn.next_recv_seq_num ≡ c.next_recv_seq_num)
      × (o.conn.last_ack ≡ c.last_ack)
      × (o.conn.send_buf ≡ c.send_buf)
      × (o.writes ≡ [])
unfolding serve_round
read_rest c = (refl, refl, refl, refl)

pub app_reads-Inv : (t : System) → Inv t → Inv (turn_r reader_ready t)
app_reads-Inv t v =
    let (stream, count) = read_round t.r t.r.recv_buf refl in
    let (next, last, send, writes) = read_rest t.r in
    let same : got (turn_r reader_ready t) ≡ got t =
      omega (arith, count, length-append t.read (taken (serve_round reader_ready t.r).delivered)) in
    turn_r-Inv reader_ready t v (rw (next, same) v.next_got) (rw last v.r_acks)
      (rw (last, same) v.last_got) (rw send v.r_silent) (rw (append_assoc, stream) v.agrees)
      (omega (arith, same)) (omega (arith, same, v.not_ahead)) (rw writes tt)

-- Data changes the connection only if it has the number that is waited for.
pub data_round :
    (now : ℕ) (m : LspMsg) (c : LspConn)
    → m.typ ≡ msg_data
    → let o = serve_round (arrived now m) c in
      (o.delivered ≡ none)
      × (o.conn.send_buf ≡ c.send_buf)
      × (m.seq_num ≡ c.next_recv_seq_num
          → (o.conn.recv_buf ≡ c.recv_buf ++ m ∷ [])
            × (o.conn.next_recv_seq_num ≡ suc c.next_recv_seq_num % 256)
            × (o.conn.last_ack ≡ gen_ack_msg c.conn_id m.seq_num)
            × (o.writes ≡ gen_ack_msg c.conn_id m.seq_num ∷ []))
      × (m.seq_num ≢ c.next_recv_seq_num
          → (o.conn ≡ record c { last_time = now }) × (o.writes ≡ c.last_ack ∷ []))
unfolding serve_round
data_round now m c typ = (
  ground arith,
  ground arith,
  λ hit. (ground arith, ground arith, ground arith, ground arith),
  λ other. (ground arith, ground arith),
)

ack_ignored :
    (now : ℕ) (m : LspMsg) (c : LspConn)
    → m.typ ≡ msg_ack
    → c.send_buf ≡ []
    → let o = serve_round (arrived now m) c in
      (o.conn ≡ record c { last_time = now }) × (o.delivered ≡ none) × (o.writes ≡ [])
unfolding serve_round
ack_ignored now m c typ e = (ground arith, ground arith, ground arith)

module _ (now n : ℕ) (m : LspMsg) (t : System) (v : Inv t) (recent : suc (got t) < n + 256) where
  here_is : (k : ℕ) → n ≡ suc k → n ≡ suc (got t) → k ≡ 0 + length (t.read ++ payloads t.r.recv_buf)
  here_is k e full =
      omega (arith, length-append t.read (payloads t.r.recv_buf), length-payloads t.r.recv_buf)

  data_round-Inv :
      (k : ℕ)
      → n ≡ suc k
      → n ≤ suc (acked t)
      → m.typ ≡ msg_data
      → m.seq_num ≡ n % 256
      → get_elem? t.written k ≡ some m.payload
      → Inv (turn_r (arrived now m) t)
  data_round-Inv k e le typ seq at =
      let (quiet, send, taken_, kept) = data_round now m t.r typ in
      elim (ℕ_discrete m.seq_num t.r.next_recv_seq_num) [
        | no other ↦
            let (conn, writes) = kept other in
            still (arrived now m) t v quiet (rw conn refl) (rw conn refl) (rw conn refl)
              (rw conn refl) (inr writes)
        | yes hit ↦
            let (buf, next, last, writes) = taken_ hit in
            let full : n ≡ suc (got t) =
              omega (arith, seq, hit, v.next_got, v.not_behind, le, recent) in
            let more : got (turn_r (arrived now m) t) ≡ suc (got t) =
              rw (quiet, buf, append-nil) (omega (arith, length-append t.r.recv_buf (m ∷ []))) in
            turn_r-Inv (arrived now m) t v (rw (next, more) (omega (arith, v.next_got)))
              (rw last refl) (rw (last, more) (omega (arith, seq, full))) (rw send v.r_silent)
              (rw (quiet, append-nil, buf, map-append, ← append_assoc)
                (AgreesAt-append t.written 0 (t.read ++ payloads t.r.recv_buf) m.payload v.agrees
                  (subst (λ j. get_elem? t.written j ≡ some m.payload) (here_is k e full) at)))
              (omega (arith, more)) (omega (arith, more, full, le))
              (rw (writes, more) ((refl, omega arith, omega (arith, seq, full)), tt))
      ]

  data_arrives_at : DataOk t.written (suc (acked t)) (n, m) → Inv (turn_r (arrived now m) t)
  data_arrives_at (inl typ) =
      let (conn, quiet, writes) = ack_ignored now m t.r typ v.r_silent in
      still (arrived now m) t v quiet (rw conn refl) (rw conn refl) (rw conn refl) (rw conn refl)
        (inl writes)
  data_arrives_at (inr (k, e, le, typ, seq, at)) = data_round-Inv k e le typ seq at

-- A message that arrives at `r` keeps the invariant.
pub data_arrives-Inv :
    (now n : ℕ) (m : LspMsg) (t : System)
    → In (n, m) t.to_r
    → suc (got t) < n + 256
    → Inv t
    → Inv (turn_r (arrived now m) t)
data_arrives-Inv now n m t i recent v =
    data_arrives_at now n m t v recent (All-In (DataOk t.written (suc (acked t))) v.data_ok i)
