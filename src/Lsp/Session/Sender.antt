-- ===== src/Lsp/Session/Sender.antt =====
-- The rounds of the sending end keep the invariant.
use golang_programming.Prelude.{
  ℕ, suc, ◌+◌, ◌-◌, ◌%◌, ◌≤◌, ◌<◌, ◌≡◌, refl, ap, inl, inr, false, List, [], ◌∷◌, ◌++◌, arith,
  length, length-append, get_elem?-append, All, In, All-append, All-In, All-weaken, nat_eq, ◌≢◌,
  ℕ_discrete, subst,
}
use golang_programming.Lsp.{
  LspMsg, LspConn, Event, to_send, arrived, timed_out, close_asked, serve_round, gen_data_msg,
  msg_ack, write_front,
}
use golang_programming.Lsp.Session.{
  System, Payload, acked, got, tag, turn_s, QueueOf, DataOk, AckOk, Inv,
}
use golang_programming.Lsp.Session.Stream.{
  length-QueueOf, QueueOf-append, AgreesAt-weaken, DataOk-weaken, Extends,
}

-- The front of a queue is what may be on its way.
front_ok :
    (w : List Payload) (k : ℕ) (buf : List LspMsg)
    → QueueOf w k buf
    → All (DataOk w (suc k)) (tag (suc k) (write_front buf))
front_ok w k [] q = tt
front_ok w k (m ∷ buf) (typ, seq, at, q) = (inr (k, refl, omega arith, typ, seq, at), tt)

repeat_ok :
    (w : List Payload) (k : ℕ) (buf : List LspMsg) (ack : LspMsg)
    → ack.typ ≡ msg_ack
    → QueueOf w k buf
    → All (DataOk w (suc k)) (tag (suc k) (write_front buf ++ ack ∷ []))
repeat_ok w k [] ack a q = (inl a, tt)
repeat_ok w k (m ∷ buf) ack a (typ, seq, at, q) =
    (inr (k, refl, omega arith, typ, seq, at), (inl a, tt))

-- What a round at `s` has to keep, with the payloads that have been written then.
turn_s-Inv :
    (e : Event) (w : List Payload) (t : System)
    → Inv t
    → Extends t.written w
    → let t' = turn_s e w t in
      QueueOf w (acked t') t'.s.send_buf
      → t'.s.next_send_seq_num ≡ suc (length w) % 256
      → t'.s.last_ack.typ ≡ msg_ack
      → acked t ≤ acked t'
      → acked t' ≤ got t
      → All (DataOk w (suc (acked t'))) (tag (suc (acked t')) (serve_round e t.s).writes)
      → Inv t'
turn_s-Inv e w t v grow queue next acks more le writes = record {
  queue = queue;
  next_sent = next;
  s_acks = acks;
  next_got = v.next_got;
  r_acks = v.r_acks;
  last_got = v.last_got;
  r_silent = v.r_silent;
  agrees = AgreesAt-weaken t.written w grow 0 _ v.agrees;
  not_behind = le;
  not_ahead = omega arith;
  data_ok = All-append _ _ t.to_r writes (
      All-weaken _ _ t.to_r
        (DataOk-weaken t.written w grow (suc (acked t)) (suc (acked (turn_s e w t))) (omega arith))
        v.data_ok);
  acks_ok = v.acks_ok;
}

pub s_closes-Inv : (t : System) → Inv t → Inv (turn_s close_asked t.written t)
unfolding serve_round
s_closes-Inv t v =
    turn_s-Inv close_asked t.written t v (λ i p h. h) v.queue v.next_sent v.s_acks (omega arith)
      v.not_behind tt

-- a timeout sends the front again, and the last acknowledgement
pub s_times_out-Inv : (now : ℕ) (t : System) → Inv t → Inv (turn_s (timed_out now) t.written t)
unfolding serve_round
s_times_out-Inv now t v =
    turn_s-Inv (timed_out now) t.written t v (λ i p h. h) v.queue v.next_sent v.s_acks (omega arith)
      v.not_behind (repeat_ok t.written (acked t) t.s.send_buf t.s.last_ack v.s_acks v.queue)

write_round :
    (id : ℕ) (p : Payload) (c : LspConn)
    → c.closed ≡ false
    → let o = serve_round (to_send (gen_data_msg id 0 p)) c in
      let m : LspMsg = gen_data_msg id c.next_send_seq_num p in
      (o.conn.send_buf ≡ c.send_buf ++ m ∷ [])
      × (o.writes ≡ write_front (c.send_buf ++ m ∷ []))
      × (o.conn.next_send_seq_num ≡ suc c.next_send_seq_num % 256)
      × (o.conn.last_ack ≡ c.last_ack)
unfolding serve_round
write_round id p c open_ = (ground arith, ground arith, ground arith, ground arith)

pub app_writes-Inv :
    (id : ℕ) (p : Payload) (t : System)
    → t.s.closed ≡ false
    → Inv t
    → Inv (turn_s (to_send (gen_data_msg id 0 p)) (t.written ++ p ∷ []) t)
app_writes-Inv id p t open_ v =
    let w : List Payload = t.written ++ p ∷ [] in
    let m : LspMsg = gen_data_msg id t.s.next_send_seq_num p in
    let (buf, writes, next, acks) = write_round id p t.s open_ in
    let q : QueueOf w (acked t) (t.s.send_buf ++ m ∷ []) =
      QueueOf-append t.written (acked t) t.s.send_buf m refl v.next_sent v.queue in
    let same : acked t ≡ length w - length (t.s.send_buf ++ m ∷ []) =
      omega (arith, length-append t.written (p ∷ []), length-append t.s.send_buf (m ∷ [])) in
    turn_s-Inv (to_send (gen_data_msg id 0 p)) w t v
      (λ i x h. get_elem?-append t.written (p ∷ []) i x h) (rw (buf, ← same) q)
      (omega (arith, next, v.next_sent, length-append t.written (p ∷ []))) (rw acks v.s_acks)
      (rw (buf, ← same) (omega arith)) (rw (buf, ← same) v.not_behind)
      (rw (buf, writes, ← same) (front_ok w (acked t) (t.s.send_buf ++ m ∷ []) q))

-- An acknowledgement changes the connection only if it is the one that is waited for.
pub ack_round :
    (now : ℕ) (m expect : LspMsg) (buf : List LspMsg) (c : LspConn)
    → m.typ ≡ msg_ack
    → c.send_buf ≡ expect ∷ buf
    → let o = serve_round (arrived now m) c in
      (o.conn.next_send_seq_num ≡ c.next_send_seq_num)
      × (o.conn.last_ack ≡ c.last_ack)
      × (m.seq_num ≡ expect.seq_num → (o.conn.send_buf ≡ buf) × (o.writes ≡ write_front buf))
      × (m.seq_num ≢ expect.seq_num
          → (o.conn.send_buf ≡ c.send_buf) × (o.writes ≡ write_front c.send_buf))
unfolding serve_round
ack_round now m expect buf c typ e = (
  ground arith,
  ground arith,
  λ same. (ground arith, ground arith),
  λ other. (ground arith, ground arith),
)

idle_round :
    (now : ℕ) (m : LspMsg) (c : LspConn)
    → m.typ ≡ msg_ack
    → c.send_buf ≡ []
    → let o = serve_round (arrived now m) c in
      (o.conn ≡ record c { last_time = now }) × (o.writes ≡ [])
unfolding serve_round
idle_round now m c typ e = (ground arith, ground arith)

module _ (now n : ℕ) (m : LspMsg) (t : System) (v : Inv t) (a : AckOk (got t) (n, m)) where
  unchanged :
      let o = serve_round (arrived now m) t.s in
      o.conn.send_buf ≡ t.s.send_buf
      → o.conn.next_send_seq_num ≡ t.s.next_send_seq_num
      → o.conn.last_ack ≡ t.s.last_ack
      → All (DataOk t.written (suc (acked t))) (tag (suc (acked t)) o.writes)
      → Inv (turn_s (arrived now m) t.written t)
  unchanged same next acks writes =
      turn_s-Inv (arrived now m) t.written t v (λ i p h. h) (rw same v.queue) (rw next v.next_sent)
        (rw acks v.s_acks) (rw same (omega arith)) (rw same v.not_behind) (rw same writes)

  ack_round-Inv :
      (buf : List LspMsg)
      → t.s.send_buf ≡ buf
      → suc (acked t) < n + 256
      → Inv (turn_s (arrived now m) t.written t)
  ack_round-Inv [] e recent =
      let (conn, writes) = idle_round now m t.s a.0 e in
      unchanged (rw conn refl) (rw conn refl) (rw conn refl) (rw writes tt)
  ack_round-Inv (expect ∷ buf) e recent =
      let (next, acks, taken, kept) = ack_round now m expect buf t.s a.0 e in
      let (typ, seq, at, q) = subst (λ b. QueueOf t.written (acked t) b) e v.queue in
      elim (ℕ_discrete m.seq_num expect.seq_num) [
        | no other ↦
            let (same, writes) = kept other in
            unchanged same next acks (rw writes (front_ok t.written (acked t) t.s.send_buf v.queue))
        | yes hit ↦
            let (buf', writes) = taken hit in
            let full : n ≡ suc (acked t) = omega (arith, a.1, a.2, hit, seq, v.not_ahead) in
            let more : length t.written - length buf ≡ suc (acked t) =
              omega (arith, length-QueueOf t.written (acked t) t.s.send_buf v.queue, ap length e) in
            turn_s-Inv (arrived now m) t.written t v (λ i p h. h) (rw (buf', more) q)
              (rw next v.next_sent) (rw acks v.s_acks) (rw (buf', more) (omega arith))
              (rw (buf', more) (omega (arith, a.1, full)))
              (rw (buf', writes, more) (front_ok t.written (suc (acked t)) buf q))
      ]

-- An acknowledgement that arrives keeps the invariant.
pub ack_arrives-Inv :
    (now n : ℕ) (m : LspMsg) (t : System)
    → In (n, m) t.to_s
    → suc (acked t) < n + 256
    → Inv t
    → Inv (turn_s (arrived now m) t.written t)
ack_arrives-Inv now n m t i recent v =
    ack_round-Inv now n m t v (All-In (AckOk (got t)) v.acks_ok i) t.s.send_buf refl recent
