-- ===== src/Lsp/Session/Progress.antt =====
-- A session never gets stuck: its timeouts repeat what is missing
-- (15-440/P1-F11/lsp/lsp_conn.go).
use mathlib.Core.List.{append-nil}
use golang_programming.Prelude.{
  ℕ, suc, ◌-◌, ◌*◌, ◌<◌, ◌%◌, ◌≡◌, refl, sym, ◌∙◌, ap, subst, List, [], ◌∷◌, arith, length,
  length-append, In, here, nat_eq, ℕ_discrete,
}
use golang_programming.Lsp.{
  LspMsg, LspParams, arrived, timed_out, serve_round, gen_ack_msg, msg_data, msg_ack, running,
}
use golang_programming.Lsp.Session.{
  System, Step, ack_arrives, s_times_out, data_arrives, Reach, opened, Inv, QueueOf, acked, got,
  turn_s, turn_r,
}
use golang_programming.Lsp.Session.Stream.{length-QueueOf}
use golang_programming.Lsp.Session.Sender.{ack_round, s_times_out-Inv}
use golang_programming.Lsp.Session.Receiver.{data_round, data_arrives-Inv}
use golang_programming.Lsp.Session.Safety.{Reach-Inv, opened-Inv}

-- the timeout puts the front on the network
repeats :
    (now : ℕ) (t : System) (m : LspMsg) (buf : List LspMsg)
    → t.s.send_buf ≡ m ∷ buf
    → In (suc (acked t), m) (turn_s (timed_out now) t.written t).to_r
unfolding serve_round
repeats now t m buf e = rw e here

-- The front reaches `r`, and `r` answers with the number of the front.
answers :
    (now : ℕ) (t : System) (m : LspMsg)
    → Inv t
    → m.typ ≡ msg_data
    → m.seq_num ≡ suc (acked t) % 256
    → (ack : LspMsg) × (ack.typ ≡ msg_ack)
      × (ack.seq_num ≡ suc (acked t) % 256)
      × In (suc (acked t), ack) (turn_r (arrived now m) t).to_s
answers now t m v typ seq =
    let (quiet, send, taken, kept) = data_round now m t.r typ in
    elim (ℕ_discrete m.seq_num t.r.next_recv_seq_num) [
      | yes hit ↦
          let (buf, next, last, writes) = taken hit in
          let more : got (turn_r (arrived now m) t) ≡ suc (acked t) =
            rw (quiet, buf, append-nil)
              (omega (
                arith,
                seq,
                hit,
                v.next_got,
                v.not_behind,
                v.not_ahead,
                length-append t.r.recv_buf (m ∷ []),
              )) in
          (gen_ack_msg t.r.conn_id m.seq_num, refl, seq, rw (writes, more) here)
      | no other ↦
          let (conn, writes) = kept other in
          let full : got t ≡ suc (acked t) = elim (ℕ_discrete (got t) (suc (acked t))) [
            | yes f ↦ f
            | no g ↦ absurd (other (omega (arith, seq, v.next_got, v.not_behind, v.not_ahead, g)))
          ] in
          let more : got (turn_r (arrived now m) t) ≡ suc (acked t) =
            rw (quiet, conn, append-nil) full in
          (t.r.last_ack, v.r_acks, v.last_got ∙ ap (λ n. n % 256) full, rw (writes, more) here)
    ]

head_of :
    (t : System) (m : LspMsg) (buf : List LspMsg)
    → Inv t
    → t.s.send_buf ≡ m ∷ buf
    → (m.typ ≡ msg_data) × (m.seq_num ≡ suc (acked t) % 256) × Unit {0}
head_of t m buf v e =
    let (typ, seq, at, q) = subst (λ b. QueueOf t.written (acked t) b) e v.queue in (typ, seq, tt)

-- the answer takes the front out of the queue
advances :
    (now : ℕ) (t : System) (ack m : LspMsg) (buf : List LspMsg)
    → Inv t
    → t.s.send_buf ≡ m ∷ buf
    → ack.typ ≡ msg_ack
    → ack.seq_num ≡ suc (acked t) % 256
    → acked (turn_s (arrived now ack) t.written t) ≡ suc (acked t)
advances now t ack m buf v e typ seq =
    let (_, front_seq, _) = head_of t m buf v e in
    let (next, acks, taken, kept) = ack_round now ack m buf t.s typ e in
    let (buf', writes) = taken (seq ∙ sym front_seq) in
    rw buf' (omega (arith, length-QueueOf t.written (acked t) t.s.send_buf v.queue, ap length e))

-- The same session when the network has lost every message on its way.
abbrev pub all_lost : System → System
all_lost t = record t { to_r = []; to_s = [] }

all_lost-Inv : (t : System) → Inv t → Inv (all_lost t)
all_lost-Inv t v = record {
  queue = v.queue;
  next_sent = v.next_sent;
  s_acks = v.s_acks;
  next_got = v.next_got;
  r_acks = v.r_acks;
  last_got = v.last_got;
  r_silent = v.r_silent;
  agrees = v.agrees;
  not_behind = v.not_behind;
  not_ahead = v.not_ahead;
  data_ok = tt;
  acks_ok = tt;
}

-- A timeout before the epoch limit leaves the goroutine running.
keeps_running :
    (now : ℕ) (t : System)
    → now - t.s.last_time < t.s.params.epoch_milliseconds * t.s.params.epoch_limit
    → (turn_s (timed_out now) t.written t).s_status ≡ running
unfolding serve_round
keeps_running now t lt = ground (arith, lt)

-- In any state that a session can reach with both goroutines running and a message that is not
-- acknowledged, and when the network then loses all that is on its way: a timeout at the sender before
-- its epoch limit writes the message again, it can arrive, the receiver writes an answer, and when that
-- arrives the message is acknowledged.
pub session_progresses :
    (params : LspParams) (id now : ℕ) (t : System) (m : LspMsg) (buf : List LspMsg)
    → Reach (opened params id) t
    → t.s.send_buf ≡ m ∷ buf
    → t.s_status ≡ running
    → t.r_status ≡ running
    → now - t.s.last_time < t.s.params.epoch_milliseconds * t.s.params.epoch_limit
    → let t₁ = turn_s (timed_out now) t.written (all_lost t) in
      let t₂ = turn_r (arrived now m) t₁ in
      Step (all_lost t) t₁
      × In (suc (acked t), m) t₁.to_r
      × Step t₁ t₂
      × (ack : LspMsg) × In (suc (acked t), ack) t₂.to_s
      × (let t₃ = turn_s (arrived now ack) t₂.written t₂ in
          Step t₂ t₃ × (acked t₃ ≡ suc (acked t)) × (t₃.written ≡ t.written))
unfolding serve_round
session_progresses params id now t m buf r e on on' lt =
    let t₀ : System = all_lost t in
    let v = all_lost-Inv t (Reach-Inv (opened-Inv params id) r) in
    let (typ, seq, _) = head_of t₀ m buf v e in
    let t₁ : System = turn_s (timed_out now) t.written t₀ in
    let v₁ = s_times_out-Inv now t₀ v in
    let (ack, ack_typ, ack_seq, on_way) = answers now t₁ m v₁ typ seq in
    let t₂ : System = turn_r (arrived now m) t₁ in
    let sent = repeats now t₀ m buf e in
    let v₂ = data_arrives-Inv now (suc (acked t)) m t₁ sent (omega (arith, v.not_ahead)) v₁ in
    (
      s_times_out now on,
      sent,
      data_arrives now (suc (acked t)) m on' sent (omega (arith, v.not_ahead)),
      ack,
      on_way,
      (
        ack_arrives now (suc (acked t)) ack (keeps_running now t₀ lt) on_way (omega arith),
        advances now t₂ ack m buf v₂ e ack_typ ack_seq,
        refl,
      ),
    )
