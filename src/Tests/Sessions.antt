-- ===== src/Tests/Sessions.antt =====
-- Connections at fixed inputs.
use golang_programming.Prelude.{
  ℕ, suc, ◌≤◌, ◌≡◌, ◌≢◌, ◌↔◌, refl, List, [], ◌∷◌, ◌++◌, arith, here, In, ◌*◌, ◌-◌, ℕ_discrete,
}
use golang_programming.Lsp.{
  LspMsg, LspParams, gen_data_msg, arrived, timed_out, to_send, reader_ready, close_asked, running,
  removing, blocked, serve_round,
}
use golang_programming.Lsp.Session.{
  System, Payload, Step, app_writes, data_arrives, app_reads, Reach, start, later, opened, turn_s,
  turn_r, payloads, acked, got,
}
use golang_programming.Lsp.Session.Safety.{session_delivers}
use golang_programming.Lsp.Session.Progress.{all_lost, session_progresses}
use golang_programming.Lsp.Closing.{IsLastAck, blocked_iff}

abbrev params : LspParams
params = record { epoch_limit = 5; epoch_milliseconds = 2000 }

-- Two payloads are written; the first is delivered and read.
abbrev t₁ : System
t₁ = turn_s (to_send (gen_data_msg 1 0 (10 ∷ []))) ((10 ∷ []) ∷ []) (opened params 1)

abbrev t₂ : System
t₂ = turn_s (to_send (gen_data_msg 1 0 (20 ∷ []))) ((10 ∷ []) ∷ (20 ∷ []) ∷ []) t₁

abbrev t₃ : System
t₃ = turn_r (arrived 5 (gen_data_msg 1 1 (10 ∷ []))) t₂

abbrev t₄ : System
t₄ = turn_r reader_ready t₃

Reach-two : Reach (opened params 1) t₂
unfolding serve_round
Reach-two =
    later (later start (app_writes 1 (10 ∷ []) refl refl)) (app_writes 1 (20 ∷ []) refl refl)

Reach-four : Reach (opened params 1) t₄
unfolding serve_round
Reach-four =
    later (later Reach-two (data_arrives 5 1 (gen_data_msg 1 1 (10 ∷ [])) refl here (omega arith)))
      (app_reads refl)

t₄_read : t₄.read ≡ (10 ∷ []) ∷ []
unfolding serve_round ℕ_discrete
t₄_read = refl

session_delivers_example :
    ((more : List Payload) × (t₄.written ≡ t₄.read ++ payloads t₄.r.recv_buf ++ more))
    × ((more : List Payload) × (t₄.written ≡ t₄.read ++ more))
    × (acked t₄ ≤ got t₄)
    × (got t₄ ≤ suc (acked t₄))
session_delivers_example = session_delivers params 1 t₄ Reach-four

session_progresses_example :
    let m = gen_data_msg 1 1 (10 ∷ []) in
    let u₁ = turn_s (timed_out 9) t₂.written (all_lost t₂) in
    let u₂ = turn_r (arrived 9 m) u₁ in
    Step (all_lost t₂) u₁
    × In (suc (acked t₂), m) u₁.to_r
    × Step u₁ u₂
    × (ack : LspMsg) × In (suc (acked t₂), ack) u₂.to_s
    × (let u₃ = turn_s (arrived 9 ack) u₂.written u₂ in
        Step u₂ u₃ × (acked u₃ ≡ suc (acked t₂)) × (u₃.written ≡ t₂.written))
unfolding serve_round
session_progresses_example =
    session_progresses params 1 9 t₂ (gen_data_msg 1 1 (10 ∷ [])) (gen_data_msg 1 2 (20 ∷ []) ∷ [])
      Reach-two refl refl refl (omega arith)

blocked_iff_example :
    ((now : ℕ) (msg : LspMsg)
      → (((serve_round (arrived now msg) t₂.s).status ≡ blocked) ↔ IsLastAck msg t₂.s)
        × ((serve_round (arrived now msg) t₂.s).status ≢ removing))
    × ((now : ℕ)
        → (((serve_round (timed_out now) t₂.s).status ≡ removing)
            ↔ (t₂.s.params.epoch_milliseconds * t₂.s.params.epoch_limit ≤ now - t₂.s.last_time))
          × ((serve_round (timed_out now) t₂.s).status ≢ blocked))
    × ((msg : LspMsg) → (serve_round (to_send msg) t₂.s).status ≡ running)
    × ((serve_round reader_ready t₂.s).status ≡ running)
    × ((serve_round close_asked t₂.s).status ≡ running)
blocked_iff_example = blocked_iff t₂.s
