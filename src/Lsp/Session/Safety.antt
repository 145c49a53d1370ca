-- ===== src/Lsp/Session/Safety.antt =====
-- What a session delivers (15-440/P1-F11/lsp/lsp_conn.go).
use mathlib.Core.List.{append_assoc}
use golang_programming.Prelude.{ℕ, suc, ◌≤◌, ◌≡◌, refl, ◌∙◌, List, ◌++◌, arith}
use golang_programming.Lsp.{LspParams}
use golang_programming.Lsp.Session.{
  System, Payload, Step, app_writes, ack_arrives, s_times_out, s_closes, data_arrives, app_reads,
  r_times_out, r_closes, Reach, start, later, opened, Inv, payloads, acked, got,
}
use golang_programming.Lsp.Session.Stream.{AgreesAt-prefix}
use golang_programming.Lsp.Session.Sender.{
  app_writes-Inv, ack_arrives-Inv, s_times_out-Inv, s_closes-Inv,
}
use golang_programming.Lsp.Session.Receiver.{
  data_arrives-Inv, app_reads-Inv, r_times_out-Inv, r_closes-Inv,
}

-- Every round at either end keeps the invariant.
pub Step-Inv : {t u : System} → Step t u → Inv t → Inv u
Step-Inv {t} (app_writes id p on open_) v = app_writes-Inv id p t open_ v
Step-Inv {t} (ack_arrives now n m on i recent) v = ack_arrives-Inv now n m t i recent v
Step-Inv {t} (s_times_out now on) v = s_times_out-Inv now t v
Step-Inv {t} (s_closes on) v = s_closes-Inv t v
Step-Inv {t} (data_arrives now n m on i recent) v = data_arrives-Inv now n m t i recent v
Step-Inv {t} (app_reads on) v = app_reads-Inv t v
Step-Inv {t} (r_times_out now on) v = r_times_out-Inv now t v
Step-Inv {t} (r_closes on) v = r_closes-Inv t v

pub opened-Inv : (params : LspParams) (id : ℕ) → Inv (opened params id)
opened-Inv params id = record {
  queue = refl;
  next_sent = refl;
  s_acks = refl;
  next_got = refl;
  r_acks = refl;
  last_got = refl;
  r_silent = refl;
  agrees = tt;
  not_behind = omega arith;
  not_ahead = omega arith;
  data_ok = tt;
  acks_ok = tt;
}

pub Reach-Inv : {t u : System} → Inv t → Reach t u → Inv u
Reach-Inv v start = v
Reach-Inv v (later r step) = Step-Inv step (Reach-Inv v r)

-- From a fresh connection, over a network that loses, repeats and reorders messages but delivers
-- none that is 256 numbers old: what has been read is a prefix of what was written, and with what
-- waits in the receiving buffer it is one too, at most one message ahead of what is acknowledged.
pub session_delivers :
    (params : LspParams) (id : ℕ) (t : System)
    → Reach (opened params id) t
    → ((more : List Payload) × (t.written ≡ t.read ++ payloads t.r.recv_buf ++ more))
      × ((more : List Payload) × (t.written ≡ t.read ++ more))
      × (acked t ≤ got t)
      × (got t ≤ suc (acked t))
session_delivers params id t r =
    let v = Reach-Inv (opened-Inv params id) r in
    let (more, e) = AgreesAt-prefix t.written (t.read ++ payloads t.r.recv_buf) v.agrees in
    (
      (more, e),
      (payloads t.r.recv_buf ++ more, e ∙ append_assoc t.read (payloads t.r.recv_buf) more),
      v.not_behind,
      v.not_ahead,
    )
