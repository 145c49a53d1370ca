-- ===== src/Lsp/Session/Stream.antt =====
-- Lemmas on the numbered payloads of a session.
use golang_programming.Prelude.{
  ℕ, suc, ◌+◌, ◌%◌, ◌≤◌, ◌≡◌, refl, inl, inr, some, List, [], ◌∷◌, ◌++◌, arith, length,
  length-append, get_elem?, get_elem?-append, get_elem?-append_last,
}
use golang_programming.Lsp.{LspMsg, msg_data}
use golang_programming.Lsp.Session.{Payload, Tagged, QueueOf, AgreesAt, DataOk, AckOk}

pub length-QueueOf :
    (w : List Payload) (k : ℕ) (buf : List LspMsg) → QueueOf w k buf → k + length buf ≡ length w
length-QueueOf w k [] q = omega arith
length-QueueOf w k (m ∷ buf) q = omega (arith, length-QueueOf w (suc k) buf q.3)

pub QueueOf-append :
    (w : List Payload) (k : ℕ) (buf : List LspMsg) (m : LspMsg)
    → m.typ ≡ msg_data
    → m.seq_num ≡ suc (length w) % 256
    → QueueOf w k buf
    → QueueOf (w ++ m.payload ∷ []) k (buf ++ m ∷ [])
QueueOf-append w k [] m typ seq q = (
  typ,
  rw (← q) seq,
  rw (← q) (get_elem?-append_last w m.payload),
  rw length-append (omega arith),
)
QueueOf-append w k (n ∷ buf) m typ seq (t, s, e, q) = (
  t,
  s,
  get_elem?-append w (m.payload ∷ []) k n.payload e,
  QueueOf-append w (suc k) buf m typ seq q,
)

-- What stands in the first list stands at the same place in the second.
abbrev pub Extends : List Payload → List Payload → Type 0
Extends w v = (i : ℕ) (p : Payload) → get_elem? w i ≡ some p → get_elem? v i ≡ some p

module _ (w : List Payload) where
  pub AgreesAt-append :
      (k : ℕ) (ps : List Payload) (p : Payload)
      → AgreesAt w k ps
      → get_elem? w (k + length ps) ≡ some p
      → AgreesAt w k (ps ++ p ∷ [])
  AgreesAt-append k [] p a e = (let h : k + 0 ≡ k = omega arith in rw (← h) e, tt)
  AgreesAt-append k (q ∷ ps) p a e =
      let h : k + suc (length ps) ≡ suc k + length ps = omega arith in
      (a.0, AgreesAt-append (suc k) ps p a.1 (rw (← h) e))

  module _ (v : List Payload) (grow : Extends w v) where
    pub AgreesAt-weaken : (k : ℕ) (ps : List Payload) → AgreesAt w k ps → AgreesAt v k ps
    AgreesAt-weaken k [] a = tt
    AgreesAt-weaken k (p ∷ ps) a = (grow k p a.0, AgreesAt-weaken (suc k) ps a.1)

    pub DataOk-weaken : (n n' : ℕ) → n ≤ n' → (t : Tagged) → DataOk w n t → DataOk v n' t
    DataOk-weaken n n' h t (inl ack) = inl ack
    DataOk-weaken n n' h (i, m) (inr (k, e, le, typ, seq, at)) =
        inr (k, e, omega arith, typ, seq, grow k m.payload at)

pub AckOk-later : (n n' : ℕ) → n ≤ n' → (t : Tagged) → AckOk n t → AckOk n' t
AckOk-later n n' h (i, m) (typ, le, seq) = (typ, omega arith, seq)

AgreesAt-tail :
    (v : Payload) (w : List Payload) (k : ℕ) (ps : List Payload)
    → AgreesAt (v ∷ w) (suc k) ps
    → AgreesAt w k ps
AgreesAt-tail v w k [] a = tt
AgreesAt-tail v w k (p ∷ ps) a = (a.0, AgreesAt-tail v w (suc k) ps a.1)

-- Two lists that agree at every place of the second are a list and a prefix of it.
pub AgreesAt-prefix :
    (w ps : List Payload) → AgreesAt w 0 ps → (more : List Payload) × (w ≡ ps ++ more)
AgreesAt-prefix w [] a = (w, refl)
AgreesAt-prefix [] (p ∷ ps) a = absurd (cc (a.0))
AgreesAt-prefix (v ∷ w) (p ∷ ps) a =
    let (more, e) = AgreesAt-prefix w ps (AgreesAt-tail v w 0 ps a.1) in
    (more, ground (arith, e, a.0))
