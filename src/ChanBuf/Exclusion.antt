-- ===== src/ChanBuf/Exclusion.antt =====
-- The director lets one goroutine at a time at the buffer (15-440/class05/chanbuf/abuf/abuf.go).
use golang_programming.Prelude.{
  ℕ, ◌≡◌, ◌≢◌, ◌⊎◌, inl, inr, refl, sym, ap, subst, ◌∙◌, Bool, true, false, none, List, [], ◌∷◌,
  arith, ◌==◌, nat_eq, Bool-cases, false-ne-true,
}
use golang_programming.LinkedBuf.{Buf, is_empty}
use golang_programming.LinkedBuf.Queue.{Holds}
use golang_programming.LinkedBuf.Runs.{
  Op, Result, inserts, fronts, removes, empties, flushes, lists, one, spec_call, call-spec_call,
}
use golang_programming.ChanBuf.{
  is_read, Thread, outside, starting, inside, finishing, testing, offering, waiting, System,
  set_thread, new_system, Step, calls, tests, starts, works, finishes, Reach, start, later,
}

testing-ne-waiting : testing ≢ waiting
testing-ne-waiting e = cc

offering-ne-waiting : (b : Bool) → offering b ≢ waiting
offering-ne-waiting b e = cc

eq_of_test : (i j : ℕ) → (i == j) ≡ true → i ≡ j
eq_of_test i j e = ground arith

module _ {A : Type 0} where
  abbrev pub is_in : Thread A → Bool
  is_in (inside op) = true
  is_in (finishing op result) = true
  is_in _ = false

  -- A queue of these values explains what the methods returned, and a read always found a value.
  abbrev pub Explains : List A → List (Op A × Result A) → Type 0
  Explains ys [] = ys ≡ []
  Explains ys ((op, result) ∷ log) =
      (xs : List A) × Explains xs log
      × (ys ≡ (spec_call op xs).0)
      × (result ≡ (spec_call op xs).1)
      × (result ≢ one none)

  -- The goroutine that was let in, if there is one.
  abbrev pub Owner : System A → Type 0
  Owner s =
      ((i : ℕ) × (s.director ≡ waiting)
        × (is_in (s.thread i) ≡ true)
        × ((j : ℕ) → j ≢ i → is_in (s.thread j) ≡ false))
      ⊎ ((s.director ≢ waiting) × ((j : ℕ) → is_in (s.thread j) ≡ false))

  pub record IsExclusive (s : System A) : Type 0 where
    pub owner : Owner s
    pub items : List A
    pub holds : Holds s.buf items
    pub explains : Explains items s.log
    pub tested : (e : Bool) → s.director ≡ offering e → e ≡ is_empty s.buf
    pub found :
        (i : ℕ) (op : Op A) → s.thread i ≡ inside op → is_read op ≡ true → is_empty s.buf ≡ false

  start-IsExclusive : IsExclusive new_system
  start-IsExclusive = record {
    owner = inr ((λ e. cc), λ j. refl);
    items = [];
    holds = (refl, refl, refl);
    explains = refl;
    tested = λ e p. cc;
    found = λ i op p r. cc;
  }

  -- The thread that was set, and the others.
  thread_cases :
      (i j : ℕ) (t : Thread A) (s : System A)
      → ((j ≡ i) × ((set_thread i t s).thread j ≡ t))
        ⊎ ((j ≢ i) × ((set_thread i t s).thread j ≡ s.thread j))
  thread_cases i j t s = elim (Bool-cases (j == i)) [
    | inl e ↦ inl (ground arith, ground (arith, e))
    | inr e ↦ inr ((λ h. ground arith), ground (arith, e))
  ]

  -- A step that lets nobody in or out.
  Owner-same :
      (s t : System A)
      → t.director ≡ s.director
      → ((j : ℕ) → is_in (t.thread j) ≡ is_in (s.thread j))
      → Owner s
      → Owner t
  Owner-same s t d same (inl (i, w, e, alone)) =
      inl (i, d ∙ w, same i ∙ e, λ j ne. same j ∙ alone j ne)
  Owner-same s t d same (inr (w, none_in)) = inr ((λ e. w (sym d ∙ e)), λ j. same j ∙ none_in j)

  is_in-set_thread :
      (i : ℕ) (t : Thread A) (s : System A)
      → is_in t ≡ is_in (s.thread i)
      → (j : ℕ) → is_in ((set_thread i t s).thread j) ≡ is_in (s.thread j)
  is_in-set_thread i t s e j = elim (thread_cases i j t s) [
    | inl (p, q) ↦ ap is_in q ∙ e ∙ ap (λ k. is_in (s.thread k)) (sym p)
    | inr (p, q) ↦ ap is_in q
  ]

  -- Who is in is the owner.
  is_in-alone :
      (s : System A) (i : ℕ)
      → Owner s
      → is_in (s.thread i) ≡ true
      → (s.director ≡ waiting) × ((j : ℕ) → j ≢ i → is_in (s.thread j) ≡ false)
  is_in-alone s i (inr (w, none_in)) e = absurd (false-ne-true (sym (none_in i) ∙ e))
  is_in-alone s i (inl (k, w, f, alone)) e = elim (Bool-cases (i == k)) [
    | inl p ↦ (w, λ j ne. alone j (λ q. ne (q ∙ sym (eq_of_test i k p))))
    | inr p ↦ absurd (false-ne-true (sym (alone i (λ q. ground arith)) ∙ e))
  ]

  -- What the buffer answers: a read of a buffer that is not empty finds a value.
  reads_found :
      (op : Op A) (bp : Buf A) (xs : List A)
      → Holds bp xs
      → (is_read op ≡ true → is_empty bp ≡ false)
      → (spec_call op xs).1 ≢ one none
  reads_found (inserts x) bp xs h f e = cc
  reads_found empties bp xs h f e = cc
  reads_found flushes bp xs h f e = cc
  reads_found lists bp xs h f e = cc
  reads_found fronts bp [] h f e = absurd (false-ne-true (sym (f refl) ∙ ground (arith, h.0)))
  reads_found fronts bp (x ∷ xs) h f e = cc
  reads_found removes bp [] h f e = absurd (false-ne-true (sym (f refl) ∙ ground (arith, h.0)))
  reads_found removes bp (x ∷ xs) h f e = cc

  not_inside : (t : Thread A) (op : Op A) → is_in t ≡ false → t ≢ inside op
  not_inside t op e p = false-ne-true (sym e ∙ ap is_in p)

  Step-IsExclusive : {s t : System A} → Step s t → IsExclusive s → IsExclusive t
  Step-IsExclusive (calls s i op m p) v = record {
    owner =
        Owner-same s (set_thread i (starting op) s) refl
          (is_in-set_thread i (starting op) s (ap is_in (sym p))) v.owner;
    items = v.items;
    holds = v.holds;
    explains = v.explains;
    tested = v.tested;
    found = λ k other q r. elim (thread_cases i k (starting op) s) [
      | inl (_, f) ↦ absurd (not_inside (starting op) other refl (sym f ∙ q))
      | inr (_, f) ↦ v.found k other (sym f ∙ q) r
    ];
  }
  Step-IsExclusive (tests s p) v = record {
    owner = elim v.owner [
      | inl (i, w, _, _) ↦ absurd (testing-ne-waiting (sym p ∙ w))
      | inr (_, none_in) ↦ inr (λ e. cc, none_in)
    ];
    items = v.items;
    holds = v.holds;
    explains = v.explains;
    tested = λ e q. ground arith;
    found = v.found;
  }
  Step-IsExclusive (starts s i op e p q r) v =
      let none_in : (j : ℕ) → is_in (s.thread j) ≡ false = elim v.owner [
        | inl (k, w, _, _) ↦ absurd (offering-ne-waiting e (sym p ∙ w))
        | inr (_, n) ↦ n
      ] in
      record {
        owner = inl (
          i,
          refl,
          elim (thread_cases i i (inside op) s) [
            | inl (_, f) ↦ ap is_in f
            | inr (ne, _) ↦ absurd (ne refl)
          ],
          λ j ne. elim (thread_cases i j (inside op) s) [
            | inl (same, _) ↦ absurd (ne same)
            | inr (_, f) ↦ ap is_in f ∙ none_in j
          ],
        );
        items = v.items;
        holds = v.holds;
        explains = v.explains;
        tested = λ e' f. cc;
        found = λ k other f read. elim (thread_cases i k (inside op) s) [
          | inl (_, g) ↦
              let same : op ≡ other = ground (arith, sym g ∙ f) in
              elim (Bool-cases e) [
                | inl full ↦ absurd (false-ne-true (sym (r full) ∙ ap is_read same ∙ read))
                | inr some_in ↦ sym (v.tested e p) ∙ some_in
              ]
          | inr (_, g) ↦ absurd (not_inside (s.thread k) other (none_in k) (sym g ∙ f))
        ];
      }
  Step-IsExclusive (works s i op buf result p q) v =
      let (w, alone) = is_in-alone s i v.owner (ap is_in p) in
      let (bp, e, h) = call-spec_call op s.buf v.items v.holds in
      let same_buf : bp ≡ buf = ground (arith, sym e ∙ q) in
      let same_result : (spec_call op v.items).1 ≡ result = ground (arith, sym e ∙ q) in
      record {
        owner =
            Owner-same s
              (record (set_thread i (finishing op result) s) {
                buf = buf;
                log = (op, result) ∷ s.log;
              })
              refl (is_in-set_thread i (finishing op result) s (ap is_in (sym p))) v.owner;
        items = (spec_call op v.items).0;
        holds = subst (λ b. Holds b (spec_call op v.items).0) same_buf h;
        explains = (
          v.items,
          v.explains,
          refl,
          sym same_result,
          λ f. reads_found op s.buf v.items v.holds (v.found i op p) (same_result ∙ f),
        );
        tested = λ e' f. absurd (offering-ne-waiting e' (sym f ∙ w));
        found = λ k other f read. elim (thread_cases i k (finishing op result) s) [
          | inl (_, g) ↦ ground (arith, sym g ∙ f)
          | inr (ne, g) ↦ absurd (not_inside (s.thread k) other (alone k ne) (sym g ∙ f))
        ];
      }
  Step-IsExclusive (finishes s i op result p q) v =
      let (w, alone) = is_in-alone s i v.owner (ap is_in q) in
      let all_out : (j : ℕ) → is_in ((set_thread i outside s).thread j) ≡ false = λ j.
        elim (thread_cases i j outside s) [
          | inl (_, f) ↦ ap is_in f
          | inr (ne, f) ↦ ap is_in f ∙ alone j ne
        ] in
      record {
        owner = inr ((λ e. cc), all_out);
        items = v.items;
        holds = v.holds;
        explains = v.explains;
        tested = λ e f. cc;
        found = λ k other f read.
            absurd (not_inside ((set_thread i outside s).thread k) other (all_out k) f);
      }

  Reach-IsExclusive : {s : System A} → Reach s → IsExclusive s
  Reach-IsExclusive start = start-IsExclusive
  Reach-IsExclusive (later r step) = Step-IsExclusive step (Reach-IsExclusive r)

  -- In every reachable state at most one goroutine is between its start and its finish, and what the
  -- methods of the buffer returned, in their order, is what a first-in-first-out queue returns, a value
  -- for every Remove and Front.
  pub Reach_exclusive :
      (s : System A) (i j : ℕ)
      → Reach s
      → ((is_in (s.thread i) ≡ true) × (is_in (s.thread j) ≡ true) → i ≡ j)
        × ((xs : List A) × Holds s.buf xs × Explains xs s.log)
  Reach_exclusive s i j r =
      let v = Reach-IsExclusive r in
      (
        (λ (e, f). elim (Bool-cases (j == i)) [
          | inl p ↦ sym (eq_of_test j i p)
          | inr p ↦
              absurd (false-ne-true (sym ((is_in-alone s i v.owner e).1 j (λ q. ground arith)) ∙ f))
        ]),
        (v.items, v.holds, v.explains),
      )
