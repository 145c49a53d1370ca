-- ===== src/Tribbler/Timeline.antt =====
-- The tribbles of the users that a user follows (15-440/P2-F11/tribimpl/tribimpl.go,
-- GetTribblesBySubscription).
use mathlib.Core.List.Perm
use mathlib.Core.List.{Perm, append-nil}
use golang_programming.Prelude.{
  ℕ, zero, suc, ◌≤◌, ◌≡◌, ◌⊎◌, inl, inr, refl, sym, ap, subst, String, false, some, List, [], ◌∷◌,
  ◌++◌, arith, length, All, All-weaken, ltb, Bool-cases,
}
use golang_programming.Tribbler.{Status, ok, Tribble, Store, Codec, user_key, foll_key}
use golang_programming.Tribbler.Messages.{
  replied, insert_trib, sort_tribs, is_newer, first_of, newest, collect, get_tribbles,
  get_tribbles_by_subscription,
}

-- No tribble is newer than one in front of it.
abbrev pub AreNewestFirst : List Tribble → Type 0
AreNewestFirst [] = Unit
AreNewestFirst (t ∷ tribs) = All (λ u. u.posted ≤ t.posted) tribs × AreNewestFirst tribs

insert_trib-cases :
    (t u : Tribble) (tribs : List Tribble)
    → ((insert_trib t (u ∷ tribs) ≡ u ∷ insert_trib t tribs) × (t.posted ≤ u.posted))
      ⊎ ((insert_trib t (u ∷ tribs) ≡ t ∷ u ∷ tribs) × (u.posted ≤ t.posted))
unfolding insert_trib
insert_trib-cases t u tribs = elim (Bool-cases (is_newer u t)) [
  | inl e ↦ inl (ground arith, ground arith)
  | inr e ↦ inr (ground arith, ground arith)
]

insert_trib-All :
    (P : Tribble → Type 0) (t : Tribble) (tribs : List Tribble)
    → P t
    → All P tribs
    → All P (insert_trib t tribs)
unfolding insert_trib
insert_trib-All P t [] p all = (p, tt)
insert_trib-All P t (u ∷ tribs) p all = elim (insert_trib-cases t u tribs) [
  | inl (e, le) ↦ subst (All P) (sym e) (all.0, insert_trib-All P t tribs p all.1)
  | inr (e, le) ↦ subst (All P) (sym e) (p, all)
]

insert_trib-AreNewestFirst :
    (t : Tribble) (tribs : List Tribble)
    → AreNewestFirst tribs
    → AreNewestFirst (insert_trib t tribs)
unfolding insert_trib
insert_trib-AreNewestFirst t [] sorted = (tt, tt)
insert_trib-AreNewestFirst t (u ∷ tribs) sorted = elim (insert_trib-cases t u tribs) [
  | inl (e, le) ↦
      subst AreNewestFirst (sym e)
        (insert_trib-All _ t tribs le sorted.0, insert_trib-AreNewestFirst t tribs sorted.1)
  | inr (e, le) ↦
      subst AreNewestFirst (sym e)
        ((le, All-weaken _ _ tribs (λ v h. omega (arith, h, le)) sorted.0), sorted)
]

insert_trib-perm : (t : Tribble) (tribs : List Tribble) → Perm (insert_trib t tribs) (t ∷ tribs)
unfolding insert_trib
insert_trib-perm t [] = Perm.refl (t ∷ [])
insert_trib-perm t (u ∷ tribs) = elim (insert_trib-cases t u tribs) [
  | inl (e, le) ↦
      subst (λ l. Perm l (t ∷ u ∷ tribs)) (sym e)
        (Perm.trans (Perm.cons u (insert_trib-perm t tribs)) (Perm.swap t u tribs))
  | inr (e, le) ↦ subst (λ l. Perm l (t ∷ u ∷ tribs)) (sym e) (Perm.refl (t ∷ u ∷ tribs))
]

sort_tribs-AreNewestFirst : (tribs : List Tribble) → AreNewestFirst (sort_tribs tribs)
unfolding sort_tribs
sort_tribs-AreNewestFirst [] = tt
sort_tribs-AreNewestFirst (t ∷ tribs) =
    insert_trib-AreNewestFirst t (sort_tribs tribs) (sort_tribs-AreNewestFirst tribs)

sort_tribs-perm : (tribs : List Tribble) → Perm (sort_tribs tribs) tribs
unfolding sort_tribs
sort_tribs-perm [] = Perm.refl []
sort_tribs-perm (t ∷ tribs) =
    Perm.trans (insert_trib-perm t (sort_tribs tribs)) (Perm.cons t (sort_tribs-perm tribs))

-- The list after its first `n` elements.
abbrev after_first : ℕ → List Tribble → List Tribble
after_first zero tribs = tribs
after_first (suc n) [] = []
after_first (suc n) (t ∷ tribs) = after_first n tribs

first_of-append : (n : ℕ) (tribs : List Tribble) → first_of n tribs ++ after_first n tribs ≡ tribs
first_of-append zero tribs = refl
first_of-append (suc n) [] = refl
first_of-append (suc n) (t ∷ tribs) = ap (λ l. t ∷ l) (first_of-append n tribs)

length-first_of : (n : ℕ) (tribs : List Tribble) → n ≤ length tribs → length (first_of n tribs) ≡ n
length-first_of zero tribs le = refl
length-first_of (suc n) [] le = absurd (omega arith)
length-first_of (suc n) (t ∷ tribs) le = ap suc (length-first_of n tribs (omega arith))

-- `tribs` are the hundred newest of `pool`, newest first, or all of them if there are no more: with those that
-- are left out they are `pool` in that order.
pub record NewestOf (pool tribs : List Tribble) : Type 0 where
  pub dropped : List Tribble
  pub in_order : AreNewestFirst (tribs ++ dropped)
  pub same : Perm (tribs ++ dropped) pool
  pub short : length tribs ≤ 100
  pub full : (dropped ≡ []) ⊎ (length tribs ≡ 100)

le_of_ltb : (n : ℕ) → ltb 100 n ≡ false → n ≤ 100
le_of_ltb n e = ground arith

newest-NewestOf : (pool : List Tribble) → NewestOf pool (newest (sort_tribs pool))
newest-NewestOf pool = elim (Bool-cases (ltb 100 (length (sort_tribs pool)))) [
  | inl e ↦
      let cut : newest (sort_tribs pool) ≡ first_of 100 (sort_tribs pool) = ground arith in
      let all = first_of-append 100 (sort_tribs pool) in
      let size = length-first_of 100 (sort_tribs pool) (ground arith) in
      subst (NewestOf pool) (sym cut) (record {
        dropped = after_first 100 (sort_tribs pool);
        in_order = subst AreNewestFirst (sym all) (sort_tribs-AreNewestFirst pool);
        same = subst (λ l. Perm l pool) (sym all) (sort_tribs-perm pool);
        short = omega (arith, size);
        full = inr size;
      })
  | inr e ↦
      let kept : newest (sort_tribs pool) ≡ sort_tribs pool = ground arith in
      let all = append-nil (sort_tribs pool) in
      subst (NewestOf pool) (sym kept) (record {
        dropped = [];
        in_order = subst AreNewestFirst (sym all) (sort_tribs-AreNewestFirst pool);
        same = subst (λ l. Perm l pool) (sym all) (sort_tribs-perm pool);
        short = le_of_ltb (length (sort_tribs pool)) e;
        full = inl refl;
      })
]

module _ {S : Type 0} (store : Store S) (codec : Codec) (userid host_port : String) (s : S) where
  abbrev at_list : S
  at_list = (store.get (user_key userid) s).0

  abbrev at_follows : S
  at_follows = (store.get_list (foll_key userid) at_list).0

  -- What GetTribbles replies for each of these users, one after another and without an error, put
  -- together.
  pub data Gathered : List String → S → S → List Tribble → Type 0 where
    nobody : (t : S) → Gathered [] t t []
    one_more :
        (user : String) (follows : List String) (t₀ t₁ t₂ : S) (status : Status)
        (tribs later : List Tribble)
        → get_tribbles store codec user host_port t₀ ≡ (t₁, replied status tribs)
        → Gathered follows t₁ t₂ later
        → Gathered (user ∷ follows) t₀ t₂ (tribs ++ later)

  collect-Gathered :
      (follows : List String) (t t' : S) (pool : List Tribble)
      → Gathered follows t t' pool
      → collect store codec follows host_port t ≡ (t', some pool)
  unfolding collect
  collect-Gathered _ _ _ _ (nobody t) = refl
  collect-Gathered _ _ _ _ (one_more user follows t₀ t₁ t₂ status tribs later e g) =
      ground (arith, e, collect-Gathered follows t₁ t₂ later g)

  -- When GetTribblesBySubscription finds the user and the list of who is followed, and GetTribbles
  -- gives no error for any of them, called for one after another, it replies OK with the hundred newest
  -- of what GetTribbles replied for all of them together, newest first.
  pub get_tribbles_by_subscription-NewestOf :
      (user : String) (follows : List String) (s' : S) (pool : List Tribble)
      → (store.get (user_key userid) s).1 ≡ some user
      → (store.get_list (foll_key userid) at_list).1 ≡ some follows
      → Gathered follows at_follows s' pool
      → (tribs : List Tribble) × (get_tribbles_by_subscription store codec userid host_port s
          ≡ (s', replied ok tribs))
        × NewestOf pool tribs
  unfolding get_tribbles_by_subscription
  get_tribbles_by_subscription-NewestOf user follows s' pool known list gathered =
      let collected = collect-Gathered follows at_follows s' pool gathered in
      (newest (sort_tribs pool), ground (arith, known, list, collected), newest-NewestOf pool)
