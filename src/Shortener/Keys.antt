-- ===== src/Shortener/Keys.antt =====
-- Short keys are numerals in base 62 (goto/key.go).
use golang_programming.Prelude.{
  ℕ, zero, suc, ◌+◌, ◌-◌, ◌*◌, ◌/◌, ◌%◌, ◌^◌, ◌≤◌, ◌<◌, ◌≡◌, refl, sym, ap, ◌∙◌, Bool, true, ◌&&◌,
  some, List, [], ◌∷◌, length, get_elem?, arith, ltb, if◌then◌else◌, ◌==◌, nat_eq, ℕ_discrete,
  Bool-cases, inl, inr,
}
use mathlib.Core.Option.{some-injective}
use native.Mathlib.Nat.{pow-suc}
use golang_programming.Shortener.{Key, key_char, gen_loop, gen_key}

-- The digit that a character stands for.
abbrev pub digit_of : ℕ → ℕ
digit_of c = if ltb c b'a' then (if ltb c b'A' then c - b'0' else c - b'A' + 36) else c - b'a' + 10

-- The number that a key denotes, with `acc` in front of it.
abbrev pub value_from : ℕ → Key → ℕ
value_from acc [] = acc
value_from acc (c ∷ key) = value_from (acc * 62 + digit_of c) key

-- Position `j` of a list of characters, and all after it, stand for j, j + 1, …
digits_from : ℕ → List ℕ → Bool
digits_from j [] = true
digits_from j (c ∷ l) = digit_of c == j && digits_from (j + 1) l

digits_from-get_elem? :
    (l : List ℕ) (i j : ℕ)
    → digits_from i l ≡ true
    → j < length l
    → (c : ℕ) × (get_elem? l j ≡ some c) × (digit_of c ≡ i + j)
unfolding digits_from
digits_from-get_elem? [] i j h lt = absurd (omega arith)
digits_from-get_elem? (c ∷ l) i zero h lt = (c, refl, ground arith)
digits_from-get_elem? (c ∷ l) i (suc j) h lt =
    let (d, e, f) = digits_from-get_elem? l (i + 1) j (ground arith) (omega arith) in
    (d, e, omega (arith, f))

key_char-digits : (j : ℕ) → j < 62 → (c : ℕ) × (get_elem? key_char j ≡ some c) × (digit_of c ≡ j)
unfolding key_char digits_from ℕ_discrete
key_char-digits j lt =
    let (c, e, f) = digits_from-get_elem? key_char 0 j refl lt in (c, e, omega (arith, f))

-- With `i` bytes, the loop ends on a number below 62 ^ m for an `m` up to `i`, and adds at most `m`
-- bytes; what it returns denotes the number in front of the digits that stood there.
gen_loop-value :
    (i m n : ℕ) (key : Key)
    → m ≤ i
    → n < 62 ^ m
    → (r : Key) × (gen_loop i n key ≡ some r)
      × (value_from 0 r ≡ value_from n key)
      × (length r ≤ m + length key)
unfolding gen_loop
gen_loop-value zero zero n key le lt = (key, ground arith, ground arith, omega arith)
gen_loop-value zero (suc m) n key le lt = absurd (omega arith)
gen_loop-value (suc i) zero n key le lt = (key, ground arith, ground arith, omega arith)
gen_loop-value (suc i) (suc m) n key le lt = elim (Bool-cases (n == 0)) [
  | inl e ↦ (key, ground arith, ground arith, omega arith)
  | inr e ↦
      let (c, f, g) = key_char-digits (n % 62) (omega arith) in
      let (r, p, q, l) =
        gen_loop-value i m ((n - n % 62) / 62) (c ∷ key) (omega arith)
          (omega (arith, pow-suc 62 m)) in
      (r, ground arith, q ∙ ap (λ k. value_from k key) (omega (arith, g)), omega (arith, l))
]

-- For every number that a 64-bit `int` holds, genKey returns a key of at most 11 of its 20 bytes, and the
-- key read in base 62 is the number.
pub gen_key-value :
    (n : ℕ)
    → n < 2 ^ 63
    → (key : Key) × (gen_key n ≡ some key) × (value_from 0 key ≡ n) × (length key ≤ 11)
unfolding gen_key
gen_key-value n lt = elim (Bool-cases (n == 0)) [
  | inl e ↦
      let (c, f, g) = key_char-digits 0 (omega arith) in
      (c ∷ [], ground arith, ground arith, omega arith)
  | inr e ↦
      let (r, p, q, l) = gen_loop-value 20 11 n [] (omega arith) (omega arith) in
      (r, ground arith, q, omega (arith, l))
]

-- Different numbers have different keys.
pub gen_key_injective : (m n : ℕ) → m < 2 ^ 63 → n < 2 ^ 63 → gen_key m ≡ gen_key n → m ≡ n
gen_key_injective m n hm hn e =
    let (k, p, v, _) = gen_key-value m hm in
    let (l, q, w, _) = gen_key-value n hn in
    sym v ∙ ap (value_from 0) (some-injective k l (sym p ∙ e ∙ q)) ∙ w
