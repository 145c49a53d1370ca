-- ===== src/Tribbler/Feed.antt =====
-- The tribbles of one user (15-440/P2-F11/tribimpl/tribimpl.go, GetTribbles).
use mathlib.Core.List.{reverse, reverse-cons, append-nil, append_assoc}
use golang_programming.Prelude.{
  ℕ, zero, suc, ◌+◌, ◌-◌, ◌≤◌, ◌≡◌, refl, sym, ap, ◌∙◌, String, Option, some, List, [], ◌∷◌, ◌++◌,
  map, arith, length, get_elem?, All, All-weaken, ltb, length-append, Bool-cases, inl, inr,
}
use golang_programming.Tribbler.{ok, Tribble, Store, Codec, user_key, trib_key, post_key}
use golang_programming.Tribbler.Messages.{replied, load_tribbles, shown, get_tribbles, first_of}
use golang_programming.Tribbler.Laws.{IsLawful}

length-reverse : (l : List String) → length (reverse l) ≡ length l
length-reverse [] = refl
length-reverse (x ∷ l) =
    ap length (reverse-cons x l)
    ∙ omega (arith, length-append (reverse l) (x ∷ []), length-reverse l)

get_elem?-middle :
    (xs ys : List String) (y : String) (i : ℕ) → i ≡ length xs → get_elem? (xs ++ y ∷ ys) i ≡ some y
get_elem?-middle [] ys y i e = ap (get_elem? (y ∷ ys)) e
get_elem?-middle (x ∷ xs) ys y i e =
    ap (get_elem? (x ∷ xs ++ y ∷ ys)) e ∙ get_elem?-middle xs ys y (length xs) refl

shown-le : (ids : List String) → shown ids ≤ length ids
shown-le ids = ground arith

module _ {S : Type 0} {store : Store S} {text_at : S → String → Option String}
    {list_at : S → String → Option (List String)} (laws : IsLawful store text_at list_at)
    (codec : Codec) (userid host_port : String) (posts : String → String) where
  -- Each of these ids has its post.
  abbrev pub HavePosts : S → List String → Type 0
  HavePosts s = All (λ id. text_at s (post_key userid id host_port) ≡ some (posts id))

  abbrev pub tribble : String → Tribble
  tribble id = codec.decode (posts id)

  -- The loop with `n` rounds left reads the posts of `ids` backwards from the last that it has not
  -- read; `newest` lists those in that order, and `read` the others.
  load_tribbles-newest :
      (n i : ℕ) (newest read ids : List String) (s : S)
      → ids ≡ reverse newest ++ read
      → i ≡ length read
      → n ≤ length newest
      → HavePosts s newest
      → (s' : S) × (load_tribbles store codec n i userid host_port ids s
          ≡ (s', some (first_of n (map tribble newest))))
  unfolding load_tribbles
  load_tribbles-newest zero i newest read ids s e f le have = (s, refl)
  load_tribbles-newest (suc n) i [] read ids s e f le have = absurd (omega arith)
  load_tribbles-newest (suc n) i (id ∷ newest) read ids s e f le (p, have) =
      let key : String = post_key userid id host_port in
      let e' : ids ≡ reverse newest ++ id ∷ read =
        e
        ∙ ap (λ l. l ++ read) (reverse-cons id newest)
        ∙ append_assoc (reverse newest) (id ∷ []) read in
      let size : length ids ≡ length newest + suc (length read) =
        ap length e'
        ∙ length-append (reverse newest) (id ∷ read)
        ∙ omega (arith, length-reverse newest) in
      let at : get_elem? ids (length ids - 1 - i) ≡ some id =
        ap (λ l. get_elem? l (length ids - 1 - i)) e'
        ∙ get_elem?-middle (reverse newest) read id (length ids - 1 - i)
            (omega (arith, size, f, length-reverse newest)) in
      let got : (store.get key s).1 ≡ some (posts id) = laws.get_lem s key ∙ p in
      let (s', rest) =
        load_tribbles-newest n (i + 1) newest (id ∷ read) ids (store.get key s).0 e'
          (omega (arith, f)) (omega arith)
          (All-weaken _ _ newest (λ j h. laws.get-text_at s key (post_key userid j host_port) ∙ h)
            have) in
      (s', ground (arith, at, got, rest))

  first_of-length :
      (n : ℕ) (ids : List String)
      → length ids ≤ n
      → first_of (length ids) (map tribble ids) ≡ first_of n (map tribble ids)
  first_of-length zero [] le = refl
  first_of-length (suc n) [] le = refl
  first_of-length zero (id ∷ ids) le = absurd (omega arith)
  first_of-length (suc n) (id ∷ ids) le =
      ap (λ l. tribble id ∷ l) (first_of-length n ids (omega arith))

  first_of-shown :
      (newest : List String)
      → first_of (shown (reverse newest)) (map tribble newest) ≡ first_of 100 (map tribble newest)
  first_of-shown newest = elim (Bool-cases (ltb 100 (length (reverse newest)))) [
    | inl e ↦
        let p : shown (reverse newest) ≡ 100 = ground arith in
        ap (λ n. first_of n (map tribble newest)) p
    | inr e ↦
        let p : shown (reverse newest) ≡ length newest = ground (arith, length-reverse newest) in
        ap (λ n. first_of n (map tribble newest)) p
        ∙ first_of-length 100 newest (ground (arith, length-reverse newest))
  ]

  -- When a user exists, every listed id has its post and the list is, from its end, `newest`,
  -- GetTribbles replies OK with the tribbles of the first hundred of `newest` in that order.
  pub get_tribbles-newest :
      (s : S) (user : String) (newest : List String)
      → text_at s (user_key userid) ≡ some user
      → list_at s (trib_key userid) ≡ some (reverse newest)
      → HavePosts s newest
      → (get_tribbles store codec userid host_port s).1
        ≡ replied ok (first_of 100 (map tribble newest))
  unfolding get_tribbles
  get_tribbles-newest s user newest known listed have =
      let s₁ : S = (store.get (user_key userid) s).0 in
      let s₂ : S = (store.get_list (trib_key userid) s₁).0 in
      let found : (store.get (user_key userid) s).1 ≡ some user =
        laws.get_lem s (user_key userid) ∙ known in
      let ids : (store.get_list (trib_key userid) s₁).1 ≡ some (reverse newest) =
        laws.get_list_lem s₁ (trib_key userid)
        ∙ laws.get-list_at s (user_key userid) (trib_key userid)
        ∙ listed in
      let kept : HavePosts s₂ newest =
        All-weaken _ _ newest
          (λ j h.
            laws.get_list-text_at s₁ (trib_key userid) (post_key userid j host_port)
            ∙ laws.get-text_at s (user_key userid) (post_key userid j host_port)
            ∙ h)
          have in
      let (s₃, read) =
        load_tribbles-newest (shown (reverse newest)) 0 newest [] (reverse newest) s₂
          (sym (append-nil (reverse newest))) refl
          (omega (arith, shown-le (reverse newest), length-reverse newest)) kept in
      ground (arith, found, ids, read, first_of-shown newest)
