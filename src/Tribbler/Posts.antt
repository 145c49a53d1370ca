-- ===== src/Tribbler/Posts.antt =====
-- A post and what GetTribbles then replies (15-440/P2-F11/tribimpl/tribimpl.go).
use Prim.Native.Char.{Char, code}
use Prim.Native.String.{◌++◌ as ◌<>◌}
use mathlib.Core.List.{reverse, reverse-cons}
use text.Mathlib.TextLemmas.{
  nil-append, cons-append, append_cancel_left, append_cancel_right, append-eq-nil_iff, cons≢nil,
  head-eq_of_cons-eq, tail-eq_of_cons-eq,
}
use golang_programming.Prelude.{
  ℕ, ◌≡◌, ◌≢◌, refl, sym, ap, ◌∙◌, String, true, Option, some, List, [], ◌∷◌, ◌++◌, map, arith, All,
  ne_of_test, if◌then◌else◌, ◌==◌, text_eq,
}
use golang_programming.Tribbler.{ok, Tribble, Store, Codec, user_key, trib_key, post_key}
use golang_programming.Tribbler.Messages.{
  Tribserver, itoa, next_id, replied, get_tribbles, post_tribble, first_of,
}
use golang_programming.Tribbler.Laws.{IsLawful}
use golang_programming.Tribbler.Feed.{HavePosts, tribble, get_tribbles-newest}

-- What follows the name in the key of a post is no single letter, as it is in the other keys.
longer : (t : Char) (id rest : String) → 58 ≢ code t → id <> ":" <> rest ≢ String.◌∷◌ t String.[]
longer t String.[] rest ne e = ne (
    ap code
      (head-eq_of_cons-eq (sym (nil-append (":" <> rest) ∙ cons-append ":" String.[] rest) ∙ e)))
longer t (String.◌∷◌ c id) rest ne e =
    let tail : id <> ":" <> rest ≡ String.[] =
      tail-eq_of_cons-eq (sym (cons-append c id (":" <> rest)) ∙ e) in
    let colon : ":" <> rest ≡ String.[] =
      ((append-eq-nil_iff {p = id} {q = ":" <> rest}).0 tail).1 in
    cons≢nil (sym (cons-append ":" String.[] rest) ∙ colon)

post_key-ne :
    (userid id host_port : String) (t : Char)
    → 58 ≢ code t
    → post_key userid id host_port ≢ userid <> String.◌∷◌ ":" (String.◌∷◌ t String.[])
post_key-ne userid id host_port t ne e =
    let after : String = id <> ":" <> host_port in
    let same : ":" <> after ≡ String.◌∷◌ ":" (String.◌∷◌ t String.[]) =
      append_cancel_left userid (":" <> after) (String.◌∷◌ ":" (String.◌∷◌ t String.[])) e in
    longer t id host_port ne
      (sym (nil-append after) ∙ tail-eq_of_cons-eq (sym (cons-append ":" String.[] after) ∙ same))

post_key_injective :
    (userid id other host_port : String)
    → post_key userid id host_port ≡ post_key userid other host_port
    → id ≡ other
post_key_injective userid id other host_port e = append_cancel_right id other (":" <> host_port) (
    append_cancel_left ":" (id <> ":" <> host_port) (other <> ":" <> host_port) (
      append_cancel_left userid (":" <> id <> ":" <> host_port) (":" <> other <> ":" <> host_port)
        e))

module _ {S : Type 0} {store : Store S} {text_at : S → String → Option String}
    {list_at : S → String → Option (List String)} (laws : IsLawful store text_at list_at)
    (codec : Codec) (userid contents : String) (now : ℕ) (ts : Tribserver S) where
  abbrev pub new_id : String
  new_id = itoa (next_id ts.id)

  abbrev pub new_trib : Tribble
  new_trib = record { userid = userid; posted = now; contents = contents }

  -- The store after the lookup of the user, the append and the put.
  abbrev looked : S
  looked = (store.get (user_key userid) ts.store).0

  abbrev listed : S
  listed = (store.append_to_list (trib_key userid) new_id looked).0

  abbrev stored : S
  stored = (store.put (post_key userid new_id ts.host_port) (codec.encode new_trib) listed).0

  -- A post that is answered OK has appended the id and put the tribble.
  post_tribble-ok :
      (post_tribble store codec userid contents now ts).1 ≡ ok
      → ((store.append_to_list (trib_key userid) new_id looked).1 ≡ true)
        × ((store.put (post_key userid new_id ts.host_port) (codec.encode new_trib) listed).1
            ≡ true)
        × ((post_tribble store codec userid contents now ts).0.store ≡ stored)
  unfolding post_tribble
  post_tribble-ok h = (ground arith, ground arith, ground arith)

  -- What the post leaves under the other keys.
  stored-others :
      (j : String)
      → j ≢ trib_key userid
      → j ≢ post_key userid new_id ts.host_port
      → text_at stored j ≡ text_at ts.store j
  stored-others j ne nf =
      (laws.put-others listed (post_key userid new_id ts.host_port) (codec.encode new_trib) j nf).0
      ∙ (laws.append-others looked (trib_key userid) new_id j ne).0
      ∙ laws.get-text_at ts.store (user_key userid) j

  stored-list :
      (l : List String)
      → list_at ts.store (trib_key userid) ≡ some l
      → (store.append_to_list (trib_key userid) new_id looked).1 ≡ true
      → list_at stored (trib_key userid) ≡ some (l ++ new_id ∷ [])
  stored-list l e h =
      (laws.put-others listed (post_key userid new_id ts.host_port) (codec.encode new_trib)
        (trib_key userid)
        (λ p. post_key-ne userid new_id ts.host_port "T" (λ q. omega (arith, q)) (sym p))).1
      ∙ laws.append-list_at looked (trib_key userid) new_id l
          (laws.get-list_at ts.store (user_key userid) (trib_key userid) ∙ e) h

  new_posts : (String → String) → String → String
  new_posts posts id = if id == new_id then codec.encode new_trib else posts id

  new_posts-old :
      (posts : String → String) (id : String) → id ≢ new_id → new_posts posts id ≡ posts id
  unfolding new_posts
  new_posts-old posts id ne = ground arith

  new_posts-new : (posts : String → String) → new_posts posts new_id ≡ codec.encode new_trib
  unfolding new_posts
  new_posts-new posts = ground arith

  map-old :
      (posts : String → String) (ids : List String)
      → All (λ id. id ≢ new_id) ids
      → map (tribble laws codec userid ts.host_port (new_posts posts)) ids
        ≡ map (tribble laws codec userid ts.host_port posts) ids
  map-old posts [] ne = refl
  map-old posts (id ∷ ids) (ne, rest) =
      let e = new_posts-old posts id ne in let f = map-old posts ids rest in cc

  have-old :
      (posts : String → String) (ids : List String)
      → All (λ id. id ≢ new_id) ids
      → HavePosts laws codec userid ts.host_port posts ts.store ids
      → HavePosts laws codec userid ts.host_port (new_posts posts) stored ids
  have-old posts [] ne have = tt
  have-old posts (id ∷ ids) (ne, rest) (p, have) = (
    stored-others (post_key userid id ts.host_port)
          (λ e. post_key-ne userid id ts.host_port "T" (λ q. omega (arith, q)) e)
          (λ e. ne (post_key_injective userid id new_id ts.host_port e))
        ∙ p
        ∙ ap some (sym (new_posts-old posts id ne)),
    have-old posts ids rest have,
  )

  -- On a library store whose reads never fail and see the last writes, as those of one storage server
  -- without leases, when an existing user whose list is, from its end, `newest`, all with their posts
  -- and without the new id, posts with the answer OK, and the text of the tribble reads as the tribble,
  -- GetTribbles then replies OK with that tribble in front of the
  -- others, the first hundred of them.
  pub post_then_get :
      (user : String) (newest : List String) (posts : String → String)
      → text_at ts.store (user_key userid) ≡ some user
      → list_at ts.store (trib_key userid) ≡ some (reverse newest)
      → HavePosts laws codec userid ts.host_port posts ts.store newest
      → All (λ id. id ≢ new_id) newest
      → codec.decode (codec.encode new_trib) ≡ new_trib
      → (post_tribble store codec userid contents now ts).1 ≡ ok
      → (get_tribbles store codec userid ts.host_port
          (post_tribble store codec userid contents now ts).0.store).1
        ≡ replied ok
            (first_of 100 (new_trib ∷ map (tribble laws codec userid ts.host_port posts) newest))
  post_then_get user newest posts known list have fresh law posted =
      let (appended, put, after) = post_tribble-ok posted in
      let known' : text_at stored (user_key userid) ≡ some user =
        stored-others (user_key userid)
          (λ e. ne_of_test ":U" ":T" refl (append_cancel_left userid ":U" ":T" e))
          (λ e. post_key-ne userid new_id ts.host_port "U" (λ q. omega (arith, q)) (sym e))
        ∙ known in
      let list' : list_at stored (trib_key userid) ≡ some (reverse (new_id ∷ newest)) =
        stored-list (reverse newest) list appended ∙ ap some (sym (reverse-cons new_id newest)) in
      let new : text_at stored (post_key userid new_id ts.host_port)
          ≡ some (new_posts posts new_id) =
        laws.put-text_at listed (post_key userid new_id ts.host_port) (codec.encode new_trib) put
        ∙ ap some (sym (new_posts-new posts)) in
      let decoded : codec.decode (new_posts posts new_id) ≡ new_trib =
        ap codec.decode (new_posts-new posts) ∙ law in
      ap (λ s. (get_tribbles store codec userid ts.host_port s).1) after
      ∙ get_tribbles-newest laws codec userid ts.host_port (new_posts posts) stored user
          (new_id ∷ newest) known' list' (new, have-old posts newest fresh have)
      ∙ ap (λ l. replied ok (first_of 100 l))
          (ap (λ t. t ∷ map (tribble laws codec userid ts.host_port (new_posts posts)) newest)
              decoded
            ∙ ap (λ l. new_trib ∷ l) (map-old posts newest fresh))
