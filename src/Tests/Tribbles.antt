-- ===== src/Tests/Tribbles.antt =====
-- The tribbler server at fixed inputs.
use golang_programming.Prelude.{
  ◌≡◌, ◌≢◌, ne_of_test, refl, String, true, List, [], ◌∷◌, map, insert, text_discrete, ℕ_discrete,
  text_eq,
}
use golang_programming.Storage.{text, texts, StorageServer, new_storage_server}
use golang_programming.Tribbler.{ok, Tribble, Codec}
use golang_programming.Tribbler.Messages.{
  Tribserver, replied, get_tribbles, post_tribble, get_tribbles_by_subscription, first_of, collect,
  itoa, decimal, load_tribbles,
}
use golang_programming.Tribbler.Laws.{storage_store, storage_store-IsLawful}
use golang_programming.Tribbler.Feed.{tribble}
use golang_programming.Tribbler.Posts.{post_then_get}
use golang_programming.Tribbler.Timeline.{
  NewestOf, get_tribbles_by_subscription-NewestOf, one_more, nobody,
}

-- A codec that keeps only the contents would lose the other fields: here a text is its tribble's
-- contents, and the users and times are fixed.
abbrev codec : Codec
codec = record {
  encode = λ t. t.contents;
  decode = λ s. record { userid = "u"; posted = 5; contents = s };
}

abbrev empty_server : StorageServer
empty_server = new_storage_server true (record { host_port = "m"; node_id = 1 }) 1

-- "u" exists, follows itself, and has one post.
abbrev with_post : StorageServer
with_post = record empty_server {
  hashmap = insert "u:U" (text "u") (
      insert "u:F" (texts ("u" ∷ []))
        (insert "u:T" (texts ("1" ∷ [])) (insert "u:1:h" (text "hello") empty_server.hashmap)));
}

get_tribbles_by_subscription-NewestOf_example :
    (tribs : List Tribble) × (get_tribbles_by_subscription storage_store codec "u" "h" with_post
      ≡ (with_post, replied ok tribs))
    × NewestOf (record { userid = "u"; posted = 5; contents = "hello" } ∷ []) tribs
unfolding text_discrete collect get_tribbles load_tribbles ℕ_discrete
get_tribbles_by_subscription-NewestOf_example =
    get_tribbles_by_subscription-NewestOf storage_store codec "u" "h" with_post "u" ("u" ∷ [])
      with_post (record { userid = "u"; posted = 5; contents = "hello" } ∷ []) refl refl
      (one_more "u" [] with_post with_post with_post ok _ [] refl (nobody with_post))

abbrev server : Tribserver StorageServer
server = record { store = with_post; host_port = "h"; id = 1 }

fresh_id : ◌≢◌ {A = String} "1" (itoa 2)
unfolding itoa decimal ℕ_discrete
fresh_id = ne_of_test "1" "2" refl

posted_ok : (post_tribble storage_store codec "u" "again" 5 server).1 ≡ ok
unfolding post_tribble itoa decimal text_discrete ℕ_discrete
posted_ok = refl

post_then_get_example :
    (get_tribbles storage_store codec "u" "h"
      (post_tribble storage_store codec "u" "again" 5 server).0.store).1
    ≡ replied ok (
        first_of 100 (
          record { userid = "u"; posted = 5; contents = "again" }
          ∷ map (tribble storage_store-IsLawful codec "u" "h" (λ id. "hello")) ("1" ∷ [])))
unfolding text_discrete
post_then_get_example =
    post_then_get storage_store-IsLawful codec "u" "again" 5 server "u" ("1" ∷ []) (λ id. "hello")
      refl refl (refl, tt) (fresh_id, tt) refl posted_ok
