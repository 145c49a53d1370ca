-- ===== src/Tests/Clients.antt =====
-- A client of the primary/backup service at fixed inputs.
use golang_programming.Prelude.{◌≡◌, ne_of_test, refl, String, some, List, [], ◌∷◌, arith, text_eq}
use golang_programming.Network.{unreached, unanswered, answered}
use golang_programming.ViewService.{View}
use golang_programming.PbService.{PbServer, start_server}
use golang_programming.PbService.Replication.{InSync}
use golang_programming.PbService.Clerk.{Clerk, make_clerk, put, get}
use golang_programming.PbService.Clerk.Calls.{Fate, Pair, servers}
use golang_programming.PbService.Clerk.Reads.{put_then_get}

abbrev view_1 : View
view_1 = record { viewnum = 1; primary = "p"; backup = "b" }

abbrev server : String → PbServer
server me = record (start_server me) { view = view_1 }

in_sync : InSync (server "p") (server "b")
in_sync = record {
  leads = refl;
  backup_named = ne_of_test "b" "" refl;
  follows = refl;
  same_store = λ k. refl;
}

-- The put arrives but its answer is lost, then the backup's answer is lost, then nobody is reached.
abbrev fates : List Fate
fates = (unanswered, answered) ∷ (answered, unanswered) ∷ (unreached, answered) ∷ []

-- The calls of the get: the primary is not reached, then its answer is lost.
abbrev later_fates : List Fate
later_fates = (unreached, answered) ∷ (unanswered, answered) ∷ []

put_then_get_example :
    (ck : Clerk) × (s : Pair) × (put
        (servers view_1)
        4
        "k"
        "v"
        make_clerk
        (record { primary = server "p"; backup = server "b"; fates = fates })
      ≡ some (ck, s))
    × (ck' : Clerk) × (s' : Pair) × (get
          (servers view_1)
          4
          "k"
          make_clerk
          (record s { fates = later_fates })
        ≡ some (ck', s', "v"))
put_then_get_example =
    put_then_get view_1 (server "p") (server "b") fates later_fates 4 "k" "v" make_clerk make_clerk
      in_sync refl (ne_of_test "p" "" refl) (ne_of_test "p" "b" refl) (ne_of_test "" "b" refl)
      (ne_of_test "" "b" refl) (omega arith) (omega arith)
