-- ===== src/Tests/Stores.antt =====
-- The primary/backup service at fixed inputs.
use golang_programming.Prelude.{
  ℕ, zero, suc, ◌≡◌, ◌≢◌, ne_of_test, refl, inr, String, none, some, arith, text_eq,
}
use golang_programming.Network.{answered}
use golang_programming.ViewService.{View}
use golang_programming.PbService.{PbServer, Net, ok, start_server, tick}
use golang_programming.PbService.Replication.{InSync, peer_net}
use golang_programming.PbService.Transfer.{Settles, tick-InSync, tick_ends}

abbrev view_1 : View
view_1 = record { viewnum = 1; primary = "p"; backup = "b" }

abbrev server : String → PbServer
server me = record (start_server me) { view = view_1 }

b-ne : ◌≢◌ {A = String} "b" ""
b-ne = ne_of_test "b" "" refl

tick-InSync_example :
    (p' : PbServer) × (b' : PbServer) × (tick
        (peer_net answered (some view_1))
        1
        (start_server "p")
        (start_server "b")
      ≡ some (p', b'))
    × InSync p' b'
    × ((k : String) → b'.store k ≡ (start_server "p").store k)
    × (b'.view ≡ view_1)
tick-InSync_example =
    tick-InSync view_1 (start_server "p") (start_server "b") 1 (omega arith) refl b-ne refl
      (inr (omega arith))

-- A network that fails as often as its state says, in a view with a backup.
abbrev failing : Net ℕ
failing = record {
  ping = λ n left. (left, some view_1);
  forward = λ host args left. (left, none);
  sync = λ host store left. elim left [ zero ↦ (0, some ok) | suc rest ↦ (rest, none) ];
}

failing-Settles : Settles failing (λ left. left)
failing-Settles = record { failure_counts = λ n store v left p named h. ground arith }

tick_ends_example : (end : PbServer × ℕ) × (tick failing 4 (start_server "p") 3 ≡ some end)
tick_ends_example =
    tick_ends failing (λ left. left) 4 (start_server "p") 3 failing-Settles (omega arith)
