-- ===== src/LockService/Clerk.antt =====
-- What a client of the lock service is told (6.824-labs/lockservice/client.go).
use golang_programming.Prelude.{String, ◌≡◌, true, false, none, arith, nat_eq, text_eq}
use golang_programming.Network.{Outcome, unreached, unanswered, answered}
use golang_programming.LockService.{
  Args, Cluster, Op, locks, unlocks, Fate, lost, delivered, is_locked, clerk,
}
use golang_programming.LockService.Replays.{spec}
use golang_programming.LockService.Replication.{InSync, serve_primary-InSync}

-- A client whose answer from the primary is lost and who asks the backup is told what it would
-- have been told, and the servers are as if it had asked once.
pub clerk-unanswered :
    (op : Op) (args : Args) (second : Outcome) (c : Cluster)
    → InSync c
    → clerk op args unanswered delivered answered c ≡ clerk op args answered delivered second c
unfolding clerk
clerk-unanswered op args second c v = (serve_primary-InSync op args c v).1

-- When the primary cannot be reached, a new request is answered by the backup as the abstract
-- service answers on the locks that the primary had.
pub clerk-unreached :
    (op : Op) (args : Args) (fate : Fate) (c : Cluster)
    → InSync c
    → c.primary.replays args.uuid ≡ none
    → let (c', ok) = clerk op args unreached fate answered c in
      ((n : String) → is_locked c'.backup n ≡ (spec op args.lockname (is_locked c.primary)).0 n)
      × (ok ≡ (spec op args.lockname (is_locked c.primary)).1)
      × (c'.primary ≡ c.primary)
unfolding clerk
clerk-unreached locks args fate c v fresh = (
  λ n. ground (arith, v.same_locks n, v.same_locks args.lockname, v.same_replays args.uuid),
  ground (arith, v.same_locks args.lockname, v.same_replays args.uuid),
  ground (arith, v.same_replays args.uuid),
)
clerk-unreached unlocks args fate c v fresh = (
  λ n. ground (arith, v.same_locks n, v.same_locks args.lockname, v.same_replays args.uuid),
  ground (arith, v.same_locks args.lockname, v.same_replays args.uuid),
  ground (arith, v.same_replays args.uuid),
)

-- The primary grants a lock also when its call of the backup is lost, and the backup then grants
-- the same lock to the next client that does not reach the primary.
pub lost_forward_grants_twice :
    (first next : Args) (c : Cluster)
    → InSync c
    → first.lockname ≡ next.lockname
    → is_locked c.primary first.lockname ≡ false
    → c.primary.replays first.uuid ≡ none
    → c.primary.replays next.uuid ≡ none
    → let (c', ok) = clerk locks first answered lost unreached c in
      (ok ≡ true) × ((clerk locks next unreached lost answered c').1 ≡ true)
unfolding clerk
lost_forward_grants_twice first next c v same free fresh fresh' = (
  ground arith,
  ground (
    arith,
    v.primary_leads,
    v.same_locks first.lockname,
    v.same_locks next.lockname,
    v.same_replays next.uuid,
  ),
)
