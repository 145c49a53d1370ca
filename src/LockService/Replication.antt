-- ===== src/LockService/Replication.antt =====
-- The backup follows the primary (6.824-labs/lockservice/server.go).
use golang_programming.Prelude.{ℕ, String, ◌≡◌, refl, true, false, arith, nat_eq, text_eq}
use golang_programming.LockService.{
  Args, Cluster, Op, locks, unlocks, delivered, serve_primary, serve_backup, start_server,
}

-- The backup has the locks and the replays of the primary, and each server knows its part.
pub record InSync (c : Cluster) : Type 0 where
  pub primary_leads : c.primary.am_primary ≡ true
  pub backup_follows : c.backup.am_primary ≡ false
  pub same_locks : (n : String) → c.backup.locks n ≡ c.primary.locks n
  pub same_replays : (u : ℕ) → c.backup.replays u ≡ c.primary.replays u

pub InSync-start : InSync (record { primary = start_server true; backup = start_server false })
InSync-start = record {
  primary_leads = refl;
  backup_follows = refl;
  same_locks = λ n. refl;
  same_replays = λ u. refl;
}

serve_primary-InSync_op :
    (op : Op) (args : Args) (c : Cluster) → InSync c → InSync (serve_primary op args delivered c).0
unfolding serve_primary
serve_primary-InSync_op locks args c v = record {
  primary_leads = ground (arith, v.primary_leads);
  backup_follows = ground (arith, v.backup_follows);
  same_locks = λ n. ground (
    arith,
    v.primary_leads,
    v.same_locks n,
    v.same_locks args.lockname,
    v.same_replays args.uuid,
  );
  same_replays = λ u. ground (
    arith,
    v.primary_leads,
    v.same_replays u,
    v.same_locks args.lockname,
    v.same_replays args.uuid,
  );
}
serve_primary-InSync_op unlocks args c v = record {
  primary_leads = ground (arith, v.primary_leads);
  backup_follows = ground (arith, v.backup_follows);
  same_locks = λ n. ground (
    arith,
    v.primary_leads,
    v.same_locks n,
    v.same_locks args.lockname,
    v.same_replays args.uuid,
  );
  same_replays = λ u. ground (
    arith,
    v.primary_leads,
    v.same_replays u,
    v.same_locks args.lockname,
    v.same_replays args.uuid,
  );
}

answers_same :
    (op : Op) (args : Args) (c : Cluster)
    → InSync c
    → serve_backup op args (serve_primary op args delivered c).0 ≡ serve_primary op args delivered c
unfolding serve_primary serve_backup
answers_same locks args c v =
    ground (arith, v.primary_leads, v.same_locks args.lockname, v.same_replays args.uuid)
answers_same unlocks args c v =
    ground (arith, v.primary_leads, v.same_locks args.lockname, v.same_replays args.uuid)

-- A request at the primary whose call of the backup is delivered keeps the servers in step, and
-- the backup would answer the request itself with the same reply and stay as it is.
pub serve_primary-InSync :
    (op : Op) (args : Args) (c : Cluster)
    → InSync c
    → let (c', ok) = serve_primary op args delivered c in
      InSync c' × (serve_backup op args c' ≡ (c', ok))
serve_primary-InSync op args c v = (serve_primary-InSync_op op args c v, answers_same op args c v)
