-- ===== src/PbService/Clients.antt =====
-- Which servers answer clients (6.824-labs/pbservice/server.go).
use golang_programming.Prelude.{String, ◌≡◌, ◌≢◌, some, arith, nat_eq, text_eq, insert}
use golang_programming.PbService.{
  PbServer, Net, ok, err_wrong_server, ForwardArgs, op_get, op_put, get, put, forward,
}
use golang_programming.PbService.Replication.{found}

-- A server that is not the primary of the view it knows calls nobody, takes every put with OK into
-- its own store, and answers every get from there; it never replies ErrWrongServer.
pub not_primary_serves :
    {B : Type 0} (net : Net B) (pb : PbServer) (b : B) (key value : String)
    → pb.view.primary ≢ pb.me
    → (put net key value pb b ≡ (record pb { store = insert key value pb.store }, b, ok))
      × (get net key pb b ≡ (pb, b, found (pb.store key)))
unfolding get put
not_primary_serves net pb b key value h = (ground arith, ground arith)

-- A forwarded operation is refused, with nothing changed, by a server that is not the backup of the
-- view it knows; the backup accepts it, and only a put changes its store, at the key of the put.
pub forward_lem :
    (args : ForwardArgs) (pb : PbServer)
    → let (pb', err) = forward args pb in
      (pb.view.backup ≢ pb.me → (pb' ≡ pb) × (err ≡ err_wrong_server))
      × (pb.view.backup ≡ pb.me → err ≡ ok)
      × (pb.view.backup ≡ pb.me → args.op ≡ op_put → pb'.store args.key ≡ some args.value)
      × (args.op ≡ op_get → pb' ≡ pb)
      × ((k : String) → k ≢ args.key → pb'.store k ≡ pb.store k)
      × (pb'.view ≡ pb.view)
unfolding forward
forward_lem args pb = (
  λ h. (ground arith, ground arith),
  λ h. ground arith,
  λ h e. ground arith,
  λ e. ground arith,
  λ k ne. ground arith,
  ground arith,
)
