-- ===== src/LockService/Replays.antt =====
-- A request that is sent again, and how long a lock is held (6.824-labs/lockservice/server.go).
use golang_programming.Prelude.{
  String, ◌≡◌, ◌≢◌, ◌⊎◌, inl, inr, refl, Bool, true, false, not, none, List, [], ◌∷◌, arith,
  if◌then◌else◌, ◌==◌, nat_eq, text_eq,
}
use golang_programming.LockService.{Args, LockServer, is_locked, Op, locks, unlocks, handle, serve}

-- The abstract service: the set of held locks, by name.
abbrev pub Held : Type 0
Held = String → Bool

abbrev pub spec : Op → String → Held → Held × Bool
spec locks name held = ((λ n. if n == name then true else held n), not (held name))
spec unlocks name held = ((λ n. if n == name then false else held n), held name)

-- A handler that sees a uuid for the first time does to the lock table what the abstract service
-- does, gives its answer, and calls the backup exactly if it stands at the primary.
pub handle-spec_new :
    {B : Type 0} (op : Op) (forward : B → B) (args : Args) (ls : LockServer) (b : B)
    → ls.replays args.uuid ≡ none
    → let (ls', b', ok) = handle op forward args ls b in
      ((n : String) → is_locked ls' n ≡ (spec op args.lockname (is_locked ls)).0 n)
      × (ok ≡ (spec op args.lockname (is_locked ls)).1)
      × (b' ≡ (if ls.am_primary then forward b else b))
unfolding handle
handle-spec_new locks forward args ls b fresh = (λ n. ground arith, ground arith, ground arith)
handle-spec_new unlocks forward args ls b fresh = (λ n. ground arith, ground arith, ground arith)

-- A request whose uuid the server has seen, whatever it asks, gets the first answer again and
-- changes nothing, also behind the call.
pub handle_again :
    {B : Type 0} (op again : Op) (forward resend : B → B) (args args' : Args) (ls : LockServer)
    (b : B)
    → args'.uuid ≡ args.uuid
    → let (ls', b', ok) = handle op forward args ls b in
      handle again resend args' ls' b' ≡ (ls', b', ok)
unfolding handle
handle_again locks locks forward resend args args' ls b same = ground arith
handle_again locks unlocks forward resend args args' ls b same = ground arith
handle_again unlocks locks forward resend args args' ls b same = ground arith
handle_again unlocks unlocks forward resend args args' ls b same = ground arith

abbrev pub Request : Type 0
Request = Op × Args

unfoldable pub serve_all : List Request → LockServer → LockServer
serve_all [] ls = ls
serve_all ((op, args) ∷ requests) ls = serve_all requests (serve op args ls).0

-- Each request brings a uuid that the server has not seen before.
abbrev pub AllNew : List Request → LockServer → Type 0
AllNew [] ls = Unit
AllNew ((op, args) ∷ requests) ls =
    (ls.replays args.uuid ≡ none) × AllNew requests (serve op args ls).0

-- None of the requests unlocks `name`.
abbrev pub Spares : String → List Request → Type 0
Spares name [] = Unit
Spares name ((locks, args) ∷ requests) = Spares name requests
Spares name ((unlocks, args) ∷ requests) = (args.lockname ≢ name) × Spares name requests

-- Every request to lock `name` is refused.
abbrev pub AllRefused : String → List Request → LockServer → Type 0
AllRefused name [] ls = Unit
AllRefused name ((locks, args) ∷ requests) ls =
    ((args.lockname ≢ name) ⊎ ((serve locks args ls).1 ≡ false))
    × AllRefused name requests (serve locks args ls).0
AllRefused name ((unlocks, args) ∷ requests) ls = AllRefused name requests (serve unlocks args ls).0

serve-held :
    (name : String) (op : Op) (args : Args) (ls : LockServer)
    → is_locked ls name ≡ true
    → ls.replays args.uuid ≡ none
    → Spares name ((op, args) ∷ [])
    → (is_locked (serve op args ls).0 name ≡ true)
      × ((op ≡ unlocks) ⊎ (args.lockname ≢ name) ⊎ ((serve op args ls).1 ≡ false))
unfolding serve
serve-held name locks args ls held fresh spared = (ground arith, inr (ground arith))
serve-held name unlocks args ls held fresh spared = (ground (arith, spared.0), inl refl)

-- While no request unlocks a lock that is held, every new request for it is refused, and it stays
-- held.
pub serve_all-held :
    (name : String) (requests : List Request) (ls : LockServer)
    → is_locked ls name ≡ true
    → AllNew requests ls
    → Spares name requests
    → (is_locked (serve_all requests ls) name ≡ true) × AllRefused name requests ls
unfolding serve_all
serve_all-held name [] ls held new spared = (held, tt)
serve_all-held name ((locks, args) ∷ requests) ls held (fresh, new) spared =
    let (held', refused) = serve-held name locks args ls held fresh tt in
    let (last, rest) = serve_all-held name requests (serve locks args ls).0 held' new spared in
    (last, (ground (arith, refused), rest))
serve_all-held name ((unlocks, args) ∷ requests) ls held (fresh, new) (ne, spared) =
    let (held', refused) = serve-held name unlocks args ls held fresh (ne, tt) in
    serve_all-held name requests (serve unlocks args ls).0 held' new spared
