-- ===== src/ViewService.antt =====
-- The view service: 6.824-labs/viewservice/common.go and server.go. The RPC plumbing of StartServer
-- and Kill is not modelled. `now` is the time of a call in milliseconds, and `order` the order in
-- which `range` visits the clients.
mod Sweep
pub mod Views
pub mod Trace
pub mod Invariant
pub mod Failover
use golang_programming.Prelude.{
  ℕ, ◌+◌, ◌-◌, ◌*◌, ◌%◌, ◌^◌, String, Bool, true, false, not, ◌&&◌, Option, none, some, List, [],
  ◌∷◌, ltb, if◌then◌else◌, ◌==◌, nat_eq, text_eq, GoMap, empty, insert, ◌>>=◌,
}

pub record View : Type 0 where
  pub viewnum : ℕ
  pub primary : String
  pub backup : String

pub record PingArgs : Type 0 where
  pub me : String
  pub viewnum : ℕ

pub record Client : Type 0 where
  pub hostport : String
  pub dead : Bool
  pub idle : Bool
  pub last_viewnum : ℕ
  pub last_ping : ℕ

pub record ViewServer : Type 0 where
  pub view : View
  pub clients : GoMap String Client
  pub acked : Bool
  pub primary_restarted : Bool

-- PingInterval * DeadPings
abbrev pub ping_interval : ℕ
ping_interval = 100

abbrev pub dead_pings : ℕ
dead_pings = 5

-- StartServer: the fields that it sets, and Go's zero values for the others
abbrev pub start_server : ViewServer
start_server = record {
  view = record { viewnum = 0; primary = ""; backup = "" };
  clients = empty;
  acked = true;
  primary_restarted = false;
}

abbrev new_client : String → Client
new_client me = record { hostport = me; dead = false; idle = true; last_viewnum = 0; last_ping = 0 }

abbrev client_or_new : String → Option Client → Client
client_or_new me none = new_client me
client_or_new me (some cli) = cli

-- The new server and `reply.View`.
unfoldable pub ping : ℕ → PingArgs → ViewServer → ViewServer × View
ping now args vs =
    (record vs { clients = clients; acked = acked; primary_restarted = restarted }, v)
  where
    v : View
    v = vs.view

    cli : Client
    cli = client_or_new args.me (vs.clients args.me)

    acked : Bool
    acked = if args.me == v.primary && args.viewnum == v.viewnum then true else vs.acked

    restarted : Bool
    restarted =
        if args.me == v.primary && args.viewnum == 0 && not (v.viewnum == 0) && acked
        then true
        else vs.primary_restarted

    clients : GoMap String Client
    clients =
        insert args.me (record cli { dead = false; last_viewnum = args.viewnum; last_ping = now })
          vs.clients

pub get : ViewServer → View
get vs = vs.view

-- The clients and the two pointers that the loop of `tick` fills. A pointer to a client is its key.
pub record Scan : Type 0 where
  pub clients : GoMap String Client
  pub idle_client : Option String
  pub inited_idle_client : Option String

abbrev pub is_nil {ℓ} : {A : Type ℓ} → Option A → Bool
is_nil none = true
is_nil (some a) = false

-- dur > PingInterval*DeadPings
abbrev pub is_stale : ℕ → Client → Bool
is_stale now cli = ltb (ping_interval * dead_pings) (now - cli.last_ping)

abbrev pub expire : ℕ → Client → Client
expire now cli = if is_stale now cli then record cli { idle = true; dead = true } else cli

visit_client : ℕ → ℕ → String → Client → Scan → Scan
visit_client now viewnum key cli s = record {
  clients = insert key cli s.clients;
  idle_client =
      if not cli.dead && cli.idle && is_nil s.idle_client then some key else s.idle_client;
  inited_idle_client =
      if not cli.dead && cli.idle && cli.last_viewnum == viewnum && is_nil s.inited_idle_client
      then some key
      else s.inited_idle_client;
}

unfoldable pub visit : ℕ → ℕ → String → Scan → Scan
unfolding visit_client
visit now viewnum key s = elim (s.clients key) [
  | none ↦ s
  | some cli ↦ visit_client now viewnum key (expire now cli) s
]

unfoldable pub scan : ℕ → ℕ → List String → Scan → Scan
scan now viewnum [] s = s
scan now viewnum (key ∷ order) s = scan now viewnum order (visit now viewnum key s)

-- v.Viewnum++ on a 64-bit uint
abbrev pub next_viewnum : View → ℕ
next_viewnum v = (v.viewnum + 1) % 2 ^ 64

-- `if h != "" && vs.clients[h].dead` empties the place; the lookup of a missing client is nil
vacate : GoMap String Client → String → Option String
vacate clients host =
    if host == "" then some host else do cli ← clients host; some (if cli.dead then "" else host)

-- `if vs.primaryRestarted`
retire : ViewServer → Option ViewServer
retire vs =
    if vs.primary_restarted
    then (do
      cli ← vs.clients vs.view.primary
      some (record vs {
        clients = insert vs.view.primary (record cli { idle = true }) vs.clients;
        view = record vs.view { primary = "" };
        primary_restarted = false;
      }))
    else some vs

appoint_primary : String → ViewServer → Option ViewServer
appoint_primary key vs = do
  cli ← vs.clients key
  some (record vs {
    view = record vs.view { primary = cli.hostport; viewnum = next_viewnum vs.view };
    acked = false;
    clients = insert key (record cli { idle = false }) vs.clients;
  })

appoint_backup : String → ViewServer → Option ViewServer
appoint_backup key vs = do
  cli ← vs.clients key
  some (record vs {
    view = record vs.view { backup = cli.hostport; viewnum = next_viewnum vs.view };
    acked = false;
    clients = insert key (record cli { idle = false }) vs.clients;
  })

promote : ViewServer → Option ViewServer
promote vs = do
  cli ← vs.clients vs.view.backup
  some (
      if cli.last_viewnum == vs.view.viewnum
      then record vs {
        view = record { viewnum = next_viewnum vs.view; primary = vs.view.backup; backup = "" };
        acked = false;
      }
      else vs)

-- the last if-else chain of `tick`
unfoldable pub fill_places : Option String → Option String → ViewServer → Option ViewServer
unfolding appoint_primary appoint_backup promote
fill_places idle inited vs =
    if vs.view.primary == "" && vs.view.backup == ""
    then (elim inited [ none ↦ some vs | some key ↦ appoint_primary key vs ])
    else if vs.view.primary == ""
    then promote vs
    else if vs.view.backup == ""
    then (elim idle [ none ↦ some vs | some key ↦ appoint_backup key vs ])
    else some vs

-- the three `if` statements that make room
unfoldable pub empty_places : ViewServer → Option ViewServer
unfolding vacate retire
empty_places vs = do
  primary ← vacate vs.clients vs.view.primary
  backup ← vacate vs.clients vs.view.backup
  retire (record vs { view = record vs.view { primary = primary; backup = backup } })

unfoldable pub change_view : Option String → Option String → ViewServer → Option ViewServer
change_view idle inited vs = do vs' ← empty_places vs; fill_places idle inited vs'

abbrev pub before_scan : ViewServer → Scan
before_scan vs = record { clients = vs.clients; idle_client = none; inited_idle_client = none }

abbrev pub scan_of : ℕ → List String → ViewServer → Scan
scan_of now order vs = scan now vs.view.viewnum order (before_scan vs)

-- the server after the loop
abbrev pub scanned : ℕ → List String → ViewServer → ViewServer
scanned now order vs = record vs { clients = (scan_of now order vs).clients }

unfoldable pub tick : ℕ → List String → ViewServer → Option ViewServer
tick now order vs =
    let s : Scan = scan_of now order vs in
    if vs.acked
    then change_view s.idle_client s.inited_idle_client (scanned now order vs)
    else some (scanned now order vs)

-- What happens at the service, one call at a time: the handlers and `tick` hold `vs.mu`.
pub data Event : Type 0 where
  pinged : ℕ → PingArgs → Event
  queried : Event
  ticked : ℕ → List String → Event

unfoldable pub step : Event → ViewServer → Option ViewServer
step (pinged now args) vs = some (ping now args vs).0
step queried vs = some vs
step (ticked now order) vs = tick now order vs

unfoldable pub run : List Event → ViewServer → Option ViewServer
run [] vs = some vs
run (e ∷ events) vs = step e vs >>= run events
