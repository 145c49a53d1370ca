-- ===== src/FeedReader.antt =====
-- The feed reader: Google-IO/2013/feed-reader/rss.go. Times are milliseconds from the zero time. A
-- round of the loop of a subscription takes one of the events that are ready in its select;
-- which one, and what the fetcher returns, is given. Fetch and main are examples of a fetcher and a
-- program, and are not modelled.
pub mod Items
pub mod Pending
pub mod Merging
use golang_programming.Prelude.{
  ℕ, ◌+◌, String, Bool, true, false, not, ◌&&◌, Option, none, some, List, [], ◌∷◌, ◌++◌, length,
  ltb, leb, if◌then◌else◌, ◌==◌, text_eq,
}

pub record Item : Type 0 where
  pub title : String
  pub channel : String
  pub guid : String

pub record FetchResult : Type 0 where
  pub fetched : List Item
  pub next : ℕ
  pub err : Option String

abbrev pub max_pending : ℕ
max_pending = 10

-- The variables of loop. `fetching` is fetchDone != nil, and `seen` the keys of the map.
pub record Sub : Type 0 where
  pub pending : List Item
  pub next : ℕ
  pub err : Option String
  pub seen : List String
  pub fetching : Bool

abbrev pub new_sub : Sub
new_sub = record { pending = []; next = 0; err = none; seen = []; fetching = false }

-- seen[guid]
abbrev pub is_seen : String → List String → Bool
is_seen guid [] = false
is_seen guid (g ∷ seen) = if g == guid then true else is_seen guid seen

-- The loop over `fetched`.
unfoldable pub take_new : List Item → Sub → Sub
take_new [] s = s
take_new (item ∷ fetched) s = take_new fetched (
    if is_seen item.guid s.seen
    then s
    else record s { pending = s.pending ++ item ∷ []; seen = item.guid ∷ s.seen })

-- case result := <-fetchDone
unfoldable pub fetch_done : FetchResult → ℕ → Sub → Sub
unfolding take_new
fetch_done result now s =
    let s' : Sub = record s { fetching = false; next = result.next; err = result.err } in
    elim result.err [
      | none ↦ take_new result.fetched s'
      | some e ↦ record s' { next = now + 10000 }
    ]

-- What is ready, with the time: the timer of startFetch, the result of the fetch, a reader of
-- Updates, a call of Close.
pub data Event : Type 0 where
  timer : ℕ → Event
  results : FetchResult → ℕ → Event
  reads closes : Event

-- After a round: the loop waits on as before when the event is not ready, goes on, maybe with an
-- item sent, or has ended with the error that Close returns.
pub data Round : Type 0 where
  not_ready : Round
  goes : Sub → Option Item → Round
  ended : Option String → Round

-- The timer is set when no fetch is on the way and there is room, and fires from `next` on.
abbrev pub may_fetch : ℕ → Sub → Bool
may_fetch now s = not s.fetching && ltb (length s.pending) max_pending && leb s.next now

unfoldable pub round : Event → Sub → Round
unfolding fetch_done
round (timer now) s =
    if may_fetch now s then goes (record s { fetching = true }) none else not_ready
round (results result now) s = if s.fetching then goes (fetch_done result now s) none else not_ready
round reads s = elim s.pending [
  | [] ↦ not_ready
  | first ∷ rest ↦ goes (record s { pending = rest }) (some first)
]
round closes s = ended s.err

-- The loop over these events, those that are not ready left out: the subscription and the
-- items sent, and what Close returned if it was called.
pub record Course : Type 0 where
  pub sub : Sub
  pub sent : List Item
  pub closed : Option (Option String)

abbrev pub send_first : Option Item → Course → Course
send_first none c = c
send_first (some item) c = record c { sent = item ∷ c.sent }

unfoldable pub loop : List Event → Sub → Course
loop [] s = record { sub = s; sent = []; closed = none }
loop (e ∷ events) s = elim (round e s) [
  | not_ready ↦ loop events s
  | goes s' item ↦ send_first item (loop events s')
  | ended err ↦ record { sub = s; sent = []; closed = some err }
]
