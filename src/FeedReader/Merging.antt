-- ===== src/FeedReader/Merging.antt =====
-- Merged subscriptions: Google-IO/2013/feed-reader/rss.go, Merge and the Close of a merge. Each
-- subscription has a goroutine, which takes an item from it and then sends the item on; an event is
-- what one of them, the reader of the merge or its Close does. The subscriptions are those of FeedReader,
-- of which only the items and the error of Close matter here. Close is called
-- once: a second call panics, and is left out here as not ready.
pub mod Rounds
pub mod InOrder
use golang_programming.Prelude.{
  ℕ, ◌-◌, String, Bool, true, false, not, ◌&&◌, Option, none, some, List, [], ◌∷◌, ltb,
  if◌then◌else◌, ◌==◌, nat_eq,
}
use golang_programming.FeedReader.{Item}

-- The goroutine of one subscription: before its first select, before its second, or ended.
pub data Worker : Type 0 where
  taking : Worker
  holding : Item → Worker
  done : Worker

-- `quit` is that m.quit is closed, `err` and `waits` are the error of Close and the number of
-- errors that it still waits for, and `closed` is that it has returned.
pub record Merge : Type 0 where
  pub subs : ℕ
  pub worker : ℕ → Worker
  pub quit : Bool
  pub waits : ℕ
  pub err : Option String
  pub closed : Bool

abbrev pub new_merge : ℕ → Merge
new_merge subs = record {
  subs = subs;
  worker = λ i. taking;
  quit = false;
  waits = 0;
  err = none;
  closed = false;
}

pub data MergeEvent : Type 0 where
  gives : ℕ → Item → MergeEvent
  reads : ℕ → MergeEvent
  closes : MergeEvent
  quits : ℕ → Option String → MergeEvent

abbrev pub set_worker : ℕ → Worker → Merge → Merge
set_worker i w m = record m { worker = λ j. if j == i then w else m.worker j }

-- if e := <-m.errs; e != nil { err = e }
abbrev pub or_err : Option String → Option String → Option String
or_err none err = err
or_err (some e) err = some e

abbrev pub note_err : Option String → Merge → Merge
note_err e m = record m { err = or_err e m.err; waits = m.waits - 1; closed = m.waits - 1 == 0 }

-- An item that goes out carries the number of its subscription. `none` is an event that is not ready.
unfoldable pub merge_round : MergeEvent → Merge → Option (Merge × Option (ℕ × Item))
merge_round (gives i item) m = elim (m.worker i) [
  | taking ↦ if ltb i m.subs then some (set_worker i (holding item) m, none) else none
  | holding held ↦ none
  | done ↦ none
]
merge_round (reads i) m = elim (m.worker i) [
  | taking ↦ none
  | holding item ↦ some (set_worker i taking m, some (i, item))
  | done ↦ none
]
merge_round closes m =
    if m.quit
    then none
    else some (record m { quit = true; waits = m.subs; closed = m.subs == 0 }, none)
merge_round (quits i e) m =
    let next : Option (Merge × Option (ℕ × Item)) =
      if m.quit && ltb i m.subs then some (note_err e (set_worker i done m), none) else none in
    elim (m.worker i) [ taking ↦ next | holding item ↦ next | done ↦ none ]

-- The merge after these events, those that are not ready left out, and what went out.
unfoldable pub merge_run : List MergeEvent → Merge → Merge × List (ℕ × Item)
merge_run [] m = (m, [])
merge_run (e ∷ events) m = elim (merge_round e m) [
  | none ↦ merge_run events m
  | some (m', none) ↦ merge_run events m'
  | some (m', some out) ↦ let (last, sent) = merge_run events m' in (last, out ∷ sent)
]
