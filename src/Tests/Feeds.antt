-- ===== src/Tests/Feeds.antt =====
-- Subscriptions and their merge at fixed inputs.
use golang_programming.Prelude.{
  ◌+◌, ◌<◌, ◌≤◌, ◌≡◌, ◌⊎◌, true, none, some, List, [], ◌∷◌, ◌++◌, arith, length,
}
use golang_programming.FeedReader as Feed
use golang_programming.FeedReader.{Item, FetchResult, Event, timer, results, new_sub, loop}
use golang_programming.FeedReader.Items.{shown, firsts, items_of, received, AreNew, loop_lem}
use golang_programming.FeedReader.Pending.{loop_bounds}
use golang_programming.FeedReader.Merging.{
  MergeEvent, gives, reads, closes, quits, done, new_merge, merge_run,
}
use golang_programming.FeedReader.Merging.Rounds.{from, in_hand, taken}
use golang_programming.FeedReader.Merging.InOrder.{merge_run-Left}

abbrev item_a : Item
item_a = record { title = "a"; channel = "c"; guid = "1" }

abbrev item_b : Item
item_b = record { title = "b"; channel = "c"; guid = "2" }

abbrev fetch : FetchResult
fetch = record { fetched = item_a ∷ item_b ∷ item_a ∷ []; next = 7; err = none }

abbrev events : List Event
events = timer 0 ∷ results fetch 5 ∷ Feed.reads ∷ timer 8 ∷ Feed.closes ∷ []

loop_lem_example :
    (shown (loop events new_sub) ≡ firsts [] (items_of (received events new_sub)))
    × AreNew [] (shown (loop events new_sub))
loop_lem_example = loop_lem events

loop_bounds_example :
    (length (loop events new_sub).sub.pending ≤ 9 + 3)
    × ((loop events new_sub).sub.fetching ≡ true → length (loop events new_sub).sub.pending < 10)
loop_bounds_example = loop_bounds 3 events (omega arith, tt)

abbrev merge_events : List MergeEvent
merge_events =
    gives 0 item_a
    ∷ gives 1 item_b
    ∷ reads 0
    ∷ gives 0 item_b
    ∷ closes
    ∷ quits 0 none
    ∷ reads 1
    ∷ quits 1 (some "timeout")
    ∷ []

merge_run-Left_example :
    let (m, sent) = merge_run merge_events (new_merge 2) in
    (rest : List Item) × (taken 0 merge_events (new_merge 2) ≡ from 0 sent ++ rest)
    × ((rest ≡ in_hand (m.worker 0)) ⊎ ((m.worker 0 ≡ done) × (length rest ≤ 1)))
merge_run-Left_example = merge_run-Left 0 2 merge_events
