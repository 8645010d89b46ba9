-- ===== src/Automation/ChangeFeed/Examples.antt =====
-- src/mentorapp/automation/change_feed.py: three entries, one deleted, and a transport that refuses.
use cbm_mentoring_app.Base.{
  ℕ, ◌+◌, ◌≡◌, refl, Bool, true, false, none, some, List, [], ◌∷◌, ◌++◌, length, nat_eq, arith,
}
use cbm_mentoring_app.Automation.ChangeFeed.{
  ChangeFeedEntry, watermark_of, is_after, entries_after, SyncEnd, Transport, sync_change_feed,
}
use cbm_mentoring_app.Automation.ChangeFeed.Order.{IsAscending}
use cbm_mentoring_app.Automation.ChangeFeed.Delivery.{delivered, mark, LeavesNone, nothing_skipped}

abbrev entry : ℕ → ℕ → Bool → ChangeFeedEntry
entry id at deleted = record { change_feed_entry_id = id; changed_at = at; is_deleted = deleted }

abbrev feed : List ChangeFeedEntry
feed = entry 1 10 false ∷ entry 2 10 false ∷ entry 3 12 true ∷ entry 4 13 false ∷ []

feed-IsAscending : IsAscending feed
unfolding is_after watermark_of nat_eq
feed-IsAscending = ((refl, (refl, (refl, tt))), ((refl, (refl, tt)), ((refl, tt), (tt, tt))))

-- The second batch is refused.
abbrev first_only : Transport
first_only [] batch = true
first_only (_ ∷ _) batch = false

nothing_skipped_example :
    (end : SyncEnd) × (batches : List (List ChangeFeedEntry)) × (sync_change_feed feed first_only 2
        (length (entries_after feed none) + 1)
        none
        []
      ≡ some (end, batches))
    × (delivered batches ++ entries_after feed (mark end) ≡ entries_after feed none)
    × LeavesNone feed end
nothing_skipped_example = nothing_skipped feed first_only 2 none feed-IsAscending (omega arith)
