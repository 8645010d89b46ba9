-- ===== src/Automation/ChangeFeed.antt =====
-- src/mentorapp/automation/change_feed.py: catch-up reads after a watermark, and the push loop. The
-- feed is the list of the table's rows in the order of the query's `ORDER BY`.
pub mod Order
pub mod Delivery
mod Examples
use cbm_mentoring_app.Base.{
  ℕ, zero, suc, ◌≡◌, Bool, true, false, ◌&&◌, ◌||◌, not, Option, none, some, List, [], ◌∷◌, ◌++◌,
  ◌==◌, nat_eq, if◌then◌else◌, ltb, keep, take,
}
use cbm_mentoring_app.Base.Exec.{Result, ok, err}

pub record ChangeFeedEntry : Type 0 where
  pub change_feed_entry_id : ℕ
  pub changed_at : ℕ
  pub is_deleted : Bool

pub record FeedWatermark : Type 0 where
  pub changed_at : ℕ
  pub entry_id : ℕ

unfoldable pub watermark_of : ChangeFeedEntry → FeedWatermark
watermark_of e = record { changed_at = e.changed_at; entry_id = e.change_feed_entry_id }

-- The expanded keyset predicate; `None` reads from the beginning.
unfoldable pub is_after : Option FeedWatermark → ChangeFeedEntry → Bool
is_after none e = true
is_after (some w) e =
    ltb w.changed_at e.changed_at
    || w.changed_at == e.changed_at && ltb w.entry_id e.change_feed_entry_id

-- The rows that the query selects, before its `LIMIT`.
unfoldable pub entries_after : List ChangeFeedEntry → Option FeedWatermark → List ChangeFeedEntry
entries_after feed since = keep (λ e. not e.is_deleted && is_after since e) feed

-- `entries[-1]`
abbrev pub last : List ChangeFeedEntry → Option ChangeFeedEntry
last [] = none
last (e ∷ es) = let rest = last es in elim rest [ none ↦ some e | some f ↦ some f ]

abbrev pub resume : Option ChangeFeedEntry → Option FeedWatermark
resume none = none
resume (some e) = some (watermark_of e)

unfoldable pub read_changes_since :
    List ChangeFeedEntry → Option FeedWatermark → ℕ → List ChangeFeedEntry × Option FeedWatermark
read_changes_since feed since limit =
    let entries = take limit (entries_after feed since) in (entries, resume (last entries))

-- How a sync ends: the new watermark, or `FeedSyncError` with the last durable one.
abbrev pub SyncEnd : Type 0
SyncEnd = Result (Option FeedWatermark) (Option FeedWatermark)

-- `transport.push`: whether the batch is accepted, after the batches that were.
abbrev pub Transport : Type 0
Transport = List (List ChangeFeedEntry) → List ChangeFeedEntry → Bool

module _ (feed : List ChangeFeedEntry) (accepts : Transport) (batch_size : ℕ) where
  -- The loop, with the batches accepted so far; `none` is the end of the fuel.
  unfoldable pub sync_change_feed :
      ℕ
      → Option FeedWatermark
      → List (List ChangeFeedEntry)
      → Option (SyncEnd × List (List ChangeFeedEntry))
  sync_change_feed zero watermark pushed = none
  sync_change_feed (suc fuel) watermark pushed =
      let (entries, next_watermark) = read_changes_since feed watermark batch_size in
      let rest = sync_change_feed fuel next_watermark (pushed ++ entries ∷ []) in
      let refused = some (err watermark, pushed) in
      elim next_watermark [
        | none ↦ some (ok watermark, pushed)
        | some _ ↦ if accepts pushed entries then rest else refused
      ]
