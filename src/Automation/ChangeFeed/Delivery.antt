-- ===== src/Automation/ChangeFeed/Delivery.antt =====
-- src/mentorapp/automation/change_feed.py: `sync_change_feed` loses nothing and skips nothing.
use cbm_mentoring_app.Base.{
  append_assoc, ℕ, zero, suc, ◌+◌, ◌<◌, ◌≡◌, ◌∙◌, sym, ap, refl, true, false, Option, none, some,
  List, [], ◌∷◌, ◌++◌, take, length, length-drop, take-append-drop, arith, Option-cases, Bool-cases,
  inl, inr,
}
use cbm_mentoring_app.Base.Exec.{ok, err}
use cbm_mentoring_app.Automation.ChangeFeed.{
  ChangeFeedEntry, FeedWatermark, watermark_of, entries_after, last, read_changes_since, SyncEnd,
  Transport, sync_change_feed,
}
use cbm_mentoring_app.Automation.ChangeFeed.Order.{IsAscending, batch_lem}

-- All entries of the accepted batches, in the order of their delivery.
abbrev pub delivered : List (List ChangeFeedEntry) → List ChangeFeedEntry
delivered [] = []
delivered (es ∷ batches) = es ++ delivered batches

-- The watermark that the caller keeps, from either end.
abbrev pub mark : SyncEnd → Option FeedWatermark
mark (ok w) = w
mark (err w) = w

-- Nothing is left after a sync that was not rejected.
abbrev pub LeavesNone : List ChangeFeedEntry → SyncEnd → Type 0
LeavesNone feed (ok w) = entries_after feed w ≡ []
LeavesNone feed (err w) = Unit

delivered-append :
    (batches : List (List ChangeFeedEntry)) (es rest : List ChangeFeedEntry)
    → delivered (batches ++ es ∷ []) ++ rest ≡ delivered batches ++ (es ++ rest)
delivered-append [] es rest = append_assoc es [] rest
delivered-append (b ∷ batches) es rest =
    append_assoc b (delivered (batches ++ es ∷ [])) rest
    ∙ ap (λ t. b ++ t) (delivered-append batches es rest)
    ∙ sym (append_assoc b (delivered batches) (es ++ rest))

last-none : (n : ℕ) (es : List ChangeFeedEntry) → 0 < n → last (take n es) ≡ none → es ≡ []
last-none zero es h q = ground (arith, h)
last-none (suc n) [] h q = refl
last-none (suc n) (e ∷ es) h q = ground (arith, q)

last-some :
    (n : ℕ) (es : List ChangeFeedEntry) (e : ChangeFeedEntry)
    → last (take n es) ≡ some e
    → 0 < length es
last-some zero es e q = ground (arith, q)
last-some (suc n) [] e q = ground (arith, q)
last-some (suc n) (x ∷ es) e q = omega arith

module _ (feed : List ChangeFeedEntry) (accepts : Transport) (batch_size : ℕ) where
  -- A sync that goes on from the batches pushed so far.
  abbrev pub Delivers : ℕ → Option FeedWatermark → List (List ChangeFeedEntry) → Type 0
  Delivers fuel since pushed =
      (end : SyncEnd) × (batches : List (List ChangeFeedEntry)) × (sync_change_feed feed accepts
          batch_size fuel since pushed
        ≡ some (end, batches))
      × (delivered batches ++ entries_after feed (mark end)
          ≡ delivered pushed ++ entries_after feed since)
      × LeavesNone feed end

  step_end :
      (fuel : ℕ) (since : Option FeedWatermark) (pushed : List (List ChangeFeedEntry))
      → last (take batch_size (entries_after feed since)) ≡ none
      → sync_change_feed feed accepts batch_size (suc fuel) since pushed ≡ some (ok since, pushed)
  unfolding sync_change_feed read_changes_since
  step_end fuel since pushed p = ground (arith, p)

  step_refused :
      (fuel : ℕ) (since : Option FeedWatermark) (pushed : List (List ChangeFeedEntry))
      (e : ChangeFeedEntry)
      → last (take batch_size (entries_after feed since)) ≡ some e
      → accepts pushed (take batch_size (entries_after feed since)) ≡ false
      → sync_change_feed feed accepts batch_size (suc fuel) since pushed ≡ some (err since, pushed)
  unfolding sync_change_feed read_changes_since
  step_refused fuel since pushed e p q = ground (arith, p, q)

  step_accepted :
      (fuel : ℕ) (since : Option FeedWatermark) (pushed : List (List ChangeFeedEntry))
      (e : ChangeFeedEntry)
      → last (take batch_size (entries_after feed since)) ≡ some e
      → accepts pushed (take batch_size (entries_after feed since)) ≡ true
      → sync_change_feed feed accepts batch_size (suc fuel) since pushed
        ≡ sync_change_feed feed accepts batch_size fuel
            (some (watermark_of e))
            (pushed ++ take batch_size (entries_after feed since) ∷ [])
  unfolding sync_change_feed read_changes_since
  step_accepted fuel since pushed e p q = ground (arith, p, q)

  Delivers-on :
      (fuel : ℕ) (since : Option FeedWatermark) (pushed : List (List ChangeFeedEntry))
      → IsAscending feed
      → 0 < batch_size
      → length (entries_after feed since) < fuel
      → Delivers fuel since pushed
  Delivers-on zero since pushed h positive enough = ground (arith, enough)
  Delivers-on (suc fuel) since pushed h positive enough =
      let left = entries_after feed since in
      elim (Option-cases (last (take batch_size left))) [
        | inl p ↦ (
          ok since,
          pushed,
          step_end fuel since pushed p,
          refl,
          last-none batch_size left positive p,
        )
        | inr (e, p) ↦ elim (Bool-cases (accepts pushed (take batch_size left))) [
          | inr q ↦ (err since, pushed, step_refused fuel since pushed e p q, refl, tt)
          | inl q ↦
              let fewer = batch_lem feed since batch_size e h p in
              let batch = take batch_size left in
              let (end, batches, runs, all_of_it, none_left) =
                Delivers-on fuel (some (watermark_of e)) (pushed ++ batch ∷ []) h positive (
                  omega (
                    arith,
                    enough,
                    positive,
                    ap length fewer,
                    length-drop batch_size left,
                    last-some batch_size left e p,
                  )) in
              (
                end,
                batches,
                step_accepted fuel since pushed e p q ∙ runs,
                all_of_it
                    ∙ delivered-append pushed batch (entries_after feed (some (watermark_of e)))
                    ∙ ap (λ rest. delivered pushed ++ (batch ++ rest)) fewer
                    ∙ ap (λ rest. delivered pushed ++ rest) (take-append-drop batch_size left),
                none_left,
              )
        ]
      ]

  -- For a feed in ascending order and a batch size that is not zero, a sync from any watermark
  -- ends, whatever the transport accepts: the accepted batches, in order, and the entries after
  -- the watermark that the caller keeps are together the entries after the one it came with, none
  -- twice and none left out, and a sync that was not rejected leaves no entry.
  pub nothing_skipped :
      (since : Option FeedWatermark)
      → IsAscending feed
      → 0 < batch_size
      → (end : SyncEnd) × (batches : List (List ChangeFeedEntry)) × (sync_change_feed feed accepts
            batch_size
            (length (entries_after feed since) + 1)
            since
            []
          ≡ some (end, batches))
        × (delivered batches ++ entries_after feed (mark end) ≡ entries_after feed since)
        × LeavesNone feed end
  nothing_skipped since h positive =
      Delivers-on (length (entries_after feed since) + 1) since [] h positive (omega arith)
