-- ===== src/Automation/Outage/Recovery.antt =====
-- src/mentorapp/automation/crm_outage.py: the drafts that an author can recover, and their order.
use cbm_mentoring_app.Base.{
  ℕ, ◌+◌, ◌≤◌, String, ◌≡◌, ◌∙◌, refl, Bool, ◌&&◌, List, [], ◌∷◌, arith, ◌==◌, string_eq,
  if◌then◌else◌, count_of, All,
}
use cbm_mentoring_app.Automation.Outage.Drafts.{
  PreservedDraft, DraftStore, list_for_author, insert_recent, most_recent_first, recoverable_drafts,
}

module _ {C : Type 0} where
  -- No draft stands before one that was preserved later.
  abbrev IsRecentFirst : List (PreservedDraft C) → Type 0
  IsRecentFirst [] = Unit
  IsRecentFirst (d ∷ ds) = All (λ later. later.preserved_at ≤ d.preserved_at) ds × IsRecentFirst ds

  insert_recent-All :
      (bound : ℕ) (d : PreservedDraft C) (ds : List (PreservedDraft C))
      → d.preserved_at ≤ bound
      → All (λ later. later.preserved_at ≤ bound) ds
      → All (λ later. later.preserved_at ≤ bound) (insert_recent d ds)
  unfolding insert_recent
  insert_recent-All bound d [] h k = (h, tt)
  insert_recent-All bound d (x ∷ ds) h k = ground (arith, h, k, insert_recent-All bound d ds)

  All-below :
      (low high : ℕ) (ds : List (PreservedDraft C))
      → low ≤ high
      → All (λ later. later.preserved_at ≤ low) ds
      → All (λ later. later.preserved_at ≤ high) ds
  All-below low high [] h k = tt
  All-below low high (x ∷ ds) h k = (omega (arith, h, k.0), All-below low high ds h k.1)

  insert_recent-IsRecentFirst :
      (d : PreservedDraft C) (ds : List (PreservedDraft C))
      → IsRecentFirst ds
      → IsRecentFirst (insert_recent d ds)
  unfolding insert_recent
  insert_recent-IsRecentFirst d [] h = (tt, tt)
  insert_recent-IsRecentFirst d (x ∷ ds) h = ground (
    arith,
    h,
    insert_recent-IsRecentFirst d ds,
    All-below x.preserved_at d.preserved_at ds,
    insert_recent-All x.preserved_at d ds,
  )

  most_recent_first-IsRecentFirst :
      (ds : List (PreservedDraft C)) → IsRecentFirst (most_recent_first ds)
  unfolding most_recent_first
  most_recent_first-IsRecentFirst [] = tt
  most_recent_first-IsRecentFirst (d ∷ ds) =
      insert_recent-IsRecentFirst d (most_recent_first ds) (most_recent_first-IsRecentFirst ds)

  insert_recent-count :
      (p : PreservedDraft C → Bool) (d : PreservedDraft C) (ds : List (PreservedDraft C))
      → count_of p (insert_recent d ds) ≡ (if p d then 1 else 0) + count_of p ds
  unfolding insert_recent
  insert_recent-count p d [] = refl
  insert_recent-count p d (x ∷ ds) = ground (arith, insert_recent-count p d ds)

  most_recent_first-count :
      (p : PreservedDraft C → Bool) (ds : List (PreservedDraft C))
      → count_of p (most_recent_first ds) ≡ count_of p ds
  unfolding most_recent_first
  most_recent_first-count p [] = refl
  most_recent_first-count p (d ∷ ds) =
      insert_recent-count p d (most_recent_first ds) ∙ omega (arith, most_recent_first-count p ds)

  list_for_author-count :
      (p : PreservedDraft C → Bool) (store : DraftStore C) (author : String)
      → count_of p (list_for_author store author)
        ≡ count_of (λ (_, d). p d && d.key.author_user_id == author) store
  unfolding list_for_author
  list_for_author-count p [] author = refl
  list_for_author-count p ((k, d) ∷ store) author =
      ground (arith, list_for_author-count p store author)

  -- The drafts offered to an author come the most recently preserved first, and of any kind of
  -- drafts there are exactly as many as the store holds of that author.
  recoverable_drafts-IsRecentFirst :
      (p : PreservedDraft C → Bool) (store : DraftStore C) (author : String)
      → IsRecentFirst (recoverable_drafts store author)
        × (count_of p (recoverable_drafts store author)
            ≡ count_of (λ (_, d). p d && d.key.author_user_id == author) store)
  unfolding recoverable_drafts
  recoverable_drafts-IsRecentFirst p store author = (
    most_recent_first-IsRecentFirst (list_for_author store author),
    most_recent_first-count p (list_for_author store author) ∙ list_for_author-count p store author,
  )
