-- ===== src/Automation/Outage/Submits.antt =====
-- src/mentorapp/automation/crm_outage.py: `submit_or_preserve` and the preserved drafts.
use cbm_mentoring_app.Base.{
  ℕ, String, ◌≡◌, refl, true, Option, none, some, arith, ◌==◌, string_eq, if◌then◌else◌,
}
use cbm_mentoring_app.Base.Dict
use cbm_mentoring_app.Base.Dict.{dict_laws}
use cbm_mentoring_app.Automation.Outage.{
  Config, allow_attempt, CrmAnswer, answered, unavailable, raised, SubmitOutcome, accepted,
  draft_preserved, propagated, submit_or_preserve, Desk, availability, record_failure,
  stated_reason, failure_reason,
}
use cbm_mentoring_app.Automation.Outage.Reads.{NoAnswer}
use cbm_mentoring_app.Automation.Outage.Drafts.{
  DraftKey, PreservedDraft, DraftStore, preserve_draft, draft_for, draft_key_eq,
}

module _ {C : Type 0} where
  -- Every draft stands under its own key.
  abbrev pub IsKeyed : DraftStore C → Type 0
  IsKeyed store = (k : DraftKey) (d : PreservedDraft C) → Dict.get store k ≡ some d → d.key ≡ k

  -- The moment at which this work was first kept.
  abbrev pub first_moment : Option (PreservedDraft C) → ℕ → ℕ
  first_moment none now = now
  first_moment (some d) now = d.first_preserved_at

  draft_for_lem :
      (old : Option (PreservedDraft C)) (key : DraftKey) (content : C) (why : String) (now : ℕ)
      → ((d : PreservedDraft C) → old ≡ some d → d.key ≡ key)
      → draft_for old key content why now ≡ record {
        key = key;
        content = content;
        first_preserved_at = first_moment old now;
        preserved_at = now;
        reason = why;
      }
  unfolding draft_for
  draft_for_lem none key content why now h = refl
  draft_for_lem (some d) key content why now h = ground (arith, h d refl)

  -- The store after the call, as a change of one key.
  abbrev pub IsOnly : DraftStore C → DraftKey → Option (PreservedDraft C) → DraftStore C → Type 0
  IsOnly store key kept store' =
      (j : DraftKey) → Dict.get store' j ≡ (if j == key then kept else Dict.get store j)

  preserve_draft_lem :
      (store : DraftStore C) (key : DraftKey) (content : C) (why : String) (now : ℕ)
      → IsKeyed store
      → let (d, store') = preserve_draft store key content why now in
        (d ≡ record {
          key = key;
          content = content;
          first_preserved_at = first_moment (Dict.get store key) now;
          preserved_at = now;
          reason = why;
        })
        × IsOnly store key (some d) store'
  unfolding preserve_draft
  preserve_draft_lem store key content why now h =
      let same = draft_for_lem (Dict.get store key) key content why now (h key) in
      (
        same,
        λ j. ground (
          arith,
          same,
          Dict.get-put store key j (draft_for (Dict.get store key) key content why now),
        ),
      )

module _ {A X C : Type 0} (c : Config) where
  -- What an outcome says of the drafts before and after.
  abbrev pub IsKept :
      Desk C → DraftKey → C → CrmAnswer A X → ℕ → SubmitOutcome A X C → DraftStore C → Type 0
  IsKept desk key content submit now (accepted a) store' =
      ((allow_attempt c desk.monitor now).0 ≡ true)
      × (submit ≡ answered a)
      × IsOnly desk.drafts key none store'
  IsKept desk key content submit now (draft_preserved d since why) store' =
      NoAnswer c desk.monitor submit now
      × (d ≡ record {
        key = key;
        content = content;
        first_preserved_at = first_moment (Dict.get desk.drafts key) now;
        preserved_at = now;
        reason = why;
      })
      × IsOnly desk.drafts key (some d) store'
  IsKept desk key content submit now (propagated x) store' =
      ((allow_attempt c desk.monitor now).0 ≡ true) × (submit ≡ raised x) × (store' ≡ desk.drafts)

  -- With every draft under its own key: a submit the CRM accepted removes the draft of its key and
  -- no other; one that it did not answer, or was not asked, is kept in full under its key, with
  -- the first moment of an earlier draft, and no other draft changes; any other exception leaves
  -- the drafts alone.
  pub no_work_lost :
      (desk : Desk C) (key : DraftKey) (content : C) (submit : CrmAnswer A X) (now : ℕ)
      → IsKeyed desk.drafts
      → let (outcome, desk') = submit_or_preserve c desk key content submit now in
        IsKept desk key content submit now outcome desk'.drafts
  unfolding submit_or_preserve
  no_work_lost desk key content (answered a) now h = ground (
    arith,
    preserve_draft_lem desk.drafts key content
        (stated_reason none (availability (allow_attempt c desk.monitor now).1)) now h,
    Dict.get-remove desk.drafts key,
  )
  no_work_lost desk key content (unavailable text) now h = ground (
    arith,
    preserve_draft_lem desk.drafts key content
        (stated_reason none (availability (allow_attempt c desk.monitor now).1)) now h,
    preserve_draft_lem desk.drafts key content
        (stated_reason (some (failure_reason text)) (
          availability
            (record_failure c (allow_attempt c desk.monitor now).1 (failure_reason text) now)))
        now h,
  )
  no_work_lost desk key content (raised x) now h = ground (
    arith,
    preserve_draft_lem desk.drafts key content
        (stated_reason none (availability (allow_attempt c desk.monitor now).1)) now h,
  )
