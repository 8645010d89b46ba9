-- ===== src/Automation/Outage/Drafts.antt =====
-- src/mentorapp/automation/crm_outage.py: the preserved drafts, and `InMemoryDraftStore`.
use cbm_mentoring_app.Base.{
  ℕ, String, Option, none, some, List, [], ◌∷◌, nat_eq, string_eq, Eq, ◌==◌, if◌then◌else◌, leb,
  keep, map,
}
use cbm_mentoring_app.Base.Dict
use cbm_mentoring_app.Base.Dict.{Dict}

pub record DraftKey : Type 0 where
  pub author_user_id : String
  pub target_kind : String
  pub target_ref : String

DraftKey-discrete : Discrete DraftKey
DraftKey-discrete = hlevel string_eq.dec

instance unfoldable pub draft_key_eq : Eq DraftKey
unfolding DraftKey-discrete
draft_key_eq = record { dec = DraftKey-discrete }

-- The content is the program's free-form mapping, a type of its own here.
pub record PreservedDraft (C : Type 0) : Type 0 where
  pub key : DraftKey
  pub content : C
  pub first_preserved_at : ℕ
  pub preserved_at : ℕ
  pub reason : String

-- `InMemoryDraftStore`: one dict, keyed as the seam is.
abbrev pub DraftStore : Type 0 → Type 0
DraftStore C = Dict DraftKey (PreservedDraft C)

module _ {C : Type 0} where
  abbrev pub upsert : DraftStore C → PreservedDraft C → DraftStore C
  upsert store draft = Dict.put store draft.key draft

  abbrev values : DraftStore C → List (PreservedDraft C)
  values = map (λ (_, d). d)

  unfoldable pub list_for_author : DraftStore C → String → List (PreservedDraft C)
  list_for_author store author = keep (λ d. d.key.author_user_id == author) (values store)

  -- What `preserve_draft` writes: a draft that is there keeps its key and its first moment.
  unfoldable pub draft_for :
      Option (PreservedDraft C) → DraftKey → C → String → ℕ → PreservedDraft C
  draft_for none key content reason now = record {
    key = key;
    content = content;
    first_preserved_at = now;
    preserved_at = now;
    reason = reason;
  }
  draft_for (some existing) key content reason now = record existing {
    content = content;
    preserved_at = now;
    reason = reason;
  }

  unfoldable pub preserve_draft :
      DraftStore C → DraftKey → C → String → ℕ → PreservedDraft C × DraftStore C
  preserve_draft store key content reason now =
      let draft = draft_for (Dict.get store key) key content reason now in
      (draft, upsert store draft)

  -- `sorted(..., reverse=True)` is stable: equal moments stay in the order of the store.
  unfoldable pub insert_recent :
      PreservedDraft C → List (PreservedDraft C) → List (PreservedDraft C)
  insert_recent d [] = d ∷ []
  insert_recent d (x ∷ xs) =
      if leb x.preserved_at d.preserved_at then d ∷ x ∷ xs else x ∷ insert_recent d xs

  unfoldable pub most_recent_first : List (PreservedDraft C) → List (PreservedDraft C)
  most_recent_first [] = []
  most_recent_first (d ∷ ds) = insert_recent d (most_recent_first ds)

  unfoldable pub recoverable_drafts : DraftStore C → String → List (PreservedDraft C)
  recoverable_drafts store author = most_recent_first (list_for_author store author)

  abbrev pub discard_draft : DraftStore C → DraftKey → DraftStore C
  discard_draft store key = Dict.remove store key
