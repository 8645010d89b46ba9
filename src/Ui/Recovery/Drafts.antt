-- ===== src/Ui/Recovery/Drafts.antt =====
-- src/mentorapp/ui/outage_recovery.py: which draft `DraftRecovery` offers after any calls.
use cbm_mentoring_app.Base.{
  refl, ◌∙◌, ◌≡◌, ap, Option, none, some, List, [], ◌∷◌, ◌==◌, if◌then◌else◌, is_some, arith,
}
use cbm_mentoring_app.Base.Exec.{Result, ok, err}
use cbm_mentoring_app.Base.Dict
use cbm_mentoring_app.Base.Dict.{get-put, get-remove, get-empty}
use cbm_mentoring_app.Ui.Recovery.{
  EducateMessage, draft_offered, DraftIdentity, draft_identity_eq, PreservedDraftRef,
  UnknownDraftError, unknown_draft, DraftRecovery, draft_preserved, offer_for, restore,
  submit_succeeded, discard, offered,
}

pub data Call : Type 0 where
  preserves : PreservedDraftRef → Call
  restores : PreservedDraftRef → Call
  submits : PreservedDraftRef → Call
  discards : PreservedDraftRef → Call

abbrev pub call : Call → DraftRecovery → DraftRecovery
call (preserves draft) drafts = (draft_preserved draft drafts).1
call (restores draft) drafts = (restore draft drafts).1
call (submits draft) drafts = (submit_succeeded draft drafts).1
call (discards draft) drafts = (discard draft drafts).1

-- The state after the calls, the latest first.
abbrev pub after : List Call → DraftRecovery
after [] = []
after (latest ∷ earlier) = call latest (after earlier)

-- The draft that stands for a target, read off the calls alone, the latest first: the one that was
-- preserved last, unless a submit or a discard came after it.
abbrev pub standing : List Call → DraftIdentity → Option PreservedDraftRef
standing [] identity = none
standing (preserves draft ∷ earlier) identity =
    let before = standing earlier identity in
    if identity == draft.identity then some draft else before
standing (restores draft ∷ earlier) identity = standing earlier identity
standing (submits draft ∷ earlier) identity =
    let before = standing earlier identity in if identity == draft.identity then none else before
standing (discards draft ∷ earlier) identity =
    let before = standing earlier identity in if identity == draft.identity then none else before

get-after :
    (calls : List Call) (identity : DraftIdentity)
    → Dict.get (after calls) identity ≡ standing calls identity
unfolding draft_preserved restore submit_succeeded discard
get-after [] identity = get-empty identity
get-after (preserves draft ∷ earlier) identity =
    ground
      (arith, get-after earlier identity, get-put (after earlier) draft.identity identity draft)
get-after (restores draft ∷ earlier) identity = ground (arith, get-after earlier identity)
get-after (submits draft ∷ earlier) identity =
    ground (arith, get-after earlier identity, get-remove (after earlier) draft.identity identity)
get-after (discards draft ∷ earlier) identity = ground (
  arith,
  get-after earlier identity,
  get-after earlier draft.identity,
  get-remove (after earlier) draft.identity identity,
)

abbrev pub known_or_error :
    PreservedDraftRef → Option PreservedDraftRef → Result UnknownDraftError PreservedDraftRef
known_or_error draft none = err (unknown_draft draft.identity)
known_or_error draft (some known) = ok known

-- The offer of a draft that stands, with the time it was saved.
abbrev pub offer_of : Option PreservedDraftRef → Option (PreservedDraftRef × EducateMessage)
offer_of none = none
offer_of (some draft) = some (draft, draft_offered draft.saved_at)

offered_lem : (found : Option PreservedDraftRef) → offered found ≡ offer_of found
offered_lem none = refl
offered_lem (some draft) = refl

-- After any calls, the surface of a target offers the draft that stands for it, and no other: the
-- one preserved last for that author and target, unless a submit or a discard of it came later, with
-- the message of its moment. A restore hands over the draft that stands and consumes nothing; of a
-- draft that does not stand, a restore and a discard are refused.
pub offer_for-standing :
    (calls : List Call) (identity : DraftIdentity) (draft : PreservedDraftRef)
    → (offer_for identity (after calls) ≡ offer_of (standing calls identity))
      × (restore draft (after calls)
          ≡ (known_or_error draft (standing calls draft.identity), after calls))
      × ((discard draft (after calls)).0 ≡ (
          if is_some (standing calls draft.identity)
          then ok tt
          else err (unknown_draft draft.identity)))
unfolding offer_for restore discard
offer_for-standing calls identity draft = (
  ap offered (get-after calls identity) ∙ offered_lem (standing calls identity),
  ground (arith, get-after calls draft.identity),
  ground (arith, get-after calls draft.identity),
)
