-- ===== src/Ui/Recovery/Examples.antt =====
-- src/mentorapp/ui/outage_recovery.py: a draft of a session note, preserved, restored and submitted.
use cbm_mentoring_app.Base.{◌≡◌, if◌then◌else◌, is_some, List, [], ◌∷◌}
use cbm_mentoring_app.Base.Exec.{ok, err}
use cbm_mentoring_app.Ui.Recovery.{PreservedDraftRef, unknown_draft, offer_for, restore, discard}
use cbm_mentoring_app.Ui.Recovery.Drafts.{
  offer_of, Call, preserves, restores, submits, after, standing, known_or_error, offer_for-standing,
}

abbrev note : PreservedDraftRef
note = record {
  identity = record {
    author_user_id = "u-7";
    surface_key = "session-notes";
    entity_type = "session";
    record_id = "s-3";
  };
  saved_at = "10:40";
  excerpt = "We talked about";
}

abbrev calls : List Call
calls = restores note ∷ preserves note ∷ submits note ∷ preserves note ∷ []

offer_for-standing_example :
    (offer_for note.identity (after calls) ≡ offer_of (standing calls note.identity))
    × (restore note (after calls)
        ≡ (known_or_error note (standing calls note.identity), after calls))
    × ((discard note (after calls)).0 ≡ (
        if is_some (standing calls note.identity)
        then ok tt
        else err (unknown_draft note.identity)))
offer_for-standing_example = offer_for-standing calls note.identity note
