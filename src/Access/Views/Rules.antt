-- ===== src/Access/Views/Rules.antt =====
-- src/mentorapp/access/views.py: what a capability check comes to, and the rules of a view's life.
use cbm_mentoring_app.Base.{
  ℕ, String, ◌≡◌, ◌∙◌, refl, ap, Bool, true, false, ◌&&◌, ◌||◌, not, Option, none, some, is_some,
  List, [], ◌∷◌, ◌++◌, keep, any, contains, ◌==◌, nat_eq, string_eq, if◌then◌else◌, arith,
}
use cbm_mentoring_app.Base.Exec.{Result, ok, err}
use cbm_mentoring_app.Access.Views.{
  is_owned_by, then_promote, capability_error, cap_view_promote, grantable_capabilities,
  user_baseline_capabilities, effective_capabilities, AccessGrant, is_live_grant,
  stored_capabilities, ViewFacts, save_in_place, save_as_user, AccessError, view_visible_to,
  can_manage_view, save_disposition, can_apply_temporarily, authorize_view_management,
  holds_capability, authorize_capability, authorize_view_promotion,
}

contains-append :
    (xs ys : List String) (k : String) → contains (xs ++ ys) k ≡ (contains xs k || contains ys k)
contains-append [] ys k = refl
contains-append (x ∷ xs) ys k = ground (arith, contains-append xs ys k)

contains-keep :
    (t : String → Bool) (xs : List String) (k : String)
    → contains (keep t xs) k ≡ (t k && contains xs k)
contains-keep t [] k = ground arith
contains-keep t (x ∷ xs) k = ground (arith, contains-keep t xs k)

contains-held :
    (rows : List AccessGrant) (user_id : ℕ) (k : String)
    → contains (stored_capabilities.grant_keys_held rows user_id) k
      ≡ any (λ row. is_live_grant user_id row && k == row.access_grant_key) rows
contains-held [] user_id k = refl
contains-held (row ∷ rows) user_id k = ground (arith, contains-held rows user_id k)

abbrev is_allowed : Result AccessError (Unit {0}) → Bool
is_allowed (ok _) = true
is_allowed (err _) = false

-- A capability that no signed-in user has to be granted, or one of the vocabulary that a live row
-- grants to this user.
abbrev pub is_granted : List AccessGrant → ℕ → String → Bool
is_granted rows user_id k =
    contains user_baseline_capabilities k
    || (contains grantable_capabilities k
        && any (λ row. is_live_grant user_id row && k == row.access_grant_key) rows)

pub holds_granted :
    (rows : List AccessGrant) (user_id : ℕ) (k : String)
    → holds_capability stored_capabilities rows user_id k ≡ is_granted rows user_id k
unfolding holds_capability effective_capabilities
holds_granted rows user_id k =
    let held = stored_capabilities.grant_keys_held rows user_id in
    contains-append user_baseline_capabilities (keep (contains grantable_capabilities) held) k
    ∙ ap (λ b. contains user_baseline_capabilities k || b)
        (contains-keep (contains grantable_capabilities) held k
          ∙ ap (λ b. contains grantable_capabilities k && b) (contains-held rows user_id k))

-- A capability is authorised exactly when it is of the baseline, or of the vocabulary and granted to
-- the user by a live row: a revoked row, another user's row or a key outside the vocabulary grants
-- nothing, and no row can take the baseline away.
authorize_capability-is_granted :
    (rows : List AccessGrant) (user_id : ℕ) (k : String)
    → is_allowed (authorize_capability stored_capabilities rows user_id k)
      ≡ is_granted rows user_id k
unfolding authorize_capability
authorize_capability-is_granted rows user_id k = ground (arith, holds_granted rows user_id k)

abbrev saved_user_view : ViewFacts → Bool
saved_user_view view = is_some view.owner_id && not view.temporary_modified

owned_some :
    (owner : Option ℕ) (user_id : ℕ) → (is_owned_by owner user_id && not (is_some owner)) ≡ false
owned_some none user_id = refl
owned_some (some o) user_id = ground arith

promoted :
    (view : ViewFacts) (user_id : ℕ) (held : Bool)
    → is_allowed (
        then_promote stored_capabilities view user_id
          (if held then ok tt else err (capability_error cap_view_promote user_id)))
      ≡ (held && saved_user_view view)
promoted view user_id true = ground arith
promoted view user_id false = refl

-- The rules of a view's life, for any view, user and grants. A management call is allowed exactly
-- when a save may land in place; such a view is visible to the user, saved, unlocked and no system
-- view. Applying temporarily is allowed on what is visible. A promotion is allowed exactly when the
-- user is granted it and the view is a saved user view.
views_lifecycle :
    (rows : List AccessGrant) (view : ViewFacts) (user_id : ℕ) (action : String)
    → (is_allowed (authorize_view_management view user_id action)
        ≡ elim (save_disposition view user_id) [ save_in_place ↦ true | save_as_user ↦ false ])
      × ((is_allowed (authorize_view_management view user_id action)
            && not (view_visible_to view user_id && saved_user_view view && not view.read_only))
          ≡ false)
      × (can_apply_temporarily view user_id ≡ view_visible_to view user_id)
      × (is_allowed (authorize_view_promotion stored_capabilities view rows user_id)
          ≡ (is_granted rows user_id cap_view_promote && saved_user_view view))
unfolding authorize_view_management can_manage_view save_disposition view_visible_to
    can_apply_temporarily authorize_view_promotion authorize_capability
views_lifecycle rows view user_id action = (
  ground arith,
  ground (arith, owned_some view.owner_id user_id),
  refl,
  promoted view user_id (holds_capability stored_capabilities rows user_id cap_view_promote)
      ∙ ap (λ b. b && saved_user_view view) (holds_granted rows user_id cap_view_promote),
)
