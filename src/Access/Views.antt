-- ===== src/Access/Views.antt =====
-- src/mentorapp/access/views.py: capabilities, and who may change a grid view. A set of keys is a
-- list, asked for its members alone.
pub mod Rules
use cbm_mentoring_app.Base.{
  ℕ, String, ◌≡◌, Bool, true, false, ◌&&◌, ◌||◌, not, Option, none, some, is_some, List, [], ◌∷◌,
  ◌++◌, map, keep, all, any, contains, ◌==◌, nat_eq, string_eq, if◌then◌else◌,
}
use cbm_mentoring_app.Base.Exec.{Result, ok, err}

abbrev pub cap_view_promote : String
cap_view_promote = "gridView.promote"

abbrev pub cap_data_source_author : String
cap_data_source_author = "adminSql.author"

abbrev pub admin_capabilities : List String
admin_capabilities =
    cap_data_source_author ∷ cap_view_promote ∷ "workprocess.register" ∷ "help.admin" ∷ []

abbrev pub staff_capabilities : List String
staff_capabilities = "resource.manage" ∷ "event.manage" ∷ []

abbrev pub grantable_capabilities : List String
grantable_capabilities = admin_capabilities ++ staff_capabilities

abbrev pub user_baseline_capabilities : List String
user_baseline_capabilities =
    "gridView.saveAsUser" ∷ "gridView.applyTemporary" ∷ "gridView.manageOwn" ∷ "gridView.shareLink"
    ∷ []

unfoldable pub effective_capabilities : List String → List String
effective_capabilities held =
    user_baseline_capabilities ++ keep (contains grantable_capabilities) held

pub data Persona : Type 0 where
  user : Persona
  admin : Persona

unfoldable pub persona_for : List String → Persona
persona_for held = if all (contains held) admin_capabilities then admin else user

-- `CapabilityLookup`
pub record CapabilityLookup : Type 1 where
  pub State : Type 0
  pub grant_keys_held : State → ℕ → List String

pub record AccessGrant : Type 0 where
  pub access_grant_key : String
  pub user_id : ℕ
  pub deleted_at : Option ℕ

abbrev pub is_live_grant : ℕ → AccessGrant → Bool
is_live_grant user_id row = row.user_id == user_id && not (is_some row.deleted_at)

-- `StoredCapabilityRegistry`
abbrev pub stored_capabilities : CapabilityLookup
stored_capabilities = record {
  State = List AccessGrant;
  grant_keys_held =
      λ rows user_id. map (λ row. row.access_grant_key) (keep (is_live_grant user_id) rows);
}

-- A grid view as the decision sees it; a system view has no owner.
pub record ViewFacts : Type 0 where
  pub view_id : ℕ
  pub owner_id : Option ℕ
  pub read_only : Bool
  pub temporary_modified : Bool

pub data Disposition : Type 0 where
  save_in_place : Disposition
  save_as_user : Disposition

pub data AccessError : Type 0 where
  capability_error : String → ℕ → AccessError
  view_permission_error : String → ℕ → ℕ → AccessError

abbrev pub is_owned_by : Option ℕ → ℕ → Bool
is_owned_by none user_id = false
is_owned_by (some owner) user_id = owner == user_id

unfoldable pub view_visible_to : ViewFacts → ℕ → Bool
view_visible_to view user_id = not (is_some view.owner_id) || is_owned_by view.owner_id user_id

unfoldable pub can_manage_view : ViewFacts → ℕ → Bool
can_manage_view view user_id =
    is_owned_by view.owner_id user_id && not view.read_only && not view.temporary_modified

unfoldable pub save_disposition : ViewFacts → ℕ → Disposition
save_disposition view user_id =
    if is_owned_by view.owner_id user_id && not view.read_only && not view.temporary_modified
    then save_in_place
    else save_as_user

unfoldable pub can_apply_temporarily : ViewFacts → ℕ → Bool
can_apply_temporarily view user_id = view_visible_to view user_id

unfoldable pub authorize_view_management : ViewFacts → ℕ → String → Result AccessError (Unit {0})
authorize_view_management view user_id action =
    if can_manage_view view user_id
    then ok tt
    else err (view_permission_error action view.view_id user_id)

module _ (lookup : CapabilityLookup) where
  unfoldable pub holds_capability : lookup.State → ℕ → String → Bool
  holds_capability s user_id capability =
      contains (effective_capabilities (lookup.grant_keys_held s user_id)) capability

  unfoldable pub authorize_capability : lookup.State → ℕ → String → Result AccessError (Unit {0})
  authorize_capability s user_id capability =
      if holds_capability s user_id capability
      then ok tt
      else err (capability_error capability user_id)

  unfoldable pub authorize_data_source_authoring : lookup.State → ℕ → Result AccessError (Unit {0})
  authorize_data_source_authoring s user_id = authorize_capability s user_id cap_data_source_author

  abbrev pub then_promote :
      ViewFacts → ℕ → Result AccessError (Unit {0}) → Result AccessError (Unit {0})
  then_promote view user_id (err e) = err e
  then_promote view user_id (ok _) =
      if not (is_some view.owner_id) || view.temporary_modified
      then err (view_permission_error "promote" view.view_id user_id)
      else ok tt

  unfoldable pub authorize_view_promotion :
      ViewFacts → lookup.State → ℕ → Result AccessError (Unit {0})
  authorize_view_promotion view s user_id =
      then_promote view user_id (authorize_capability s user_id cap_view_promote)
