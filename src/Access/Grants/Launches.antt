-- ===== src/Access/Grants/Launches.antt =====
-- src/mentorapp/access/workprocess.py, with `registrations_for_data_source` of
-- src/mentorapp/storage/workprocess.py: which workprocesses a user sees and may launch.
use cbm_mentoring_app.Base.{
  ℕ, String, Bool, ◌&&◌, not, Option, is_some, List, [], ◌∷◌, keep, any, ◌==◌, nat_eq, string_eq,
  if◌then◌else◌,
}
use cbm_mentoring_app.Base.Sorting.{not_after}
use cbm_mentoring_app.Base.Exec.{Result, ok, err}
use cbm_mentoring_app.Access.Grants.{
  Tables, GrantError, is_live_source, roles_cover_data_source, authorize_data_source,
}

-- The columns of a registration that these functions read.
pub record Registration : Type 0 where
  pub workprocess_registration_id : ℕ
  pub workprocess_name : String
  pub deleted_at : Option ℕ

pub record WorkprocessRegistrationDataSource : Type 0 where
  pub workprocess_registration_id : ℕ
  pub data_source_id : ℕ
  pub deleted_at : Option ℕ

pub record Workprocesses : Type 0 where
  pub registrations : List Registration
  pub links : List WorkprocessRegistrationDataSource

pub data LaunchError : Type 0 where
  not_targeted : String → String → LaunchError
  launch_denied : GrantError → LaunchError

-- A live link of the registration to a live source of the key.
abbrev pub is_target : Tables → String → Registration → WorkprocessRegistrationDataSource → Bool
is_target t key registration link =
    link.workprocess_registration_id == registration.workprocess_registration_id
    && not (is_some link.deleted_at)
    && any (λ source. is_live_source key source && source.data_source_id == link.data_source_id)
        t.sources

-- `data_source_key in targeted`
unfoldable pub is_targeted : Tables → Workprocesses → String → Registration → Bool
is_targeted t w key registration = any (is_target t key registration) w.links

abbrev pub is_listed : Tables → Workprocesses → String → Registration → Bool
is_listed t w key registration =
    not (is_some registration.deleted_at) && is_targeted t w key registration

unfoldable pub insert_by_name : Registration → List Registration → List Registration
insert_by_name registration [] = registration ∷ []
insert_by_name registration (first ∷ others) =
    let rest = insert_by_name registration others in
    if not_after registration.workprocess_name first.workprocess_name
    then registration ∷ first ∷ others
    else first ∷ rest

unfoldable pub by_name : List Registration → List Registration
by_name [] = []
by_name (registration ∷ registrations) = insert_by_name registration (by_name registrations)

unfoldable pub registrations_for_data_source : Tables → Workprocesses → String → List Registration
registrations_for_data_source t w key = by_name (keep (is_listed t w key) w.registrations)

unfoldable pub visible_workprocesses :
    Tables → Workprocesses → String → List String → List Registration
visible_workprocesses t w key user_roles =
    if roles_cover_data_source t key user_roles then registrations_for_data_source t w key else []

abbrev pub launch_if_granted : Result GrantError (Unit {0}) → Result LaunchError (Unit {0})
launch_if_granted (ok _) = ok tt
launch_if_granted (err e) = err (launch_denied e)

unfoldable pub authorize_workprocess_launch :
    Tables → Workprocesses → Registration → String → ℕ → List String → Result LaunchError (Unit {0})
authorize_workprocess_launch t w registration key user_id user_roles =
    if is_targeted t w key registration
    then launch_if_granted (authorize_data_source t key user_id user_roles)
    else err (not_targeted registration.workprocess_name key)
