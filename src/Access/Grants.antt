-- ===== src/Access/Grants.antt =====
-- src/mentorapp/access/grants.py: which roles may run a data source, over the rows of `dataSource`
-- and `dataSourceRoleGrant`. The executor of a source's SQL is a parameter.
pub mod Areas
pub mod Lookups
pub mod Launches
pub mod Agreement
pub mod Histories
mod Examples
use cbm_mentoring_app.Base.{
  ℕ, String, Bool, true, false, ◌&&◌, not, Option, none, some, is_some, List, [], ◌∷◌, ◌++◌, map,
  keep, any, contains, ◌==◌, nat_eq, string_eq, if◌then◌else◌,
}
use cbm_mentoring_app.Base.Exec.{Result, ok, err}

pub record DataSource : Type 0 where
  pub data_source_id : ℕ
  pub data_source_key : String
  pub data_source_sql : String
  pub user_row_filter : Option String
  pub deleted_at : Option ℕ

pub record DataSourceRoleGrant : Type 0 where
  pub data_source_id : ℕ
  pub role_name : String
  pub deleted_at : Option ℕ
  pub deleted_by : Option ℕ
  pub created_by : Option ℕ
  pub modified_by : Option ℕ

pub record Tables : Type 0 where
  pub sources : List DataSource
  pub grants : List DataSourceRoleGrant

pub data GrantError : Type 0 where
  access_denied : String → ℕ → GrantError
  source_not_found : String → GrantError

-- `AdminSqlSource`
pub record AdminSqlSource : Type 0 where
  pub data_source_key : String
  pub sql_text : String
  pub user_scoped_flag : Bool

abbrev pub is_live_source : String → DataSource → Bool
is_live_source key source = source.data_source_key == key && not (is_some source.deleted_at)

-- The join of a grant with a live source of the key.
abbrev pub is_grant_on : String → List DataSource → DataSourceRoleGrant → Bool
is_grant_on key sources grant =
    not (is_some grant.deleted_at)
    && any (λ source. is_live_source key source && source.data_source_id == grant.data_source_id)
        sources

-- `StoredGrantRegistry.roles_granted`
unfoldable pub roles_granted : Tables → String → List String
roles_granted t key = map (λ grant. grant.role_name) (keep (is_grant_on key t.sources) t.grants)

unfoldable pub roles_cover_data_source : Tables → String → List String → Bool
roles_cover_data_source t key user_roles = any (contains (roles_granted t key)) user_roles

unfoldable pub authorize_data_source :
    Tables → String → ℕ → List String → Result GrantError (Unit {0})
authorize_data_source t key user_id user_roles =
    if roles_cover_data_source t key user_roles then ok tt else err (access_denied key user_id)

-- The one live source of a key: the table's unique index has no two.
unfoldable pub live_source : List DataSource → String → Option DataSource
live_source [] key = none
live_source (source ∷ sources) key =
    let rest = live_source sources key in if is_live_source key source then some source else rest

abbrev pub is_live_grant : String → String → List DataSource → DataSourceRoleGrant → Bool
is_live_grant key role_name sources grant =
    is_grant_on key sources grant && grant.role_name == role_name

unfoldable pub live_grant :
    List DataSource → String → String → List DataSourceRoleGrant → Option DataSourceRoleGrant
live_grant sources key role_name [] = none
live_grant sources key role_name (grant ∷ grants) =
    let rest = live_grant sources key role_name grants in
    if is_live_grant key role_name sources grant then some grant else rest

abbrev pub new_grant : ℕ → String → Option ℕ → DataSourceRoleGrant
new_grant id role_name granted_by = record {
  data_source_id = id;
  role_name = role_name;
  deleted_at = none;
  deleted_by = none;
  created_by = granted_by;
  modified_by = granted_by;
}

abbrev pub grant_on :
    Tables
    → String
    → Option ℕ
    → DataSource
    → Option DataSourceRoleGrant
    → DataSourceRoleGrant × Tables
grant_on t role_name granted_by source (some existing) = (existing, t)
grant_on t role_name granted_by source none =
    let grant = new_grant source.data_source_id role_name granted_by in
    (grant, record t { grants = t.grants ++ grant ∷ [] })

abbrev pub grant_found :
    Tables
    → String
    → String
    → Option ℕ
    → Option DataSource
    → Result GrantError DataSourceRoleGrant × Tables
grant_found t key role_name granted_by none = (err (source_not_found key), t)
grant_found t key role_name granted_by (some source) =
    let (grant, t') =
      grant_on t role_name granted_by source (live_grant t.sources key role_name t.grants) in
    (ok grant, t')

unfoldable pub grant_data_source_role :
    Tables → String → String → Option ℕ → Result GrantError DataSourceRoleGrant × Tables
grant_data_source_role t key role_name granted_by =
    grant_found t key role_name granted_by (live_source t.sources key)

-- The soft delete of the first live grant, which the partial unique index makes the only one.
unfoldable pub revoke_first :
    List DataSource
    → String
    → String
    → Option ℕ
    → ℕ
    → List DataSourceRoleGrant
    → List DataSourceRoleGrant
revoke_first sources key role_name revoked_by now [] = []
revoke_first sources key role_name revoked_by now (grant ∷ grants) =
    let rest = revoke_first sources key role_name revoked_by now grants in
    if is_live_grant key role_name sources grant
    then record grant { deleted_at = some now; deleted_by = revoked_by; modified_by = revoked_by }
      ∷ grants
    else grant ∷ rest

unfoldable pub revoke_data_source_role : Tables → String → String → Option ℕ → ℕ → Bool × Tables
revoke_data_source_role t key role_name revoked_by now =
    if is_some (live_grant t.sources key role_name t.grants)
    then (true, record t { grants = revoke_first t.sources key role_name revoked_by now t.grants })
    else (false, t)

abbrev pub source_of : DataSource → AdminSqlSource
source_of source = record {
  data_source_key = source.data_source_key;
  sql_text = source.data_source_sql;
  user_scoped_flag = is_some source.user_row_filter;
}

abbrev pub loaded : String → Option DataSource → Result GrantError AdminSqlSource
loaded key none = err (source_not_found key)
loaded key (some source) = ok (source_of source)

unfoldable pub load_stored_source : Tables → String → Result GrantError AdminSqlSource
load_stored_source t key = loaded key (live_source t.sources key)

module _ {R : Type 0} (execute : AdminSqlSource → ℕ → R) where
  abbrev pub run_loaded : ℕ → Result GrantError AdminSqlSource → Result GrantError R
  run_loaded user_id (err e) = err e
  run_loaded user_id (ok source) = ok (execute source user_id)

  abbrev pub run_authorized :
      Tables → String → ℕ → Result GrantError (Unit {0}) → Result GrantError R
  run_authorized t key user_id (err e) = err e
  run_authorized t key user_id (ok _) = run_loaded user_id (load_stored_source t key)

  unfoldable pub run_stored_data_source : Tables → String → ℕ → List String → Result GrantError R
  run_stored_data_source t key user_id user_roles =
      run_authorized t key user_id (authorize_data_source t key user_id user_roles)
