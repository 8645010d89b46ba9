-- ===== src/Access/Sessions/Store.antt =====
-- src/mentorapp/access/sessions.py: the session record, the errors, the persistence seam
-- `SessionStore` and its in-memory form.
use cbm_mentoring_app.Base.{
  refl, Bool, true, false, contains, string_eq, ℕ, String, ◌≡◌, Option, none, some, List, arith,
  nat_eq, ◌==◌, if◌then◌else◌,
}
use cbm_mentoring_app.Base.Dict
use cbm_mentoring_app.Base.Dict.{Dict, get-put}
use cbm_mentoring_app.Base.Text.{Text}
use cbm_mentoring_app.Access.Credentials.{CrmUserCredential}

pub data SessionState : Type 0 where
  active reauth_pending ended : SessionState

abbrev pub is_ended : SessionState → Bool
is_ended ended = true
is_ended _ = false

-- access/identity.py: what the pluggable verifier proved.
pub record VerifiedIdentity : Type 0 where
  pub user_id : ℕ
  pub role_names : List String
  pub crm_credential : CrmUserCredential

-- Times are microseconds since the epoch, identifiers the numbers that a UUID stands for.
pub record SessionRecord : Type 0 where
  pub session_id : ℕ
  pub user_id : ℕ
  pub role_names : List String
  pub secret_hash : Text
  pub state : SessionState
  pub created_at : ℕ
  pub last_seen_at : ℕ
  pub expires_at : ℕ
  pub reauth_deadline : Option ℕ
  pub crm_credential : Option CrmUserCredential

pub data SessionError : Type 0 where
  not_found session_ended identity_mismatch stale_activity_write unicode_encode_error : SessionError
  reauth_required : ℕ → SessionError

-- What is on record of a session has the owner and the birth of the record.
abbrev pub IsSameSession : Option SessionRecord → SessionRecord → Type 0
IsSameSession none r = Unit
IsSameSession (some old) r = (old.user_id ≡ r.user_id) × (old.created_at ≡ r.created_at)

-- The seam. `save` is `none` where it raises `StaleActivityWriteError`, and has then written nothing.
-- A record is read back as it was saved, but that a store may keep the owner and the birth that it
-- has on record, order the set of the roles otherwise, and drop the credential of a session that
-- has ended.
pub record SessionStore : Type 1 where
  pub State : Type 0
  pub load : State → ℕ → Option SessionRecord
  pub save : State → SessionRecord → Option State
  pub kept_user_id : Option SessionRecord → ℕ → ℕ
  pub kept_created_at : Option SessionRecord → ℕ → ℕ
  pub kept_role_names : List String → List String
  pub kept_credential : SessionState → Option CrmUserCredential → Option CrmUserCredential
  pub kept_same :
      (old : Option SessionRecord) (r : SessionRecord)
      → IsSameSession old r
      → (kept_user_id old r.user_id ≡ r.user_id) × (kept_created_at old r.created_at ≡ r.created_at)
  pub contains-kept_role_names :
      (roles : List String) (role : String)
      → contains (kept_role_names roles) role ≡ contains roles role
  pub kept_while_live :
      (state : SessionState) (credential : Option CrmUserCredential)
      → is_ended state ≡ false
      → kept_credential state credential ≡ credential
  pub load-save :
      (s s' : State) (r : SessionRecord) (id : ℕ)
      → save s r ≡ some s'
      → load s' id ≡ (
          if id == r.session_id
          then some (record r {
            user_id = kept_user_id (load s r.session_id) r.user_id;
            created_at = kept_created_at (load s r.session_id) r.created_at;
            role_names = kept_role_names r.role_names;
            crm_credential = kept_credential r.state r.crm_credential;
          })
          else load s id)

-- What a saved record is read back as, over what was on record.
abbrev pub kept : SessionStore → Option SessionRecord → SessionRecord → SessionRecord
kept store old r = record r {
  user_id = store.kept_user_id old r.user_id;
  created_at = store.kept_created_at old r.created_at;
  role_names = store.kept_role_names r.role_names;
  crm_credential = store.kept_credential r.state r.crm_credential;
}

pub in_memory_load-save :
    (s s' : Dict ℕ SessionRecord) (r : SessionRecord) (id : ℕ)
    → some (Dict.put s r.session_id r) ≡ some s'
    → Dict.get s' id ≡ (if id == r.session_id then some r else Dict.get s id)
in_memory_load-save s s' r id h = ground (arith, get-put s r.session_id id r)

-- `InMemorySessionStore`: one dict, whose `save` never fails, and which keeps all of a record.
abbrev pub in_memory : SessionStore
in_memory = record {
  State = Dict ℕ SessionRecord;
  load = Dict.get;
  save = λ records r. some (Dict.put records r.session_id r);
  kept_user_id = λ old user_id. user_id;
  kept_created_at = λ old created_at. created_at;
  kept_role_names = λ roles. roles;
  kept_credential = λ state credential. credential;
  kept_same = λ old r same. (refl, refl);
  contains-kept_role_names = λ roles role. refl;
  kept_while_live = λ state credential live. refl;
  load-save = in_memory_load-save;
}
