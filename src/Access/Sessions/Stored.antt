-- ===== src/Access/Sessions/Stored.antt =====
-- src/mentorapp/access/sessions.py: `StoredSessionStore`, over the rows of `authSession`. The hex form
-- of the secret's hash, the text of the state and the time zones are left out. The nonce of a
-- save, and whether another request's write came first, depend on the rows in any way.
use cbm_mentoring_app.Base.{
  ℕ, String, ◌≡◌, ◌∙◌, refl, sym, ap, Option, none, some, List, [], ◌∷◌, nat_eq, ◌==◌,
  if◌then◌else◌, arith, length, string_eq,
}
use cbm_mentoring_app.Base.Sorting.{sorted_names}
use cbm_mentoring_app.Base.Exec.{Result, ok, err}
use cbm_mentoring_app.Base.Text.{Text}
use cbm_mentoring_app.Access.Credentials.{
  CrmUserCredential, CredentialSealError, Crypto, IsSound, nonce_length, seal, open_sealed,
  open_sealed-seal,
}
use cbm_mentoring_app.Access.Sessions.Store.{SessionState, is_ended, active, SessionRecord}

pub record AuthSession : Type 0 where
  pub auth_session_id : ℕ
  pub user_id : ℕ
  pub session_secret_hash : Text
  pub session_state : SessionState
  pub session_expires_at : ℕ
  pub session_reauth_deadline : Option ℕ
  pub session_last_seen_at : ℕ
  pub session_role_names : Option (List String)
  pub crm_credential_encrypted : Option Text
  pub created_at : ℕ
  pub created_by : Option ℕ
  pub modified_by : Option ℕ

-- `row.session_role_names or ()`
abbrev pub roles_or_none : Option (List String) → List String
roles_or_none none = []
roles_or_none (some roles) = roles

abbrev pub record_of : AuthSession → Option CrmUserCredential → SessionRecord
record_of row credential = record {
  session_id = row.auth_session_id;
  user_id = row.user_id;
  role_names = roles_or_none row.session_role_names;
  secret_hash = row.session_secret_hash;
  state = row.session_state;
  created_at = row.created_at;
  last_seen_at = row.session_last_seen_at;
  expires_at = row.session_expires_at;
  reauth_deadline = row.session_reauth_deadline;
  crm_credential = credential;
}

abbrev pub some_record :
    AuthSession
    → Result CredentialSealError (Option CrmUserCredential)
    → Result CredentialSealError (Option SessionRecord)
some_record row (err e) = err e
some_record row (ok credential) = ok (some (record_of row credential))

abbrev pub some_credential :
    Result CredentialSealError CrmUserCredential
    → Result CredentialSealError (Option CrmUserCredential)
some_credential (err e) = err e
some_credential (ok credential) = ok (some credential)

-- The credential is dropped with the session's end.
abbrev pub kept_credential : SessionState → Option CrmUserCredential → Option CrmUserCredential
kept_credential state credential = if is_ended state then none else credential

module _ (c : Crypto) where
  abbrev pub opened : ℕ → Option Text → Result CredentialSealError (Option CrmUserCredential)
  opened id none = ok none
  opened id (some sealed) = some_credential (open_sealed c sealed id)

  -- `load`, with what `open` of the row's credential raises.
  unfoldable pub load_session :
      List AuthSession → ℕ → Result CredentialSealError (Option SessionRecord)
  load_session [] id = ok none
  load_session (row ∷ rows) id =
      let rest = load_session rows id in
      if id == row.auth_session_id
      then some_record row (opened row.auth_session_id row.crm_credential_encrypted)
      else rest

  module _ (nonce : Text) where
    abbrev pub sealed_credential : ℕ → Option CrmUserCredential → Option Text
    sealed_credential id none = none
    sealed_credential id (some credential) = some (seal c nonce credential id)

    -- What `save` writes into a row; the creation's columns stay.
    abbrev pub written_row : AuthSession → SessionRecord → AuthSession
    written_row row r = record row {
      session_secret_hash = r.secret_hash;
      session_state = r.state;
      session_expires_at = r.expires_at;
      session_reauth_deadline = r.reauth_deadline;
      session_last_seen_at = r.last_seen_at;
      session_role_names = some (sorted_names r.role_names);
      crm_credential_encrypted =
          sealed_credential r.session_id (kept_credential r.state r.crm_credential);
      modified_by = some r.user_id;
    }

    abbrev pub added_row : SessionRecord → AuthSession
    added_row r = record {
      auth_session_id = r.session_id;
      user_id = r.user_id;
      session_secret_hash = r.secret_hash;
      session_state = active;
      session_expires_at = r.expires_at;
      session_reauth_deadline = none;
      session_last_seen_at = r.last_seen_at;
      session_role_names = none;
      crm_credential_encrypted = none;
      created_at = r.created_at;
      created_by = some r.user_id;
      modified_by = none;
    }

    unfoldable pub write_row : List AuthSession → SessionRecord → List AuthSession
    write_row [] r = written_row (added_row r) r ∷ []
    write_row (row ∷ rows) r =
        let rest = write_row rows r in
        if r.session_id == row.auth_session_id then written_row row r ∷ rows else row ∷ rest

abbrev pub kept_user_id : Option SessionRecord → ℕ → ℕ
kept_user_id none user_id = user_id
kept_user_id (some old) user_id = old.user_id

abbrev pub kept_created_at : Option SessionRecord → ℕ → ℕ
kept_created_at none created_at = created_at
kept_created_at (some old) created_at = old.created_at

-- What a save leaves of a record, over what was on record.
abbrev pub stored_record : Option SessionRecord → SessionRecord → SessionRecord
stored_record old r = record r {
  user_id = kept_user_id old r.user_id;
  created_at = kept_created_at old r.created_at;
  role_names = sorted_names r.role_names;
  crm_credential = kept_credential r.state r.crm_credential;
}

module _ (c : Crypto) (sound : IsSound c) (nonce : Text) (whole : length nonce ≡ nonce_length) where
  opened-sealed_credential :
      (id : ℕ) (credential : Option CrmUserCredential)
      → opened c id (sealed_credential c nonce id credential) ≡ ok credential
  opened-sealed_credential id none = refl
  opened-sealed_credential id (some credential) =
      ap some_credential (open_sealed-seal c sound nonce credential id whole)

  -- A record that is written over a row of the table, or added to it, is read back.
  some_record-written_row :
      (row : AuthSession) (r : SessionRecord)
      → row.auth_session_id ≡ r.session_id
      → some_record
          (written_row c nonce row r)
          (opened c row.auth_session_id (written_row c nonce row r).crm_credential_encrypted)
        ≡ ok (
            some (record (stored_record none r) {
              user_id = row.user_id;
              created_at = row.created_at;
            }))
  some_record-written_row row r same =
      let credential = kept_credential r.state r.crm_credential in
      ap (some_record (written_row c nonce row r)) (
        ap (λ id. opened c id (sealed_credential c nonce r.session_id credential)) same
        ∙ opened-sealed_credential r.session_id credential)
      ∙ ap
          (λ id. ok (
            some (record (stored_record none r) {
              session_id = id;
              user_id = row.user_id;
              created_at = row.created_at;
            })))
          same

  owner_on_record :
      (row : AuthSession) (x : Result CredentialSealError (Option CrmUserCredential))
      (old : Option SessionRecord) (r : SessionRecord)
      → some_record row x ≡ ok old
      → (kept_user_id old r.user_id ≡ row.user_id)
        × (kept_created_at old r.created_at ≡ row.created_at)
  owner_on_record row (err e) old r h = ground (arith, h)
  owner_on_record row (ok credential) old r h = ground (arith, h)

  pub load_session-write_row :
      (rows : List AuthSession) (r : SessionRecord) (id : ℕ) (o old : Option SessionRecord)
      → load_session c rows id ≡ ok o
      → load_session c rows r.session_id ≡ ok old
      → load_session c (write_row c nonce rows r) id
        ≡ ok (if id == r.session_id then some (stored_record old r) else o)
  unfolding load_session write_row
  load_session-write_row [] r id o old ho hold =
      ground (arith, some_record-written_row (added_row c nonce r) r refl)
  load_session-write_row (row ∷ rows) r id o old ho hold =
      elim (nat_eq.dec r.session_id row.auth_session_id) [
        | yes same ↦ ground (
          arith,
          same,
          some_record-written_row row r (sym same),
          owner_on_record row (opened c row.auth_session_id row.crm_credential_encrypted) old r,
        )
        | no other ↦ ground (arith, other, load_session-write_row rows r id o old)
      ]
