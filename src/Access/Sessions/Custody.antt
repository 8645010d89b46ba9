-- ===== src/Access/Sessions/Custody.antt =====
-- src/mentorapp/access/sessions.py: `StoredSessionStore` fills the seam, and what its rows keep of the
-- credentials under any calls.
use mathlib.Core.Option.{some-injective}
use cbm_mentoring_app.Base.{
  subst, ap, ℕ, ◌≡◌, refl, Bool, true, false, Option, none, some, List, [], ◌∷◌, length, nat_eq,
  ◌==◌, if◌then◌else◌, if_cases, All, arith,
}
use cbm_mentoring_app.Base.Sorting.{sorted_names, contains-sorted_names}
use cbm_mentoring_app.Base.Text.{Text, text_eq}
use cbm_mentoring_app.Base.Exec.{ok}
use cbm_mentoring_app.Access.Credentials.{CrmUserCredential, Crypto, IsSound, nonce_length}
use cbm_mentoring_app.Access.Sessions.Store.{
  SessionState, is_ended, SessionRecord, SessionStore, IsSameSession,
}
use cbm_mentoring_app.Access.Sessions.Stored.{
  AuthSession, load_session, write_row, written_row, added_row, sealed_credential, kept_user_id,
  kept_created_at, kept_credential, stored_record, load_session-write_row,
}
use cbm_mentoring_app.Access.Sessions.{Config}
use cbm_mentoring_app.Access.Sessions.Keeps.{calls_keep}
use cbm_mentoring_app.Access.Sessions.Lifecycle.{Call, calls}

pub stored_same :
    (old : Option SessionRecord) (r : SessionRecord)
    → IsSameSession old r
    → (kept_user_id old r.user_id ≡ r.user_id) × (kept_created_at old r.created_at ≡ r.created_at)
stored_same none r same = (refl, refl)
stored_same (some old) r same = same

pub credential_while_live :
    (state : SessionState) (credential : Option CrmUserCredential)
    → is_ended state ≡ false
    → kept_credential state credential ≡ credential
credential_while_live state credential live = ground (arith, live)

-- The chance and the races of a store: the nonce that a save draws, and whether another request
-- has written the session first.
pub record Circumstances : Type 0 where
  pub token_bytes : List AuthSession → Text
  pub is_whole : (rows : List AuthSession) → length (token_bytes rows) ≡ nonce_length
  pub overtaken : List AuthSession → SessionRecord → Bool

module _ (c : Crypto) (sound : IsSound c) (world : Circumstances) where
  -- The rows under one key: each load opens what it finds.
  pub record Table : Type 0 where
    pub rows : List AuthSession
    pub readable : (id : ℕ) → (found : Option SessionRecord) × (load_session c rows id ≡ ok found)

  abbrev pub saved : Table → SessionRecord → Table
  saved s r = record {
    rows = write_row c (world.token_bytes s.rows) s.rows r;
    readable = λ id. (
      if id == r.session_id
          then some (stored_record (s.readable r.session_id).0 r)
          else (s.readable id).0,
      load_session-write_row c sound (world.token_bytes s.rows) (world.is_whole s.rows) s.rows r id
          (s.readable id).0 (s.readable r.session_id).0 (s.readable id).1
          (s.readable r.session_id).1,
    );
  }

  abbrev pub saved_unless : Bool → Table → Option Table
  saved_unless true s = none
  saved_unless false s = some s

  pub stored_load-save :
      (s s' : Table) (r : SessionRecord) (id : ℕ) (lost : Bool)
      → saved_unless lost (saved s r) ≡ some s'
      → (s'.readable id).0 ≡ (
          if id == r.session_id
          then some (stored_record (s.readable r.session_id).0 r)
          else (s.readable id).0)
  stored_load-save s s' r id true h = absurd (ground (arith, h))
  stored_load-save s s' r id false h =
      subst
        (λ t. (t.readable id).0 ≡ (
          if id == r.session_id
          then some (stored_record (s.readable r.session_id).0 r)
          else (s.readable id).0))
        (some-injective (saved s r) s' h) refl

  -- `StoredSessionStore`
  abbrev pub stored : SessionStore
  stored = record {
    State = Table;
    load = λ s id. (s.readable id).0;
    save = λ s r. saved_unless (world.overtaken s.rows r) (saved s r);
    kept_user_id = kept_user_id;
    kept_created_at = kept_created_at;
    kept_role_names = sorted_names;
    kept_credential = kept_credential;
    kept_same = stored_same;
    contains-kept_role_names = contains-sorted_names;
    kept_while_live = credential_while_live;
    load-save = λ s s' r id h. stored_load-save s s' r id (world.overtaken s.rows r) h;
  }

  -- The row of an ended session has no credential.
  abbrev pub IsBare : AuthSession → Type 0
  IsBare row = is_ended row.session_state ≡ true → row.crm_credential_encrypted ≡ none

  written_row-IsBare :
      (nonce : Text) (row : AuthSession) (r : SessionRecord) → IsBare (written_row c nonce row r)
  written_row-IsBare nonce row r over =
      ap (λ b. sealed_credential c nonce r.session_id (if b then none else r.crm_credential)) over

  write_row-IsBare :
      (nonce : Text) (rows : List AuthSession) (r : SessionRecord)
      → All IsBare rows
      → All IsBare (write_row c nonce rows r)
  unfolding write_row
  write_row-IsBare nonce [] r h = (written_row-IsBare nonce (added_row c nonce r) r, tt)
  write_row-IsBare nonce (row ∷ rows) r h =
      if_cases (All IsBare) (r.session_id == row.auth_session_id) (written_row c nonce row r ∷ rows)
        (row ∷ write_row c nonce rows r) (λ _. (written_row-IsBare nonce row r, h.1))
        (λ _. (h.0, write_row-IsBare nonce rows r h.1))

  save-IsBare :
      (s s' : Table) (r : SessionRecord) (lost : Bool)
      → saved_unless lost (saved s r) ≡ some s'
      → All IsBare s.rows
      → All IsBare s'.rows
  save-IsBare s s' r true h bare = absurd (ground (arith, h))
  save-IsBare s s' r false h bare =
      subst (λ t. All IsBare t.rows) (some-injective (saved s r) s' h)
        (write_row-IsBare (world.token_bytes s.rows) s.rows r bare)

  -- Custody ends with the session: from a table in which the rows of ended sessions have no
  -- credential, any calls of the public methods, whatever nonces are drawn and whatever saves lose
  -- their race, leave no credential in the row of an ended session, and every load still opens the
  -- row that it finds.
  pub custody_ends :
      (config : Config) (xs : List Call) (s : Table)
      → All IsBare s.rows
      → let s' = calls stored config xs s in
        All IsBare s'.rows × ((id : ℕ) → load_session c s'.rows id ≡ ok (stored.load s' id))
  custody_ends config xs s bare =
      let s' = calls stored config xs s in
      (
        calls_keep stored config (λ t. All IsBare t.rows)
            (λ t t' r landed h. save-IsBare t t' r (world.overtaken t.rows r) landed h) xs s bare,
        λ id. (s'.readable id).1,
      )
