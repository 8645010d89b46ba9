-- ===== src/Access/Sessions.antt =====
-- src/mentorapp/access/sessions.py: `SessionManagement`. Each method is an action on the store's
-- state; the clock's reading, the fresh UUIDv7 and the fresh random secret are arguments.
pub mod Store
pub mod Moves
pub mod Methods
pub mod Lifecycle
pub mod Resolve
pub mod Reauth
pub mod Stored
pub mod Keeps
pub mod Custody
mod Examples
use cbm_mentoring_app.Base.{
  ℕ, ◌+◌, ◌*◌, ◌≡◌, Bool, true, false, not, ◌||◌, ◌&&◌, Option, none, some, List, [], ◌∷◌, ◌++◌,
  leb, ltb, Eq, ◌==◌, contains, nat_eq, if◌then◌else◌, ℕ_discrete,
}
use cbm_mentoring_app.Base.Text.{is_ascii, Text, text_eq, dot, partition}
use cbm_mentoring_app.Base.Exec.{
  Result, ok, err, Exec, pure, raise, gets, require, refuse_if, ◌>>=◌, ◌>>◌,
}
use Store.{
  SessionState, is_ended, active, reauth_pending, ended, VerifiedIdentity, SessionRecord,
  SessionError, not_found, unicode_encode_error, session_ended, identity_mismatch,
  stale_activity_write, reauth_required, SessionStore,
}

abbrev pub second : ℕ
second = 1_000_000

-- `_ACTIVITY_TOUCH_GRANULARITY`
abbrev pub activity_touch_granularity : ℕ
activity_touch_granularity = 30 * second

-- The constructor's knobs, and the code that is not the repository's: SHA-256 of an ASCII text, which
-- for any other text is a value that no record holds, and the text of a UUID.
pub record Config : Type 0 where
  pub idle_timeout : ℕ
  pub absolute_lifetime : ℕ
  pub reauth_grace : ℕ
  pub sha256 : Text → Text
  pub uuid_hex : ℕ → Text
  pub parse_uuid : Text → Option ℕ

-- What is relied on: the 32 hexadecimal digits of a UUID read back, and hold no dot.
pub record IsUuidText (c : Config) : Type 0 where
  pub parse-hex : (id : ℕ) → c.parse_uuid (c.uuid_hex id) ≡ some id
  pub hex_no_dot : (id : ℕ) → contains (c.uuid_hex id) dot ≡ false

-- What `_hash_secret` and the comparison come to for a secret that is not a record's, which is ASCII:
-- the encoding raises for a text that is not.
abbrev pub unmatched : Text → SessionError
unmatched secret = if is_ascii secret then not_found else unicode_encode_error

-- `not secret`
abbrev pub is_empty : Text → Bool
is_empty [] = true
is_empty (_ ∷ _) = false

abbrev pub is_pending : SessionState → Bool
is_pending reauth_pending = true
is_pending _ = false

abbrev passed : Option ℕ → ℕ → Bool
passed none now = false
passed (some deadline) now = leb deadline now

-- `now - a >= d` for a time `a` and a length `d`.
abbrev pub at_least_since : ℕ → ℕ → ℕ → Bool
at_least_since d a now = leb (a + d) now

module _ (store : SessionStore) (c : Config) where
  abbrev pub Action : Type 0 → Type 0
  Action A = Exec store.State SessionError A

  pub save : SessionRecord → Action (Unit {0})
  save r s = elim (store.save s r) [ none ↦ (err stale_activity_write, s) | some s' ↦ (ok tt, s') ]

  -- `_mint_reference`: `{session_id.hex}.{secret}`
  pub mint_reference : ℕ → Text → Text
  mint_reference session_id secret = c.uuid_hex session_id ++ dot ∷ secret

  -- `_lookup`: a record that is there, and a secret that is not empty.
  pub lookup : Text → Action (SessionRecord × Text)
  lookup reference = do
    let parts = partition dot reference
    session_id ← require (c.parse_uuid parts.head) not_found
    loaded ← gets (λ s. store.load s session_id)
    refuse_if (not parts.found || is_empty parts.tail) not_found
    found ← require loaded not_found
    pure (found, parts.tail)

  -- `_expire_pending_past_grace`
  pub is_lapsed : SessionRecord → ℕ → Bool
  is_lapsed r now = is_pending r.state && passed r.reauth_deadline now

  pub expire_pending_past_grace : SessionRecord → ℕ → Action (Unit {0})
  expire_pending_past_grace r now =
      if is_lapsed r now
      then (do save (record r { state = ended; reauth_deadline = none }); raise session_ended)
      else pure tt

  abbrev pub new_session : ℕ → ℕ → Text → VerifiedIdentity → SessionRecord
  new_session now session_id secret identity = record {
    session_id = session_id;
    user_id = identity.user_id;
    role_names = identity.role_names;
    secret_hash = c.sha256 secret;
    state = active;
    created_at = now;
    last_seen_at = now;
    expires_at = now + c.absolute_lifetime;
    reauth_deadline = none;
    crm_credential = some identity.crm_credential;
  }

  pub establish : ℕ → ℕ → Text → VerifiedIdentity → Action (Text × SessionRecord)
  establish now session_id secret identity = do
    save (new_session now session_id secret identity)
    pure (mint_reference session_id secret, new_session now session_id secret identity)

  -- The activity touch: a lost race is a success.
  pub touch : SessionRecord → Action SessionRecord
  touch r s = elim (save r s).0 [
    | ok _ ↦ (ok r, (save r s).1)
    | err stale_activity_write ↦ (ok r, (save r s).1)
    | err e ↦ (err e, (save r s).1)
  ]

  -- idle or aged out
  pub is_expired : SessionRecord → ℕ → Bool
  is_expired r now = leb r.expires_at now || at_least_since c.idle_timeout r.last_seen_at now

  pub resolve_active : SessionRecord → ℕ → Action SessionRecord
  resolve_active r now =
      if is_expired r now
      then (do
        save (record r { state = reauth_pending; reauth_deadline = some (now + c.reauth_grace) })
        raise (reauth_required r.session_id))
      else if at_least_since activity_touch_granularity r.last_seen_at now
      then touch (record r { last_seen_at = now })
      else pure r

  pub resolve_state : SessionState → SessionRecord → ℕ → Action SessionRecord
  resolve_state ended r now = raise session_ended
  resolve_state reauth_pending r now = do
    expire_pending_past_grace r now
    raise (reauth_required r.session_id)
  resolve_state active r now = resolve_active r now

  pub resolve : ℕ → Text → Action SessionRecord
  resolve now reference = do
    (r, secret) ← lookup reference
    refuse_if (not (r.secret_hash == c.sha256 secret)) (unmatched secret)
    resolve_state r.state r now

  -- What `reauthenticate` writes: the same session, owner and birth, all else anew.
  abbrev pub revived : SessionRecord → ℕ → Text → VerifiedIdentity → SessionRecord
  revived r now secret identity = record r {
    secret_hash = c.sha256 secret;
    role_names = identity.role_names;
    crm_credential = some identity.crm_credential;
    state = active;
    reauth_deadline = none;
    last_seen_at = now;
    expires_at = now + c.absolute_lifetime;
  }

  pub reauthenticate_found : SessionRecord → ℕ → Text → VerifiedIdentity → Action Text
  reauthenticate_found r now secret identity = do
    refuse_if (is_ended r.state) session_ended
    expire_pending_past_grace r now
    refuse_if (not (identity.user_id == r.user_id)) identity_mismatch
    save (revived r now secret identity)
    pure (mint_reference r.session_id secret)

  pub reauthenticate : ℕ → ℕ → Text → VerifiedIdentity → Action Text
  reauthenticate now session_id secret identity = do
    loaded ← gets (λ s. store.load s session_id)
    r ← require loaded not_found
    reauthenticate_found r now secret identity

  pub require_reauth_state : SessionState → SessionRecord → ℕ → Action (Unit {0})
  require_reauth_state ended r now = raise session_ended
  require_reauth_state active r now =
      save (record r { state = reauth_pending; reauth_deadline = some (now + c.reauth_grace) })
  require_reauth_state reauth_pending r now = pure tt

  pub require_reauth : ℕ → ℕ → Action (Unit {0})
  require_reauth now session_id = do
    loaded ← gets (λ s. store.load s session_id)
    r ← require loaded not_found
    require_reauth_state r.state r now

  pub logout : Text → Action (Unit {0})
  logout reference = do
    (r, secret) ← lookup reference
    refuse_if (not (r.secret_hash == c.sha256 secret)) (unmatched secret)
    save (record r { state = ended; reauth_deadline = none })
