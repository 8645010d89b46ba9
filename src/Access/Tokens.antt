-- ===== src/Access/Tokens.antt =====
-- src/mentorapp/access/tokens.py: `TokenActionService`. Each method is an action on the store's
-- state; the clock's reading and the fresh UUIDv7 are arguments.
pub mod Store
pub mod Stored
pub mod Refines
pub mod Swaps
pub mod Effects
pub mod Books
pub mod Calls
pub mod Budget
pub mod Refusals
mod Examples
use cbm_mentoring_app.Base.{
  ℕ, ◌+◌, String, Bool, not, ◌||◌, Option, none, some, ◌∷◌, ◌++◌, leb, ltb, ◌==◌, string_eq,
  if◌then◌else◌, is_some,
}
use cbm_mentoring_app.Base.Text.{is_ascii, Text, text_eq, dot, partition}
use cbm_mentoring_app.Base.Exec.{Exec, pure, raise, gets, modify, require, refuse_if, ◌>>=◌, ◌>>◌}
use Store.{
  TokenActionRecord, EventName, minted, redeemed, revoked, TokenAuditEvent, TokenActionStore,
}

-- `TokenInvalidError` and its kin; `bad_max_uses` is the `ValueError` of `mint`.
pub data TokenError : Type 0 where
  invalid expired revoked_token exhausted bad_max_uses type_error : TokenError

-- What `hmac.compare_digest` comes to for a text that is not the signature, which is ASCII itself:
-- it raises for a text that is not.
abbrev pub mismatch : Text → TokenError
mismatch text = if is_ascii text then invalid else type_error

-- The signing key with HMAC-SHA256 and base64, as one function, and the text of a UUID.
pub record Signing : Type 0 where
  pub signature : ℕ → Text
  pub uuid_hex : ℕ → Text
  pub parse_uuid : Text → Option ℕ

abbrev pub new_token : ℕ → String → String → ℕ → ℕ → Option ℕ → TokenActionRecord
new_token id token_identity action_name expires_at max_uses user_id = record {
  token_action_id = id;
  token_identity = token_identity;
  action_name = action_name;
  expires_at = expires_at;
  max_uses = max_uses;
  user_id = user_id;
  use_count = 0;
  revoked_at = none;
}

abbrev pub spent : TokenActionRecord → TokenActionRecord
spent r = record r { use_count = r.use_count + 1 }

-- Idempotent: the first moment of revocation stays.
abbrev pub killed : TokenActionRecord → ℕ → TokenActionRecord
killed r now = elim r.revoked_at [ none ↦ record r { revoked_at = some now } | some t ↦ r ]

module _ (store : TokenActionStore) (c : Signing) where
  abbrev pub Action : Type 0 → Type 0
  Action A = Exec store.State TokenError A

  abbrev pub save : TokenActionRecord → Action (Unit {0})
  save r = modify (λ s. store.save s r)

  -- `_audit`
  abbrev pub audit : TokenActionRecord → EventName → ℕ → Action (Unit {0})
  audit r event_name now = modify λ s.
      store.append_audit s
        (record { token_action_id = r.token_action_id; event_name = event_name; occurred_at = now })

  pub link : ℕ → Text
  link id = c.uuid_hex id ++ dot ∷ c.signature id

  pub mint : ℕ → ℕ → String → String → ℕ → ℕ → Option ℕ → Action Text
  mint now id token_identity action_name expires_at max_uses user_id = do
    refuse_if (ltb max_uses 1) bad_max_uses
    let r = new_token id token_identity action_name expires_at max_uses user_id
    save r
    audit r minted now
    pure (link id)

  -- `_verified_record`: the signature gates the store.
  pub verified_record : Text → Action TokenActionRecord
  verified_record token = do
    let parts = partition dot token
    id ← require (c.parse_uuid parts.head) invalid
    refuse_if (not parts.found || not (parts.tail == c.signature id)) (mismatch parts.tail)
    loaded ← gets (λ s. store.load s id)
    require loaded invalid

  -- The four refusals of `validate`, in its order.
  pub check_record : TokenActionRecord → ℕ → String → Action TokenActionRecord
  check_record r now expected_action = do
    refuse_if (not (r.action_name == expected_action)) invalid
    refuse_if (is_some r.revoked_at) revoked_token
    refuse_if (leb r.expires_at now) expired
    refuse_if (leb r.max_uses r.use_count) exhausted
    pure r

  pub validate : ℕ → Text → String → Action TokenActionRecord
  validate now token expected_action = do
    r ← verified_record token
    check_record r now expected_action

  -- `stamp` is the clock's second reading, for the audit event.
  pub redeem : ℕ → ℕ → Text → String → Action TokenActionRecord
  redeem now stamp token expected_action = do
    r ← validate now token expected_action
    save (spent r)
    audit (spent r) redeemed stamp
    pure (spent r)

  abbrev pub save_unless_revoked : TokenActionRecord → ℕ → Action (Unit {0})
  save_unless_revoked r now = if is_some r.revoked_at then pure tt else save (killed r now)

  pub revoke : ℕ → ℕ → ℕ → Action (Unit {0})
  revoke now stamp id = do
    loaded ← gets (λ s. store.load s id)
    r ← require loaded invalid
    save_unless_revoked r now
    audit (killed r now) revoked stamp
