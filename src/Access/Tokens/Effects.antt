-- ===== src/Access/Tokens/Effects.antt =====
-- src/mentorapp/access/tokens.py: what each method answers and writes, as equations.
use cbm_mentoring_app.Base.{
  refl, false, ℕ, ◌<◌, String, ◌≡◌, ◌⊎◌, inl, inr, true, not, ◌||◌, Option, none, some, [], ◌∷◌,
  ◌∙◌, ◌++◌, arith, ltb, ◌==◌, nat_eq, string_eq, if◌then◌else◌, is_some, Bool-cases, Option-cases,
}
use cbm_mentoring_app.Base.Text.{is_ascii, Text, Parts, text_eq, dot, partition}
use cbm_mentoring_app.Base.Exec.{Result-cases, ok, err}
use cbm_mentoring_app.Access.Tokens.Store.{
  TokenActionRecord, EventName, minted, redeemed, revoked, TokenAuditEvent, TokenActionStore,
}
use cbm_mentoring_app.Access.Tokens.{
  mismatch, type_error, TokenError, invalid, bad_max_uses, Signing, new_token, link, mint,
  verified_record, check_record, validate, spent, redeem, revoke,
}

abbrev pub event : ℕ → EventName → ℕ → TokenAuditEvent
event id name stamp = record { token_action_id = id; event_name = name; occurred_at = stamp }

-- What `validate` asks of a record.
pub record IsUsable (r : TokenActionRecord) (now : ℕ) (action : String) : Type 0 where
  pub right_action : r.action_name ≡ action
  pub unrevoked : r.revoked_at ≡ none
  pub unexpired : now < r.expires_at
  pub unspent : r.use_count < r.max_uses

module _ (store : TokenActionStore) (c : Signing) (s : store.State) where
  -- A record saved with one more audit event.
  abbrev pub written : TokenActionRecord → TokenAuditEvent → store.State
  written r e = store.append_audit (store.save s r) e

  pub load-written :
      (r : TokenActionRecord) (e : TokenAuditEvent) (id : ℕ)
      → store.load (written r e) id ≡ (if id == r.token_action_id then some r else store.load s id)
  load-written r e id = store.load-append_audit (store.save s r) e id ∙ store.load-save s r id

  pub audit-written :
      (r : TokenActionRecord) (e : TokenAuditEvent)
      → store.audit (written r e) ≡ store.audit s ++ e ∷ []
  audit-written r e = rw (store.audit-append_audit, store.audit-save)

  -- What an accepted redemption leaves behind.
  abbrev pub after_redeem : TokenActionRecord → ℕ → store.State
  after_redeem r stamp = written (spent r) (event r.token_action_id redeemed stamp)

  -- The two refusals of a text that names no token on record: `invalid`, for a first part that is no
  -- identifier, a second that is ASCII or the right signature; or the `TypeError` of a second part
  -- that is not ASCII.
  abbrev pub Unverified : Text → TokenError → Type 0
  Unverified token e =
      let parts = partition dot token in
      (e ≡ invalid)
        × ((c.parse_uuid parts.head ≡ none)
            ⊎ ((is_ascii parts.tail ≡ true)
                ⊎ ((id : ℕ) × (c.parse_uuid parts.head ≡ some id) × (parts.tail ≡ c.signature id))))
      ⊎ (e ≡ type_error) × (is_ascii parts.tail ≡ false)

  mismatch-Unverified : (token : Text) → Unverified token (mismatch (partition dot token).tail)
  mismatch-Unverified token = elim (Bool-cases (is_ascii (partition dot token).tail)) [
    | inl on ↦ inl (ground (arith, on), inr (inl on))
    | inr off ↦ inr (ground (arith, off), off)
  ]

  pub verified_record_cases :
      (token : Text)
      → ((e : TokenError) × (verified_record store c token s ≡ (err e, s)) × Unverified token e)
        ⊎ ((r : TokenActionRecord) × (id : ℕ) × (verified_record store c token s ≡ (ok r, s))
            × (store.load s id ≡ some r)
            × (c.parse_uuid (partition dot token).head ≡ some id)
            × ((partition dot token).tail ≡ c.signature id))
  unfolding verified_record
  verified_record_cases token = elim (Option-cases (c.parse_uuid parts.head)) [
    | inl e ↦ inl (invalid, ground arith, inl (refl, inl e))
    | inr (id, e) ↦ elim (Bool-cases (not parts.found || not (parts.tail == c.signature id))) [
      | inl bad ↦ inl (mismatch parts.tail, ground arith, mismatch-Unverified token)
      | inr good ↦ elim (Option-cases (store.load s id)) [
        | inl missing ↦
            inl (invalid, ground arith, inl (refl, inr (inr (id, e, ground (arith, good)))))
        | inr (r, there) ↦ inr (r, id, ground arith, there, e, ground arith)
      ]
    ]
  ]
    where
      parts : Parts
      parts = partition dot token

  pub check_record_cases :
      (r : TokenActionRecord) (now : ℕ) (action : String)
      → ((e : TokenError) × (check_record store c r now action s ≡ (err e, s)))
        ⊎ ((check_record store c r now action s ≡ (ok r, s)) × IsUsable r now action)
  unfolding check_record
  check_record_cases r now action = elim (Result-cases (check_record store c r now action s).0) [
    | inl (e, h) ↦ inl (e, ground arith)
    | inr (a, h) ↦ inr (ground arith, ground arith)
  ]

  pub validate_cases :
      (now : ℕ) (token : Text) (action : String)
      → ((e : TokenError) × (validate store c now token action s ≡ (err e, s)))
        ⊎ ((r : TokenActionRecord) × (id : ℕ) × (validate store c now token action s ≡ (ok r, s))
            × (store.load s id ≡ some r)
            × IsUsable r now action)
  unfolding validate
  validate_cases now token action = elim (verified_record_cases token) [
    | inl (x, e, _) ↦ inl (x, rw e)
    | inr (r, id, e, there, _, _) ↦ elim (check_record_cases r now action) [
      | inl (x, h) ↦ inl (x, rw (e, h))
      | inr (h, usable) ↦ inr (r, id, rw (e, h), there, usable)
    ]
  ]

  -- A redemption is refused and changes nothing, or spends one use of a usable token on record.
  pub redeem_cases :
      (now stamp : ℕ) (token : Text) (action : String)
      → ((e : TokenError) × (redeem store c now stamp token action s ≡ (err e, s)))
        ⊎ ((r : TokenActionRecord) × (id : ℕ) × (redeem store c now stamp token action s
              ≡ (ok (spent r), after_redeem r stamp))
            × (store.load s id ≡ some r)
            × IsUsable r now action)
  unfolding redeem
  redeem_cases now stamp token action = elim (validate_cases now token action) [
    | inl (x, h) ↦ inl (x, rw h)
    | inr (r, id, h, there, usable) ↦ inr (r, id, rw h, there, usable)
  ]

  -- A revocation of an unknown token is refused; else the token on record is revoked, at the first
  -- moment at which it was, and the audit trail has one event more.
  pub revoke_cases :
      (now stamp id : ℕ)
      → (revoke store c now stamp id s ≡ (err invalid, s))
        ⊎ ((r : TokenActionRecord) × (store.load s id ≡ some r)
            × (((r.revoked_at ≡ none)
                  × (revoke store c now stamp id s ≡ (
                    ok tt,
                    written
                        (record r { revoked_at = some now })
                        (event r.token_action_id revoked stamp),
                  )))
                ⊎ ((is_some r.revoked_at ≡ true)
                    × (revoke store c now stamp id s
                        ≡ (ok tt, store.append_audit s (event r.token_action_id revoked stamp))))))
  unfolding revoke
  revoke_cases now stamp id = elim (Option-cases (store.load s id)) [
    | inl e ↦ inl (rw e)
    | inr (r, e) ↦ elim (Option-cases r.revoked_at) [
      | inl h ↦ inr (r, e, inl (h, ground arith))
      | inr (t, h) ↦ inr (r, e, inr (ground arith, ground arith))
    ]
  ]

  pub mint_cases :
      (now id expires_at max_uses : ℕ) (identity action : String) (user_id : Option ℕ)
      → let r = new_token id identity action expires_at max_uses user_id in
        ((max_uses ≡ 0)
          × (mint store c now id identity action expires_at max_uses user_id s
              ≡ (err bad_max_uses, s)))
        ⊎ ((0 < max_uses)
            × (mint store c now id identity action expires_at max_uses user_id s
                ≡ (ok (link store c id), written r (event id minted now))))
  unfolding mint
  mint_cases now id expires_at max_uses identity action user_id =
      elim (Bool-cases (ltb max_uses 1)) [
        | inl e ↦ inl (ground arith, rw e)
        | inr e ↦ inr (ground arith, rw e)
      ]
