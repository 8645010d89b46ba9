-- ===== src/Access/Tokens/Refusals.antt =====
-- src/mentorapp/access/tokens.py: which links are redeemed, and what each other link answers.
use cbm_mentoring_app.Base.{
  ℕ, ◌≤◌, ◌<◌, String, ◌≡◌, ◌≢◌, ◌⊎◌, inl, inr, refl, false, leb→le, subst, Option, none, some,
  arith, leb, ==-self, nat_eq, string_eq, contains, Bool-cases, Option-cases,
}
use cbm_mentoring_app.Base.Text.{Text, text_eq, dot, partition, partition-append}
use cbm_mentoring_app.Base.Exec.{ok, err}
use cbm_mentoring_app.Access.Tokens.Store.{TokenActionRecord, minted, TokenActionStore}
use cbm_mentoring_app.Access.Tokens.{
  TokenError, invalid, expired, revoked_token, exhausted, Signing, new_token, link, mint,
  verified_record, check_record, validate, spent, redeem,
}
use cbm_mentoring_app.Access.Tokens.Effects.{
  Unverified, IsUsable, event, written, load-written, after_redeem, verified_record_cases,
  check_record_cases, mint_cases,
}

-- What is relied on: the 32 hexadecimal digits of a UUID read back, and hold no dot.
pub record IsUuidText (c : Signing) : Type 0 where
  pub parse-hex : (id : ℕ) → c.parse_uuid (c.uuid_hex id) ≡ some id
  pub hex_no_dot : (id : ℕ) → contains (c.uuid_hex id) dot ≡ false

-- The refusals in the order in which the record is checked, with the answer to each.
pub data Refused (r : TokenActionRecord) (now : ℕ) (action : String) : TokenError → Type 0 where
  other_action : r.action_name ≢ action → Refused r now action invalid
  was_revoked :
      (t : ℕ) → r.action_name ≡ action → r.revoked_at ≡ some t → Refused r now action revoked_token
  was_late :
      r.action_name ≡ action
      → r.revoked_at ≡ none
      → r.expires_at ≤ now
      → Refused r now action expired
  was_spent :
      r.action_name ≡ action
      → r.revoked_at ≡ none
      → now < r.expires_at
      → r.max_uses ≤ r.use_count
      → Refused r now action exhausted

module _ (store : TokenActionStore) (c : Signing) (s : store.State) where
  check_record-Refused :
      (r : TokenActionRecord) (now : ℕ) (action : String) (e : TokenError)
      → (check_record store c r now action s).0 ≡ err e
      → Refused r now action e
  unfolding check_record
  check_record-Refused r now action e h = elim (string_eq.dec r.action_name action) [
    | no other ↦ subst (Refused r now action) (ground arith) (other_action other)
    | yes same ↦ elim (Option-cases r.revoked_at) [
      | inr (t, gone) ↦ subst (Refused r now action) (ground arith) (was_revoked t same gone)
      | inl alive ↦ elim (Bool-cases (leb r.expires_at now)) [
        | inl late ↦
            subst (Refused r now action) (ground arith) (was_late same alive (leb→le _ _ late))
        | inr early ↦
            subst (Refused r now action) (ground arith)
              (was_spent same alive (ground arith) (ground arith))
      ]
    ]
  ]

module _ (store : TokenActionStore) (c : Signing) (codec : IsUuidText c) (s : store.State) where
  verified_record-link :
      (r : TokenActionRecord) (id : ℕ)
      → store.load s id ≡ some r
      → verified_record store c (link store c id) s ≡ (ok r, s)
  unfolding verified_record link
  verified_record-link r id here = rw (
    partition-append dot (c.uuid_hex id) (c.signature id) (codec.hex_no_dot id),
    codec.parse-hex id,
    ==-self (c.signature id),
    here,
  )

  -- The two outcomes for the record that a text names.
  abbrev pub Decided : TokenActionRecord → ℕ → ℕ → Text → String → Type 0
  Decided r now stamp token action =
      (IsUsable r now action
        × (redeem store c now stamp token action s
            ≡ (ok (spent r), after_redeem store c s r stamp)))
      ⊎ ((e : TokenError) × Refused r now action e
          × (redeem store c now stamp token action s ≡ (err e, s)))

  verified-Decided :
      (r : TokenActionRecord) (now stamp : ℕ) (token : Text) (action : String)
      → verified_record store c token s ≡ (ok r, s)
      → Decided r now stamp token action
  unfolding redeem validate
  verified-Decided r now stamp token action there =
      elim (check_record_cases store c s r now action) [
        | inl (e, h) ↦ inr (e, check_record-Refused store c s r now action e (rw h), rw (there, h))
        | inr (h, usable) ↦ inl (usable, rw (there, h))
      ]

  redeem-link :
      (r : TokenActionRecord) (id now stamp : ℕ) (action : String)
      → store.load s id ≡ some r
      → Decided r now stamp (link store c id) action
  redeem-link r id now stamp action here =
      verified-Decided r now stamp (link store c id) action (verified_record-link r id here)

  no_link :
      (token : Text) (r : TokenActionRecord) (id : ℕ) (e : TokenError)
      → verified_record store c token s ≡ (err e, s)
      → store.load s id ≡ some r
      → token ≢ link store c id
  no_link token r id e bad here same = cc (bad, same, verified_record-link r id here)

  -- What a redemption of any text comes to, at any moment and for any action. Either nothing is
  -- written and the text is no link of a token on record: it is refused as invalid, or with the
  -- type error of the comparison, which takes an end after the first dot that is not ASCII. Or what
  -- stands
  -- before its first dot is the identifier of a token on record and the rest the signature over it.
  -- Then, when that record is usable, it is answered with one use more, and it and one audit event
  -- are written; else the answer is the first error that applies to it, and nothing is written.
  pub redeem_outcomes :
      (now stamp : ℕ) (token : Text) (action : String)
      → ((e : TokenError) × (redeem store c now stamp token action s ≡ (err e, s))
            × Unverified store c s token e)
          × ¬ (
              (r : TokenActionRecord) × (id : ℕ) × (store.load s id ≡ some r)
              × (token ≡ link store c id))
        ⊎ ((r : TokenActionRecord) × (id : ℕ) × (c.parse_uuid (partition dot token).head ≡ some id)
            × ((partition dot token).tail ≡ c.signature id)
            × (store.load s id ≡ some r)
            × Decided r now stamp token action)
  unfolding redeem validate
  redeem_outcomes now stamp token action = elim (verified_record_cases store c s token) [
    | inl (e, bad, why) ↦
        inl ((e, rw bad, why), λ (r, id, here, same). no_link token r id e bad here same)
    | inr (r, id, good, here, named, signed) ↦
        inr (r, id, named, signed, here, verified-Decided r now stamp token action good)
  ]

-- No usable record is refused.
not-Refused :
    {r : TokenActionRecord} {now : ℕ} {action : String} {e : TokenError}
    → Refused r now action e
    → ¬ IsUsable r now action
not-Refused (other_action n) u = n u.right_action
not-Refused (was_revoked t _ gone) u = cc (gone, u.unrevoked)
not-Refused (was_late _ _ late) u = absurd (omega (arith, u.unexpired, late))
not-Refused (was_spent _ _ _ gone) u = absurd (omega (arith, u.unspent, gone))

module _ (store : TokenActionStore) (c : Signing) (codec : IsUuidText c) where
  usable-redeem :
      (s : store.State) (r : TokenActionRecord) (id now stamp : ℕ) (action : String)
      → store.load s id ≡ some r
      → IsUsable r now action
      → (redeem store c now stamp (link store c id) action s).0 ≡ ok (spent r)
  usable-redeem s r id now stamp action here usable =
      elim (redeem-link store c codec s r id now stamp action here) [
        | inl (_, e) ↦ rw e
        | inr (e, refused, _) ↦ absurd (not-Refused refused usable)
      ]

  -- A minted link opens: redeemed for its action before its expiry, the token that `mint` has just
  -- issued answers with the identity that it was minted for, one use spent.
  pub mint-redeem :
      (s s' : store.State) (now id later stamp expires_at max_uses : ℕ) (identity action : String)
      (user_id : Option ℕ) (token : Text)
      → mint store c now id identity action expires_at max_uses user_id s ≡ (ok token, s')
      → later < expires_at
      → (x : TokenActionRecord) × ((redeem store c later stamp token action s').0 ≡ ok x)
        × (x.token_identity ≡ identity)
        × (x.user_id ≡ user_id)
        × (x.use_count ≡ 1)
  mint-redeem s s' now id later stamp expires_at max_uses identity action user_id token h k =
      elim (mint_cases store c s now id expires_at max_uses identity action user_id) [
        | inl (_, e) ↦ ground (arith, e)
        | inr (some_use, e) ↦
            (spent r, opens some_use (ground (arith, e)) (ground (arith, e)), refl, refl, refl)
      ]
    where
      r : TokenActionRecord
      r = new_token id identity action expires_at max_uses user_id

      opens :
          0 < max_uses
          → token ≡ link store c id
          → s' ≡ written store c s r (event id minted now)
          → (redeem store c later stamp token action s').0 ≡ ok (spent r)
      opens some_use p q =
          rw (p, q)
            (usable-redeem (written store c s r (event id minted now)) r id later stamp action
              (ground (arith, load-written store c s r (event id minted now) id))
              (record { right_action = refl; unrevoked = refl; unexpired = k; unspent = some_use }))
