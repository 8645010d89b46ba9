-- ===== src/Access/Tokens/Calls.antt =====
-- src/mentorapp/access/tokens.py: what one call of `TokenActionService` does to the tokens.
use cbm_mentoring_app.Base.{
  ℕ, ◌+◌, subst, String, ◌≡◌, refl, ap, sym, subst, ◌∙◌, true, inl, inr, Option, none, some, arith,
  ◌==◌, nat_eq, if◌then◌else◌, is_some, ℕ_discrete,
}
use mathlib.Core.Option.{some-injective}
use cbm_mentoring_app.Base.Text.{Text}
use cbm_mentoring_app.Base.Exec.{Result, ok, err}
use cbm_mentoring_app.Access.Tokens.Store.{
  TokenActionRecord, minted, redeemed, revoked, TokenAuditEvent, TokenActionStore,
}
use cbm_mentoring_app.Access.Tokens.{TokenError, Signing, new_token, mint, spent, redeem, revoke}
use cbm_mentoring_app.Access.Tokens.Effects.{
  event, written, load-written, redeem_cases, revoke_cases, mint_cases,
}
use cbm_mentoring_app.Access.Tokens.Books.{
  Accounted, written-Accounted, fresh-Accounted, noted-Accounted,
}

pub data Call : Type 0 where
  mints : ℕ → ℕ → ℕ → ℕ → String → String → Option ℕ → Call
  redeems : ℕ → ℕ → Text → String → Call
  revokes : ℕ → ℕ → ℕ → Call

-- What no call takes from a token: its budget, its action, its expiry, and that it is revoked.
pub record Kept (r r' : TokenActionRecord) : Type 0 where
  pub same_budget : r'.max_uses ≡ r.max_uses
  pub same_action : r'.action_name ≡ r.action_name
  pub same_expiry : r'.expires_at ≡ r.expires_at
  pub still_revoked : is_some r.revoked_at ≡ true → r'.revoked_at ≡ r.revoked_at

pub Kept-refl : (r : TokenActionRecord) → Kept r r
Kept-refl r = record {
  same_budget = refl;
  same_action = refl;
  same_expiry = refl;
  still_revoked = λ _. refl;
}

pub Kept-trans : {p q r : TokenActionRecord} → Kept p q → Kept q r → Kept p r
Kept-trans h k = record {
  same_budget = k.same_budget ∙ h.same_budget;
  same_action = k.same_action ∙ h.same_action;
  same_expiry = k.same_expiry ∙ h.same_expiry;
  still_revoked =
      λ gone. k.still_revoked (ap is_some (h.still_revoked gone) ∙ gone) ∙ h.still_revoked gone;
}

module _ (store : TokenActionStore) (c : Signing) where
  pub call : Call → store.State → store.State
  call (mints now id expires_at max_uses identity action user_id) s =
      (mint store c now id identity action expires_at max_uses user_id s).1
  call (redeems now stamp token action) s = (redeem store c now stamp token action s).1
  call (revokes now stamp id) s = (revoke store c now stamp id s).1

  abbrev pub spends : ℕ → Result TokenError TokenActionRecord → ℕ
  spends id (ok r) = if id == r.token_action_id then 1 else 0
  spends id (err e) = 0

  -- Whether a call was a redemption of the token that was answered with its record.
  pub won : ℕ → Call → store.State → ℕ
  won id (mints now j expires_at max_uses identity action user_id) s = 0
  won id (redeems now stamp token action) s = spends id (redeem store c now stamp token action s).0
  won id (revokes now stamp j) s = 0

  -- A UUIDv7 is fresh: a token is minted under an identifier that no record has.
  abbrev pub IsFresh : Call → store.State → Type 0
  IsFresh (mints now id expires_at max_uses identity action user_id) s = store.load s id ≡ none
  IsFresh _ s = Unit

  -- What one call does to the token under `id`: it is still there, and `n` more of it is spent.
  pub record Spent (n : ℕ) (r : TokenActionRecord) (s' : store.State) (id : ℕ) : Type 0 where
    pub found : TokenActionRecord
    pub there : store.load s' id ≡ some found
    pub kept : Kept r found
    pub spent_more : found.use_count ≡ n + r.use_count

  pub unchanged :
      (s' : store.State) (r : TokenActionRecord) (id : ℕ)
      → store.load s' id ≡ some r
      → Spent 0 r s' id
  unchanged s' r id here = record {
    found = r;
    there = here;
    kept = Kept-refl r;
    spent_more = omega arith;
  }

  -- Each call keeps the books.
  pub call-Accounted :
      (x : Call) (s : store.State) → Accounted store s → IsFresh x s → Accounted store (call x s)
  unfolding call
  call-Accounted (mints now id expires_at max_uses identity action user_id) s a free =
      elim (mint_cases store c s now id expires_at max_uses identity action user_id) [
        | inl (_, e) ↦ rw (e, call) a
        | inr (_, e) ↦
            rw (e, call)
              (fresh-Accounted store c s (new_token id identity action expires_at max_uses user_id)
                now a free refl)
      ]
  call-Accounted (redeems now stamp token action) s a _ =
      elim (redeem_cases store c s now stamp token action) [
        | inl (_, e) ↦ rw (e, call) a
        | inr (r, id, e, there, usable) ↦
            rw (e, call)
              (written-Accounted store c s r (spent r) redeemed stamp a
                (ap (store.load s) (a.keyed id r there) ∙ there) (omega arith) refl)
      ]
  call-Accounted (revokes now stamp id) s a _ = elim (revoke_cases store c s now stamp id) [
    | inl e ↦ rw (e, call) a
    | inr (r, there, inl (_, e)) ↦
        rw (e, call)
          (written-Accounted store c s r (record r { revoked_at = some now }) revoked stamp a
            (ap (store.load s) (a.keyed id r there) ∙ there) (a.within id r there) (omega arith))
    | inr (r, there, inr (_, e)) ↦
        rw (e, call) (noted-Accounted store c s r.token_action_id stamp a)
  ]

  -- A write over the token `q` spends `n` of it, and nothing of any other token.
  written_spends :
      (s : store.State) (q q' r : TokenActionRecord) (e : TokenAuditEvent) (j id m n : ℕ)
      → Accounted store s
      → store.load s j ≡ some q
      → store.load s id ≡ some r
      → q'.token_action_id ≡ q.token_action_id
      → Kept q q'
      → q'.use_count ≡ n + q.use_count
      → m ≡ (if id == q.token_action_id then n else 0)
      → Spent m r (written store c s q' e) id
  written_spends s q q' r e j id m n a there here same_id kept more hm =
      elim (ℕ_discrete id q.token_action_id) [
        | yes p ↦ record {
          found = q';
          there = ground (arith, law);
          kept = subst (λ x. Kept x q') (one p) kept;
          spent_more = ground (arith, ap (λ (x : TokenActionRecord). x.use_count) (one p));
        }
        | no n ↦ record {
          found = r;
          there = ground (arith, law);
          kept = Kept-refl r;
          spent_more = ground arith;
        }
      ]
    where
      law :
          store.load (written store c s q' e) id
          ≡ (if id == q'.token_action_id then some q' else store.load s id)
      law = load-written store c s q' e id

      one : id ≡ q.token_action_id → q ≡ r
      one p =
          some-injective q r
            (sym there ∙ ap (store.load s) (sym (a.keyed j q there) ∙ sym p) ∙ here)

  -- Each call leaves the token on record, with its budget, and one use more spent if it won.
  pub call-Spent :
      (x : Call) (s : store.State) (id : ℕ) (r : TokenActionRecord)
      → Accounted store s
      → IsFresh x s
      → store.load s id ≡ some r
      → Spent (won id x s) r (call x s) id
  unfolding call won
  call-Spent (mints now j expires_at max_uses identity action user_id) s id r a free here =
      elim (mint_cases store c s now j expires_at max_uses identity action user_id) [
        | inl (_, e) ↦ rw (e, call, won) (unchanged s r id here)
        | inr (_, e) ↦
            rw (e, call, won)
              (unchanged _ r id (
                ground (
                  arith,
                  load-written store c s (new_token j identity action expires_at max_uses user_id)
                      (event j minted now) id,
                )))
      ]
  call-Spent (redeems now stamp token action) s id r a _ here =
      elim (redeem_cases store c s now stamp token action) [
        | inl (_, e) ↦ rw (e, call, won) (unchanged s r id here)
        | inr (q, j, e, there, usable) ↦
            rw (e, call, won)
              (written_spends s q (spent q) r _ j id _ 1 a there here refl
                (record {
                  same_budget = refl;
                  same_action = refl;
                  same_expiry = refl;
                  still_revoked = λ _. refl;
                })
                (omega arith) refl)
      ]
  call-Spent (revokes now stamp j) s id r a _ here = elim (revoke_cases store c s now stamp j) [
    | inl e ↦ rw (e, call, won) (unchanged s r id here)
    | inr (q, there, inl (fresh_one, e)) ↦
        rw (e, call, won)
          (written_spends s q (record q { revoked_at = some now }) r _ j id 0 0 a there here refl
            (record {
              same_budget = refl;
              same_action = refl;
              same_expiry = refl;
              still_revoked = λ gone. cc (fresh_one, gone);
            })
            (omega arith) (ground arith))
    | inr (q, there, inr (_, e)) ↦
        rw (e, call, won) (unchanged _ r id (store.load-append_audit s _ id ∙ here))
  ]
