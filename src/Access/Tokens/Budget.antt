-- ===== src/Access/Tokens/Budget.antt =====
-- src/mentorapp/access/tokens.py: a token is used at most as often as it was minted for, the audit
-- trail counts every use, and a revoked token is never used again.
use cbm_mentoring_app.Base.{
  ℕ, ◌+◌, ◌≤◌, String, ◌≡◌, ◌≢◌, true, inl, inr, some, List, [], ◌∷◌, arith, nat_eq, is_some,
}
use cbm_mentoring_app.Base.Text.{Text}
use cbm_mentoring_app.Base.Exec.{ok}
use cbm_mentoring_app.Access.Tokens.Store.{TokenActionRecord, TokenActionStore}
use cbm_mentoring_app.Access.Tokens.{Signing, redeem}
use cbm_mentoring_app.Access.Tokens.Effects.{redeem_cases}
use cbm_mentoring_app.Access.Tokens.Books.{uses, Accounted}
use cbm_mentoring_app.Access.Tokens.Calls.{
  Call, Kept-trans, call, won, IsFresh, Spent, unchanged, call-Accounted, call-Spent,
}

module _ (store : TokenActionStore) (c : Signing) where
  pub calls : List Call → store.State → store.State
  calls [] s = s
  calls (x ∷ xs) s = calls xs (call store c x s)

  -- How many redemptions of the token succeeded.
  pub wins : ℕ → List Call → store.State → ℕ
  wins id [] s = 0
  wins id (x ∷ xs) s = won store c id x s + wins id xs (call store c x s)

  abbrev pub AreFresh : List Call → store.State → Type 0
  AreFresh [] s = Unit
  AreFresh (x ∷ xs) s = IsFresh store c x s × AreFresh xs (call store c x s)

  calls-Spent :
      (xs : List Call) (s : store.State) (id : ℕ) (r : TokenActionRecord)
      → Accounted store s
      → AreFresh xs s
      → store.load s id ≡ some r
      → Accounted store (calls xs s) × Spent store c (wins id xs s) r (calls xs s) id
  unfolding calls wins
  calls-Spent [] s id r a fresh here = (a, unchanged store c s r id here)
  calls-Spent (x ∷ xs) s id r a fresh here =
      let one = call-Spent store c x s id r a fresh.0 here in
      let (books, rest) =
        calls-Spent xs (call store c x s) id one.found (call-Accounted store c x s a fresh.0)
          fresh.1 one.there in
      (
        books,
        record {
          found = rest.found;
          there = rest.there;
          kept = Kept-trans one.kept rest.kept;
          spent_more = omega (arith, rest.spent_more, one.spent_more);
        },
      )

  -- Over any store whose books are in order, for a token on record, after any calls that mint
  -- under fresh identifiers: the token is still there with the budget it was minted with, its use
  -- count has grown by exactly the number of its redemptions that succeeded, it is within the
  -- budget, and the audit trail holds exactly that many redemption events for it.
  pub redemptions_within_budget :
      (xs : List Call) (s : store.State) (id : ℕ) (r : TokenActionRecord)
      → Accounted store s
      → AreFresh xs s
      → store.load s id ≡ some r
      → (r' : TokenActionRecord) × (store.load (calls xs s) id ≡ some r')
        × (r'.max_uses ≡ r.max_uses)
        × (r'.use_count ≡ wins id xs s + r.use_count)
        × (r'.use_count ≤ r'.max_uses)
        × (uses id (store.audit (calls xs s)) ≡ r'.use_count)
  redemptions_within_budget xs s id r a fresh here =
      let (books, h) = calls-Spent xs s id r a fresh here in
      (
        h.found,
        h.there,
        h.kept.same_budget,
        h.spent_more,
        books.within id h.found h.there,
        books.counted id h.found h.there,
      )

  -- Over any store whose books are in order, a token on record that has been revoked is never
  -- redeemed again: after any calls that mint under fresh identifiers, whatever the link, the
  -- action and the time, no redemption answers with its record.
  pub revoked_is_dead :
      (xs : List Call) (s : store.State) (id : ℕ) (r x : TokenActionRecord) (now stamp : ℕ)
      (token : Text) (action : String)
      → Accounted store s
      → AreFresh xs s
      → store.load s id ≡ some r
      → is_some r.revoked_at ≡ true
      → x.token_action_id ≡ id
      → (redeem store c now stamp token action (calls xs s)).0 ≢ ok x
  revoked_is_dead xs s id r x now stamp token action a fresh here gone same_id h =
      let (books, d) = calls-Spent xs s id r a fresh here in
      elim (redeem_cases store c (calls xs s) now stamp token action) [
        | inl (e, q) ↦ ground (arith, q)
        | inr (y, j, q, there, usable) ↦ ground (
          arith,
          q,
          there,
          d.there,
          usable.unrevoked,
          books.keyed j y there,
          d.kept.still_revoked gone,
        )
      ]
