-- ===== src/Access/Tokens/Refines.antt =====
-- src/mentorapp/access/tokens.py: `TokenActionService` answers alike over any two stores.
use cbm_mentoring_app.Base.{
  ℕ, String, ◌≡◌, ◌∙◌, refl, sym, ap, subst, Bool, true, false, not, ◌||◌, Option, none, some, [],
  ◌∷◌, ◌++◌, leb, ltb, ◌==◌, nat_eq, string_eq, if◌then◌else◌, is_some,
}
use cbm_mentoring_app.Base.Text.{Text, text_eq, dot, partition}
use cbm_mentoring_app.Base.Exec.{
  Result, ok, err, Exec, pure, raise, gets, require, refuse_if, continue, ◌>>=◌,
}
use cbm_mentoring_app.Access.Tokens.Store.{
  TokenActionRecord, EventName, minted, redeemed, revoked, TokenAuditEvent, TokenActionStore,
}
use cbm_mentoring_app.Access.Tokens.{
  mismatch, TokenError, invalid, expired, revoked_token, exhausted, bad_max_uses, Signing,
  new_token, mint, spent, killed, redeem, revoke, save, audit, verified_record, check_record,
  validate, link,
}

module _ (a b : TokenActionStore) (c : Signing) where
  -- The two stores hold the same tokens and the same trail.
  pub record Agrees (s : a.State) (t : b.State) : Type 0 where
    pub loads : (id : ℕ) → a.load s id ≡ b.load t id
    pub trails : a.audit s ≡ b.audit t

  -- Both answer the same, and leave stores that agree.
  abbrev pub IsSame :
      {A : Type 0} → Result TokenError A × a.State → Result TokenError A × b.State → Type 0
  IsSame (x, s) (y, t) = (x ≡ y) × Agrees s t

  pub record Simulates {A : Type 0} (m : Exec a.State TokenError A) (n : Exec b.State TokenError A)
      : Type 0 where
    pub run : (s : a.State) (t : b.State) → Agrees s t → IsSame (m s) (n t)

  same_continue :
      {A B : Type 0} (f : A → Exec a.State TokenError B) (g : A → Exec b.State TokenError B)
      (p : Result TokenError A × a.State) (q : Result TokenError A × b.State)
      → ((x : A) → Simulates (f x) (g x))
      → IsSame p q
      → IsSame (continue p f) (continue q g)
  same_continue f g (ok x, s) (y, t) k h =
      subst (λ y. IsSame (continue (ok x, s) f) (continue (y, t) g)) h.0 ((k x).run s t h.1)
  same_continue f g (err e, s) (y, t) k h =
      subst (λ y. IsSame (continue (err e, s) f) (continue (y, t) g)) h.0 (refl, h.1)

  same_bind :
      {A B : Type 0} {m : Exec a.State TokenError A} {n : Exec b.State TokenError A}
      {f : A → Exec a.State TokenError B} {g : A → Exec b.State TokenError B}
      → Simulates m n
      → ((x : A) → Simulates (f x) (g x))
      → Simulates (m >>= f) (n >>= g)
  same_bind {m} {n} {f} {g} h k = record {
    run = λ s t agrees. same_continue f g (m s) (n t) k (h.run s t agrees);
  }

  same_pure : {A : Type 0} (x : A) → Simulates (pure x) (pure x)
  same_pure x = record { run = λ s t agrees. (refl, agrees) }

  same_raise : {A : Type 0} (e : TokenError) → Simulates {A = A} (raise e) (raise e)
  same_raise e = record { run = λ s t agrees. (refl, agrees) }

  same_require :
      {A : Type 0} (o : Option A) (e : TokenError) → Simulates (require o e) (require o e)
  same_require none e = same_raise e
  same_require (some x) e = same_pure x

  same_refuse_if : (bad : Bool) (e : TokenError) → Simulates (refuse_if bad e) (refuse_if bad e)
  same_refuse_if true e = same_raise e
  same_refuse_if false e = same_pure tt

  same_load : (id : ℕ) → Simulates (gets (λ s. a.load s id)) (gets (λ t. b.load t id))
  same_load id = record { run = λ s t agrees. (ap ok (agrees.loads id), agrees) }

  save-Agrees :
      (s : a.State) (t : b.State) (r : TokenActionRecord)
      → Agrees s t
      → Agrees (a.save s r) (b.save t r)
  save-Agrees s t r agrees = record {
    loads = λ id.
        a.load-save s r id
        ∙ ap (λ o. if id == r.token_action_id then some r else o) (agrees.loads id)
        ∙ sym (b.load-save t r id);
    trails = a.audit-save s r ∙ agrees.trails ∙ sym (b.audit-save t r);
  }

  same_save : (r : TokenActionRecord) → Simulates (save a c r) (save b c r)
  same_save r = record { run = λ s t agrees. (refl, save-Agrees s t r agrees) }

  append_audit-Agrees :
      (s : a.State) (t : b.State) (e : TokenAuditEvent)
      → Agrees s t
      → Agrees (a.append_audit s e) (b.append_audit t e)
  append_audit-Agrees s t e agrees = record {
    loads = λ id. a.load-append_audit s e id ∙ agrees.loads id ∙ sym (b.load-append_audit t e id);
    trails =
        a.audit-append_audit s e
        ∙ ap (λ es. es ++ e ∷ []) agrees.trails
        ∙ sym (b.audit-append_audit t e);
  }

  same_audit :
      (r : TokenActionRecord) (name : EventName) (now : ℕ)
      → Simulates (audit a c r name now) (audit b c r name now)
  same_audit r name now = record {
    run = λ s t agrees. (
      refl,
      append_audit-Agrees s t
          (record { token_action_id = r.token_action_id; event_name = name; occurred_at = now })
          agrees,
    );
  }

  pub same_mint :
      (now id : ℕ) (token_identity action_name : String) (expires_at max_uses : ℕ)
      (user_id : Option ℕ)
      → Simulates
          (mint a c now id token_identity action_name expires_at max_uses user_id)
          (mint b c now id token_identity action_name expires_at max_uses user_id)
  unfolding mint link
  same_mint now id token_identity action_name expires_at max_uses user_id =
      let r = new_token id token_identity action_name expires_at max_uses user_id in
      same_bind (same_refuse_if (ltb max_uses 1) bad_max_uses) λ _.
        same_bind (same_save r)
          λ _. same_bind (same_audit r minted now) λ _. same_pure (link a c id)

  same_verified_record :
      (token : Text) → Simulates (verified_record a c token) (verified_record b c token)
  unfolding verified_record
  same_verified_record token =
      let parts = partition dot token in
      same_bind (same_require (c.parse_uuid parts.head) invalid) λ id.
        same_bind
          (same_refuse_if (not parts.found || not (parts.tail == c.signature id))
            (mismatch parts.tail))
          λ _. same_bind (same_load id) λ loaded. same_require loaded invalid

  same_check_record :
      (r : TokenActionRecord) (now : ℕ) (expected_action : String)
      → Simulates (check_record a c r now expected_action) (check_record b c r now expected_action)
  unfolding check_record
  same_check_record r now expected_action =
      same_bind (same_refuse_if (not (r.action_name == expected_action)) invalid) λ _.
        same_bind (same_refuse_if (is_some r.revoked_at) revoked_token) λ _.
          same_bind (same_refuse_if (leb r.expires_at now) expired)
            λ _. same_bind (same_refuse_if (leb r.max_uses r.use_count) exhausted) λ _. same_pure r

  pub same_validate :
      (now : ℕ) (token : Text) (expected_action : String)
      → Simulates (validate a c now token expected_action) (validate b c now token expected_action)
  unfolding validate
  same_validate now token expected_action =
      same_bind (same_verified_record token) λ r. same_check_record r now expected_action

  pub same_redeem :
      (now stamp : ℕ) (token : Text) (expected_action : String)
      → Simulates
          (redeem a c now stamp token expected_action)
          (redeem b c now stamp token expected_action)
  unfolding redeem
  same_redeem now stamp token expected_action =
      same_bind (same_validate now token expected_action) λ r.
        same_bind (same_save (spent r))
          λ _. same_bind (same_audit (spent r) redeemed stamp) λ _. same_pure (spent r)

  same_unless :
      {m : Exec a.State TokenError (Unit {0})} {n : Exec b.State TokenError (Unit {0})}
      (done : Bool)
      → Simulates m n
      → Simulates (if done then pure tt else m) (if done then pure tt else n)
  same_unless true h = same_pure tt
  same_unless false h = h

  pub same_revoke :
      (now stamp id : ℕ) → Simulates (revoke a c now stamp id) (revoke b c now stamp id)
  unfolding revoke
  same_revoke now stamp id = same_bind (same_load id) λ loaded.
      same_bind (same_require loaded invalid) λ r.
        same_bind (same_unless (is_some r.revoked_at) (same_save (killed r now)))
          λ _. same_audit (killed r now) revoked stamp
