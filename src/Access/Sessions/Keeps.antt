-- ===== src/Access/Sessions/Keeps.antt =====
-- src/mentorapp/access/sessions.py: what every save of a store keeps, every method keeps.
use cbm_mentoring_app.Base.{
  subst, sym, ◌+◌, ℕ, ◌≡◌, Bool, true, false, not, ◌||◌, Option, none, some, List, [], ◌∷◌, nat_eq,
  ◌==◌, if◌then◌else◌, Option-cases, inl, inr, arith,
}
use cbm_mentoring_app.Base.Text.{Text, text_eq, dot, partition}
use cbm_mentoring_app.Base.Exec.{
  Result, ok, err, pure, raise, gets, require, refuse_if, continue, ◌>>=◌,
}
use cbm_mentoring_app.Access.Sessions.Store.{
  VerifiedIdentity, SessionState, is_ended, active, reauth_pending, ended, SessionRecord,
  SessionError, not_found, reauth_required, session_ended, identity_mismatch, SessionStore,
}
use cbm_mentoring_app.Access.Sessions.{
  unmatched, Config, Action, save, mint_reference, lookup, is_lapsed, expire_pending_past_grace,
  new_session, establish, touch, is_expired, resolve_active, resolve_state, resolve, revived,
  reauthenticate_found, reauthenticate, require_reauth_state, require_reauth, logout, is_empty,
  at_least_since, activity_touch_granularity,
}
use cbm_mentoring_app.Access.Sessions.Methods.{touch_state}
use cbm_mentoring_app.Access.Sessions.Lifecycle.{
  Call, establishes, resolves, reauthenticates, requires_reauth, logs_out, call, calls,
}

module _ (store : SessionStore) (c : Config) (P : store.State → Type 0)
    (kept : (s s' : store.State) (r : SessionRecord) → store.save s r ≡ some s' → P s → P s') where
  -- What the action leaves has what it found, on every branch.
  pub record Keeps {A : Type 0} (m : Action store c A) : Type 0 where
    pub run : (s : store.State) → P s → P (m s).1

  Keeps-continue :
      {A B : Type 0} (f : A → Action store c B) (x : Result SessionError A × store.State)
      → ((a : A) → Keeps (f a))
      → P x.1
      → P (continue x f).1
  Keeps-continue f (ok a, s) each h = (each a).run s h
  Keeps-continue f (err e, s) each h = h

  Keeps-bind :
      {A B : Type 0} {m : Action store c A} {f : A → Action store c B}
      → Keeps m
      → ((a : A) → Keeps (f a))
      → Keeps (m >>= f)
  Keeps-bind {m} {f} first each = record {
    run = λ s h. Keeps-continue f (m s) each (first.run s h);
  }

  Keeps-pure : {A : Type 0} (a : A) → Keeps (pure a)
  Keeps-pure a = record { run = λ s h. h }

  Keeps-raise : {A : Type 0} (e : SessionError) → Keeps {A = A} (raise e)
  Keeps-raise e = record { run = λ s h. h }

  Keeps-gets : {A : Type 0} (f : store.State → A) → Keeps (gets f)
  Keeps-gets f = record { run = λ s h. h }

  Keeps-require : {A : Type 0} (o : Option A) (e : SessionError) → Keeps (require o e)
  Keeps-require none e = Keeps-raise e
  Keeps-require (some a) e = Keeps-pure a

  Keeps-refuse_if : (bad : Bool) (e : SessionError) → Keeps (refuse_if bad e)
  Keeps-refuse_if true e = Keeps-raise e
  Keeps-refuse_if false e = Keeps-pure tt

  Keeps-if :
      {A : Type 0} (b : Bool) {m n : Action store c A}
      → Keeps m
      → Keeps n
      → Keeps (if b then m else n)
  Keeps-if true hm hn = hm
  Keeps-if false hm hn = hn

  Keeps-save : (r : SessionRecord) → Keeps (save store c r)
  unfolding save
  Keeps-save r = record {
    run = λ s h. elim (Option-cases (store.save s r)) [
      | inl lost ↦ ground (arith, lost, h)
      | inr (s', landed) ↦ ground (arith, landed, kept s s' r landed h)
    ];
  }

  Keeps-lookup : (reference : Text) → Keeps (lookup store c reference)
  unfolding lookup
  Keeps-lookup reference =
      let parts = partition dot reference in
      Keeps-bind (Keeps-require (c.parse_uuid parts.head) not_found) λ session_id.
        Keeps-bind (Keeps-gets (λ s. store.load s session_id)) λ loaded.
          Keeps-bind (Keeps-refuse_if (not parts.found || is_empty parts.tail) not_found)
            λ _. Keeps-bind (Keeps-require loaded not_found) λ found. Keeps-pure (found, parts.tail)

  Keeps-expire_pending_past_grace :
      (r : SessionRecord) (now : ℕ) → Keeps (expire_pending_past_grace store c r now)
  unfolding expire_pending_past_grace
  Keeps-expire_pending_past_grace r now =
      Keeps-if (is_lapsed store c r now)
        (Keeps-bind (Keeps-save (record r { state = ended; reauth_deadline = none }))
          λ _. Keeps-raise session_ended)
        (Keeps-pure tt)

  Keeps-establish :
      (now id : ℕ) (secret : Text) (identity : VerifiedIdentity)
      → Keeps (establish store c now id secret identity)
  unfolding establish
  Keeps-establish now id secret identity =
      let r = new_session store c now id secret identity in
      Keeps-bind (Keeps-save r) λ _. Keeps-pure (mint_reference store c id secret, r)

  Keeps-touch : (r : SessionRecord) → Keeps (touch store c r)
  Keeps-touch r = record {
    run = λ s h. subst P (sym (touch_state store c s r)) ((Keeps-save r).run s h);
  }

  Keeps-resolve_active : (r : SessionRecord) (now : ℕ) → Keeps (resolve_active store c r now)
  unfolding resolve_active
  Keeps-resolve_active r now =
      Keeps-if (is_expired store c r now)
        (Keeps-bind
          (Keeps-save
            (record r { state = reauth_pending; reauth_deadline = some (now + c.reauth_grace) }))
          λ _. Keeps-raise (reauth_required r.session_id))
        (Keeps-if (at_least_since activity_touch_granularity r.last_seen_at now)
          (Keeps-touch (record r { last_seen_at = now })) (Keeps-pure r))

  Keeps-resolve_state :
      (x : SessionState) (r : SessionRecord) (now : ℕ) → Keeps (resolve_state store c x r now)
  unfolding resolve_state
  Keeps-resolve_state ended r now = Keeps-raise session_ended
  Keeps-resolve_state reauth_pending r now =
      Keeps-bind (Keeps-expire_pending_past_grace r now)
        λ _. Keeps-raise (reauth_required r.session_id)
  Keeps-resolve_state active r now = Keeps-resolve_active r now

  Keeps-resolve : (now : ℕ) (reference : Text) → Keeps (resolve store c now reference)
  unfolding resolve
  Keeps-resolve now reference = Keeps-bind (Keeps-lookup reference) λ (r, secret).
      Keeps-bind (Keeps-refuse_if (not (r.secret_hash == c.sha256 secret)) (unmatched secret))
        λ _. Keeps-resolve_state r.state r now

  Keeps-reauthenticate :
      (now id : ℕ) (secret : Text) (identity : VerifiedIdentity)
      → Keeps (reauthenticate store c now id secret identity)
  unfolding reauthenticate reauthenticate_found
  Keeps-reauthenticate now id secret identity =
      Keeps-bind (Keeps-gets (λ s. store.load s id)) λ loaded.
        Keeps-bind (Keeps-require loaded not_found) λ r.
          Keeps-bind (Keeps-refuse_if (is_ended r.state) session_ended) λ _.
            Keeps-bind (Keeps-expire_pending_past_grace r now) λ _.
              Keeps-bind (Keeps-refuse_if (not (identity.user_id == r.user_id)) identity_mismatch)
                λ _.
                  Keeps-bind (Keeps-save (revived store c r now secret identity))
                    λ _. Keeps-pure (mint_reference store c r.session_id secret)

  Keeps-require_reauth_state :
      (x : SessionState) (r : SessionRecord) (now : ℕ)
      → Keeps (require_reauth_state store c x r now)
  unfolding require_reauth_state
  Keeps-require_reauth_state ended r now = Keeps-raise session_ended
  Keeps-require_reauth_state active r now = Keeps-save _
  Keeps-require_reauth_state reauth_pending r now = Keeps-pure tt

  Keeps-require_reauth : (now id : ℕ) → Keeps (require_reauth store c now id)
  unfolding require_reauth
  Keeps-require_reauth now id = Keeps-bind (Keeps-gets (λ s. store.load s id)) λ loaded.
      Keeps-bind (Keeps-require loaded not_found) λ r. Keeps-require_reauth_state r.state r now

  Keeps-logout : (reference : Text) → Keeps (logout store c reference)
  unfolding logout
  Keeps-logout reference = Keeps-bind (Keeps-lookup reference) λ (r, secret).
      Keeps-bind (Keeps-refuse_if (not (r.secret_hash == c.sha256 secret)) (unmatched secret))
        λ _. Keeps-save (record r { state = ended; reauth_deadline = none })

  Keeps-call : (x : Call) (s : store.State) → P s → P (call store c x s)
  unfolding call
  Keeps-call (establishes now id secret identity) s h =
      (Keeps-establish now id secret identity).run s h
  Keeps-call (resolves now reference) s h = (Keeps-resolve now reference).run s h
  Keeps-call (reauthenticates now id secret identity) s h =
      (Keeps-reauthenticate now id secret identity).run s h
  Keeps-call (requires_reauth now id) s h = (Keeps-require_reauth now id).run s h
  Keeps-call (logs_out reference) s h = (Keeps-logout reference).run s h

  -- Any calls of the public methods keep what every save keeps.
  pub calls_keep : (xs : List Call) (s : store.State) → P s → P (calls store c xs s)
  unfolding calls
  calls_keep [] s h = h
  calls_keep (x ∷ xs) s h = calls_keep xs (call store c x s) (Keeps-call x s h)
