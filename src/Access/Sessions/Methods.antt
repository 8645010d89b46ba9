-- ===== src/Access/Sessions/Methods.antt =====
-- src/mentorapp/access/sessions.py: each method of `SessionManagement` makes only allowed moves.
use cbm_mentoring_app.Base.{
  ℕ, ◌+◌, ◌≡◌, ◌≢◌, refl, Bool, true, false, none, some, arith, inl, inr, nat_eq, Bool-cases,
  Option-cases,
}
use cbm_mentoring_app.Base.Text.{Text, text_eq}
use cbm_mentoring_app.Base.Exec.{ok, pure, require, refuse_if, ◌>>=◌, ◌>>◌}
use cbm_mentoring_app.Access.Sessions.Store.{
  is_ended, SessionState, active, reauth_pending, ended, VerifiedIdentity, SessionRecord,
  SessionError, not_found, identity_mismatch, reauth_required, SessionStore,
}
use cbm_mentoring_app.Access.Sessions.{
  unmatched, Config, Action, save, establish, new_session, touch, resolve_active, resolve_state,
  resolve, revived, reauthenticate_found, reauthenticate, require_reauth_state, require_reauth,
  logout, is_expired, at_least_since, activity_touch_granularity, mint_reference,
}
use cbm_mentoring_app.Access.Sessions.Moves.{
  stay, expire, IsKeyed, After, same, Moves, to_ended, to_active, Moves-refl, Moves-save, opened,
  save_raise_end, expire_then,
}

module _ (store : SessionStore) (c : Config) where
  -- A lost race on the activity stamp is a success.
  pub touch_ok : (s : store.State) (r : SessionRecord) → (touch store c r s).0 ≡ ok r
  unfolding touch save
  touch_ok s r = ground arith

  pub touch_state :
      (s : store.State) (r : SessionRecord) → (touch store c r s).1 ≡ (save store c r s).1
  unfolding touch save
  touch_state s r = ground arith

  pub resolve_active-Moves :
      (s : store.State) (r : SessionRecord) (now : ℕ)
      → IsKeyed store s
      → store.load s r.session_id ≡ some r
      → r.state ≡ active
      → Moves store s (resolve_active store c r now s).1
  unfolding resolve_active
  resolve_active-Moves s r now k here live = elim (Bool-cases (is_expired store c r now)) [
    | inl old ↦
        rw (old, save_raise_end store c SessionRecord s pending (reauth_required r.session_id))
          (Moves-save store c s r pending k here
            (record { edge = rw live expire; same_owner = refl; same_birth = refl }))
    | inr fresh ↦ elim (Bool-cases (at_least_since activity_touch_granularity r.last_seen_at now)) [
      | inl due ↦
          rw (fresh, due, touch_state s (record r { last_seen_at = now }))
            (Moves-save store c s r _ k here
              (record { edge = stay; same_owner = refl; same_birth = refl }))
      | inr early ↦ rw (fresh, early) (Moves-refl store c s k)
    ]
  ]
    where
      pending : SessionRecord
      pending = record r { state = reauth_pending; reauth_deadline = some (now + c.reauth_grace) }

  pub resolve_state-Moves :
      (x : SessionState) (s : store.State) (r : SessionRecord) (now : ℕ)
      → IsKeyed store s
      → store.load s r.session_id ≡ some r
      → r.state ≡ x
      → Moves store s (resolve_state store c x r now s).1
  unfolding resolve_state
  resolve_state-Moves ended s r now k here e = Moves-refl store c s k
  resolve_state-Moves reauth_pending s r now k here e =
      expire_then store c s r now _ k here (Moves-refl store c s k)
  resolve_state-Moves active s r now k here e = resolve_active-Moves s r now k here e

  -- `refuse_if` before a method's body.
  pub refused_or :
      {A : Type 0} (b : Bool) (e : SessionError) (m : Action store c A) (s : store.State)
      → IsKeyed store s
      → Moves store s (m s).1
      → Moves store s ((refuse_if b e >> m) s).1
  refused_or true e m s k h = Moves-refl store c s k
  refused_or false e m s k h = h

  pub resolve-Moves :
      (s : store.State) (now : ℕ) (reference : Text)
      → IsKeyed store s
      → Moves store s (resolve store c now reference s).1
  unfolding resolve
  resolve-Moves s now reference k = opened store c _ s reference k λ r secret here.
      refused_or _ (unmatched secret) (resolve_state store c r.state r now) s k
        (resolve_state-Moves r.state s r now k here refl)

  pub logout-Moves :
      (s : store.State) (reference : Text)
      → IsKeyed store s
      → Moves store s (logout store c reference s).1
  unfolding logout
  logout-Moves s reference k = opened store c _ s reference k λ r secret here.
      refused_or _ (unmatched secret)
        (save store c (record r { state = ended; reauth_deadline = none })) s k
        (Moves-save store c s r _ k here
          (record { edge = to_ended r.state; same_owner = refl; same_birth = refl }))

  pub save_pure :
      {A : Type 0} (s : store.State) (r' : SessionRecord) (a : A)
      → ((save store c r' >> pure a) s).1 ≡ (save store c r' s).1
  unfolding save
  save_pure s r' a = ground arith

  pub reauthenticate_found-Moves :
      (s : store.State) (r : SessionRecord) (now : ℕ) (secret : Text) (identity : VerifiedIdentity)
      → IsKeyed store s
      → store.load s r.session_id ≡ some r
      → Moves store s (reauthenticate_found store c r now secret identity s).1
  unfolding reauthenticate_found
  reauthenticate_found-Moves s r now secret identity k here = elim (Bool-cases (is_ended r.state)) [
    | inl over ↦ rw over (Moves-refl store c s k)
    | inr live ↦ rw live (
        expire_then store c s r now _ k here (
          refused_or _ identity_mismatch
            (save store c r' >> pure (mint_reference store c r.session_id secret)) s k
            (rw (save_pure s r' (mint_reference store c r.session_id secret)) (
              Moves-save store c s r r' k here
                (record { edge = to_active r.state live; same_owner = refl; same_birth = refl })))))
  ]
    where
      r' : SessionRecord
      r' = revived store c r now secret identity

  -- What a method that loads by identifier does.
  pub loaded :
      {A : Type 0} (run : SessionRecord → Action store c A) (s : store.State) (id : ℕ)
      → IsKeyed store s
      → ((r : SessionRecord) → store.load s r.session_id ≡ some r → Moves store s (run r s).1)
      → Moves store s ((require (store.load s id) not_found >>= run) s).1
  loaded run s id k each = elim (Option-cases (store.load s id)) [
    | inl e ↦ rw e (Moves-refl store c s k)
    | inr (r, e) ↦ rw e (each r (ground (arith, k id r e)))
  ]

  pub reauthenticate-Moves :
      (s : store.State) (now id : ℕ) (secret : Text) (identity : VerifiedIdentity)
      → IsKeyed store s
      → Moves store s (reauthenticate store c now id secret identity s).1
  unfolding reauthenticate
  reauthenticate-Moves s now id secret identity k =
      loaded _ s id k λ r here. reauthenticate_found-Moves s r now secret identity k here

  pub require_reauth_state-Moves :
      (x : SessionState) (s : store.State) (r : SessionRecord) (now : ℕ)
      → IsKeyed store s
      → store.load s r.session_id ≡ some r
      → r.state ≡ x
      → Moves store s (require_reauth_state store c x r now s).1
  unfolding require_reauth_state
  require_reauth_state-Moves ended s r now k here e = Moves-refl store c s k
  require_reauth_state-Moves reauth_pending s r now k here e = Moves-refl store c s k
  require_reauth_state-Moves active s r now k here e =
      Moves-save store c s r _ k here
        (record { edge = rw e expire; same_owner = refl; same_birth = refl })

  pub require_reauth-Moves :
      (s : store.State) (now id : ℕ)
      → IsKeyed store s
      → Moves store s (require_reauth store c now id s).1
  unfolding require_reauth
  require_reauth-Moves s now id k =
      loaded _ s id k λ r here. require_reauth_state-Moves r.state s r now k here refl

  -- A fresh session: only its own identifier is written.
  pub establish-Moves :
      (s : store.State) (now id : ℕ) (secret : Text) (identity : VerifiedIdentity)
      → IsKeyed store s
      → let s' = (establish store c now id secret identity s).1 in
        IsKeyed store s' × ((j : ℕ) → j ≢ id → After store s s' j)
  unfolding establish save
  establish-Moves s now id secret identity k = elim (Option-cases (store.save s r)) [
    | inl e ↦ rw (e, establish, save) (k, λ j other. same refl)
    | inr (s', e) ↦
        rw (e, establish, save)
          (
            λ j x. ground (arith, store.load-save s s' r j e, k j x),
            λ j other. same (ground (arith, store.load-save s s' r j e)),
          )
  ]
    where
      r : SessionRecord
      r = new_session store c now id secret identity
