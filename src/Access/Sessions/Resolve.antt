-- ===== src/Access/Sessions/Resolve.antt =====
-- src/mentorapp/access/sessions.py: which references open a session, and for how long.
use cbm_mentoring_app.Base.{
  ℕ, ◌+◌, ◌<◌, ◌≡◌, ◌≢◌, ◌↔◌, refl, false, not, some, ◌∷◌, arith, ◌==◌, nat_eq, ==-ne, ==-self,
  Bool-cases, inl, inr,
}
use cbm_mentoring_app.Base.Text.{Text, text_eq, dot, partition-append}
use cbm_mentoring_app.Base.Exec.{ok, err, refuse_if, ◌>>◌}
use cbm_mentoring_app.Access.Sessions.Store.{
  SessionState, active, reauth_pending, ended, SessionRecord, SessionStore,
}
use cbm_mentoring_app.Access.Sessions.{
  unmatched, Config, IsUuidText, save, lookup, mint_reference, expire_pending_past_grace,
  is_expired, resolve_active, resolve_state, resolve, at_least_since, activity_touch_granularity,
}
use cbm_mentoring_app.Access.Sessions.Methods.{touch_ok}

-- A session that answers requests: active, not aged out, not idle for too long.
pub record IsLive (c : Config) (r : SessionRecord) (now : ℕ) : Type 0 where
  pub is_active : r.state ≡ active
  pub unexpired : now < r.expires_at
  pub recent : now < r.last_seen_at + c.idle_timeout

module _ (store : SessionStore) (c : Config) where
  fresh-of-IsLive :
      (r : SessionRecord) (now : ℕ) → IsLive c r now → is_expired store c r now ≡ false
  unfolding is_expired
  fresh-of-IsLive r now h = ground arith

  resolve_active_ok :
      (s : store.State) (r : SessionRecord) (now : ℕ)
      → is_expired store c r now ≡ false
      → (r' : SessionRecord) × ((resolve_active store c r now s).0 ≡ ok r')
  unfolding resolve_active
  resolve_active_ok s r now h =
      elim (Bool-cases (at_least_since activity_touch_granularity r.last_seen_at now)) [
        | inl due ↦ (
          record r { last_seen_at = now },
          rw (h, due) (touch_ok store c s (record r { last_seen_at = now })),
        )
        | inr early ↦ (r, rw (h, early))
      ]

  resolve_state_ok :
      (x : SessionState) (s : store.State) (r : SessionRecord) (now : ℕ)
      → x ≡ active
      → is_expired store c r now ≡ false
      → (r' : SessionRecord) × ((resolve_state store c x r now s).0 ≡ ok r')
  unfolding resolve_state
  resolve_state_ok active s r now e fresh = resolve_active_ok s r now fresh
  resolve_state_ok reauth_pending s r now e fresh = cc
  resolve_state_ok ended s r now e fresh = cc

  -- What a record in each state answers: only a live one is let in.
  resolve_state-IsLive :
      (x : SessionState) (s : store.State) (r r' : SessionRecord) (now : ℕ)
      → r.state ≡ x
      → (resolve_state store c x r now s).0 ≡ ok r'
      → IsLive c r now
  unfolding resolve_state resolve_active is_expired expire_pending_past_grace save
  resolve_state-IsLive ended s r r' now e h = cc
  resolve_state-IsLive reauth_pending s r r' now e h = ground arith
  resolve_state-IsLive active s r r' now e h = ground arith

module _ (store : SessionStore) (c : Config) (codec : IsUuidText c) where
  module _ (s : store.State) (r : SessionRecord) (id ch : ℕ) (cs : Text)
      (here : store.load s id ≡ some r) where
    -- A reference that was minted is taken apart into its session and its secret.
    pub lookup-mint : lookup store c (mint_reference store c id (ch ∷ cs)) s ≡ (ok (r, ch ∷ cs), s)
    unfolding lookup mint_reference
    lookup-mint = rw (
      partition-append dot (c.uuid_hex id) (ch ∷ cs) (codec.hex_no_dot id),
      codec.parse-hex id,
      here,
    )

    resolve-mint :
        (now : ℕ)
        → resolve store c now (mint_reference store c id (ch ∷ cs)) s
          ≡ (refuse_if (not (r.secret_hash == c.sha256 (ch ∷ cs))) (unmatched (ch ∷ cs))
                >> resolve_state store c r.state r now)
              s
    unfolding resolve
    resolve-mint now = rw lookup-mint

    -- A wrong secret is answered like an unknown session, if it is ASCII.
    pub resolve-wrong_secret :
        (now : ℕ)
        → r.secret_hash ≢ c.sha256 (ch ∷ cs)
        → resolve store c now (mint_reference store c id (ch ∷ cs)) s
          ≡ (err (unmatched (ch ∷ cs)), s)
    resolve-wrong_secret now h = rw (resolve-mint now, ==-ne r.secret_hash (c.sha256 (ch ∷ cs)) h)

    resolve-right_secret :
        (now : ℕ)
        → r.secret_hash ≡ c.sha256 (ch ∷ cs)
        → resolve store c now (mint_reference store c id (ch ∷ cs)) s
          ≡ resolve_state store c r.state r now s
    resolve-right_secret now h = rw (resolve-mint now, h, ==-self (c.sha256 (ch ∷ cs)))

    -- For a store that has the record `r` under `id`, a reference with a non-empty secret opens the
    -- session exactly when the secret has the record's hash and the record is live: active, not
    -- aged out and not idle for `idle_timeout`. A lost race on the activity stamp changes nothing of it.
    pub resolve_iff :
        (now : ℕ)
        → ((r' : SessionRecord) × ((resolve store c now (mint_reference store c id (ch ∷ cs)) s).0
              ≡ ok r'))
          ↔ ((r.secret_hash ≡ c.sha256 (ch ∷ cs)) × IsLive c r now)
    resolve_iff now = (forth, back)
      where
        forth :
            ((r' : SessionRecord) × ((resolve store c now (mint_reference store c id (ch ∷ cs)) s).0
                ≡ ok r'))
            → (r.secret_hash ≡ c.sha256 (ch ∷ cs)) × IsLive c r now
        forth (r', h) = elim (text_eq.dec r.secret_hash (c.sha256 (ch ∷ cs))) [
          | yes e ↦ (
            e,
            resolve_state-IsLive store c r.state s r r' now refl
                (rw (resolve-right_secret now e) at h),
          )
          | no n ↦ let h' = rw (resolve-wrong_secret now n) at h in cc h'
        ]

        back :
            (r.secret_hash ≡ c.sha256 (ch ∷ cs)) × IsLive c r now
            → (r' : SessionRecord) × ((resolve store c now
                  (mint_reference store c id (ch ∷ cs))
                  s).0
                ≡ ok r')
        back (e, live) = rw (resolve-right_secret now e) (
            resolve_state_ok store c r.state s r now live.is_active
              (fresh-of-IsLive store c r now live))

    -- A reference whose session has ended opens nothing.
    pub ended_opens_nothing :
        (now : ℕ) (r' : SessionRecord)
        → r.state ≡ ended
        → (resolve store c now (mint_reference store c id (ch ∷ cs)) s).0 ≢ ok r'
    ended_opens_nothing now r' over h =
        let live = (resolve_iff now).0 (r', h) in cc (live.1.is_active, over)
