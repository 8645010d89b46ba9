-- ===== src/Access/Sessions/Reauth.antt =====
-- src/mentorapp/access/sessions.py: `reauthenticate` and `logout` as every window sees them.
use cbm_mentoring_app.Base.{
  if◌then◌else◌, ℕ, ◌+◌, ◌<◌, ◌≡◌, ◌≢◌, refl, ap, subst, ◌∙◌, false, none, some, List, ◌∷◌, arith,
  All, nat_eq,
}
use cbm_mentoring_app.Base.Text.{is_ascii, Text, text_eq}
use cbm_mentoring_app.Base.Exec.{Result, ok, err}
use cbm_mentoring_app.Access.Sessions.Store.{
  unicode_encode_error, is_ended, kept, ended, VerifiedIdentity, SessionRecord, SessionError,
  not_found, SessionStore,
}
use cbm_mentoring_app.Access.Sessions.{
  Config, IsUuidText, save, mint_reference, expire_pending_past_grace, is_lapsed, resolve, revived,
  reauthenticate_found, reauthenticate, logout,
}
use cbm_mentoring_app.Access.Sessions.Moves.{IsKeyed}
use cbm_mentoring_app.Access.Sessions.Methods.{logout-Moves}
use cbm_mentoring_app.Access.Sessions.Lifecycle.{Call, Avoids, calls, ended_is_final}
use cbm_mentoring_app.Access.Sessions.Resolve.{
  lookup-mint, resolve_iff, resolve-wrong_secret, ended_opens_nothing,
}

module _ (store : SessionStore) (c : Config) where
  -- What a re-authentication that succeeds has checked and written.
  reauthenticate_found_ok :
      (s s' : store.State) (r : SessionRecord) (now : ℕ) (secret reference : Text)
      (identity : VerifiedIdentity)
      → reauthenticate_found store c r now secret identity s ≡ (ok reference, s')
      → (identity.user_id ≡ r.user_id)
        × (is_ended r.state ≡ false)
        × (is_lapsed store c r now ≡ false)
        × (store.save s (revived store c r now secret identity) ≡ some s')
        × (reference ≡ mint_reference store c r.session_id secret)
  unfolding reauthenticate_found expire_pending_past_grace save
  reauthenticate_found_ok s s' r now secret reference identity h = ground arith

  reauthenticate_loaded :
      (s s' : store.State) (r : SessionRecord) (now id : ℕ) (secret reference : Text)
      (identity : VerifiedIdentity)
      → store.load s id ≡ some r
      → reauthenticate store c now id secret identity s ≡ (ok reference, s')
      → reauthenticate_found store c r now secret identity s ≡ (ok reference, s')
  unfolding reauthenticate
  reauthenticate_loaded s s' r now id secret reference identity here h = rw here at h

  -- Where the store holds the session, a re-authentication with an identity of another user than
  -- the session's never answers with a reference, whatever state the session is in.
  reauthenticate-owner :
      (s s' : store.State) (r : SessionRecord) (now id : ℕ) (secret reference : Text)
      (identity : VerifiedIdentity)
      → store.load s id ≡ some r
      → identity.user_id ≢ r.user_id
      → reauthenticate store c now id secret identity s ≢ (ok reference, s')
  reauthenticate-owner s s' r now id secret reference identity here other h =
      other
        (reauthenticate_found_ok s s' r now secret reference identity
          (reauthenticate_loaded s s' r now id secret reference identity here h)).0

module _ (store : SessionStore) (c : Config) (codec : IsUuidText c) where
  module _ (s s' : store.State) (r : SessionRecord) (now id ch : ℕ) (cs reference : Text)
      (identity : VerifiedIdentity) (keyed : IsKeyed store s) (here : store.load s id ≡ some r)
      (done : reauthenticate store c now id (ch ∷ cs) identity s ≡ (ok reference, s')) where
    checked :
        (identity.user_id ≡ r.user_id)
        × (is_ended r.state ≡ false)
        × (is_lapsed store c r now ≡ false)
        × (store.save s (revived store c r now (ch ∷ cs) identity) ≡ some s')
        × (reference ≡ mint_reference store c r.session_id (ch ∷ cs))
    checked =
        reauthenticate_found_ok store c s s' r now (ch ∷ cs) reference identity
          (reauthenticate_loaded store c s s' r now id (ch ∷ cs) reference identity here done)

    minted : reference ≡ mint_reference store c id (ch ∷ cs)
    minted = checked.4 ∙ ap (λ i. mint_reference store c i (ch ∷ cs)) (keyed id r here)

    written :
        store.load s' id
        ≡ some (kept store (store.load s r.session_id) (revived store c r now (ch ∷ cs) identity))
    written = ground (
      arith,
      store.load-save s s' (revived store c r now (ch ∷ cs) identity) id checked.3,
      keyed id r here,
    )

    reauthenticate-retires :
        (later ch' : ℕ) (cs' : Text)
        → c.sha256 (ch ∷ cs) ≢ c.sha256 (ch' ∷ cs')
        → resolve store c later (mint_reference store c id (ch' ∷ cs')) s'
          ≡ (err (if is_ascii (ch' ∷ cs') then not_found else unicode_encode_error), s')
    reauthenticate-retires later ch' cs' other =
        resolve-wrong_secret store c codec s'
          (kept store (store.load s r.session_id) (revived store c r now (ch ∷ cs) identity)) id ch'
          cs' written later other

    -- In a store that holds every record under its own identifier, when a re-authentication of the
    -- session under `id` succeeds with a non-empty secret, then the identity is the owner's, the
    -- session had not ended and its window had not lapsed, and the one reference that it answers
    -- opens the session at every later moment up to its age limit and its idle limit; and every
    -- other reference to the session is dead from then on: one whose secret has another hash is
    -- answered like an unknown session, or with the encoding's error where it is not ASCII, and the
    -- store stays as it was.
    pub reauthenticate-restores :
        (identity.user_id ≡ r.user_id)
        × (r.state ≢ ended)
        × (is_lapsed store c r now ≡ false)
        × ((later : ℕ)
            → later < now + c.absolute_lifetime
            → later < now + c.idle_timeout
            → (r' : SessionRecord) × ((resolve store c later reference s').0 ≡ ok r'))
        × ((later ch' : ℕ) (cs' : Text)
            → c.sha256 (ch ∷ cs) ≢ c.sha256 (ch' ∷ cs')
            → resolve store c later (mint_reference store c id (ch' ∷ cs')) s'
              ≡ (err (if is_ascii (ch' ∷ cs') then not_found else unicode_encode_error), s'))
    reauthenticate-restores =
        (checked.0, λ e. cc (ap is_ended e, checked.1), checked.2, opens, reauthenticate-retires)
      where
        opens :
            (later : ℕ)
            → later < now + c.absolute_lifetime
            → later < now + c.idle_timeout
            → (r' : SessionRecord) × ((resolve store c later reference s').0 ≡ ok r')
        opens later young busy = rw minted (
            (resolve_iff store c codec s'
                (kept store (store.load s r.session_id) (revived store c r now (ch ∷ cs) identity))
                id ch cs written later).1
              (refl, record { is_active = refl; unexpired = young; recent = busy }))

  module _ (s s' : store.State) (r : SessionRecord) (id ch : ℕ) (cs : Text)
      (keyed : IsKeyed store s) (here : store.load s id ≡ some r)
      (done : logout store c (mint_reference store c id (ch ∷ cs)) s ≡ (ok tt, s')) where
    saved : store.save s (record r { state = ended; reauth_deadline = none }) ≡ some s'
    unfolding logout save
    saved = ground (arith, lookup-mint store c codec s r id ch cs here)

    keyed' : IsKeyed store s'
    keyed' =
        subst (λ (p : Result SessionError (Unit {0}) × store.State). IsKeyed store p.1) done
          (logout-Moves store c s (mint_reference store c id (ch ∷ cs)) keyed).keyed

    dropped :
        store.load s' id
        ≡ some (
            kept store
              (store.load s r.session_id)
              (record r { state = ended; reauth_deadline = none }))
    dropped = ground (
      arith,
      store.load-save s s' (record r { state = ended; reauth_deadline = none }) id saved,
      keyed id r here,
    )

    -- In a store that holds each record under its own identifier: after a logout that succeeds, by
    -- a minted reference to the session under `id` (that id, a dot and any secret but the empty one),
    -- and whatever later calls that establish no session under `id`, no reference of this form opens
    -- it in any window, at any time.
    pub logout_everywhere :
        (xs : List Call) (now ch' : ℕ) (cs' : Text) (r' : SessionRecord)
        → All (Avoids id) xs
        → (resolve store c now (mint_reference store c id (ch' ∷ cs')) (calls store c xs s')).0
          ≢ ok r'
    logout_everywhere xs now ch' cs' r' avoids =
        let (last, there, over, _) =
          ended_is_final store c xs s' id
            (kept store (store.load s r.session_id)
              (record r { state = ended; reauth_deadline = none }))
            keyed' dropped refl avoids in
        ended_opens_nothing store c codec (calls store c xs s') last id ch' cs' there now r' over
