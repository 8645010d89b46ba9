-- ===== src/Access/Sessions/Moves.antt =====
-- src/mentorapp/access/sessions.py: what one write may do to the sessions of the store.
use cbm_mentoring_app.Base.{
  sym, subst, ◌∙◌, ℕ, ◌≡◌, refl, false, not, ◌||◌, none, some, arith, ◌⊎◌, inl, inr, nat_eq,
  Bool-cases, Option-cases,
}
use cbm_mentoring_app.Base.Text.{Text, Parts, text_eq, dot, partition}
use cbm_mentoring_app.Base.Exec.{ok, err, raise, ◌>>=◌, ◌>>◌}
use cbm_mentoring_app.Access.Sessions.Store.{
  IsSameSession, is_ended, SessionState, active, reauth_pending, ended, SessionRecord, SessionError,
  not_found, session_ended, SessionStore, kept,
}
use cbm_mentoring_app.Access.Sessions.{
  Config, Action, save, lookup, expire_pending_past_grace, is_lapsed, is_empty,
}

-- The moves of a session's state: nothing leaves `ended`.
pub data Edge : SessionState → SessionState → Type 0 where
  stay : {x : SessionState} → Edge x x
  expire : Edge active reauth_pending
  revive : Edge reauth_pending active
  log_out : Edge active ended
  lapse : Edge reauth_pending ended

pub data Edges (x : SessionState) : SessionState → Type 0 where
  here_already : Edges x x
  next : {y z : SessionState} → Edges x y → Edge y z → Edges x z

Edge-ended : {x y : SessionState} → Edge x y → x ≡ ended → y ≡ ended
Edge-ended stay e = e
Edge-ended expire e = cc
Edge-ended revive e = cc
Edge-ended log_out e = refl
Edge-ended lapse e = refl

pub Edges-ended : {x y : SessionState} → Edges x y → x ≡ ended → y ≡ ended
Edges-ended here_already e = e
Edges-ended (next es e) h = Edge-ended e (Edges-ended es h)

pub record Change (r r' : SessionRecord) : Type 0 where
  pub edge : Edge r.state r'.state
  pub same_owner : r'.user_id ≡ r.user_id
  pub same_birth : r'.created_at ≡ r.created_at

pub to_ended : (x : SessionState) → Edge x ended
to_ended active = log_out
to_ended reauth_pending = lapse
to_ended ended = stay

pub to_active : (x : SessionState) → is_ended x ≡ false → Edge x active
to_active active h = stay
to_active reauth_pending h = revive
to_active ended h = cc

module _ (store : SessionStore) where
  -- A record stands under its own identifier.
  abbrev pub IsKeyed : store.State → Type 0
  IsKeyed s = (id : ℕ) (r : SessionRecord) → store.load s id ≡ some r → r.session_id ≡ id

  -- What became of one session: nothing, or one allowed change of a record that was there.
  pub data After (s s' : store.State) (id : ℕ) : Type 0 where
    same : store.load s' id ≡ store.load s id → After s s' id
    changed :
        (r r' : SessionRecord)
        → store.load s id ≡ some r
        → store.load s' id ≡ some r'
        → Change r r'
        → After s s' id

  pub record Moves (s s' : store.State) : Type 0 where
    pub keyed : IsKeyed s'
    pub after : (id : ℕ) → After s s' id

  module _ (c : Config) where
    pub Moves-refl : (s : store.State) → IsKeyed s → Moves s s
    Moves-refl s k = record { keyed = k; after = λ id. same refl }

    pub load-save_cases :
        (s s' : store.State) (r : SessionRecord) (id : ℕ)
        → store.save s r ≡ some s'
        → ((id ≡ r.session_id)
            × (store.load s' id ≡ some (kept store (store.load s r.session_id) r)))
          ⊎ (store.load s' id ≡ store.load s id)
    load-save_cases s s' r id e = ground (arith, store.load-save s s' r id e)

    kept-Change :
        (s : store.State) (r r' : SessionRecord)
        → store.load s r'.session_id ≡ some r
        → Change r r'
        → Change r (kept store (store.load s r'.session_id) r')
    kept-Change s r r' here change =
        let (owner, birth) = store.kept_same (store.load s r'.session_id) r' (
          subst (λ o. IsSameSession o r') (sym here)
            (sym change.same_owner, sym change.same_birth)) in
        record {
          edge = change.edge;
          same_owner = owner ∙ change.same_owner;
          same_birth = birth ∙ change.same_birth;
        }

    -- A write over a record that is there.
    pub Moves-save :
        (s : store.State) (r r' : SessionRecord)
        → IsKeyed s
        → store.load s r'.session_id ≡ some r
        → Change r r'
        → Moves s (save store c r' s).1
    unfolding save
    Moves-save s r r' k here change = elim (Option-cases (store.save s r')) [
      | inl e ↦ rw (e, save) (Moves-refl s k)
      | inr (s', e) ↦
          rw (e, save)
            (record {
              keyed = λ id x. ground (arith, store.load-save s s' r' id e, k id x);
              after = λ id. elim (load-save_cases s s' r' id e) [
                | inl (p, q) ↦
                    changed r (kept store (store.load s r'.session_id) r') (rw p here) q
                      (kept-Change s r r' here change)
                | inr q ↦ same q
              ];
            })
    ]

    -- A look-up changes nothing, and finds the record under its identifier.
    pub lookup_cases :
        (s : store.State) (reference : Text)
        → IsKeyed s
        → ((e : SessionError) × (lookup store c reference s ≡ (err e, s)))
          ⊎ ((r : SessionRecord) × (secret : Text) × (lookup store c reference s
                ≡ (ok (r, secret), s))
              × (store.load s r.session_id ≡ some r))
    unfolding lookup
    lookup_cases s reference k = elim (Option-cases (c.parse_uuid parts.head)) [
      | inl e ↦ inl (not_found, ground arith)
      | inr (id, e) ↦ elim (Bool-cases (not parts.found || is_empty parts.tail)) [
        | inl bad ↦ inl (not_found, ground arith)
        | inr good ↦ elim (Option-cases (store.load s id)) [
          | inl missing ↦ inl (not_found, ground arith)
          | inr (r, there) ↦ inr (r, parts.tail, ground arith, ground (arith, k id r there))
        ]
      ]
    ]
      where
        parts : Parts
        parts = partition dot reference

    -- One shape for every method that a reference opens: refused at the look-up with the store as
    -- it was, or `run` on the record that was found.
    pub opened :
        {A : Type 0} (run : SessionRecord × Text → Action store c A) (s : store.State)
        (reference : Text)
        → IsKeyed s
        → ((r : SessionRecord) (secret : Text)
            → store.load s r.session_id ≡ some r
            → Moves s (run (r, secret) s).1)
        → Moves s ((lookup store c reference >>= run) s).1
    opened run s reference k each = elim (lookup_cases s reference k) [
      | inl (e, q) ↦ rw q (Moves-refl s k)
      | inr (r, secret, q, here) ↦ rw q (each r secret here)
    ]

    pub save_raise :
        {A B : Type 0} (s : store.State) (r' : SessionRecord) (e : SessionError)
        (f : A → Action store c B)
        → (((save store c r' >> raise e) >>= f) s).1 ≡ (save store c r' s).1
    unfolding save
    save_raise s r' e f = ground arith

    pub save_raise_end :
        (A : Type 0) (s : store.State) (r' : SessionRecord) (e : SessionError)
        → ((save store c r' >> raise {A = A} e) s).1 ≡ (save store c r' s).1
    unfolding save
    save_raise_end A s r' e = ground arith

    -- Lapsing ends the session and raises, so what follows runs only where nothing was written.
    pub expire_then :
        {B : Type 0} (s : store.State) (r : SessionRecord) (now : ℕ)
        (f : Unit {0} → Action store c B)
        → IsKeyed s
        → store.load s r.session_id ≡ some r
        → Moves s (f tt s).1
        → Moves s ((expire_pending_past_grace store c r now >>= f) s).1
    unfolding expire_pending_past_grace
    expire_then s r now f k here rest = elim (Bool-cases (is_lapsed store c r now)) [
      | inl e ↦
          rw (e, save_raise s (record r { state = ended; reauth_deadline = none }) session_ended f)
            (Moves-save s r _ k here
              (record { edge = to_ended r.state; same_owner = refl; same_birth = refl }))
      | inr e ↦ rw e rest
    ]
