-- ===== src/Access/Sessions/Lifecycle.antt =====
-- src/mentorapp/access/sessions.py: the life of one session under any sequence of calls.
use cbm_mentoring_app.Base.{ℕ, ◌≡◌, ◌≢◌, refl, sym, some, List, [], ◌∷◌, ◌∙◌, ap, subst, All}
use mathlib.Core.Option.{some-injective}
use cbm_mentoring_app.Base.Text.{Text}
use cbm_mentoring_app.Access.Sessions.Store.{ended, VerifiedIdentity, SessionRecord, SessionStore}
use cbm_mentoring_app.Access.Sessions.{
  Config, establish, resolve, reauthenticate, require_reauth, logout,
}
use cbm_mentoring_app.Access.Sessions.Moves.{
  Edge, Edges, here_already, next, Edges-ended, IsKeyed, After, same, changed,
}
use cbm_mentoring_app.Access.Sessions.Methods.{
  establish-Moves, resolve-Moves, reauthenticate-Moves, require_reauth-Moves, logout-Moves,
}

-- The public methods, with the clock's reading and what chance supplies.
pub data Call : Type 0 where
  establishes : ℕ → ℕ → Text → VerifiedIdentity → Call
  resolves : ℕ → Text → Call
  reauthenticates : ℕ → ℕ → Text → VerifiedIdentity → Call
  requires_reauth : ℕ → ℕ → Call
  logs_out : Text → Call

-- A UUIDv7 is fresh: no call establishes a session under `id`.
abbrev pub Avoids : ℕ → Call → Type 0
Avoids id (establishes now j secret identity) = id ≢ j
Avoids id _ = Unit

module _ (store : SessionStore) (c : Config) where
  unfoldable pub call : Call → store.State → store.State
  call (establishes now id secret identity) s = (establish store c now id secret identity s).1
  call (resolves now reference) s = (resolve store c now reference s).1
  call (reauthenticates now id secret identity) s =
      (reauthenticate store c now id secret identity s).1
  call (requires_reauth now id) s = (require_reauth store c now id s).1
  call (logs_out reference) s = (logout store c reference s).1

  unfoldable pub calls : List Call → store.State → store.State
  calls [] s = s
  calls (x ∷ xs) s = calls xs (call x s)

  call-After :
      (x : Call) (s : store.State) (id : ℕ)
      → IsKeyed store s
      → Avoids id x
      → IsKeyed store (call x s) × After store s (call x s) id
  unfolding call
  call-After (establishes now j secret identity) s id k avoids =
      let (keyed, after) = establish-Moves store c s now j secret identity k in
      (keyed, after id avoids)
  call-After (resolves now reference) s id k _ =
      let m = resolve-Moves store c s now reference k in (m.keyed, m.after id)
  call-After (reauthenticates now j secret identity) s id k _ =
      let m = reauthenticate-Moves store c s now j secret identity k in (m.keyed, m.after id)
  call-After (requires_reauth now j) s id k _ =
      let m = require_reauth-Moves store c s now j k in (m.keyed, m.after id)
  call-After (logs_out reference) s id k _ =
      let m = logout-Moves store c s reference k in (m.keyed, m.after id)

  -- What is left of a session `r`: it is still there, with its owner and its birth, in a state
  -- that the moves lead to.
  pub record Descends (r : SessionRecord) (s : store.State) (id : ℕ) : Type 0 where
    pub found : SessionRecord
    pub there : store.load s id ≡ some found
    pub edges : Edges r.state found.state
    pub same_owner : found.user_id ≡ r.user_id
    pub same_birth : found.created_at ≡ r.created_at

  After-Descends :
      (r : SessionRecord) (s s' : store.State) (id : ℕ)
      → Descends r s id
      → After store s s' id
      → Descends r s' id
  After-Descends r s s' id h (same e) = record {
    found = h.found;
    there = e ∙ h.there;
    edges = h.edges;
    same_owner = h.same_owner;
    same_birth = h.same_birth;
  }
  After-Descends r s s' id h (changed a b was now change) = record {
    found = b;
    there = now;
    edges = next h.edges (subst (λ x. Edge x.state b.state) known change.edge);
    same_owner = change.same_owner ∙ ap (λ (x : SessionRecord). x.user_id) known ∙ h.same_owner;
    same_birth = change.same_birth ∙ ap (λ (x : SessionRecord). x.created_at) known ∙ h.same_birth;
  }
    where
      known : a ≡ h.found
      known = some-injective a h.found (sym was ∙ h.there)

  calls-Descends :
      (xs : List Call) (r : SessionRecord) (s : store.State) (id : ℕ)
      → IsKeyed store s
      → All (Avoids id) xs
      → Descends r s id
      → Descends r (calls xs s) id
  unfolding calls
  calls-Descends [] r s id k avoids h = h
  calls-Descends (x ∷ xs) r s id k avoids h =
      let (keyed, after) = call-After x s id k avoids.0 in
      calls-Descends xs r (call x s) id keyed avoids.1 (After-Descends r s (call x s) id h after)

  -- From a store that holds every record under its own identifier, after any calls of the public
  -- methods that establish no session under `id`, the session under `id` is still there, with its
  -- owner and its creation time, and its state was moved only along the edges.
  pub session_life :
      (xs : List Call) (s : store.State) (id : ℕ) (r : SessionRecord)
      → IsKeyed store s
      → store.load s id ≡ some r
      → All (Avoids id) xs
      → Descends r (calls xs s) id
  session_life xs s id r k here avoids = calls-Descends xs r s id k avoids (record {
    found = r;
    there = here;
    edges = here_already;
    same_owner = refl;
    same_birth = refl;
  })

  -- Under the same conditions, a session that has ended is still ended after the calls,
  -- and still has its owner.
  pub ended_is_final :
      (xs : List Call) (s : store.State) (id : ℕ) (r : SessionRecord)
      → IsKeyed store s
      → store.load s id ≡ some r
      → r.state ≡ ended
      → All (Avoids id) xs
      → (r' : SessionRecord) × (store.load (calls xs s) id ≡ some r')
        × (r'.state ≡ ended)
        × (r'.user_id ≡ r.user_id)
  ended_is_final xs s id r k here over avoids =
      let d = session_life xs s id r k here avoids in
      (d.found, d.there, Edges-ended d.edges over, d.same_owner)
