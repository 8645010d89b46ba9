-- ===== src/Access/Tokens/Swaps.antt =====
-- src/mentorapp/access/tokens.py: the stored tokens against the in-memory ones, call by call.
use cbm_mentoring_app.Base.{ℕ, String, ◌≡◌, refl, ap, Option, List, [], ◌∷◌}
use mathlib.Core.Path.{ap₂}
use cbm_mentoring_app.Base.Text.{Text}
use cbm_mentoring_app.Base.Exec.{Result}
use cbm_mentoring_app.Access.Tokens.Store.{TokenActionRecord, TokenActionStore, Memory, in_memory}
use cbm_mentoring_app.Access.Tokens.Stored.{Tables, stored, get_row}
use cbm_mentoring_app.Access.Tokens.{TokenError, Signing, mint, validate, redeem, revoke}
use cbm_mentoring_app.Access.Tokens.Refines.{
  Agrees, same_mint, same_validate, same_redeem, same_revoke,
}
use cbm_mentoring_app.Base.Dict

-- A call of the service, with the readings of the clock and the fresh identifier that it takes.
pub data Request : Type 0 where
  mints : ℕ → ℕ → String → String → ℕ → ℕ → Option ℕ → Request
  validates : ℕ → Text → String → Request
  redeems : ℕ → ℕ → Text → String → Request
  revokes : ℕ → ℕ → ℕ → Request

pub data Answer : Type 0 where
  link_or : Result TokenError Text → Answer
  record_or : Result TokenError TokenActionRecord → Answer
  done_or : Result TokenError (Unit {0}) → Answer

abbrev pub no_rows : Tables
no_rows = record { tokens = []; events = [] }

abbrev pub no_records : Memory
no_records = record { records = []; audit = [] }

module _ (c : Signing) where
  abbrev pub answer : (store : TokenActionStore) → Request → store.State → Answer × store.State
  answer store (mints now id token_identity action_name expires_at max_uses user_id) s =
      let (x, s') = mint store c now id token_identity action_name expires_at max_uses user_id s in
      (link_or x, s')
  answer store (validates now token action) s =
      let (x, s') = validate store c now token action s in (record_or x, s')
  answer store (redeems now stamp token action) s =
      let (x, s') = redeem store c now stamp token action s in (record_or x, s')
  answer store (revokes now stamp id) s =
      let (x, s') = revoke store c now stamp id s in (done_or x, s')

  -- The answers to the calls in their order, and the state that they leave.
  abbrev pub answers :
      (store : TokenActionStore) → List Request → store.State → List Answer × store.State
  answers store [] s = ([], s)
  answers store (request ∷ requests) s =
      let (x, s') = answer store request s in
      let (xs, s'') = answers store requests s' in (x ∷ xs, s'')

  module _ (a b : TokenActionStore) where
    same_answer :
        (request : Request) (s : a.State) (t : b.State)
        → Agrees a b c s t
        → ((answer a request s).0 ≡ (answer b request t).0)
          × Agrees a b c (answer a request s).1 (answer b request t).1
    same_answer (mints now id token_identity action_name expires_at max_uses user_id) s t h =
        let same =
          (same_mint a b c now id token_identity action_name expires_at max_uses user_id).run s t
            h in
        (ap link_or same.0, same.1)
    same_answer (validates now token action) s t h =
        let same = (same_validate a b c now token action).run s t h in (ap record_or same.0, same.1)
    same_answer (redeems now stamp token action) s t h =
        let same = (same_redeem a b c now stamp token action).run s t h in
        (ap record_or same.0, same.1)
    same_answer (revokes now stamp id) s t h =
        let same = (same_revoke a b c now stamp id).run s t h in (ap done_or same.0, same.1)

    same_answers :
        (requests : List Request) (s : a.State) (t : b.State)
        → Agrees a b c s t
        → ((answers a requests s).0 ≡ (answers b requests t).0)
          × Agrees a b c (answers a requests s).1 (answers b requests t).1
    same_answers [] s t h = (refl, h)
    same_answers (request ∷ requests) s t h =
        let here = same_answer request s t h in
        let rest = same_answers requests (answer a request s).1 (answer b request t).1 here.1 in
        (ap₂ (λ x xs. x ∷ xs) here.0 rest.0, rest.1)

  empty-Agrees : Agrees stored in_memory c no_rows no_records
  unfolding get_row Dict.get
  empty-Agrees = record { loads = λ id. refl; trails = refl }

  -- The stored tokens refine the in-memory ones: from empty tables and an empty memory, any calls of
  -- the service in any order get the same answers, refusals included, and then both hold the same
  -- tokens under every identifier and the same audit trail.
  pub stored_refines :
      (requests : List Request)
      → let (xs, s) = answers stored requests no_rows in
        let (ys, t) = answers in_memory requests no_records in
        (xs ≡ ys)
        × ((id : ℕ) → stored.load s id ≡ in_memory.load t id)
        × (stored.audit s ≡ in_memory.audit t)
  stored_refines requests =
      let same = same_answers stored in_memory requests no_rows no_records empty-Agrees in
      (same.0, (same.1).loads, (same.1).trails)
