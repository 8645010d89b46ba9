-- ===== src/Access/Tokens/Examples.antt =====
-- Runs of `TokenActionService` over the in-memory store, and the theorems at concrete inputs.
use cbm_mentoring_app.Base.{
  ℕ, ◌+◌, ◌-◌, ◌≤◌, ◌≡◌, ◌≢◌, ◌⊎◌, refl, Option, none, some, List, [], ◌∷◌, arith, nat_eq,
  string_eq,
}
use cbm_mentoring_app.Base.Dict
use cbm_mentoring_app.Base.Text.{Text, text_eq, dot, partition}
use cbm_mentoring_app.Base.Exec.{ok, err}
use cbm_mentoring_app.Access.Tokens.Store.{
  TokenActionRecord, redeemed, revoked, minted, Memory, in_memory,
}
use cbm_mentoring_app.Access.Tokens.{
  TokenError, Signing, exhausted, new_token, link, mint, verified_record, check_record, validate,
  spent, redeem,
}
use cbm_mentoring_app.Access.Tokens.Effects.{Unverified, event}
use cbm_mentoring_app.Access.Tokens.Books.{uses, Accounted}
use cbm_mentoring_app.Access.Tokens.Calls.{Call, redeems, revokes}
use cbm_mentoring_app.Access.Tokens.Budget.{
  calls, wins, AreFresh, redemptions_within_budget, revoked_is_dead,
}
use cbm_mentoring_app.Access.Tokens.Refusals.{IsUuidText, Decided, redeem_outcomes, mint-redeem}
use cbm_mentoring_app.Access.Tokens.Swaps
use cbm_mentoring_app.Access.Tokens.Swaps.{
  Request, validates, answers, no_rows, no_records, stored_refines,
}
use cbm_mentoring_app.Access.Tokens.Stored.{stored}

abbrev parse_one : Text → Option ℕ
parse_one (n ∷ []) = some (n - 100)
parse_one _ = none

-- A toy form of what the program takes from its libraries.
abbrev signing : Signing
signing = record {
  signature = λ id. b's' ∷ id ∷ [];
  uuid_hex = λ id. (id + 100) ∷ [];
  parse_uuid = parse_one;
}

signing-IsUuidText : IsUuidText signing
signing-IsUuidText = record { parse-hex = λ id. ground arith; hex_no_dot = λ id. ground arith }

abbrev token_7 : TokenActionRecord
token_7 = new_token 7 "ada" "confirm" 1000 1 none

abbrev shelf : Memory
shelf = record { records = (7, token_7) ∷ []; audit = event 7 minted 5 ∷ [] }

abbrev link_7 : Text
link_7 = 107 ∷ dot ∷ b's' ∷ 7 ∷ []

shelf_here : in_memory.load shelf 7 ≡ some token_7
unfolding Dict.get nat_eq
shelf_here = refl

shelf-Accounted : Accounted in_memory shelf
unfolding Dict.get
shelf-Accounted = record {
  keyed = λ id r h. ground arith;
  within = λ id r h. ground arith;
  counted = λ id r h. ground arith;
  unknown = λ id h. ground arith;
}

abbrev after_use : Memory
after_use = record {
  records = (7, spent token_7) ∷ [];
  audit = event 7 minted 5 ∷ event 7 redeemed 11 ∷ [];
}

redeem_once :
    redeem in_memory signing 10 11 link_7 "confirm" shelf ≡ (ok (spent token_7), after_use)
unfolding redeem validate verified_record check_record partition Dict.get Dict.put nat_eq text_eq
    string_eq
redeem_once = refl

redeem_again :
    redeem in_memory signing 12 13 link_7 "confirm" after_use ≡ (err exhausted, after_use)
unfolding redeem validate verified_record check_record partition Dict.get Dict.put nat_eq text_eq
    string_eq
redeem_again = refl

abbrev some_calls : List Call
some_calls = redeems 10 11 link_7 "confirm" ∷ redeems 12 13 link_7 "confirm" ∷ revokes 14 15 7 ∷ []

some_calls_fresh : AreFresh in_memory signing some_calls shelf
some_calls_fresh = (tt, (tt, (tt, tt)))

redemptions_within_budget_example :
    (r' : TokenActionRecord) × (in_memory.load (calls in_memory signing some_calls shelf) 7
      ≡ some r')
    × (r'.max_uses ≡ token_7.max_uses)
    × (r'.use_count ≡ wins in_memory signing 7 some_calls shelf + token_7.use_count)
    × (r'.use_count ≤ r'.max_uses)
    × (uses 7 (in_memory.audit (calls in_memory signing some_calls shelf)) ≡ r'.use_count)
redemptions_within_budget_example =
    redemptions_within_budget in_memory signing some_calls shelf 7 token_7 shelf-Accounted
      some_calls_fresh shelf_here

abbrev killed_shelf : Memory
killed_shelf = record {
  records = (7, record token_7 { revoked_at = some 8 }) ∷ [];
  audit = event 7 minted 5 ∷ event 7 revoked 9 ∷ [];
}

killed_here : in_memory.load killed_shelf 7 ≡ some (record token_7 { revoked_at = some 8 })
unfolding Dict.get nat_eq
killed_here = refl

killed-Accounted : Accounted in_memory killed_shelf
unfolding Dict.get
killed-Accounted = record {
  keyed = λ id r h. ground arith;
  within = λ id r h. ground arith;
  counted = λ id r h. ground arith;
  unknown = λ id h. ground arith;
}

killed_fresh : AreFresh in_memory signing some_calls killed_shelf
killed_fresh = (tt, (tt, (tt, tt)))

revoked_is_dead_example :
    (redeem in_memory signing 20 21 link_7 "confirm"
      (calls in_memory signing some_calls killed_shelf)).0
    ≢ ok (spent token_7)
revoked_is_dead_example =
    revoked_is_dead in_memory signing some_calls killed_shelf 7
      (record token_7 { revoked_at = some 8 }) (spent token_7) 20 21 link_7 "confirm"
      killed-Accounted killed_fresh killed_here refl refl

redeem_outcomes_example :
    ((e : TokenError) × (redeem in_memory signing 10 11 link_7 "confirm" shelf ≡ (err e, shelf))
        × Unverified in_memory signing shelf link_7 e)
      × ¬ (
          (r : TokenActionRecord) × (id : ℕ) × (in_memory.load shelf id ≡ some r)
          × (link_7 ≡ link in_memory signing id))
    ⊎ ((r : TokenActionRecord) × (id : ℕ) × (signing.parse_uuid (partition dot link_7).head
          ≡ some id)
        × ((partition dot link_7).tail ≡ signing.signature id)
        × (in_memory.load shelf id ≡ some r)
        × Decided in_memory signing signing-IsUuidText shelf r 10 11 link_7 "confirm")
redeem_outcomes_example =
    redeem_outcomes in_memory signing signing-IsUuidText shelf 10 11 link_7 "confirm"

abbrev nothing : Memory
nothing = record { records = []; audit = [] }

mint_7 : mint in_memory signing 5 7 "ada" "confirm" 1000 1 none nothing ≡ (ok link_7, shelf)
unfolding mint link Dict.put nat_eq
mint_7 = refl

mint-redeem_example :
    (x : TokenActionRecord) × ((redeem in_memory signing 10 11 link_7 "confirm" shelf).0 ≡ ok x)
    × (x.token_identity ≡ "ada")
    × (x.user_id ≡ none)
    × (x.use_count ≡ 1)
mint-redeem_example =
    mint-redeem in_memory signing signing-IsUuidText nothing shelf 5 7 10 11 1000 1 "ada" "confirm"
      none link_7 mint_7 (omega arith)

abbrev requests : List Request
requests =
    Swaps.mints 5 7 "ada" "confirm" 1000 1 none
    ∷ validates 8 link_7 "confirm"
    ∷ Swaps.redeems 9 9 link_7 "confirm"
    ∷ Swaps.redeems 10 10 link_7 "confirm"
    ∷ Swaps.revokes 11 11 7
    ∷ []

stored_refines_example :
    let (xs, s) = answers signing stored requests no_rows in
    let (ys, t) = answers signing in_memory requests no_records in
    (xs ≡ ys)
    × ((id : ℕ) → stored.load s id ≡ in_memory.load t id)
    × (stored.audit s ≡ in_memory.audit t)
stored_refines_example = stored_refines signing requests
