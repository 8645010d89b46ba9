-- ===== src/Access/Sessions/Examples.antt =====
-- Runs of `SessionManagement` over the in-memory store, and the theorems at concrete inputs.
use cbm_mentoring_app.Access.Credentials.{
  CrmUserCredential, Crypto, IsSound, take-append, drop-append,
}
use cbm_mentoring_app.Access.Sessions.Stored.{load_session}
use cbm_mentoring_app.Access.Sessions.Custody.{Circumstances, Table, stored, IsBare, custody_ends}
use cbm_mentoring_app.Base.{
  All, if◌then◌else◌, ◌==◌, take, drop, length, ◌++◌, ◌∙◌, ap, ==-self, ==-ne, ℕ, ◌+◌, ◌-◌, ◌<◌,
  ◌≡◌, ◌≢◌, ◌↔◌, refl, false, Option, none, some, List, [], ◌∷◌, arith, nat_eq, string_eq,
}
use cbm_mentoring_app.Base.Dict
use cbm_mentoring_app.Base.Dict.{get-put, get-empty}
use cbm_mentoring_app.Base.Text.{is_ascii, Text, text_eq, dot, partition}
use cbm_mentoring_app.Base.Exec.{ok, err}
use cbm_mentoring_app.Access.Sessions.Store.{
  unicode_encode_error, ended, VerifiedIdentity, SessionRecord, not_found, reauth_required,
  in_memory,
}
use cbm_mentoring_app.Access.Sessions.{
  Config, IsUuidText, mint_reference, save, lookup, new_session, resolve, resolve_state,
  resolve_active, is_expired, revived, reauthenticate, reauthenticate_found,
  expire_pending_past_grace, is_lapsed, logout,
}
use cbm_mentoring_app.Access.Sessions.Moves.{IsKeyed}
use cbm_mentoring_app.Access.Sessions.Lifecycle.{
  Call, establishes, resolves, requires_reauth, logs_out, calls, Descends, session_life,
}
use cbm_mentoring_app.Access.Sessions.Resolve.{IsLive, resolve_iff}
use cbm_mentoring_app.Access.Sessions.Reauth.{reauthenticate-restores, logout_everywhere}

abbrev parse_one : Text → Option ℕ
parse_one (n ∷ []) = some (n - 100)
parse_one _ = none

-- A toy form of what the program takes from its libraries.
abbrev config : Config
config = record {
  idle_timeout = 1800;
  absolute_lifetime = 43200;
  reauth_grace = 43200;
  sha256 = λ t. t;
  uuid_hex = λ id. (id + 100) ∷ [];
  parse_uuid = parse_one;
}

config-IsUuidText : IsUuidText config
config-IsUuidText = record { parse-hex = λ id. ground arith; hex_no_dot = λ id. ground (arith) }

abbrev ada : VerifiedIdentity
ada = record {
  user_id = 1;
  role_names = [];
  crm_credential = record { username = b'a' ∷ []; secret = b't' ∷ [] };
}

-- Session 7 of user 1, established at 1000 with the secret "x".
abbrev eve : VerifiedIdentity
eve = record ada { user_id = 2 }

abbrev first : SessionRecord
first = new_session in_memory config 1000 7 (b'x' ∷ []) ada

abbrev start : in_memory.State
start = (7, first) ∷ []

start-IsKeyed : IsKeyed in_memory start
unfolding Dict.get
start-IsKeyed id r h = ground arith

start_here : in_memory.load start 7 ≡ some first
unfolding Dict.get nat_eq
start_here = refl

resolve_idle :
    (resolve in_memory config 2801 (107 ∷ dot ∷ b'x' ∷ []) start).0 ≡ err (reauth_required 7)
unfolding resolve resolve_state resolve_active is_expired lookup save partition Dict.get Dict.put
    nat_eq text_eq
resolve_idle = refl

resolve_iff_example :
    ((r' : SessionRecord) × ((resolve in_memory config 2000
          (mint_reference in_memory config 7 (b'x' ∷ []))
          start).0
        ≡ ok r'))
    ↔ ((first.secret_hash ≡ config.sha256 (b'x' ∷ [])) × IsLive config first 2000)
resolve_iff_example =
    resolve_iff in_memory config config-IsUuidText start first 7 b'x' [] start_here 2000

abbrev some_calls : List Call
some_calls =
    resolves 2000 (107 ∷ dot ∷ b'x' ∷ [])
    ∷ establishes 2001 8 (b'y' ∷ []) eve
    ∷ requires_reauth 2002 7
    ∷ logs_out (107 ∷ dot ∷ b'x' ∷ [])
    ∷ []

session_life_example : Descends in_memory config first (calls in_memory config some_calls start) 7
session_life_example =
    session_life in_memory config some_calls start 7 first start-IsKeyed start_here (omega arith)

abbrev after_reauth : in_memory.State
after_reauth = (7, revived in_memory config first 2500 (b'z' ∷ []) ada) ∷ []

reauth_done :
    reauthenticate in_memory config 2500 7 (b'z' ∷ []) ada start
    ≡ (ok (107 ∷ dot ∷ b'z' ∷ []), after_reauth)
unfolding reauthenticate reauthenticate_found expire_pending_past_grace is_lapsed save
    mint_reference Dict.get Dict.put nat_eq
reauth_done = refl

reauthenticate-restores_example :
    (ada.user_id ≡ first.user_id)
    × (first.state ≢ ended)
    × (is_lapsed in_memory config first 2500 ≡ false)
    × ((later : ℕ)
        → later < 2500 + config.absolute_lifetime
        → later < 2500 + config.idle_timeout
        → (r' : SessionRecord) × ((resolve in_memory config later
              (107 ∷ dot ∷ b'z' ∷ [])
              after_reauth).0
            ≡ ok r'))
    × ((later ch' : ℕ) (cs' : Text)
        → config.sha256 (b'z' ∷ []) ≢ config.sha256 (ch' ∷ cs')
        → resolve in_memory config later
            (mint_reference in_memory config 7 (ch' ∷ cs'))
            after_reauth
          ≡ (err (if is_ascii (ch' ∷ cs') then not_found else unicode_encode_error), after_reauth))
reauthenticate-restores_example =
    reauthenticate-restores in_memory config config-IsUuidText start after_reauth first 2500 7 b'z'
      [] (107 ∷ dot ∷ b'z' ∷ []) ada start-IsKeyed start_here reauth_done

abbrev after_logout : in_memory.State
after_logout = (7, record first { state = ended }) ∷ []

logout_done :
    logout in_memory config (mint_reference in_memory config 7 (b'x' ∷ [])) start
    ≡ (ok tt, after_logout)
unfolding logout lookup save mint_reference partition Dict.get Dict.put nat_eq text_eq
logout_done = refl

logout_everywhere_example :
    (resolve in_memory config 3000
      (mint_reference in_memory config 7 (b'q' ∷ []))
      (calls in_memory config some_calls after_logout)).0
    ≢ ok first
logout_everywhere_example =
    logout_everywhere in_memory config config-IsUuidText start after_logout first 7 b'x' []
      start-IsKeyed start_here logout_done some_calls 3000 b'q' [] first (omega arith)

-- A toy cipher: the associated data and the username go ahead with their lengths.
abbrev cipher_for : Text → Text → Text → Text
cipher_for nonce plaintext aad = length aad ∷ aad ++ plaintext

abbrev opened_for : Text → Text → Text → Option Text
opened_for nonce [] aad = none
opened_for nonce (n ∷ ciphertext) aad =
    if take n ciphertext == aad then some (drop n ciphertext) else none

abbrev two_members : Text → Option CrmUserCredential
two_members [] = none
two_members (n ∷ rest) = some (record { username = take n rest; secret = drop n rest })

abbrev toy_crypto : Crypto
toy_crypto = record {
  encrypt = cipher_for;
  decrypt = opened_for;
  dumps = λ credential. length credential.username ∷ credential.username ++ credential.secret;
  loads = two_members;
  b64encode = λ bytes. bytes;
  b64decode = λ text. some text;
  uuid_bytes = λ id. id ∷ [];
}

opened_for-cipher_for :
    (nonce plaintext aad aad' : Text)
    → opened_for nonce (cipher_for nonce plaintext aad) aad'
      ≡ (if aad == aad' then some plaintext else none)
opened_for-cipher_for nonce plaintext aad aad' =
    ap (λ t. if t == aad' then some (drop (length aad) (aad ++ plaintext)) else none)
      (take-append (length aad) aad plaintext refl)
    ∙ ap (λ t. if aad == aad' then some t else none) (drop-append (length aad) aad plaintext refl)

toy_crypto-IsSound : IsSound toy_crypto
toy_crypto-IsSound = record {
  decrypt-encrypt = λ nonce plaintext aad.
      opened_for-cipher_for nonce plaintext aad aad
      ∙ ap (λ b. if b then some plaintext else none) (==-self aad);
  aad_binds = λ nonce plaintext aad aad' other.
      opened_for-cipher_for nonce plaintext aad aad'
      ∙ ap (λ b. if b then some plaintext else none) (==-ne aad aad' other);
  loads-dumps = λ credential.
      ap
        (λ t. some (record {
          username = t;
          secret = drop (length credential.username) (credential.username ++ credential.secret);
        }))
        (take-append (length credential.username) credential.username credential.secret refl)
      ∙ ap (λ t. some (record { username = credential.username; secret = t }))
          (drop-append (length credential.username) credential.username credential.secret refl);
  b64decode-b64encode = λ bytes. refl;
  uuid_bytes_injective = λ i j e. ground (arith, e);
}

-- Every save wins its race but those of user 9.
abbrev circumstances : Circumstances
circumstances = record {
  token_bytes = λ rows. 1 ∷ 2 ∷ 3 ∷ 4 ∷ 5 ∷ 6 ∷ 7 ∷ 8 ∷ 9 ∷ 10 ∷ 11 ∷ 12 ∷ [];
  is_whole = λ rows. omega arith;
  overtaken = λ rows r. r.user_id == 9;
}

no_sessions : Table toy_crypto toy_crypto-IsSound circumstances
unfolding load_session
no_sessions = record { rows = []; readable = λ id. (none, refl) }

custody_ends_example :
    let store = stored toy_crypto toy_crypto-IsSound circumstances in
    let s' =
      calls store config
        (establishes 1000 7 (b'x' ∷ []) ada
          ∷ logs_out (mint_reference in_memory config 7 (b'x' ∷ []))
          ∷ [])
        no_sessions in
    All (IsBare toy_crypto toy_crypto-IsSound circumstances) s'.rows
    × ((id : ℕ) → load_session toy_crypto s'.rows id ≡ ok (store.load s' id))
unfolding no_sessions
custody_ends_example =
    custody_ends toy_crypto toy_crypto-IsSound circumstances config
      (establishes 1000 7 (b'x' ∷ []) ada
        ∷ logs_out (mint_reference in_memory config 7 (b'x' ∷ []))
        ∷ [])
      no_sessions tt
