-- ===== src/Access/Credentials.antt =====
-- src/mentorapp/access/credentials.py: `CredentialCipher`. AES-GCM, JSON and base64 are parameters,
-- and the random nonce is an argument.
use cbm_mentoring_app.Base.{
  ℕ, zero, suc, ◌≡◌, ◌≢◌, ◌∙◌, refl, ap, Option, none, some, [], ◌∷◌, ◌++◌, length, take, drop,
  arith,
}
use cbm_mentoring_app.Base.Exec.{Result, ok, err}
use cbm_mentoring_app.Base.Text.{Text}

-- crm/auth.py: the act-as-user token of the CRM.
pub record CrmUserCredential : Type 0 where
  pub username : Text
  pub secret : Text

pub data CredentialSealError : Type 0 where
  seal_error : CredentialSealError

-- `AESGCM(key)`, whose `decrypt` is `none` for `InvalidTag`; `json` on the two members, base64 with
-- `validate=True`, and the sixteen bytes of a UUID. Bytes are numbers.
pub record Crypto : Type 0 where
  pub encrypt : Text → Text → Text → Text
  pub decrypt : Text → Text → Text → Option Text
  pub dumps : CrmUserCredential → Text
  pub loads : Text → Option CrmUserCredential
  pub b64encode : Text → Text
  pub b64decode : Text → Option Text
  pub uuid_bytes : ℕ → Text

-- What is relied on: each of them reads back what it wrote, and a ciphertext opens only with the
-- associated data that it was made with.
pub record IsSound (c : Crypto) : Type 0 where
  pub decrypt-encrypt :
      (nonce plaintext aad : Text)
      → c.decrypt nonce (c.encrypt nonce plaintext aad) aad ≡ some plaintext
  pub aad_binds :
      (nonce plaintext aad aad' : Text)
      → aad ≢ aad'
      → c.decrypt nonce (c.encrypt nonce plaintext aad) aad' ≡ none
  pub loads-dumps :
      (credential : CrmUserCredential) → c.loads (c.dumps credential) ≡ some credential
  pub b64decode-b64encode : (bytes : Text) → c.b64decode (c.b64encode bytes) ≡ some bytes
  pub uuid_bytes_injective : (i j : ℕ) → c.uuid_bytes i ≡ c.uuid_bytes j → i ≡ j

-- `_NONCE_LENGTH`
abbrev pub nonce_length : ℕ
nonce_length = 12

abbrev pub or_seal_error {ℓ} : {A : Type ℓ} → Option A → Result CredentialSealError A
or_seal_error none = err seal_error
or_seal_error (some a) = ok a

module _ (c : Crypto) where
  unfoldable pub seal : Text → CrmUserCredential → ℕ → Text
  seal nonce credential session_id =
      c.b64encode (nonce ++ c.encrypt nonce (c.dumps credential) (c.uuid_bytes session_id))

  abbrev pub parsed : Option Text → Option CrmUserCredential
  parsed none = none
  parsed (some plaintext) = c.loads plaintext

  abbrev pub decrypted : ℕ → Option Text → Option Text
  decrypted session_id none = none
  decrypted session_id (some raw) =
      c.decrypt (take nonce_length raw) (drop nonce_length raw) (c.uuid_bytes session_id)

  unfoldable pub open_sealed : Text → ℕ → Result CredentialSealError CrmUserCredential
  open_sealed sealed session_id = or_seal_error (parsed (decrypted session_id (c.b64decode sealed)))

pub take-append : (n : ℕ) (xs ys : Text) → length xs ≡ n → take n (xs ++ ys) ≡ xs
take-append zero [] ys h = refl
take-append zero (x ∷ xs) ys h = absurd (omega (arith, h))
take-append (suc n) [] ys h = absurd (omega (arith, h))
take-append (suc n) (x ∷ xs) ys h = ap (λ t. x ∷ t) (take-append n xs ys (omega (arith, h)))

pub drop-append : (n : ℕ) (xs ys : Text) → length xs ≡ n → drop n (xs ++ ys) ≡ ys
drop-append zero [] ys h = refl
drop-append zero (x ∷ xs) ys h = absurd (omega (arith, h))
drop-append (suc n) [] ys h = absurd (omega (arith, h))
drop-append (suc n) (x ∷ xs) ys h = drop-append n xs ys (omega (arith, h))

module _ (c : Crypto) (sound : IsSound c) (nonce : Text) (credential : CrmUserCredential)
    (session_id : ℕ) (whole : length nonce ≡ nonce_length) where
  abbrev cipher : Text
  cipher = c.encrypt nonce (c.dumps credential) (c.uuid_bytes session_id)

  decrypted-seal :
      (id : ℕ)
      → decrypted c id (c.b64decode (seal c nonce credential session_id))
        ≡ c.decrypt nonce cipher (c.uuid_bytes id)
  unfolding seal
  decrypted-seal id =
      ap (decrypted c id) (sound.b64decode-b64encode (nonce ++ cipher))
      ∙ ap (λ n. c.decrypt n (drop nonce_length (nonce ++ cipher)) (c.uuid_bytes id))
          (take-append nonce_length nonce cipher whole)
      ∙ ap (λ t. c.decrypt nonce t (c.uuid_bytes id)) (drop-append nonce_length nonce cipher whole)

  -- A sealed credential opens for its own session, as it was.
  pub open_sealed-seal :
      open_sealed c (seal c nonce credential session_id) session_id ≡ ok credential
  unfolding open_sealed
  open_sealed-seal =
      ap (λ o. or_seal_error (parsed c o))
        (decrypted-seal session_id
          ∙ sound.decrypt-encrypt nonce (c.dumps credential) (c.uuid_bytes session_id))
      ∙ ap or_seal_error (sound.loads-dumps credential)

  -- Under any other session it does not.
  pub open_sealed-other :
      (id : ℕ)
      → session_id ≢ id
      → open_sealed c (seal c nonce credential session_id) id ≡ err seal_error
  unfolding open_sealed
  open_sealed-other id other =
      ap (λ o. or_seal_error (parsed c o))
        (decrypted-seal id
          ∙ sound.aad_binds nonce (c.dumps credential) (c.uuid_bytes session_id) (c.uuid_bytes id)
              (λ e. other (sound.uuid_bytes_injective session_id id e)))
