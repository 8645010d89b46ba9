-- ===== src/Access/Tokens/Store.antt =====
-- src/mentorapp/access/tokens.py: the token record, its audit trail, and the seam `TokenActionStore`
-- with its in-memory form.
use cbm_mentoring_app.Base.{
  ℕ, String, ◌≡◌, refl, Option, some, List, [], ◌∷◌, ◌++◌, nat_eq, ◌==◌, if◌then◌else◌,
}
use cbm_mentoring_app.Base.Dict
use cbm_mentoring_app.Base.Dict.{Dict, get-put}

-- Times are microseconds since the epoch, identifiers the numbers that a UUID stands for.
pub record TokenActionRecord : Type 0 where
  pub token_action_id : ℕ
  pub token_identity : String
  pub action_name : String
  pub expires_at : ℕ
  pub max_uses : ℕ
  pub user_id : Option ℕ
  pub use_count : ℕ
  pub revoked_at : Option ℕ

pub data EventName : Type 0 where
  minted redeemed revoked : EventName

pub record TokenAuditEvent : Type 0 where
  pub token_action_id : ℕ
  pub event_name : EventName
  pub occurred_at : ℕ

-- `TokenActionStore`: loads see the last save, and the audit trail only grows at its end.
pub record TokenActionStore : Type 1 where
  pub State : Type 0
  pub load : State → ℕ → Option TokenActionRecord
  pub save : State → TokenActionRecord → State
  pub append_audit : State → TokenAuditEvent → State
  pub audit : State → List TokenAuditEvent
  pub load-save :
      (s : State) (r : TokenActionRecord) (id : ℕ)
      → load (save s r) id ≡ (if id == r.token_action_id then some r else load s id)
  pub load-append_audit :
      (s : State) (e : TokenAuditEvent) (id : ℕ) → load (append_audit s e) id ≡ load s id
  pub audit-save : (s : State) (r : TokenActionRecord) → audit (save s r) ≡ audit s
  pub audit-append_audit :
      (s : State) (e : TokenAuditEvent) → audit (append_audit s e) ≡ audit s ++ e ∷ []

-- `InMemoryTokenActionStore`
pub record Memory : Type 0 where
  pub records : Dict ℕ TokenActionRecord
  pub audit : List TokenAuditEvent

pub in_memory_load-save :
    (s : Memory) (r : TokenActionRecord) (id : ℕ)
    → Dict.get (Dict.put s.records r.token_action_id r) id
      ≡ (if id == r.token_action_id then some r else Dict.get s.records id)
in_memory_load-save s r id = get-put s.records r.token_action_id id r

abbrev pub in_memory : TokenActionStore
in_memory = record {
  State = Memory;
  load = λ s id. Dict.get s.records id;
  save = λ s r. record s { records = Dict.put s.records r.token_action_id r };
  append_audit = λ s e. record s { audit = s.audit ++ e ∷ [] };
  audit = λ s. s.audit;
  load-save = in_memory_load-save;
  load-append_audit = λ s e id. refl;
  audit-save = λ s r. refl;
  audit-append_audit = λ s e. refl;
}
