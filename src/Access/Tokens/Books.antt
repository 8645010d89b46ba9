-- ===== src/Access/Tokens/Books.antt =====
-- src/mentorapp/access/tokens.py: the books of a store, and that single writes keep them.
use cbm_mentoring_app.Base.{
  ℕ, ◌+◌, ◌≤◌, ◌≡◌, sym, ◌∙◌, Bool, true, false, ◌&&◌, none, some, List, arith, ◌==◌, nat_eq,
  if◌then◌else◌, count_of, count_of-append,
}
use cbm_mentoring_app.Access.Tokens.Store.{
  TokenActionRecord, EventName, minted, redeemed, revoked, TokenAuditEvent, TokenActionStore,
}
use cbm_mentoring_app.Access.Tokens.{Signing}
use cbm_mentoring_app.Access.Tokens.Effects.{event, written, load-written, audit-written}

abbrev pub is_redeemed : EventName → Bool
is_redeemed redeemed = true
is_redeemed _ = false

-- An audit event that says a use of the token was spent.
abbrev pub use_of : ℕ → TokenAuditEvent → Bool
use_of id e = id == e.token_action_id && is_redeemed e.event_name

-- The uses of a token that the audit trail records.
abbrev pub uses : ℕ → List TokenAuditEvent → ℕ
uses id = count_of (use_of id)

module _ (store : TokenActionStore) where
  pub record Accounted (s : store.State) : Type 0 where
    pub keyed : (id : ℕ) (r : TokenActionRecord) → store.load s id ≡ some r → r.token_action_id ≡ id
    pub within :
        (id : ℕ) (r : TokenActionRecord) → store.load s id ≡ some r → r.use_count ≤ r.max_uses
    pub counted :
        (id : ℕ) (r : TokenActionRecord)
        → store.load s id ≡ some r
        → uses id (store.audit s) ≡ r.use_count
    pub unknown : (id : ℕ) → store.load s id ≡ none → uses id (store.audit s) ≡ 0

  module _ (c : Signing) where
    pub uses-written :
        (s : store.State) (r : TokenActionRecord) (e : TokenAuditEvent) (id : ℕ)
        → uses id (store.audit (written store c s r e))
          ≡ uses id (store.audit s) + (if use_of id e then 1 else 0)
    uses-written s r e id = rw (audit-written store c s r e, count_of-append) (omega arith)

    pub written-Accounted :
        (s : store.State) (r r' : TokenActionRecord) (name : EventName) (stamp : ℕ)
        → Accounted s
        → store.load s r'.token_action_id ≡ some r
        → r'.use_count ≤ r'.max_uses
        → r'.use_count ≡ r.use_count + (if is_redeemed name then 1 else 0)
        → Accounted (written store c s r' (event r'.token_action_id name stamp))
    written-Accounted s r r' name stamp a here fits more = record {
      keyed = λ id x h.
          ground (
            arith,
            load-written store c s r' (event r'.token_action_id name stamp) id,
            a.keyed id x,
          );
      within = λ id x h. ground (
        arith,
        load-written store c s r' (event r'.token_action_id name stamp) id,
        a.within id x,
      );
      counted = λ id x h. ground (
        arith,
        load-written store c s r' (event r'.token_action_id name stamp) id,
        uses-written s r' (event r'.token_action_id name stamp) id,
        a.counted id x,
        a.counted r'.token_action_id r here,
      );
      unknown = λ id h. ground (
        arith,
        load-written store c s r' (event r'.token_action_id name stamp) id,
        uses-written s r' (event r'.token_action_id name stamp) id,
        a.unknown id,
      );
    }

    pub fresh-Accounted :
        (s : store.State) (r : TokenActionRecord) (stamp : ℕ)
        → Accounted s
        → store.load s r.token_action_id ≡ none
        → r.use_count ≡ 0
        → Accounted (written store c s r (event r.token_action_id minted stamp))
    fresh-Accounted s r stamp a free unused = record {
      keyed = λ id x h. ground (arith, load-written store c s r e id, a.keyed id x);
      within = λ id x h. ground (arith, load-written store c s r e id, a.within id x);
      counted = λ id x h. ground (
        arith,
        load-written store c s r e id,
        uses-written s r e id,
        a.counted id x,
        a.unknown r.token_action_id free,
      );
      unknown = λ id h.
          ground (arith, load-written store c s r e id, uses-written s r e id, a.unknown id);
    }
      where
        e : TokenAuditEvent
        e = event r.token_action_id minted stamp

    pub noted-Accounted :
        (s : store.State) (id : ℕ) (stamp : ℕ)
        → Accounted s
        → Accounted (store.append_audit s (event id revoked stamp))
    noted-Accounted s j stamp a = record {
      keyed = λ id x h. a.keyed id x (sym (store.load-append_audit s e id) ∙ h);
      within = λ id x h. a.within id x (sym (store.load-append_audit s e id) ∙ h);
      counted = λ id x h. noted id ∙ a.counted id x (sym (store.load-append_audit s e id) ∙ h);
      unknown = λ id h. noted id ∙ a.unknown id (sym (store.load-append_audit s e id) ∙ h);
    }
      where
        e : TokenAuditEvent
        e = event j revoked stamp

        noted : (id : ℕ) → uses id (store.audit (store.append_audit s e)) ≡ uses id (store.audit s)
        noted id = rw (store.audit-append_audit, count_of-append) (ground arith)
