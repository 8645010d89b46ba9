-- ===== src/Automation/Outage/Reads.antt =====
-- src/mentorapp/automation/crm_outage.py: `degraded_crm_read` on every branch.
use cbm_mentoring_app.Base.{
  ℕ, String, ◌≡◌, ◌⊎◌, refl, true, false, Option, none, some, arith, ◌==◌, string_eq,
}
use cbm_mentoring_app.Automation.Outage.{
  Config, CrmHealthMonitor, allow_attempt, CrmAnswer, answered, unavailable, raised, CrmSnapshot,
  CrmReadResult, fresh_read, stale_read, unavailable_read, propagated, degraded_crm_read, or_silent,
  stated_reason, failure_reason, CrmAvailability, availability, record_failure,
}

silent_text_lem : (or_silent none == "") ≡ false
unfolding string_eq
silent_text_lem = refl

or_silent_lem : (r : Option String) → (or_silent r == "") ≡ false
or_silent_lem none = silent_text_lem
or_silent_lem (some text) = ground (arith, silent_text_lem)

stated_reason_lem :
    (r : Option String) (state : CrmAvailability) → (stated_reason r state == "") ≡ false
stated_reason_lem none state = or_silent_lem state.reason
stated_reason_lem (some text) state = ground (arith, or_silent_lem state.reason)

module _ {A X : Type 0} (c : Config) where
  -- The CRM gave no answer: it was not asked, or it was asked and did not answer.
  abbrev pub NoAnswer : CrmHealthMonitor → CrmAnswer A X → ℕ → Type 0
  NoAnswer m read now =
      ((allow_attempt c m now).0 ≡ false)
      ⊎ ((allow_attempt c m now).0 ≡ true) × ((text : String) × (read ≡ unavailable text))

  -- What a result says of the CRM and of the snapshot.
  abbrev pub IsHonest :
      CrmHealthMonitor → CrmAnswer A X → Option (CrmSnapshot A) → ℕ → CrmReadResult A X → Type 0
  IsHonest m read snapshot now (fresh_read a) =
      ((allow_attempt c m now).0 ≡ true) × (read ≡ answered a)
  IsHonest m read snapshot now (stale_read a at since reason) =
      (snapshot ≡ some (record { content = a; captured_at = at }))
      × NoAnswer m read now
      × ((reason == "") ≡ false)
  IsHonest m read snapshot now (unavailable_read since reason) =
      (snapshot ≡ none) × NoAnswer m read now × ((reason == "") ≡ false)
  IsHonest m read snapshot now (propagated x) =
      ((allow_attempt c m now).0 ≡ true) × (read ≡ raised x)

  read-IsHonest :
      (m : CrmHealthMonitor) (read : CrmAnswer A X) (snapshot : Option (CrmSnapshot A)) (now : ℕ)
      → IsHonest m read snapshot now (degraded_crm_read c m read snapshot now).0
  unfolding degraded_crm_read
  read-IsHonest m (answered a) none now =
      ground (arith, stated_reason_lem none (availability (allow_attempt c m now).1))
  read-IsHonest m (answered a) (some s) now =
      ground (arith, stated_reason_lem none (availability (allow_attempt c m now).1))
  read-IsHonest m (unavailable text) none now = ground (
    arith,
    stated_reason_lem none (availability (allow_attempt c m now).1),
    stated_reason_lem (some (failure_reason text))
        (availability (record_failure c (allow_attempt c m now).1 (failure_reason text) now)),
  )
  read-IsHonest m (unavailable text) (some s) now = ground (
    arith,
    stated_reason_lem none (availability (allow_attempt c m now).1),
    stated_reason_lem (some (failure_reason text))
        (availability (record_failure c (allow_attempt c m now).1 (failure_reason text) now)),
  )
  read-IsHonest m (raised x) none now =
      ground (arith, stated_reason_lem none (availability (allow_attempt c m now).1))
  read-IsHonest m (raised x) (some s) now =
      ground (arith, stated_reason_lem none (availability (allow_attempt c m now).1))

  short_circuit :
      (m : CrmHealthMonitor) (read read' : CrmAnswer A X) (snapshot : Option (CrmSnapshot A))
      (now : ℕ)
      → (allow_attempt c m now).0 ≡ false
      → (degraded_crm_read c m read snapshot now ≡ degraded_crm_read c m read' snapshot now)
        × ((degraded_crm_read c m read snapshot now).1 ≡ m)
  unfolding degraded_crm_read allow_attempt
  short_circuit m read read' snapshot now h = ground arith

  -- A read that passes for live is what the CRM answered to an admitted call; stale data is the
  -- snapshot that was given, and only when the CRM gave no answer; the outage without data is
  -- reported only without a snapshot and without an answer; both carry a reason that is not empty.
  -- While the open breaker refuses the attempt, the outcome and the monitor do not depend on what
  -- the CRM would answer, and the monitor stays as it is.
  pub degraded_crm_read-IsHonest :
      (m : CrmHealthMonitor) (read : CrmAnswer A X) (snapshot : Option (CrmSnapshot A)) (now : ℕ)
      → IsHonest m read snapshot now (degraded_crm_read c m read snapshot now).0
        × ((allow_attempt c m now).0 ≡ false
            → ((read' : CrmAnswer A X)
                → degraded_crm_read c m read snapshot now
                  ≡ degraded_crm_read c m read' snapshot now)
              × ((degraded_crm_read c m read snapshot now).1 ≡ m))
  degraded_crm_read-IsHonest m read snapshot now = (
    read-IsHonest m read snapshot now,
    λ refused. (
      λ read'. (short_circuit m read read' snapshot now refused).0,
      (short_circuit m read read snapshot now refused).1,
    ),
  )
