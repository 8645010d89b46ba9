-- ===== src/Automation/Outage.antt =====
-- src/mentorapp/automation/crm_outage.py: the circuit breaker, degraded reads, and submits that
-- preserve. The clock's reading `now` is an argument; a read or a submit is the outcome that the
-- CRM gives to it.
pub mod Drafts
pub mod Breaker
pub mod Reads
pub mod Submits
pub mod Recovery
mod Examples
use cbm_mentoring_app.Base.{
  ℕ, ◌+◌, ◌*◌, String, Bool, true, false, ◌&&◌, not, Option, none, some, is_some, or_else, leb,
  ◌==◌, string_eq, if◌then◌else◌,
}
use Drafts.{DraftKey, PreservedDraft, DraftStore, preserve_draft, discard_draft}

pub record Config : Type 0 where
  pub failure_threshold : ℕ
  pub probe_cooldown : ℕ

-- The deployment values: three failures, thirty seconds in microseconds.
abbrev pub default_config : Config
default_config = record { failure_threshold = 3; probe_cooldown = 30_000_000 }

pub record CrmAvailability : Type 0 where
  pub available : Bool
  pub unavailable_since : Option ℕ
  pub reason : Option String

pub record CrmHealthMonitor : Type 0 where
  pub consecutive_failures : ℕ
  pub unavailable_since : Option ℕ
  pub last_probe_at : Option ℕ
  pub reason : Option String

unfoldable pub new_monitor : CrmHealthMonitor
new_monitor = record {
  consecutive_failures = 0;
  unavailable_since = none;
  last_probe_at = none;
  reason = none;
}

unfoldable pub availability : CrmHealthMonitor → CrmAvailability
availability m = elim m.unavailable_since [
  | none ↦ record { available = true; unavailable_since = none; reason = none }
  | some since ↦ record { available = false; unavailable_since = some since; reason = m.reason }
]

unfoldable pub record_success : CrmHealthMonitor → CrmHealthMonitor
record_success m = record {
  consecutive_failures = 0;
  unavailable_since = none;
  last_probe_at = none;
  reason = none;
}

module _ (c : Config) where
  -- The answer, and the monitor with its probe stamped where one is let through.
  unfoldable pub allow_attempt : CrmHealthMonitor → ℕ → Bool × CrmHealthMonitor
  allow_attempt m now = elim m.unavailable_since [
    | none ↦ (true, m)
    | some since ↦
        if leb (or_else m.last_probe_at since + c.probe_cooldown) now
        then (true, record m { last_probe_at = some now })
        else (false, m)
  ]

  unfoldable pub record_failure : CrmHealthMonitor → String → ℕ → CrmHealthMonitor
  record_failure m reason now =
      let failures = m.consecutive_failures + 1 in
      let opens = not (is_some m.unavailable_since) && leb c.failure_threshold failures in
      record m {
        consecutive_failures = failures;
        reason = some reason;
        unavailable_since = if opens then some now else m.unavailable_since;
      }

-- What the CRM answers to one call: data, `CrmUnavailableError` with its text, or another exception.
pub data CrmAnswer (A X : Type 0) : Type 0 where
  answered : A → CrmAnswer A X
  unavailable : String → CrmAnswer A X
  raised : X → CrmAnswer A X

pub record CrmSnapshot (A : Type 0) : Type 0 where
  pub content : A
  pub captured_at : ℕ

-- `FreshRead | StaleRead | UnavailableRead`; `propagated` is an exception that is no outage.
pub data CrmReadResult (A X : Type 0) : Type 0 where
  fresh_read : A → CrmReadResult A X
  stale_read : A → ℕ → Option ℕ → String → CrmReadResult A X
  unavailable_read : Option ℕ → String → CrmReadResult A X
  propagated : X → CrmReadResult A X

-- `str(exc) or "CRM did not answer"`
abbrev pub failure_reason : String → String
failure_reason text = if text == "" then "CRM did not answer" else text

-- `reason or "The CRM is not answering."`: an empty text is no reason either.
abbrev pub or_silent : Option String → String
or_silent none = "The CRM is not answering."
or_silent (some text) = if text == "" then "The CRM is not answering." else text

-- `reason or state.reason or ...`
abbrev pub stated_reason : Option String → CrmAvailability → String
stated_reason none state = or_silent state.reason
stated_reason (some text) state = if text == "" then or_silent state.reason else text

module _ {A X : Type 0} (c : Config) where
  degraded : CrmHealthMonitor → Option String → Option (CrmSnapshot A) → CrmReadResult A X
  degraded m reason none =
      let state = availability m in
      unavailable_read state.unavailable_since (stated_reason reason state)
  degraded m reason (some snapshot) =
      let state = availability m in
      stale_read snapshot.content snapshot.captured_at state.unavailable_since
        (stated_reason reason state)

  attempt_read :
      CrmHealthMonitor
      → CrmAnswer A X
      → Option (CrmSnapshot A)
      → ℕ
      → CrmReadResult A X × CrmHealthMonitor
  attempt_read m (answered a) snapshot now = (fresh_read a, record_success m)
  attempt_read m (unavailable text) snapshot now =
      let m' = record_failure c m (failure_reason text) now in
      (degraded m' (some (failure_reason text)) snapshot, m')
  attempt_read m (raised x) snapshot now = (propagated x, m)

  -- `read` is what the CRM would answer now; an open breaker does not ask.
  unfoldable pub degraded_crm_read :
      CrmHealthMonitor
      → CrmAnswer A X
      → Option (CrmSnapshot A)
      → ℕ
      → CrmReadResult A X × CrmHealthMonitor
  unfolding degraded attempt_read allow_attempt availability record_success record_failure
  degraded_crm_read m read snapshot now =
      let (allowed, m') = allow_attempt c m now in
      if allowed then attempt_read m' read snapshot now else (degraded m' none snapshot, m')

-- `SubmitAccepted | DraftPreserved`
pub data SubmitOutcome (A X C : Type 0) : Type 0 where
  accepted : A → SubmitOutcome A X C
  draft_preserved : PreservedDraft C → Option ℕ → String → SubmitOutcome A X C
  propagated : X → SubmitOutcome A X C

pub record Desk (C : Type 0) : Type 0 where
  pub monitor : CrmHealthMonitor
  pub drafts : DraftStore C

module _ {A X C : Type 0} (c : Config) where
  preserve :
      CrmHealthMonitor
      → DraftStore C
      → DraftKey
      → C
      → Option String
      → ℕ
      → SubmitOutcome A X C × Desk C
  preserve m store key content reason now =
      let state = availability m in
      let why = stated_reason reason state in
      let (draft, store') = preserve_draft store key content why now in
      (draft_preserved draft state.unavailable_since why, record { monitor = m; drafts = store' })

  attempt_submit :
      CrmHealthMonitor
      → DraftStore C
      → DraftKey
      → C
      → CrmAnswer A X
      → ℕ
      → SubmitOutcome A X C × Desk C
  unfolding preserve
  attempt_submit m store key content (answered a) now =
      (accepted a, record { monitor = record_success m; drafts = discard_draft store key })
  attempt_submit m store key content (unavailable text) now =
      let m' = record_failure c m (failure_reason text) now in
      preserve m' store key content (some (failure_reason text)) now
  attempt_submit m store key content (raised x) now =
      (propagated x, record { monitor = m; drafts = store })

  unfoldable pub submit_or_preserve :
      Desk C → DraftKey → C → CrmAnswer A X → ℕ → SubmitOutcome A X C × Desk C
  unfolding preserve attempt_submit allow_attempt availability record_success record_failure
  submit_or_preserve desk key content submit now =
      let (allowed, m) = allow_attempt c desk.monitor now in
      if allowed
      then attempt_submit m desk.drafts key content submit now
      else preserve m desk.drafts key content none now
