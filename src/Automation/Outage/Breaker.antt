-- ===== src/Automation/Outage/Breaker.antt =====
-- src/mentorapp/automation/crm_outage.py: the circuit breaker over every history of the CRM.
use cbm_mentoring_app.Base.{
  ℕ, ◌+◌, ◌<◌, ◌≡◌, Bool, true, false, not, some, is_some, List, [], ◌∷◌, arith, leb, All, String,
}
use cbm_mentoring_app.Automation.Outage.{
  Config, CrmHealthMonitor, new_monitor, availability, record_success, record_failure,
  allow_attempt,
}

-- What a worker process does with its monitor, each with the clock's reading.
pub data Event : Type 0 where
  succeeds : Event
  fails : String → ℕ → Event
  asks : ℕ → Event

-- An independent account of a history: the failures since the last success.
abbrev pub straight_from : ℕ → List Event → ℕ
straight_from n [] = n
straight_from n (succeeds ∷ xs) = straight_from 0 xs
straight_from n (fails _ _ ∷ xs) = straight_from (n + 1) xs
straight_from n (asks _ ∷ xs) = straight_from n xs

abbrev pub straight_failures : List Event → ℕ
straight_failures = straight_from 0

abbrev pub IsNoSuccess : Event → Type 0
IsNoSuccess succeeds = ⊥
IsNoSuccess _ = Unit

-- An attempt is asked for before the moment `t`.
abbrev pub AsksBefore : ℕ → Event → Type 0
AsksBefore t (asks now) = now < t
AsksBefore t _ = Unit

module _ (c : Config) where
  pub step : CrmHealthMonitor → Event → CrmHealthMonitor
  step m succeeds = record_success m
  step m (fails reason now) = record_failure c m reason now
  step m (asks now) = (allow_attempt c m now).1

  pub run : CrmHealthMonitor → List Event → CrmHealthMonitor
  run m [] = m
  run m (x ∷ xs) = run (step m x) xs

  -- The answers to the attempts that were asked for.
  pub admitted : CrmHealthMonitor → List Event → List Bool
  admitted m [] = []
  admitted m (asks now ∷ xs) = (allow_attempt c m now).0 ∷ admitted (step m (asks now)) xs
  admitted m (x ∷ xs) = admitted (step m x) xs

  pub record Tracks (m : CrmHealthMonitor) (n : ℕ) : Type 0 where
    pub counts : m.consecutive_failures ≡ n
    pub open_iff : is_some m.unavailable_since ≡ leb c.failure_threshold n
    pub with_reason : is_some m.unavailable_since ≡ true → is_some m.reason ≡ true
    pub probed : is_some m.last_probe_at ≡ true → is_some m.unavailable_since ≡ true

  abbrev after : ℕ → Event → ℕ
  after n succeeds = 0
  after n (fails _ _) = n + 1
  after n (asks _) = n

  step-Tracks :
      (m : CrmHealthMonitor) (n : ℕ) (x : Event)
      → 0 < c.failure_threshold
      → Tracks m n
      → Tracks (step m x) (after n x)
  unfolding step record_success record_failure allow_attempt
  step-Tracks m n succeeds h t = ground arith
  step-Tracks m n (fails reason now) h t = ground arith
  step-Tracks m n (asks now) h t = ground arith

  run-Tracks :
      (m : CrmHealthMonitor) (n : ℕ) (xs : List Event)
      → 0 < c.failure_threshold
      → Tracks m n
      → Tracks (run m xs) (straight_from n xs)
  unfolding run
  run-Tracks m n [] h t = t
  run-Tracks m n (succeeds ∷ xs) h t =
      run-Tracks (step m succeeds) 0 xs h (step-Tracks m n succeeds h t)
  run-Tracks m n (fails reason now ∷ xs) h t =
      run-Tracks (step m (fails reason now)) (n + 1) xs h (step-Tracks m n (fails reason now) h t)
  run-Tracks m n (asks now ∷ xs) h t =
      run-Tracks (step m (asks now)) n xs h (step-Tracks m n (asks now) h t)

  new_monitor-Tracks : 0 < c.failure_threshold → Tracks new_monitor 0
  unfolding new_monitor
  new_monitor-Tracks h = ground arith

  pub history-Tracks :
      (xs : List Event)
      → 0 < c.failure_threshold
      → Tracks (run new_monitor xs) (straight_failures xs)
  history-Tracks xs h = run-Tracks new_monitor 0 xs h (new_monitor-Tracks h)

  -- With a positive threshold, after any history of a new monitor, the CRM is judged unavailable
  -- exactly when the failures since the last success have reached the threshold, and then the
  -- judgement carries both a since-when and a reason.
  pub unavailable_iff :
      (xs : List Event)
      → 0 < c.failure_threshold
      → let state = availability (run new_monitor xs) in
        (state.available ≡ not (leb c.failure_threshold (straight_failures xs)))
        × (is_some state.unavailable_since ≡ not state.available)
        × (is_some state.reason ≡ not state.available)
  unfolding availability
  unavailable_iff xs h = ground (arith, history-Tracks xs h)

  -- An open breaker that let its last probe through at `t`.
  record Probed (m : CrmHealthMonitor) (t : ℕ) : Type 0 where
    open_now : is_some m.unavailable_since ≡ true
    stamped : m.last_probe_at ≡ some t

  probe-Probed :
      (m : CrmHealthMonitor) (t : ℕ)
      → is_some m.unavailable_since ≡ true
      → (allow_attempt c m t).0 ≡ true
      → Probed (step m (asks t)) t
  unfolding step allow_attempt
  probe-Probed m t is_open h = ground arith

  fails-Probed :
      (m : CrmHealthMonitor) (t now : ℕ) (reason : String)
      → Probed m t
      → Probed (step m (fails reason now)) t
  unfolding step record_failure
  fails-Probed m t now reason p = ground arith

  asks-Probed :
      (m : CrmHealthMonitor) (t now : ℕ)
      → Probed m t
      → now < t + c.probe_cooldown
      → (step m (asks now) ≡ m) × ((allow_attempt c m now).0 ≡ false)
  unfolding step allow_attempt
  asks-Probed m t now p h = ground arith

  abbrev pub AllRefused : List Bool → Type 0
  AllRefused = All (λ b. b ≡ false)

  refused_until :
      (m : CrmHealthMonitor) (t : ℕ) (xs : List Event)
      → Probed m t
      → All IsNoSuccess xs
      → All (AsksBefore (t + c.probe_cooldown)) xs
      → AllRefused (admitted m xs)
  unfolding admitted
  refused_until m t [] p q early = tt
  refused_until m t (succeeds ∷ xs) p q early = absurd q.0
  refused_until m t (fails reason now ∷ xs) p q early =
      refused_until (step m (fails reason now)) t xs (fails-Probed m t now reason p) q.1 early.1
  refused_until m t (asks now ∷ xs) p q early =
      let (same, refused) = asks-Probed m t now p early.0 in
      (refused, refused_until (step m (asks now)) t xs (rw same p) q.1 early.1)

  -- When an open breaker lets a probe through at `t`, then until a call succeeds, whatever else
  -- fails in between, every attempt that is asked for before `t` plus the cooldown is refused.
  pub one_probe_per_cooldown :
      (m : CrmHealthMonitor) (t : ℕ) (xs : List Event)
      → is_some m.unavailable_since ≡ true
      → (allow_attempt c m t).0 ≡ true
      → All IsNoSuccess xs
      → All (AsksBefore (t + c.probe_cooldown)) xs
      → AllRefused (admitted (step m (asks t)) xs)
  one_probe_per_cooldown m t xs is_open let_through q early =
      refused_until (step m (asks t)) t xs (probe-Probed m t is_open let_through) q early
