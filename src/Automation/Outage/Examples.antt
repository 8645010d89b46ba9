-- ===== src/Automation/Outage/Examples.antt =====
-- src/mentorapp/automation/crm_outage.py: three timeouts open the breaker, and a submit is kept.
use cbm_mentoring_app.Base.{
  string_eq, String, ◌≡◌, refl, true, false, not, Option, none, some, is_some, List, [], ◌∷◌, leb,
  arith,
}
use cbm_mentoring_app.Base.Dict
use cbm_mentoring_app.Automation.Outage.{
  default_config, CrmHealthMonitor, new_monitor, availability, allow_attempt, answered, CrmAnswer,
  CrmSnapshot, degraded_crm_read, submit_or_preserve, Desk,
}
use cbm_mentoring_app.Automation.Outage.Drafts.{DraftKey}
use cbm_mentoring_app.Automation.Outage.Breaker.{
  Event, fails, asks, run, step, admitted, AllRefused, straight_failures, unavailable_iff,
  one_probe_per_cooldown,
}
use cbm_mentoring_app.Automation.Outage.Reads.{IsHonest, degraded_crm_read-IsHonest}
use cbm_mentoring_app.Automation.Outage.Submits.{IsKept, no_work_lost}

abbrev timeouts : List Event
timeouts = fails "timeout" 10 ∷ fails "timeout" 20 ∷ asks 25 ∷ fails "refused" 30 ∷ []

unavailable_iff_example :
    let state = availability (run default_config new_monitor timeouts) in
    (state.available ≡ not (leb 3 (straight_failures timeouts)))
    × (is_some state.unavailable_since ≡ not state.available)
    × (is_some state.reason ≡ not state.available)
unavailable_iff_example = unavailable_iff default_config timeouts (omega arith)

-- The breaker opened at thirty.
abbrev opened : CrmHealthMonitor
opened = record {
  consecutive_failures = 3;
  unavailable_since = some 30;
  last_probe_at = none;
  reason = some "refused";
}

probe_allowed : (allow_attempt default_config opened 30_000_030).0 ≡ true
unfolding allow_attempt
probe_allowed = refl

one_probe_per_cooldown_example : AllRefused default_config (
    admitted default_config
      (step default_config opened (asks 30_000_030))
      (asks 30_000_031 ∷ fails "timeout" 30_000_040 ∷ asks 60_000_029 ∷ []))
one_probe_per_cooldown_example =
    one_probe_per_cooldown default_config opened 30_000_030
      (asks 30_000_031 ∷ fails "timeout" 30_000_040 ∷ asks 60_000_029 ∷ []) refl probe_allowed
      (tt, (tt, (tt, tt))) (omega arith, (tt, (omega arith, tt)))

abbrev snapshot : Option (CrmSnapshot String)
snapshot = some (record { content = "three mentees"; captured_at = 5 })

degraded_crm_read-IsHonest_example :
    IsHonest {A = String} {X = String} default_config opened
      (answered "four mentees")
      snapshot
      40
      (degraded_crm_read default_config opened (answered "four mentees") snapshot 40).0
    × ((allow_attempt default_config opened 40).0 ≡ false
        → ((read' : CrmAnswer String String)
            → degraded_crm_read default_config opened (answered "four mentees") snapshot 40
              ≡ degraded_crm_read default_config opened read' snapshot 40)
          × ((degraded_crm_read {A = String} {X = String} default_config opened
                (answered "four mentees")
                snapshot
                40).1
              ≡ opened))
degraded_crm_read-IsHonest_example =
    degraded_crm_read-IsHonest {A = String} {X = String} default_config opened
      (answered "four mentees") snapshot 40

abbrev desk : Desk String
desk = record { monitor = opened; drafts = [] }

abbrev session_note : DraftKey
session_note = record { author_user_id = "u-7"; target_kind = "sessionNote"; target_ref = "s-3" }

no_work_lost_example :
    let (outcome, desk') =
      submit_or_preserve {A = String} {X = String} default_config desk session_note "a long note"
        (answered "saved")
        40 in
    IsKept {A = String} {X = String} default_config desk session_note "a long note"
      (answered "saved")
      40
      outcome
      desk'.drafts
unfolding Dict.get
no_work_lost_example =
    no_work_lost {A = String} {X = String} default_config desk session_note "a long note"
      (answered "saved") 40 (λ k d h. ground (arith, h))
