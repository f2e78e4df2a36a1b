-- ===== src/MissionBudget/Retries.antt =====
-- The reservation check before each retry in the loop of `run_worker_with_qa`
-- (app/orchestration/evaluator.py), over the token counts of `ModelUsage` (app/agents/usage.py).
use mr_enderson.Base.{
  ℕ, ◌+◌, ◌≤◌, Option, none, some, List, [], ◌∷◌, ◌++◌, length, nat_beq, if◌then◌else◌,
}
use mr_enderson.MissionBudget.{
  UsageTotals, BudgetLimits, Reservation, BudgetReason, check_budget, reserved_totals,
}

-- What the loop reads of a usage event.
pub record ModelUsage : Type 0 where
  pub input_tokens : Option ℕ
  pub output_tokens : Option ℕ
  pub total_tokens : Option ℕ

-- `n or 0`
abbrev pub or_zero : Option ℕ → ℕ
or_zero none = 0
or_zero (some n) = n

-- The total that the event gives, or where that is absent or 0 the sum of its parts.
abbrev pub event_tokens : ModelUsage → ℕ
event_tokens e =
    if nat_beq (or_zero e.total_tokens) 0
    then or_zero e.input_tokens + or_zero e.output_tokens
    else or_zero e.total_tokens

abbrev pub in_flight_tokens : List ModelUsage → ℕ
in_flight_tokens [] = 0
in_flight_tokens (e ∷ es) = event_tokens e + in_flight_tokens es

-- Why the budget stops the next retry, if it does; without the mission's usage there is no check.
unfoldable pub budget_stopped_reason :
    Option UsageTotals
    → (usage_events : List ModelUsage) → BudgetLimits
    → Reservation
    → Option BudgetReason
unfolding check_budget reserved_totals
budget_stopped_reason none usage_events limits reservation = none
budget_stopped_reason (some mission_usage) usage_events limits reservation =
    check_budget
      (reserved_totals mission_usage (length usage_events) (in_flight_tokens usage_events)
        reservation)
      none limits

-- The usage events of the task when its loop ends. The list has the events of each further attempt
-- that the verdicts and the other conditions of the loop ask for.
unfoldable pub run_retries :
    Option UsageTotals
    → BudgetLimits
    → Reservation
    → (usage_events : List ModelUsage) → List (List ModelUsage)
    → List ModelUsage
unfolding budget_stopped_reason
run_retries mission_usage limits reservation usage_events [] = usage_events
run_retries mission_usage limits reservation usage_events (next ∷ rest) =
    let more = run_retries mission_usage limits reservation (usage_events ++ next) rest in
    elim (budget_stopped_reason mission_usage usage_events limits reservation) [
      | some reason ↦ usage_events
      | none ↦ more
    ]

-- The mission's totals with these events on top of them.
abbrev pub with_events : UsageTotals → List ModelUsage → UsageTotals
with_events totals events = record totals {
  api_calls = totals.api_calls + length events;
  total_tokens = totals.total_tokens + in_flight_tokens events;
}

-- An attempt that stays within what is reserved for it: a worker call and its QA call, the reserved
-- output and the margin.
abbrev pub StaysWithin : Reservation → List ModelUsage → Type 0
StaysWithin reservation events =
    (length events ≤ 2)
    × (in_flight_tokens events
        ≤ reservation.budget_reserved_output_tokens
          + reservation.budget_reservation_safety_margin_tokens)
