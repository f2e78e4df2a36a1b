-- ===== src/Examples/Missions.antt =====
-- The guardrails of a mission at concrete totals.
use mr_enderson.Base.{◌≡◌, refl, none, some, List, [], ◌∷◌, ◌++◌}
use mr_enderson.MissionBudget.{
  UsageTotals, BudgetLimits, Reservation, check_budget, reserved_totals,
}
use mr_enderson.MissionBudget.Retries.{ModelUsage, budget_stopped_reason, run_retries}

abbrev totals : UsageTotals
totals = record { api_calls = 10; total_tokens = 50000; estimated_cost_usd = some 3 }

abbrev limits : BudgetLimits
limits = record {
  max_api_calls_per_mission = 40;
  max_tokens_per_mission = 200000;
  max_estimated_cost_per_mission_usd = some 9;
  daily_cost_limit_usd = none;
}

abbrev reservation : Reservation
reservation = record {
  budget_reserved_output_tokens = 4096;
  budget_reservation_safety_margin_tokens = 2000;
}

-- The events of an attempt: a worker call, whose total is given, and its QA call.
abbrev attempt : List ModelUsage
attempt =
    record { input_tokens = some 900; output_tokens = some 2100; total_tokens = some 3000 }
    ∷ record { input_tokens = some 1000; output_tokens = some 200; total_tokens = none }
    ∷ []

-- The second of these retries is stopped: 13 + 2 calls would reach the limit of 15.
abbrev tight : BudgetLimits
tight = record limits { max_api_calls_per_mission = 15 }

one_retry :
    run_retries (some totals) tight reservation attempt (attempt ∷ attempt ∷ [])
    ≡ attempt ++ attempt
unfolding run_retries budget_stopped_reason check_budget reserved_totals
one_retry = refl
