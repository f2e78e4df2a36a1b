-- ===== src/MissionBudget.antt =====
-- The budget guardrails of a mission (app/orchestration/budget.py), over `UsageTotals` of
-- app/database/repositories.py. Costs are floats in the source, scaled to naturals here.
pub mod Retries
use mr_enderson.Base.{
  ℕ, ◌+◌, ◌<◌, ◌≡◌, ◌⊎◌, Bool, false, ◌&&◌, not, Option, none, some, arith, leb, nat_beq,
  if◌then◌else◌,
}

-- The totals that the guardrails read.
pub record UsageTotals : Type 0 where
  pub api_calls : ℕ
  pub total_tokens : ℕ
  pub estimated_cost_usd : Option ℕ

-- The limits of `Settings` that `check_budget` reads; a limit of 0 calls or tokens is no limit.
pub record BudgetLimits : Type 0 where
  pub max_api_calls_per_mission : ℕ
  pub max_tokens_per_mission : ℕ
  pub max_estimated_cost_per_mission_usd : Option ℕ
  pub daily_cost_limit_usd : Option ℕ

-- What `reserved_totals` reads of `Settings`.
pub record Reservation : Type 0 where
  pub budget_reserved_output_tokens : ℕ
  pub budget_reservation_safety_margin_tokens : ℕ

-- The reason that `check_budget` returns as a text.
pub data BudgetReason : Type 0 where
  max_api_calls max_tokens max_estimated_cost daily_cost_limit : BudgetReason

-- A limit that is set, and reached.
abbrev pub reached : ℕ → ℕ → Bool
reached most used = not (nat_beq most 0) && leb most used

abbrev pub cost_reached : Option ℕ → Option ℕ → Bool
cost_reached (some most) (some used) = leb most used
cost_reached _ _ = false

unfoldable pub check_budget :
    UsageTotals → (daily_cost_usd : Option ℕ) → BudgetLimits → Option BudgetReason
check_budget totals daily_cost_usd settings =
    if reached settings.max_api_calls_per_mission totals.api_calls
    then some max_api_calls
    else if reached settings.max_tokens_per_mission totals.total_tokens
    then some max_tokens
    else if cost_reached settings.max_estimated_cost_per_mission_usd totals.estimated_cost_usd
    then some max_estimated_cost
    else if cost_reached settings.daily_cost_limit_usd daily_cost_usd
    then some daily_cost_limit
    else none

unfoldable pub reserved_totals :
    UsageTotals → (in_flight_calls in_flight_tokens : ℕ) → Reservation → UsageTotals
reserved_totals committed in_flight_calls in_flight_tokens reservation = record {
  api_calls = committed.api_calls + in_flight_calls + 2;
  total_tokens =
      committed.total_tokens + in_flight_tokens + reservation.budget_reserved_output_tokens
      + reservation.budget_reservation_safety_margin_tokens;
  estimated_cost_usd = committed.estimated_cost_usd;
}
