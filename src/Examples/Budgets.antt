-- ===== src/Examples/Budgets.antt =====
-- A budget of retries at concrete values.
use mr_enderson.Base.{
  ℕ, Outcome, raise, ◌+◌, ◌≤◌, ◌≡◌, refl, sym, ◌↔◌, inl, inr, true, false, none, some, [], ◌∷◌, ok,
  lookup, insert, string_eq, ==-cases, arith, if◌then◌else◌,
}
use mr_enderson.Budget.Ledger.{
  Scope, BudgetType, Account, active, exhausted, Store, get_by_scope, budget_scope_eq,
  budget_type_eq, plan_scope, update_if_version_matches, claim, get_account,
}
use mr_enderson.Budget.Consume.{
  Interference, BudgetConsumeResult, BudgetError, replay, charged, result_of, reserve_and_consume,
  refuse, after_claim, after_update, attempt, consume_loop, consume_new,
}
use mr_enderson.Budget.Limits.{IsWithin, KeepsLimits, KeepsLimits-refl}
use mr_enderson.Budget.Overspend.{IsTame, never_overspent}
use mr_enderson.Budget.Replay.{quiet, consumed_once, store_after}

abbrev plan_retries : Scope
plan_retries = record { scope_type = plan_scope; scope_id = "p1"; budget_type = BudgetType.retries }

abbrev account : Account
account = record {
  id = "b1";
  scope = plan_retries;
  limit_value = 3;
  consumed_value = 1;
  status = active;
  version = 4;
}

abbrev store : Store
store = record { accounts = ("b1", account) ∷ []; events = [] }

store-IsWithin : IsWithin store
unfolding IsWithin
store-IsWithin id a e = elim (==-cases id "b1") [
  | inl same ↦
      let one : lookup id store.accounts ≡ some account = rw same refl in
      let this : account ≡ a = cc (one, e) in rw (← this) (sym same, omega arith)
  | inr other ↦ absurd (cc (rw other at e))
]

quiet-IsTame : IsTame quiet
quiet-IsTame = record {
  tame_update = λ n s w. (w, KeepsLimits-refl s);
  tame_claim = λ n s w. (w, KeepsLimits-refl s);
}

abbrev result : BudgetConsumeResult
result = result_of (charged quiet 2 "a1:retry:1" "retry" account) true false

charged_two :
    reserve_and_consume quiet 2 "a1:retry:1" "retry" plan_retries none "b2" store
    ≡ ok (result, store_after 2 "a1:retry:1" "retry" account store)
unfolding reserve_and_consume consume_new consume_loop attempt after_update after_claim refuse
    update_if_version_matches claim get_account get_by_scope
charged_two = refl

never_overspent_example :
    IsWithin (store_after 2 "a1:retry:1" "retry" account store)
    × KeepsLimits store (store_after 2 "a1:retry:1" "retry" account store)
never_overspent_example =
    never_overspent quiet 2 "a1:retry:1" "retry" quiet-IsTame plan_retries none "b2" store
      (store_after 2 "a1:retry:1" "retry" account store) result store-IsWithin refl charged_two

found : get_by_scope plan_retries store ≡ some account
unfolding get_by_scope
found = refl

consumed_once_example :
    (r : BudgetConsumeResult) × (after : Store) × (b : Account) × (reserve_and_consume quiet 2
        "a1:retry:1" "retry" plan_retries none "b2" store
      ≡ ok (r, after))
    × ((r.granted ≡ true) ↔ (1 + 2 ≤ 3))
    × (lookup account.id after.accounts ≡ some b)
    × (after.accounts ≡ (if r.granted then insert account.id b store.accounts else store.accounts))
    × (b ≡ (
        if r.granted
        then record account { consumed_value = 1 + 2; status = exhausted; version = 4 + 1 }
        else account))
    × (reserve_and_consume quiet 5 "a1:retry:1" "retry" plan_retries none "b2" after
        ≡ ok (result_of b r.granted true, after))
consumed_once_example =
    consumed_once 2 5 "a1:retry:1" "retry" plan_retries none "b2" account store refl found refl

-- A second call with the same key that runs as a whole between this call's update and its event.
abbrev racing : Interference
racing = record {
  before_update = λ _ s. s;
  before_claim = λ _ s.
      elim (reserve_and_consume quiet 1 "a1:retry:1" "retry" plan_retries none "b2" s) [
        | ok (_, t) ↦ t
        | raise _ ↦ s
      ];
}

abbrev consumed_after : Outcome BudgetError (BudgetConsumeResult × Store) → ℕ
consumed_after (ok (_, s)) = elim (lookup "b1" s.accounts) [ none ↦ 0 | some a ↦ a.consumed_value ]
consumed_after (raise _) = 0

-- The first call's back-out finds another version, so the one key is charged twice.
race_charges_twice :
    consumed_after (reserve_and_consume racing 1 "a1:retry:1" "retry" plan_retries none "b2" store)
    ≡ 3
unfolding reserve_and_consume consume_new consume_loop attempt after_update after_claim refuse
    replay update_if_version_matches claim get_account get_by_scope
race_charges_twice = refl
