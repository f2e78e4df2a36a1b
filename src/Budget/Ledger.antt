-- ===== src/Budget/Ledger.antt =====
-- The tables of accounts and events (app/database/models.py) and the repository calls on them
-- (app/database/repositories.py). Amounts are floats in the source, scaled to naturals here.
use mr_enderson.Base.{
  ℕ, ◌+◌, String, Bool, true, false, ◌&&◌, Option, none, some, List, [], ◌∷◌, Eq, eq_of_discrete,
  ◌==◌, string_eq, nat_eq, Dict, lookup, insert, values, is_some, if◌then◌else◌,
}

pub data BudgetScope : Type 0 where
  action_scope plan_scope : BudgetScope

pub data BudgetType : Type 0 where
  action_attempts retries replans model_calls estimated_cost : BudgetType

pub data BudgetAccountStatus : Type 0 where
  active exhausted cancelled : BudgetAccountStatus

abbrev pub BudgetScope-discrete : Discrete BudgetScope
BudgetScope-discrete = hlevel

abbrev pub BudgetType-discrete : Discrete BudgetType
BudgetType-discrete = hlevel

instance abbrev pub budget_scope_eq : Eq BudgetScope
budget_scope_eq = eq_of_discrete BudgetScope-discrete

instance abbrev pub budget_type_eq : Eq BudgetType
budget_type_eq = eq_of_discrete BudgetType-discrete

-- The unique triple `(scope_type, scope_id, budget_type)`.
pub record Scope : Type 0 where
  pub scope_type : BudgetScope
  pub scope_id : String
  pub budget_type : BudgetType

pub record Account : Type 0 where
  pub id : String
  pub scope : Scope
  pub limit_value : ℕ
  pub consumed_value : ℕ
  pub status : BudgetAccountStatus
  pub version : ℕ

pub record BudgetEvent : Type 0 where
  pub budget_account_id : String
  pub delta : ℕ
  pub applied : Bool
  pub reason : String

-- The two tables: accounts by id, events by idempotency key.
pub record Store : Type 0 where
  pub accounts : Dict String Account
  pub events : Dict String BudgetEvent

abbrev pub same_scope : Scope → Scope → Bool
same_scope a b =
    a.scope_type == b.scope_type && (a.scope_id == b.scope_id && a.budget_type == b.budget_type)

abbrev first_of : Scope → List Account → Option Account
first_of s [] = none
first_of s (a ∷ rest) = if same_scope a.scope s then some a else first_of s rest

unfoldable pub get_by_scope : Scope → Store → Option Account
get_by_scope s store = first_of s (values store.accounts)

unfoldable pub get_account : String → Store → Option Account
get_account id store = lookup id store.accounts

abbrev opened : String → Scope → ℕ → Account
opened fresh s limit = record {
  id = fresh;
  scope = s;
  limit_value = limit;
  consumed_value = 0;
  status = active;
  version = 1;
}

-- Get or create, with a fresh id; an account that is there keeps its limit.
unfoldable pub ensure_account : String → Scope → ℕ → Store → Account × Store
ensure_account fresh s limit store = elim (get_by_scope s store) [
  | some account ↦ (account, store)
  | none ↦ (
    opened fresh s limit,
    record store { accounts = insert fresh (opened fresh s limit) store.accounts },
  )
]

-- The conditional UPDATE: whether it matched, and the tables after it.
unfoldable pub update_if_version_matches :
    String → (expected_version consumed_value : ℕ) → BudgetAccountStatus → Store → Bool × Store
update_if_version_matches id expected_version consumed_value status store =
    elim (lookup id store.accounts) [
      | none ↦ (false, store)
      | some account ↦
          if account.version == expected_version
          then (
            true,
            record store {
              accounts =
                  insert id
                    (record account {
                      consumed_value = consumed_value;
                      status = status;
                      version = expected_version + 1;
                    })
                    store.accounts;
            },
          )
          else (false, store)
    ]

-- INSERT of an event: false where the idempotency key is taken.
unfoldable pub claim : String → BudgetEvent → Store → Bool × Store
claim idempotency_key event store =
    if is_some (lookup idempotency_key store.events)
    then (false, store)
    else (true, record store { events = insert idempotency_key event store.events })
