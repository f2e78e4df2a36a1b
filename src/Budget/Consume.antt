-- ===== src/Budget/Consume.antt =====
-- `reserve_and_consume` of app/decision_intelligence/budget.py. Other callers act on the tables
-- between two awaits of one call; what they do is a parameter.
use mr_enderson.Base.{
  ℕ, ℤ, difference, zero, suc, ◌+◌, String, Bool, true, false, Option, none, some, Outcome, ok,
  raise, lookup, string_eq, leb, ltb, if◌then◌else◌,
}
use mr_enderson.Budget.Ledger.{
  Scope, Account, BudgetEvent, BudgetAccountStatus, active, exhausted, Store, get_by_scope,
  get_account, ensure_account, update_if_version_matches, claim,
}

-- `limit` and `remaining` are none where the source has infinity.
pub record BudgetConsumeResult : Type 0 where
  pub granted : Bool
  pub limit : Option ℕ
  pub consumed : ℕ
  pub remaining : Option ℤ
  pub status : BudgetAccountStatus
  pub replayed : Bool

-- `BudgetConcurrencyError`, and the failure to read a row that is not there.
pub data BudgetError : Type 0 where
  concurrency row_missing : BudgetError

-- `_MAX_CAS_ATTEMPTS`
abbrev pub max_cas_attempts : ℕ
max_cas_attempts = 5

-- What other callers do in the attempt with `n` attempts left: before this call's update, and
-- before it records its event.
pub record Interference : Type 0 where
  pub before_update : ℕ → Store → Store
  pub before_claim : ℕ → Store → Store

abbrev pub get_remaining : Scope → Store → Option ℤ
get_remaining s store = elim (get_by_scope s store) [
  | none ↦ none
  | some account ↦ some (difference account.limit_value account.consumed_value)
]

-- The result that is read off an account.
abbrev pub result_of : Account → Bool → Bool → BudgetConsumeResult
result_of account granted replayed = record {
  granted = granted;
  limit = some account.limit_value;
  consumed = account.consumed_value;
  remaining = some (difference account.limit_value account.consumed_value);
  status = account.status;
  replayed = replayed;
}

abbrev pub unlimited : BudgetConsumeResult
unlimited = record {
  granted = true;
  limit = none;
  consumed = 0;
  remaining = none;
  status = active;
  replayed = false;
}

module _ (others : Interference) (amount : ℕ) (idempotency_key reason : String) where
  abbrev pub Step : Type 0
  Step = Outcome BudgetError (BudgetConsumeResult × Store)

  abbrev pub event_for : Account → Bool → BudgetEvent
  event_for account applied = record {
    budget_account_id = account.id;
    delta = amount;
    applied = applied;
    reason = reason;
  }

  -- The account after the charge, as the result shows it.
  abbrev pub charged : Account → Account
  charged fresh = record fresh {
    consumed_value = fresh.consumed_value + amount;
    status = if leb fresh.limit_value (fresh.consumed_value + amount) then exhausted else active;
  }

  -- The charge would go over the limit: the refusal is recorded if the key is free.
  unfoldable pub refuse : Account → Store → Step
  refuse fresh store = ok (
    result_of (record fresh { status = exhausted }) false false,
    (claim idempotency_key (event_for fresh false) store).1,
  )

  -- What another caller recorded under the key.
  unfoldable pub replay : String → Store → Step
  replay id store = elim (lookup idempotency_key store.events) [
    | none ↦ raise row_missing
    | some winner ↦ elim (get_account id store) [
      | none ↦ raise row_missing
      | some account ↦ ok (result_of account winner.applied true, store)
    ]
  ]

  -- After the attempt to record the event: where the key was taken, the charge is backed out
  -- (whether or not the version still matches).
  unfoldable pub after_claim : Account → Bool × Store → Step
  unfolding replay
  after_claim fresh (true, store) = ok (result_of (charged fresh) true false, store)
  after_claim fresh (false, store) =
      replay fresh.id
        (update_if_version_matches fresh.id (fresh.version + 1) fresh.consumed_value fresh.status
          store).1

  -- After the update; where the version did not match, the loop goes on.
  unfoldable pub after_update : ℕ → Account → (again : Store → Step) → Bool × Store → Step
  unfolding after_claim
  after_update n fresh again (false, store) = again store
  after_update n fresh again (true, store) =
      after_claim fresh (claim idempotency_key (event_for fresh true) (others.before_claim n store))

  -- One round of the loop, on the account as it was just read.
  unfoldable pub attempt : ℕ → Account → (again : Store → Step) → Store → Step
  unfolding refuse after_update
  attempt n fresh again store =
      if ltb fresh.limit_value (fresh.consumed_value + amount)
      then refuse fresh store
      else after_update n fresh again (
          update_if_version_matches fresh.id fresh.version (charged fresh).consumed_value
            (charged fresh).status (others.before_update n store))

  -- The `for` loop, with the attempts that are left.
  unfoldable pub consume_loop : ℕ → String → Store → Step
  unfolding attempt
  consume_loop zero id store = raise concurrency
  consume_loop (suc n) id store = elim (get_account id store) [
    | none ↦ raise row_missing
    | some fresh ↦ attempt n fresh (consume_loop n id) store
  ]

  -- The key is new: find or open the account, and consume.
  unfoldable pub consume_new :
      Scope → (default_limit : Option ℕ) → (fresh_id : String) → Store → Step
  consume_new s default_limit fresh_id store = elim (get_by_scope s store) [
    | some account ↦ consume_loop max_cas_attempts account.id store
    | none ↦ elim default_limit [
      | none ↦ ok (unlimited, store)
      | some limit ↦
          let (account, store') = ensure_account fresh_id s limit store in
          consume_loop max_cas_attempts account.id store'
    ]
  ]

  unfoldable pub reserve_and_consume :
      Scope → (default_limit : Option ℕ) → (fresh_id : String) → Store → Step
  unfolding consume_new
  reserve_and_consume s default_limit fresh_id store = elim (lookup idempotency_key store.events) [
    | none ↦ consume_new s default_limit fresh_id store
    | some event ↦ elim (get_account event.budget_account_id store) [
      | none ↦ raise row_missing
      | some account ↦ ok (result_of account event.applied true, store)
    ]
  ]
