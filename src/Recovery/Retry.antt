-- ===== src/Recovery/Retry.antt =====
-- app/decision_intelligence/retry_controller.py, over the rows of the actions
-- (`ActionRecordRepository.update_if_version_matches` of app/database/repositories.py).
use mr_enderson.Base.{
  ℕ, ◌+◌, String, Bool, true, false, not, Option, none, some, List, [], ◌∷◌, ◌==◌, string_eq,
  nat_eq, Outcome, ok, raise, raise_if, ◌>>◌, contains, leb, Dict, lookup, insert, if◌then◌else◌,
}
use mr_enderson.Schemas.{ActionStatus, action_status_eq}

-- The columns of an ActionRecord that a retry reads or writes.
pub record ActionRow : Type 0 where
  pub id : String
  pub status : ActionStatus
  pub retry_count : ℕ
  pub max_retries : ℕ
  pub version : ℕ
  pub last_error : Option String
  pub started_at : Option ℕ
  pub completed_at : Option ℕ

abbrev pub Rows : Type 0
Rows = Dict String ActionRow

-- The conditional UPDATE: whether one row matched the id and the expected version, and the rows
-- after it. `change` sets the given fields.
unfoldable pub update_if_version_matches :
    Rows → String → (expected_version : ℕ) → (change : ActionRow → ActionRow) → Bool × Rows
update_if_version_matches rows id expected_version change = elim (lookup id rows) [
  | none ↦ (false, rows)
  | some row ↦
      if row.version == expected_version
      then (true, insert id (record (change row) { version = expected_version + 1 }) rows)
      else (false, rows)
]

-- The subclasses of `RetryAuthorizationError`; `row_missing` is the failure to read back a row
-- that is not there.
pub data RetryError : Type 0 where
  not_eligible retry_budget_exhausted stale_version row_missing : RetryError

-- `_RETRY_REENTRY_SOURCES`
abbrev pub retry_reentry_sources : List ActionStatus
retry_reentry_sources = ActionStatus.failed ∷ ActionStatus.executing ∷ ActionStatus.approved ∷ []

unfoldable pub is_retry_exhausted : ActionRow → Bool
is_retry_exhausted row = leb row.max_retries row.retry_count

-- The fields that a retry sets, from the caller's copy of the row.
abbrev pub retried : ActionRow → ActionRow → ActionRow
retried action_row row = record row {
  status = ActionStatus.validated;
  retry_count = action_row.retry_count + 1;
  last_error = none;
  started_at = none;
  completed_at = none;
}

-- What is read back after the update; where it did not match, the caller's copy was stale.
abbrev pub read_back : String → Bool × Rows → Outcome RetryError (ActionRow × Rows)
read_back id (matched, rows) =
    if not matched
    then raise stale_version
    else (elim (lookup id rows) [ none ↦ raise row_missing | some row ↦ ok (row, rows) ])

unfoldable pub authorize_retry : Rows → ActionRow → Outcome RetryError (ActionRow × Rows)
unfolding is_retry_exhausted
authorize_retry rows action_row = do
  raise_if (not (contains action_row.status retry_reentry_sources)) not_eligible
  raise_if (is_retry_exhausted action_row) retry_budget_exhausted
  read_back action_row.id
      (update_if_version_matches rows action_row.id action_row.version (retried action_row))
