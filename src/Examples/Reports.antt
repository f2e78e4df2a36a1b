-- ===== src/Examples/Reports.antt =====
-- Failure records and outcome reports at concrete values.
use mr_enderson.Base.{
  ◌≡◌, ◌↔◌, refl, sym, ◌∙◌, ==→≢, ap, inl, inr, true, false, List, [], ◌∷◌, some, none, In,
  In-uncons, ok, IsDistinct, ◌==◌, string_eq, if◌then◌else◌,
}
use mr_enderson.Authority.Contracts.{Datetime, Zone}
use mr_enderson.Schemas.{
  Action, ActionStatus, FailureCategory, ExecutorFailureCode, failure_code_value,
}
use mr_enderson.Executor.Outcomes.{Refusal, refused_result}
use mr_enderson.Failures.Records.{
  FailureRecord, FailureRow, fetched, build_failure_record, failure_record_to_fields,
  row_to_failure_record, list_for_action,
}
use mr_enderson.Failures.History.{persist_all, history_complete, refusal_recorded}
use mr_enderson.PlanQa.Report.{build_qa_report}
use mr_enderson.PlanQa.Truthful.{fully_completed_iff}
use mr_enderson.Examples.Samples.{email_action}
use mr_enderson.Examples.Plans.{two_steps}

abbrev timeout : FailureRecord
timeout = record {
  id = "f1";
  action_id = "a1";
  plan_id = "p1";
  execution_attempt_id = some "t1";
  category = FailureCategory.transient;
  code = none;
  message = some "timed out";
  side_effect_occurred = false;
  retry_safe = true;
  reconciliation_required = false;
  retry_count_at_failure = 0;
  created_at = record { instant = 20; tzinfo = Zone.utc };
}

abbrev earlier_failure : FailureRecord
earlier_failure = record timeout {
  id = "f0";
  category = FailureCategory.tool;
  created_at = record { instant = 10; tzinfo = Zone.utc };
}

-- SQLite's driver: the zone of a datetime is lost.
abbrev sqlite : Datetime → Datetime
sqlite t = record t { tzinfo = Zone.naive }

abbrev failures : List FailureRecord
failures = timeout ∷ earlier_failure ∷ []

failures-IsDistinct : IsDistinct (λ r. r.id) failures
unfolding IsDistinct
failures-IsDistinct = (
  (λ r m e. elim (In-uncons r earlier_failure [] m) [
    | inl same ↦ ==→≢ "f0" "f1" refl (sym (ap (λ x. x.id) same) ∙ e)
    | inr nothing ↦ elim nothing [ ]
  ]),
  ((λ r m. elim m [ ]), tt),
)

-- The read-back record has no zone any more.
abbrev timeout_row : FailureRow
timeout_row = fetched sqlite (failure_record_to_fields timeout)

history_complete_example :
    (table : List FailureRow) × (persist_all [] failures ≡ ok table)
    × IsDistinct (λ row. row.id) (list_for_action sqlite table "a1")
    × (In timeout_row (list_for_action sqlite table "a1") ↔ (
        (r : FailureRecord) × In r failures
        × (r.action_id ≡ "a1")
        × (timeout_row ≡ fetched sqlite (failure_record_to_fields r))
        × (row_to_failure_record timeout_row
            ≡ some (record r { created_at = sqlite r.created_at }))))
history_complete_example = history_complete sqlite failures "a1" timeout_row failures-IsDistinct

abbrev refusal : Refusal
refusal = record { code = ExecutorFailureCode.adapter_not_found; message = "no adapter" }

abbrev midnight : Datetime
midnight = record { instant = 30; tzinfo = Zone.utc }

refusal_recorded_example :
    let r =
      build_failure_record "f2" midnight email_action "p1"
        (some (refused_result email_action refusal 30))
        false
        false
        FailureCategory.unknown in
    ((refused_result email_action refusal 30).error_type ≡ some r.category)
    × (r.code ≡ some (failure_code_value refusal.code))
    × (r.message ≡ (if refusal.message == "" then none else some refusal.message))
    × (r.side_effect_occurred ≡ false)
refusal_recorded_example =
    refusal_recorded "f2" "p1" midnight 30 email_action refusal false false FailureCategory.unknown

fully_completed_iff_example : ((build_qa_report two_steps 1 40).fully_completed ≡ true) ↔ (
    ((a : Action) × In a two_steps.actions × (a.superseded_by ≡ none))
    × ((a : Action)
        → In a two_steps.actions
        → a.superseded_by ≡ none
        → a.status ≡ ActionStatus.completed))
fully_completed_iff_example = fully_completed_iff two_steps 1 40
