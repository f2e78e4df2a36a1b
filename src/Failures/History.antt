-- ===== src/Failures/History.antt =====
-- The history of failures is kept whole, and a refusal is classified by its code.
use mathlib.Core.List.{append_assoc}
use mathlib.Core.List
use mr_enderson.Base.{
  ℕ, ◌≡◌, ◌≢◌, ◌↔◌, refl, sym, ap, subst, ◌∙◌, inl, inr, String, Bool, false, none, some, List, [],
  ◌∷◌, ◌++◌, ◌==◌, string_eq, ==-refl, ==→≡, In, here, there, In-uncons, In-append, In-map, map-In,
  map, any, any-In, keep, keep-In, In-keep, sorted, sorted-In, In-sorted, if◌then◌else◌, Bool-cases,
  Outcome, ok, ◌>>=◌, IsDistinct, sorted-IsDistinct, keep-IsDistinct, map-IsDistinct,
}
use mr_enderson.Schemas.{
  Action, FailureCategory, ExecutorFailureCode, executor_failure_category, failure_code_of,
  failure_code_value,
}
use mr_enderson.Authority.Contracts.{Datetime}
use mr_enderson.Executor.Outcomes.{Refusal, refused_result}
use mr_enderson.Failures.Records.{
  FailureRecord, FailureRow, category_value, category_of, category_of_code, classify_failure,
  build_failure_record, failure_record_to_fields, with_category, row_to_failure_record,
  IntegrityError, create_failure, persist_failure_record, earlier, fetched, list_for_action,
}

category_back : (c : FailureCategory) → category_of (category_value c) ≡ some c
unfolding category_of category_value
category_back FailureCategory.transient = refl
category_back FailureCategory.validation = refl
category_back FailureCategory.permission = refl
category_back FailureCategory.approval = refl
category_back FailureCategory.tool = refl
category_back FailureCategory.verification = refl
category_back FailureCategory.budget = refl
category_back FailureCategory.security = refl
category_back FailureCategory.unknown = refl

-- A fetched row is read as its record, with the time that the driver gave back.
row_back :
    (stored : Datetime → Datetime) (r : FailureRecord)
    → row_to_failure_record (fetched stored (failure_record_to_fields r))
      ≡ some (record r { created_at = stored r.created_at })
unfolding row_to_failure_record failure_record_to_fields
row_back stored r =
    ap (with_category (fetched stored (failure_record_to_fields r))) (category_back r.category)

-- Persisting these records, one after the other.
unfoldable pub persist_all :
    List FailureRow → List FailureRecord → Outcome IntegrityError (List FailureRow)
unfolding persist_failure_record
persist_all table [] = ok table
persist_all table (r ∷ rest) = do table' ← persist_failure_record table r; persist_all table' rest

-- With new ids, nothing is refused and the table gets the rows in their order.
persist_all_lem :
    (table : List FailureRow) (rs : List FailureRecord)
    → IsDistinct (λ r. r.id) rs
    → ((r : FailureRecord) (row : FailureRow) → In r rs → In row table → row.id ≢ r.id)
    → persist_all table rs ≡ ok (table ++ map failure_record_to_fields rs)
unfolding persist_all persist_failure_record create_failure failure_record_to_fields IsDistinct
persist_all_lem table [] d new = ap ok (sym (mathlib.Core.List.append-nil table))
persist_all_lem table (r ∷ rs) d new = rw (free) (
    persist_all_lem (table ++ (failure_record_to_fields r ∷ [])) rs d.1 apart
    ∙ ap ok
        (append_assoc table (failure_record_to_fields r ∷ []) (map failure_record_to_fields rs)))
  where
    free : any (λ old. old.id == r.id) table ≡ false
    free = elim (Bool-cases (any (λ old. old.id == r.id) table)) [
      | inr n ↦ n
      | inl y ↦
          let (old, i, same) = any-In (λ old. old.id == r.id) table y in
          absurd (new r old (here refl) i (==→≡ old.id r.id same))
    ]

    apart :
        (x : FailureRecord) (row : FailureRow)
        → In x rs
        → In row (table ++ (failure_record_to_fields r ∷ []))
        → row.id ≢ x.id
    apart x row i m = elim (In-append row table (failure_record_to_fields r ∷ []) m) [
      | inl k ↦ new x row (there i) k
      | inr k ↦ elim (In-uncons row (failure_record_to_fields r) [] k) [
        | inl e ↦ λ same. d.0 x i (sym same ∙ ap (λ q. q.id) e)
        | inr none_left ↦ elim none_left [ ]
      ]
    ]

module _ (stored : Datetime → Datetime) (rs : List FailureRecord) (action_id : String) where
  listed-IsDistinct :
      IsDistinct (λ r. r.id) rs
      → IsDistinct
          (λ row. row.id)
          (list_for_action stored (map failure_record_to_fields rs) action_id)
  unfolding list_for_action failure_record_to_fields
  listed-IsDistinct d =
      sorted-IsDistinct (λ row. row.id) earlier
        (map (fetched stored)
          (keep (λ row. row.action_id == action_id) (map failure_record_to_fields rs)))
        (map-IsDistinct (λ row. row.id) (λ row. row.id) (fetched stored) (λ row. refl)
          (keep (λ row. row.action_id == action_id) (map failure_record_to_fields rs))
          (keep-IsDistinct (λ row. row.id) (λ row. row.action_id == action_id)
            (map failure_record_to_fields rs)
            (map-IsDistinct (λ r. r.id) (λ row. row.id) failure_record_to_fields (λ r. refl) rs d)))

  listed_iff :
      (row : FailureRow)
      → In row (list_for_action stored (map failure_record_to_fields rs) action_id) ↔ (
          (r : FailureRecord) × In r rs
          × (r.action_id ≡ action_id)
          × (row ≡ fetched stored (failure_record_to_fields r)))
  unfolding list_for_action failure_record_to_fields
  listed_iff row = (
    λ m.
        let (kept, i, e) =
          map-In (fetched stored) row rows_on_action
            (sorted-In earlier row (map (fetched stored) rows_on_action) m) in
        let (inside, same) =
          keep-In (λ row. row.action_id == action_id) kept (map failure_record_to_fields rs) i in
        let (r, k, q) = map-In failure_record_to_fields kept rs inside in
        (
          r,
          k,
          ap (λ x. x.action_id) (sym q) ∙ ==→≡ kept.action_id action_id same,
          e ∙ ap (fetched stored) q,
        ),
    λ (r, i, a, e).
        subst (λ x. In x (sorted earlier (map (fetched stored) rows_on_action))) (sym e)
          (In-sorted earlier (fetched stored (failure_record_to_fields r))
            (map (fetched stored) rows_on_action)
            (In-map (fetched stored) (failure_record_to_fields r) rows_on_action (
              In-keep (λ row. row.action_id == action_id) (failure_record_to_fields r)
                (map failure_record_to_fields rs) (In-map failure_record_to_fields r rs i)
                (rw a (==-refl action_id))))),
  )
    where
      rows_on_action : List FailureRow
      rows_on_action = keep (λ row. row.action_id == action_id) (map failure_record_to_fields rs)

-- Records with different ids are all persisted, and the history of an action is whole: the list for
-- the action has each row once, a row is in it exactly where it is the row of a persisted record on
-- that action, and the row is read back as that record with its time as the database driver gives
-- it back. Whatever the driver does to times, no other field changes; where it drops the zone, as
-- SQLite's does, the record comes back without it.
pub history_complete :
    (stored : Datetime → Datetime) (rs : List FailureRecord) (action_id : String) (row : FailureRow)
    → IsDistinct (λ r. r.id) rs
    → (table : List FailureRow) × (persist_all [] rs ≡ ok table)
      × IsDistinct (λ row. row.id) (list_for_action stored table action_id)
      × (In row (list_for_action stored table action_id) ↔ (
          (r : FailureRecord) × In r rs
          × (r.action_id ≡ action_id)
          × (row ≡ fetched stored (failure_record_to_fields r))
          × (row_to_failure_record row ≡ some (record r { created_at = stored r.created_at }))))
history_complete stored rs action_id row d = (
  map failure_record_to_fields rs,
  persist_all_lem [] rs d (λ r row i m. elim m [ ]),
  listed-IsDistinct stored rs action_id d,
  (
    λ m.
        let (r, i, a, e) = (listed_iff stored rs action_id row).0 m in
        (r, i, a, e, ap row_to_failure_record e ∙ row_back stored r),
    λ (r, i, a, e, _). (listed_iff stored rs action_id row).1 (r, i, a, e),
  ),
)

code_back :
    (c : ExecutorFailureCode)
    → category_of_code (some (failure_code_value c)) ≡ some (executor_failure_category c)
unfolding category_of_code failure_code_of failure_code_value executor_failure_category
code_back ExecutorFailureCode.validation_failure = refl
code_back ExecutorFailureCode.permission_failure = refl
code_back ExecutorFailureCode.approval_failure = refl
code_back ExecutorFailureCode.adapter_not_found = refl
code_back ExecutorFailureCode.sandbox_violation = refl
code_back ExecutorFailureCode.tool_execution_failure = refl
code_back ExecutorFailureCode.verification_failure = refl
code_back ExecutorFailureCode.internal_failure = refl

-- The executor and the failure records agree on a refusal: the record that is built from the result
-- of a refused execution has the category that the executor reported, carries the code of the
-- refusal and its message, an empty one as no message, and says that no side effect occurred,
-- whatever the fallback is.
pub refusal_recorded :
    (fresh plan_id : String) (now : Datetime) (at : ℕ) (action : Action) (refusal : Refusal)
    (retry_safe reconciliation : Bool) (fallback : FailureCategory)
    → let r =
        build_failure_record fresh now action plan_id
          (some (refused_result action refusal at))
          retry_safe
          reconciliation
          fallback in
      ((refused_result action refusal at).error_type ≡ some r.category)
      × (r.code ≡ some (failure_code_value refusal.code))
      × (r.message ≡ (if refusal.message == "" then none else some refusal.message))
      × (r.side_effect_occurred ≡ false)
unfolding build_failure_record refused_result classify_failure
refusal_recorded fresh plan_id now at action refusal retry_safe reconciliation fallback =
    (rw (code_back refusal.code) refl, refl, refl, refl)
