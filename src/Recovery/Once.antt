-- ===== src/Recovery/Once.antt =====
-- Retries are authorized once for one state of a row, and never beyond the row's bound.
use mr_enderson.Base.{
  ◌+◌, ◌≤◌, ◌<◌, ◌≡◌, refl, ap, sym, ◌∙◌, ◌≢◌, ◌↔◌, inl, inr, String, Bool, true, false, not,
  Option, none, some, arith, ◌==◌, string_eq, nat_eq, ==-refl, Outcome, ok, raise, ◌>>◌, contains,
  lookup, insert, lookup-insert_self, lookup-insert_ne, Option-cases, raise_if, is_ok, ==-cases,
}
use mr_enderson.Schemas.{ActionStatus, action_status_eq}
use mr_enderson.Recovery.Retry.{
  ActionRow, Rows, RetryError, row_missing, not_eligible, retry_budget_exhausted,
  update_if_version_matches, retry_reentry_sources, is_retry_exhausted, retried, read_back,
  authorize_retry,
}

-- What an update does to the row that it matches.
pub record IsRetried (rows : Rows) (mine row : ActionRow) (rows' : Rows) : Type 0 where
  pub old : ActionRow
  pub stored : lookup mine.id rows ≡ some old
  pub current : old.version ≡ mine.version
  pub eligible : contains mine.status retry_reentry_sources ≡ true
  pub in_budget : mine.retry_count < mine.max_retries
  pub new : row ≡ record (retried mine old) { version = mine.version + 1 }
  pub written : rows' ≡ insert mine.id row rows

module _ (rows : Rows) (mine : ActionRow) where
  -- The update that a retry makes.
  abbrev tried : Bool × Rows
  tried = update_if_version_matches rows mine.id mine.version (retried mine)

  abbrev after : ActionRow → ActionRow
  after old = record (retried mine old) { version = mine.version + 1 }

  no_row : lookup mine.id rows ≡ none → tried ≡ (false, rows)
  unfolding update_if_version_matches
  no_row e = rw (e, update_if_version_matches) refl

  other_version :
      (old : ActionRow)
      → lookup mine.id rows ≡ some old
      → (old.version == mine.version) ≡ false
      → tried ≡ (false, rows)
  unfolding update_if_version_matches
  other_version old e differ = rw (e, update_if_version_matches, differ) refl

  same_version :
      (old : ActionRow)
      → lookup mine.id rows ≡ some old
      → old.version ≡ mine.version
      → tried ≡ (true, insert mine.id (after old) rows)
  unfolding update_if_version_matches
  same_version old e same = rw (e, update_if_version_matches, same, ==-refl mine.version) refl

  read_back_same :
      (old : ActionRow)
      → lookup mine.id rows ≡ some old
      → old.version ≡ mine.version
      → read_back mine.id tried ≡ ok (after old, insert mine.id (after old) rows)
  read_back_same old e same =
      ap (read_back mine.id) (same_version old e same)
      ∙ ap (found (after old)) (lookup-insert_self mine.id (after old) rows)
    where
      found : ActionRow → Option ActionRow → Outcome RetryError (ActionRow × Rows)
      found new o = elim o [
        | none ↦ raise row_missing
        | some row ↦ ok (row, insert mine.id new rows)
      ]

  read_back_inv :
      (row : ActionRow) (rows' : Rows)
      → read_back mine.id tried ≡ ok (row, rows')
      → (old : ActionRow) × (lookup mine.id rows ≡ some old)
        × (old.version ≡ mine.version)
        × (row ≡ after old)
        × (rows' ≡ insert mine.id row rows)
  read_back_inv row rows' h = elim (Option-cases (lookup mine.id rows)) [
    | inl absent ↦ absurd (cc (rw (no_row absent) at h))
    | inr (old, e) ↦ elim (==-cases old.version mine.version) [
      | inr differ ↦ absurd (cc (rw (other_version old e differ) at h))
      | inl same ↦
          let both : ok (after old, insert mine.id (after old) rows) ≡ ok (row, rows') =
            sym (read_back_same old e same) ∙ h in
          let this : after old ≡ row = cc both in
          let those : insert mine.id (after old) rows ≡ rows' = cc both in
          (old, e, same, sym this, sym those ∙ ap (λ r. insert mine.id r rows) this)
    ]
  ]

  authorize_inv :
      (row : ActionRow) (rows' : Rows)
      → authorize_retry rows mine ≡ ok (row, rows')
      → IsRetried rows mine row rows'
  unfolding authorize_retry
  authorize_inv row rows' h =
      let (eligible, room, rest) = guards (read_back mine.id tried) h in
      let (old, stored, current, new, written) = read_back_inv row rows' rest in
      record {
        old = old;
        stored = stored;
        current = current;
        eligible = eligible;
        in_budget = room;
        new = new;
        written = written;
      }
    where
      guards :
          (k : Outcome RetryError (ActionRow × Rows))
          → (raise_if (not (contains mine.status retry_reentry_sources)) not_eligible
              >> (raise_if (is_retry_exhausted mine) retry_budget_exhausted >> k))
            ≡ ok (row, rows')
          → (contains mine.status retry_reentry_sources ≡ true)
            × (mine.retry_count < mine.max_retries)
            × (k ≡ ok (row, rows'))
      guards k h = unfold is_retry_exhausted in ground arith

  stored_after :
      (row : ActionRow) (rows' : Rows)
      → IsRetried rows mine row rows'
      → lookup mine.id rows' ≡ some row
  stored_after row rows' r = rw r.written (lookup-insert_self mine.id row rows)

  other_rows :
      (row : ActionRow) (rows' : Rows)
      → IsRetried rows mine row rows'
      → (other : String) → (other == mine.id) ≡ false
      → lookup other rows' ≡ lookup other rows
  other_rows row rows' r other differ =
      rw r.written (lookup-insert_ne other mine.id row rows differ)

  authorized_iff :
      lookup mine.id rows ≡ some mine
      → (is_ok (authorize_retry rows mine) ≡ true) ↔ (
          (contains mine.status retry_reentry_sources ≡ true)
          × (mine.retry_count < mine.max_retries))
  unfolding authorize_retry
  authorized_iff stored = guarded (read_back mine.id tried) (rw (read_back_same mine stored refl))
    where
      guarded :
          (k : Outcome RetryError (ActionRow × Rows))
          → is_ok k ≡ true
          → (is_ok (
                raise_if (not (contains mine.status retry_reentry_sources)) not_eligible
                >> (raise_if (is_retry_exhausted mine) retry_budget_exhausted >> k))
              ≡ true)
            ↔ ((contains mine.status retry_reentry_sources ≡ true)
                × (mine.retry_count < mine.max_retries))
      guarded k good = unfold is_retry_exhausted in ground arith

-- A retry is authorized exactly for a row whose stored copy the caller holds, in FAILED,
-- EXECUTING or APPROVED and below its bound. The row is then VALIDATED with one retry more, at
-- most its bound, and no error or times; every other row is as it was.
pub authorize_retry_effect :
    (rows rows' : Rows) (mine row : ActionRow)
    → lookup mine.id rows ≡ some mine
    → ((is_ok (authorize_retry rows mine) ≡ true) ↔ (
        (contains mine.status retry_reentry_sources ≡ true)
        × (mine.retry_count < mine.max_retries)))
      × (authorize_retry rows mine ≡ ok (row, rows')
          → (lookup mine.id rows' ≡ some row)
            × (row.status ≡ ActionStatus.validated)
            × (row.retry_count ≡ mine.retry_count + 1)
            × (row.retry_count ≤ row.max_retries)
            × (row.version ≡ mine.version + 1)
            × (row.last_error ≡ none)
            × ((other : String)
                → (other == mine.id) ≡ false
                → lookup other rows' ≡ lookup other rows))
authorize_retry_effect rows rows' mine row stored = (authorized_iff rows mine stored, effect)
  where
    effect :
        authorize_retry rows mine ≡ ok (row, rows')
        → (lookup mine.id rows' ≡ some row)
          × (row.status ≡ ActionStatus.validated)
          × (row.retry_count ≡ mine.retry_count + 1)
          × (row.retry_count ≤ row.max_retries)
          × (row.version ≡ mine.version + 1)
          × (row.last_error ≡ none)
          × ((other : String) → (other == mine.id) ≡ false → lookup other rows' ≡ lookup other rows)
    effect h =
        let r = authorize_inv rows mine row rows' h in
        let here : r.old ≡ mine = cc (r.stored, stored) in
        let most : r.old.max_retries ≡ mine.max_retries = ap (λ x. x.max_retries) here in
        (
          stored_after rows mine row rows' r,
          rw r.new refl,
          rw r.new refl,
          rw r.new (omega (arith, r.in_budget, most)),
          rw r.new refl,
          rw r.new refl,
          other_rows rows mine row rows' r,
        )

-- Of two callers that hold copies of a row at one version, or the second at an older one, the
-- second is refused once the first has its retry, whatever its copy says.
pub authorized_once :
    (rows rows' rows'' : Rows) (mine row theirs other : ActionRow)
    → theirs.id ≡ mine.id
    → theirs.version ≤ mine.version
    → authorize_retry rows mine ≡ ok (row, rows')
    → authorize_retry rows' theirs ≢ ok (other, rows'')
authorized_once rows rows' rows'' mine row theirs other same_id older first second =
    let f = authorize_inv rows mine row rows' first in
    let s = authorize_inv rows' theirs other rows'' second in
    let same : lookup theirs.id rows' ≡ some row =
      rw same_id (stored_after rows mine row rows' f) in
    let here : s.old ≡ row = cc (s.stored, same) in
    let newer : row.version ≡ mine.version + 1 = rw f.new refl in
    let current : row.version ≡ theirs.version = rw (← here) s.current in
    absurd (omega (arith, newer, current, older))
