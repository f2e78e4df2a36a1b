-- ===== src/PlanQa/Classified.antt =====
-- When an action counts as completed, and when as superseded.
use mr_enderson.Base.{
  ◌≡◌, ◌≢◌, refl, Option, none, some, String, Bool, true, false, arith, ◌==◌, ==→≡, contains,
  is_some, Dict, if◌then◌else◌,
}
use mr_enderson.Schemas.{Action, ActionStatus, action_status_eq}
use mr_enderson.Eligibility.Evaluate.{
  ActionEligibility, action_eligibility_eq, evaluate_action_eligibility,
}
use mr_enderson.PlanQa.Report.{
  PlanQaStatus, completed, superseded, waiting_for_approval, failed, human_review, terminal_bad,
  human_review_statuses, classify_eligibility, classify,
}

eligibility_not_done :
    (e : ActionEligibility)
    → (classify_eligibility e ≢ completed) × (classify_eligibility e ≢ superseded)
eligibility_not_done e = (λ h. ground (arith, h), λ h. ground (arith, h))

-- The chain of tests.
chain : (s c w f r : Bool) → PlanQaStatus → PlanQaStatus
chain s c w f r x =
    if s
    then superseded
    else if c
    then completed
    else if w
    then waiting_for_approval
    else if f
    then failed
    else if r
    then human_review
    else x

chain-completed :
    (s c w f r : Bool) (x : PlanQaStatus)
    → x ≢ completed
    → chain s c w f r x ≡ completed
    → (s ≡ false) × (c ≡ true)
unfolding chain
chain-completed true c w f r x n h = cc
chain-completed false true w f r x n h = (refl, refl)
chain-completed false false true f r x n h = cc
chain-completed false false false true r x n h = cc
chain-completed false false false false true x n h = cc
chain-completed false false false false false x n h = absurd (n h)

chain-superseded :
    (s c w f r : Bool) (x : PlanQaStatus)
    → x ≢ superseded
    → chain s c w f r x ≡ superseded
    → s ≡ true
unfolding chain
chain-superseded true c w f r x n h = refl
chain-superseded false true w f r x n h = cc
chain-superseded false false true f r x n h = cc
chain-superseded false false false true r x n h = cc
chain-superseded false false false false true x n h = cc
chain-superseded false false false false false x n h = absurd (n h)

is_some-none : (o : Option String) → is_some o ≡ false → o ≡ none
is_some-none none e = refl
is_some-none (some x) e = cc

pub classify_completed :
    (a : Action) (by_id : Dict String Action)
    → classify a by_id ≡ completed
    → (a.superseded_by ≡ none) × (a.status ≡ ActionStatus.completed)
unfolding classify chain
classify_completed a by_id h =
    let (free, done) =
      chain-completed (is_some a.superseded_by) (a.status == ActionStatus.completed)
        (a.status == ActionStatus.waiting_for_approval) (contains a.status terminal_bad)
        (contains a.status human_review_statuses)
        (classify_eligibility (evaluate_action_eligibility a by_id))
        (eligibility_not_done (evaluate_action_eligibility a by_id)).0 h in
    (is_some-none a.superseded_by free, ==→≡ a.status ActionStatus.completed done)

pub classify_superseded :
    (a : Action) (by_id : Dict String Action)
    → classify a by_id ≡ superseded
    → a.superseded_by ≢ none
unfolding classify chain
classify_superseded a by_id h free =
    let gone =
      chain-superseded (is_some a.superseded_by) (a.status == ActionStatus.completed)
        (a.status == ActionStatus.waiting_for_approval) (contains a.status terminal_bad)
        (contains a.status human_review_statuses)
        (classify_eligibility (evaluate_action_eligibility a by_id))
        (eligibility_not_done (evaluate_action_eligibility a by_id)).1 h in
    absurd (cc (rw free at gone))

pub completed_classify :
    (a : Action) (by_id : Dict String Action)
    → a.superseded_by ≡ none
    → a.status ≡ ActionStatus.completed
    → classify a by_id ≡ completed
unfolding classify
completed_classify a by_id free done = rw (free, done) refl

pub superseded_classify :
    (a : Action) (by_id : Dict String Action)
    → classify a by_id ≢ superseded
    → a.superseded_by ≡ none
unfolding classify
superseded_classify a by_id h = go a.superseded_by refl
  where
    go : (o : Option String) → a.superseded_by ≡ o → a.superseded_by ≡ none
    go none e = e
    go (some x) e = absurd (h (rw e refl))
