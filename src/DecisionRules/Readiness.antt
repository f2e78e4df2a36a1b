-- ===== src/DecisionRules/Readiness.antt =====
-- No decision becomes ready, and none yields a plan, before its comparison is ready.
use mr_enderson.Base.{
  ◌≡◌, refl, subst, ◌↔◌, true, false, List, [], ◌∷◌, arith, Outcome, ok, raise, ◌>>=◌, contains,
}
use mr_enderson.Schemas.{Decision, DecisionStatus, decision_status_eq}
use mr_enderson.DecisionRules.Rules.{DecisionError, apply_decision_transition, can_produce_plan}

-- A run of `apply_decision_transition` through a list of targets.
unfoldable pub apply_all : Decision → List DecisionStatus → Outcome DecisionError Decision
apply_all d [] = ok d
apply_all d (t ∷ ts) = apply_decision_transition d t >>= λ e. apply_all e ts

abbrev pub past_ready : List DecisionStatus
past_ready =
    DecisionStatus.ready_for_action ∷ DecisionStatus.approval_required ∷ DecisionStatus.approved
    ∷ []

-- What holds all along: a decision at or past READY_FOR_ACTION has its comparison ready.
abbrev Backed : Decision → Type 0
Backed d = contains d.status past_ready ≡ true → d.comparison_ready ≡ true

step-Backed :
    (d e : Decision) (t : DecisionStatus)
    → Backed d
    → apply_decision_transition d t ≡ ok e
    → Backed e
unfolding apply_decision_transition
step-Backed d e t h p q = ground (arith, h)

all-Backed :
    (ts : List DecisionStatus) (d e : Decision) → Backed d → apply_all d ts ≡ ok e → Backed e
unfolding apply_all
all-Backed [] d e h p = let same : d ≡ e = cc in subst Backed same h
all-Backed (t ∷ ts) d e h p = go (apply_decision_transition d t) refl p (λ f. all-Backed ts f e)
  where
    go :
        (o : Outcome DecisionError Decision)
        → apply_decision_transition d t ≡ o
        → (o >>= λ f. apply_all f ts) ≡ ok e
        → ((f : Decision) → Backed f → apply_all f ts ≡ ok e → Backed e)
        → Backed e
    go (raise x) q p ih = absurd (cc p)
    go (ok f) q p ih = ih f (step-Backed d f t h q) p

-- A decision that starts before READY_FOR_ACTION is at READY_FOR_ACTION, APPROVAL_REQUIRED or
-- APPROVED after any sequence of accepted transitions only with its comparison ready.
pub ready_was_compared :
    (ts : List DecisionStatus) (d e : Decision)
    → contains d.status past_ready ≡ false
    → apply_all d ts ≡ ok e
    → contains e.status past_ready ≡ true
    → e.comparison_ready ≡ true
ready_was_compared ts d e before path = all-Backed ts d e (λ h. cc) path

-- A decision may produce a plan exactly when its comparison is ready and it is neither short of
-- evidence, nor rejected, nor superseded.
pub can_produce_plan_iff :
    (d : Decision)
    → (can_produce_plan d ≡ true) ↔ (
        (d.comparison_ready ≡ true)
        × (contains d.status (
              DecisionStatus.insufficient_evidence ∷ DecisionStatus.rejected
              ∷ DecisionStatus.superseded ∷ [])
            ≡ false))
unfolding can_produce_plan
can_produce_plan_iff d = ground arith
