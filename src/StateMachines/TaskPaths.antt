-- ===== src/StateMachines/TaskPaths.antt =====
-- What the table of app/orchestration/state_machine.py lets a task do.
use mr_enderson.Base.{◌≡◌, refl, ◌⊎◌, true, false, List, [], ◌∷◌, arith, contains, In, ok}
use mr_enderson.Schemas.{TaskStatus, task_status_eq}
use mr_enderson.StateMachines.{follow, follow-gate}
use mr_enderson.StateMachines.TaskBoard.{assert_transition}

abbrev before_ready : List TaskStatus
before_ready = TaskStatus.pending ∷ TaskStatus.planned ∷ TaskStatus.cancelled ∷ []

-- A failed task, too, runs again only after it is READY.
abbrev pub not_running : List TaskStatus
not_running =
    TaskStatus.pending ∷ TaskStatus.planned ∷ TaskStatus.ready ∷ TaskStatus.needs_approval
    ∷ TaskStatus.failed ∷ TaskStatus.cancelled ∷ []

abbrev pub held : List TaskStatus
held = TaskStatus.needs_approval ∷ TaskStatus.failed ∷ TaskStatus.cancelled ∷ []

abbrev IsGate : List TaskStatus → TaskStatus → Type 0
IsGate region gate =
    (s t : TaskStatus)
    → contains s region ≡ true
    → assert_transition s t ≡ ok tt
    → (contains t region ≡ true) ⊎ (gate ≡ t)

ready-IsGate : IsGate before_ready TaskStatus.ready
unfolding assert_transition
ready-IsGate s t inside step = ground arith

running-IsGate : IsGate not_running TaskStatus.running
unfolding assert_transition
running-IsGate s t inside step = ground arith

held-IsGate : IsGate held TaskStatus.ready
unfolding assert_transition
held-IsGate s t inside step = ground arith

-- A task that goes by accepted transitions from PENDING to COMPLETED visits READY and RUNNING.
pub completed_visits_running :
    (ts : List TaskStatus)
    → follow assert_transition TaskStatus.pending ts ≡ ok TaskStatus.completed
    → In TaskStatus.ready ts × In TaskStatus.running ts
completed_visits_running ts path = (
  follow-gate assert_transition (λ x. contains x before_ready) _ ready-IsGate _ _ ts refl refl path,
  follow-gate assert_transition (λ x. contains x not_running) _ running-IsGate _ _ ts refl refl
      path,
)

-- A task that is held for approval, failed or cancelled goes by accepted transitions to a status
-- outside these three only through READY.
pub held_visits_ready :
    (s u : TaskStatus) (ts : List TaskStatus)
    → contains s held ≡ true
    → contains u held ≡ false
    → follow assert_transition s ts ≡ ok u
    → In TaskStatus.ready ts
held_visits_ready s u ts inside outside path =
    follow-gate assert_transition (λ x. contains x held) _ held-IsGate s u ts inside outside path
