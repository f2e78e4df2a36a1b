-- ===== src/PlanQa/Truthful.antt =====
-- The report claims no more than the statuses say.
use mr_enderson.Base.{
  ℕ, ◌≡◌, ◌↔◌, refl, sym, ap, ◌∙◌, inl, inr, String, Bool, true, false, ◌&&◌, not, none, List, [],
  ◌∷◌, arith, ◌==◌, ==→≡, contains, keep, all, is_empty, map, In, here, In-map, map-In, all-In,
  all_of-In, any-In, keep-In, In-keep, sorted, sorted-In, In-sorted, Dict, Bool-cases, string_eq,
}
use mr_enderson.Schemas.{Action, ActionPlan, ActionStatus, PermissionLevel, permission_level_eq}
use mr_enderson.PlanValidation.Checks.{index_actions}
use mr_enderson.PlanQa.Report.{
  plan_qa_status_eq, completed, superseded, ActionQaEntry, classify, by_sequence, entry_of,
  is_active, is_completed, external_or_higher, report_of, build_qa_report,
}
use mr_enderson.PlanQa.Classified.{
  classify_completed, classify_superseded, completed_classify, superseded_classify,
}

nonempty-In {ℓ} : {A : Type ℓ} (xs : List A) → is_empty xs ≡ false → (x : A) × In x xs
nonempty-In [] h = cc
nonempty-In (x ∷ xs) h = (x, here refl)

In-nonempty {ℓ} : {A : Type ℓ} (xs : List A) (x : A) → In x xs → is_empty xs ≡ false
In-nonempty [] x m = elim m [ ]
In-nonempty (y ∷ ys) x m = refl

both : (a b : Bool) → (a && b) ≡ true → (a ≡ true) × (b ≡ true)
both a b h = ground arith

not_empty : (b : Bool) → not b ≡ true → b ≡ false
not_empty b h = ground arith

module _ (plan : ActionPlan) (revision now : ℕ) where
  abbrev by_id : Dict String Action
  by_id = index_actions plan.actions []

  -- The entries stand for the actions.
  abbrev listed : List ActionQaEntry
  listed = map (entry_of by_id) (sorted by_sequence plan.actions)

  entry-In : (a : Action) → In a plan.actions → In (entry_of by_id a) listed
  entry-In a m =
      In-map (entry_of by_id) a (sorted by_sequence plan.actions)
        (In-sorted by_sequence a plan.actions m)

  listed-In :
      (e : ActionQaEntry) → In e listed → (a : Action) × In a plan.actions × (e ≡ entry_of by_id a)
  listed-In e m =
      let (a, i, same) = map-In (entry_of by_id) e (sorted by_sequence plan.actions) m in
      (a, sorted-In by_sequence a plan.actions i, same)

  active_entry : (a : Action) → a.superseded_by ≡ none → is_active (entry_of by_id a) ≡ true
  unfolding entry_of
  active_entry a free = elim (Bool-cases (classify a by_id == superseded)) [
    | inl e ↦ absurd (classify_superseded a by_id (==→≡ (classify a by_id) superseded e) free)
    | inr n ↦ rw n refl
  ]

  completed_entry :
      (a : Action)
      → is_completed (entry_of by_id a) ≡ true
      → (a.superseded_by ≡ none) × (a.status ≡ ActionStatus.completed)
  unfolding entry_of
  completed_entry a h = classify_completed a by_id (==→≡ (classify a by_id) completed h)

  entry_completed :
      (a : Action)
      → a.superseded_by ≡ none
      → a.status ≡ ActionStatus.completed
      → is_completed (entry_of by_id a) ≡ true
  unfolding entry_of
  entry_completed a free done = rw (completed_classify a by_id free done) refl

  entry_active : (a : Action) → is_active (entry_of by_id a) ≡ true → a.superseded_by ≡ none
  unfolding entry_of
  entry_active a h = superseded_classify a by_id (λ e. cc (rw e at h))

  -- The report calls a plan fully completed exactly where the plan has an action that was not
  -- superseded, and every action that was not superseded is COMPLETED.
  pub fully_completed_iff : ((build_qa_report plan revision now).fully_completed ≡ true) ↔ (
      ((a : Action) × In a plan.actions × (a.superseded_by ≡ none))
      × ((a : Action)
          → In a plan.actions
          → a.superseded_by ≡ none
          → a.status ≡ ActionStatus.completed))
  unfolding build_qa_report report_of
  fully_completed_iff = (
    λ h.
        let (some_left, every) =
          both (not (is_empty (keep is_active listed))) (all is_completed (keep is_active listed))
            h in
        let (e, kept) =
          nonempty-In (keep is_active listed)
            (not_empty (is_empty (keep is_active listed)) some_left) in
        let (a, inside, same) = listed-In e (keep-In is_active e listed kept).0 in
        (
          (
            a,
            inside,
            (completed_entry a (
                ap is_completed (sym same)
                ∙ all-In is_completed (keep is_active listed) e every kept)).0,
          ),
          λ b i free.
              (completed_entry b (
                all-In is_completed (keep is_active listed) (entry_of by_id b) every (
                  In-keep is_active (entry_of by_id b) listed (entry-In b i)
                    (active_entry b free)))).1,
        ),
    λ ((a, inside, free), every).
        let kept =
          In-keep is_active (entry_of by_id a) listed (entry-In a inside) (active_entry a free) in
        let done = all_of-In is_completed (keep is_active listed) (λ e m.
          let (i, live) = keep-In is_active e listed m in
          let (b, here_too, same) = listed-In e i in
          let unsuperseded = entry_active b (ap is_active (sym same) ∙ live) in
          ap is_completed same ∙ entry_completed b unsuperseded (every b here_too unsuperseded)) in
        rw (In-nonempty (keep is_active listed) (entry_of by_id a) kept, done) refl,
  )

  -- The report says that an external action was executed only where an action that was not
  -- superseded is COMPLETED and has a permission level of EXTERNAL_ACTION or above, and that a
  -- financial action was executed only where such an action has the level FINANCIAL_ACTION.
  pub executed_only :
      ((build_qa_report plan revision now).external_action_executed ≡ true
        → (a : Action) × In a plan.actions
          × (a.superseded_by ≡ none)
          × (a.status ≡ ActionStatus.completed)
          × (contains a.permission_level external_or_higher ≡ true))
      × ((build_qa_report plan revision now).financial_action_executed ≡ true
          → (a : Action) × In a plan.actions
            × (a.superseded_by ≡ none)
            × (a.status ≡ ActionStatus.completed)
            × (a.permission_level ≡ PermissionLevel.financial_action))
  unfolding build_qa_report report_of entry_of
  executed_only = (
    λ h.
        let (e, m, t) =
          any-In (λ e. is_completed e && contains e.permission_level external_or_higher) listed h in
        let (a, i, same) = listed-In e m in
        let (done, level) =
          both (is_completed e) (contains e.permission_level external_or_higher) t in
        let (free, status) = completed_entry a (ap is_completed (sym same) ∙ done) in
        (
          a,
          i,
          free,
          status,
          ap (λ x. contains x.permission_level external_or_higher) (sym same) ∙ level,
        ),
    λ h.
        let (e, m, t) =
          any-In (λ e. is_completed e && e.permission_level == PermissionLevel.financial_action)
            listed h in
        let (a, i, same) = listed-In e m in
        let (done, level) =
          both (is_completed e) (e.permission_level == PermissionLevel.financial_action) t in
        let (free, status) = completed_entry a (ap is_completed (sym same) ∙ done) in
        (
          a,
          i,
          free,
          status,
          ap (λ x. x.permission_level) (sym same)
              ∙ ==→≡ e.permission_level PermissionLevel.financial_action level,
        ),
  )
