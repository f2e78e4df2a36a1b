-- ===== src/Budget/Overspend.antt =====
-- No account is charged beyond its limit, whatever other callers do in between.
use mr_enderson.Base.{
  ℕ, zero, suc, ◌+◌, ◌≤◌, ◌≡◌, refl, subst, inl, inr, String, Bool, true, false, Option, none, some,
  Outcome, ok, raise, lookup, string_eq, nat_eq, ltb, arith, Bool-cases,
}
use mr_enderson.Budget.Ledger.{
  Scope, Account, BudgetEvent, BudgetAccountStatus, Store, get_by_scope, get_account,
  ensure_account, update_if_version_matches, claim,
}
use mr_enderson.Budget.Consume.{
  BudgetConsumeResult, BudgetError, row_missing, concurrency, Interference, charged, result_of,
  replay, refuse, after_claim, after_update, attempt, max_cas_attempts, unlimited, consume_loop,
  consume_new, reserve_and_consume, event_for,
}
use mr_enderson.Budget.Limits.{
  IsWithin, KeepsLimits, Sound, KeepsLimits-refl, Sound-trans, filed, limit_kept, update-Sound,
  ensure-Sound, claim-Sound,
}

-- Other callers go through the same repository: they keep the accounts within their limits and
-- change no limit.
pub record IsTame (others : Interference) : Type 0 where
  pub tame_update : (n : ℕ) (s : Store) → IsWithin s → Sound s (others.before_update n s)
  pub tame_claim : (n : ℕ) (s : Store) → IsWithin s → Sound s (others.before_claim n s)

-- Whatever a step returns, the tables that it leaves are sound.
abbrev Fine : Store → Outcome BudgetError (BudgetConsumeResult × Store) → Type 0
Fine base o = (r : BudgetConsumeResult) (s : Store) → o ≡ ok (r, s) → Sound base s

raise-Fine : (base : Store) (e : BudgetError) → Fine base (raise e)
raise-Fine base e r s h = absurd (cc h)

ok-Fine :
    (base store : Store) (r : BudgetConsumeResult) → Sound base store → Fine base (ok (r, store))
ok-Fine base store r sound q s h = let same : store ≡ s = cc h in subst (Sound base) same sound

module _ (others : Interference) (amount : ℕ) (key reason : String) (tame : IsTame others) where
  replay-Fine :
      (base : Store) (id : String) (store : Store)
      → Sound base store
      → Fine base (replay others amount key reason id store)
  unfolding replay
  replay-Fine base id store sound = go (lookup key store.events)
    where
      read :
          (winner : BudgetEvent) (o : Option Account)
          → Fine base (elim o [
            | none ↦ raise row_missing
            | some account ↦ ok (result_of account winner.applied true, store)
          ])
      read winner none = raise-Fine base row_missing
      read winner (some account) = ok-Fine base store (result_of account winner.applied true) sound

      go :
          (e : Option BudgetEvent)
          → Fine base (elim e [
            | none ↦ raise row_missing
            | some winner ↦ elim (get_account id store) [
              | none ↦ raise row_missing
              | some account ↦ ok (result_of account winner.applied true, store)
            ]
          ])
      go none = raise-Fine base row_missing
      go (some winner) = read winner (get_account id store)

  -- The account that was read is in `base`, and `store` is what became of `base` since.
  module _ (base : Store) (id : String) (fresh : Account)
      (stored : lookup id base.accounts ≡ some fresh) (within : IsWithin base) where
    here : fresh.id ≡ id
    here = (filed base id fresh within stored).0

    update-fresh :
        (store : Store) (version consumed : ℕ) (status : BudgetAccountStatus)
        → Sound base store
        → consumed ≤ fresh.limit_value
        → Sound base (update_if_version_matches fresh.id version consumed status store).1
    update-fresh store version consumed status sound room = Sound-trans base store _ sound.1 (
        update-Sound store fresh.id version consumed status sound.0
          (λ a e. rw (limit_kept base store id fresh a sound.1 stored (rw (← here) e)) room))

    after_claim-Fine :
        (b : Bool) (store : Store)
        → Sound base store
        → Fine base (after_claim others amount key reason fresh (b, store))
    unfolding after_claim
    after_claim-Fine true store sound = ok-Fine base store _ sound
    after_claim-Fine false store sound = replay-Fine base fresh.id _ (
        update-fresh store (fresh.version + 1) fresh.consumed_value fresh.status sound
          (filed base id fresh within stored).1)

    after_update-Fine :
        (n : ℕ) (again : Store → Outcome BudgetError (BudgetConsumeResult × Store)) (b : Bool)
        (store : Store)
        → ((s : Store) → Sound base s → Fine base (again s))
        → Sound base store
        → Fine base (after_update others amount key reason n fresh again (b, store))
    unfolding after_update
    after_update-Fine n again false store ih sound = ih store sound
    after_update-Fine n again true store ih sound =
        let other = others.before_claim n store in
        let other_sound : Sound base other =
          Sound-trans base store other sound.1 (tame.tame_claim n store sound.0) in
        let (b, after) = claim key (event_for others amount key reason fresh true) other in
        after_claim-Fine b after (
          Sound-trans base other after other_sound.1
            (claim-Sound other key (event_for others amount key reason fresh true) other_sound.0))

    attempt-Fine :
        (n : ℕ) (again : Store → Outcome BudgetError (BudgetConsumeResult × Store))
        → ((s : Store) → Sound base s → Fine base (again s))
        → Fine base (attempt others amount key reason n fresh again base)
    unfolding attempt
    attempt-Fine n again ih =
        elim (Bool-cases (ltb fresh.limit_value (fresh.consumed_value + amount))) [
          | inl over ↦ rw over (
              unfold refuse in
              ok-Fine base _ _
                (claim-Sound base key (event_for others amount key reason fresh false) within))
          | inr room ↦ rw room (
              let other = others.before_update n base in
              let other_sound : Sound base other = tame.tame_update n base within in
              let new = charged others amount key reason fresh in
              let (b, after) =
                update_if_version_matches fresh.id fresh.version new.consumed_value new.status
                  other in
              after_update-Fine n again b after ih (
                update-fresh other fresh.version new.consumed_value new.status other_sound
                  (ground (arith, room))))
        ]

  weaken :
      (base store : Store) (o : Outcome BudgetError (BudgetConsumeResult × Store))
      → KeepsLimits base store
      → Fine store o
      → Fine base o
  weaken base store o keeps fine r s h = Sound-trans base store s keeps (fine r s h)

  loop-Fine :
      (n : ℕ) (id : String) (store : Store)
      → IsWithin store
      → Fine store (consume_loop others amount key reason n id store)
  unfolding consume_loop get_account
  loop-Fine zero id store within = raise-Fine store concurrency
  loop-Fine (suc n) id store within = go (lookup id store.accounts) refl (λ s sound.
      weaken store s (consume_loop others amount key reason n id s) sound.1
        (loop-Fine n id s sound.0))
    where
      go :
          (o : Option Account)
          → lookup id store.accounts ≡ o
          → ((s : Store)
              → Sound store s
              → Fine store (consume_loop others amount key reason n id s))
          → Fine store (elim o [
            | none ↦ raise row_missing
            | some fresh ↦
                attempt others amount key reason n fresh
                  (consume_loop others amount key reason n id)
                  store
          ])
      go none e ih = raise-Fine store row_missing
      go (some fresh) e ih =
          attempt-Fine store id fresh e within n (consume_loop others amount key reason n id) ih

  new-Fine :
      (scope : Scope) (default_limit : Option ℕ) (fresh_id : String) (store : Store)
      → IsWithin store
      → lookup fresh_id store.accounts ≡ none
      → Fine store (consume_new others amount key reason scope default_limit fresh_id store)
  unfolding consume_new
  new-Fine scope default_limit fresh_id store within free =
      go (get_by_scope scope store) default_limit
    where
      go :
          (found : Option Account) (limits : Option ℕ)
          → Fine store (elim found [
            | some account ↦ consume_loop others amount key reason max_cas_attempts account.id store
            | none ↦ elim limits [
              | none ↦ ok (unlimited, store)
              | some limit ↦
                  let (account, store') = ensure_account fresh_id scope limit store in
                  consume_loop others amount key reason max_cas_attempts account.id store'
            ]
          ])
      go (some account) limits = loop-Fine max_cas_attempts account.id store within
      go none none = ok-Fine store store unlimited (within, KeepsLimits-refl store)
      go none (some limit) =
          let sound = ensure-Sound store fresh_id scope limit within free in
          weaken store _ _ sound.1
            (loop-Fine max_cas_attempts (ensure_account fresh_id scope limit store).0.id _ sound.0)

  -- Where other callers keep every account within its limit and change no limit, and the id for a
  -- new account is not taken, `reserve_and_consume` does so too, whatever they do between its reads and its updates: in the tables that
  -- it leaves, every account has consumed at most its limit, and no limit has changed.
  pub never_overspent :
      (scope : Scope) (default_limit : Option ℕ) (fresh_id : String) (store after : Store)
      (r : BudgetConsumeResult)
      → IsWithin store
      → lookup fresh_id store.accounts ≡ none
      → reserve_and_consume others amount key reason scope default_limit fresh_id store
        ≡ ok (r, after)
      → IsWithin after × KeepsLimits store after
  unfolding reserve_and_consume get_account
  never_overspent scope default_limit fresh_id store after r within free =
      go (lookup key store.events) r after
    where
      read :
          (event : BudgetEvent) (o : Option Account)
          → Fine store (elim o [
            | none ↦ raise row_missing
            | some account ↦ ok (result_of account event.applied true, store)
          ])
      read event none = raise-Fine store row_missing
      read event (some account) =
          ok-Fine store store (result_of account event.applied true)
            (within, KeepsLimits-refl store)

      go :
          (e : Option BudgetEvent)
          → Fine store (elim e [
            | none ↦ consume_new others amount key reason scope default_limit fresh_id store
            | some event ↦ elim (lookup event.budget_account_id store.accounts) [
              | none ↦ raise row_missing
              | some account ↦ ok (result_of account event.applied true, store)
            ]
          ])
      go none = new-Fine scope default_limit fresh_id store within free
      go (some event) = read event (lookup event.budget_account_id store.accounts)
