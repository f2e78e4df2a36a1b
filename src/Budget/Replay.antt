-- ===== src/Budget/Replay.antt =====
-- One charge for one idempotency key, where no other caller acts in between.
use mr_enderson.Base.{
  ℕ, ◌+◌, ◌≤◌, ◌≡◌, refl, ap, ◌∙◌, ◌↔◌, inl, inr, String, true, false, Option, none, some, ok,
  lookup, insert, lookup-insert_self, string_eq, nat_eq, ==-refl, leb, ltb, arith, Bool-cases,
  if◌then◌else◌, Dict,
}
use mr_enderson.Budget.Ledger.{
  Scope, Account, BudgetEvent, BudgetAccountStatus, active, exhausted, Store, get_by_scope,
  get_account, update_if_version_matches, claim,
}
use mr_enderson.Budget.Consume.{
  BudgetConsumeResult, Interference, charged, result_of, refuse, after_claim, after_update, attempt,
  consume_loop, consume_new, reserve_and_consume, event_for,
}

-- No other caller.
abbrev pub quiet : Interference
quiet = record { before_update = λ _ s. s; before_claim = λ _ s. s }

module _ (amount : ℕ) (key reason : String) where
  -- The account and the tables after a granted charge.
  abbrev pub account_after : Account → Account
  account_after a = record (charged quiet amount key reason a) { version = a.version + 1 }

  abbrev pub store_after : Account → Store → Store
  store_after a store = record {
    accounts = insert a.id (account_after a) store.accounts;
    events = insert key (event_for quiet amount key reason a true) store.events;
  }

  -- The tables after a refusal: the event only.
  abbrev pub store_refused : Account → Store → Store
  store_refused a store = record store {
    events = insert key (event_for quiet amount key reason a false) store.events;
  }

  -- A key that has its event: what was decided stands, and nothing is charged.
  replayed :
      (scope : Scope) (default_limit : Option ℕ) (fresh_id : String) (store : Store)
      (event : BudgetEvent) (b : Account)
      → lookup key store.events ≡ some event
      → lookup event.budget_account_id store.accounts ≡ some b
      → reserve_and_consume quiet amount key reason scope default_limit fresh_id store
        ≡ ok (result_of b event.applied true, store)
  unfolding reserve_and_consume get_account
  replayed scope default_limit fresh_id store event b recorded stored =
      rw (recorded, reserve_and_consume) (rw stored refl)

  module _ (scope : Scope) (default_limit : Option ℕ) (fresh_id : String) (a : Account)
      (store : Store) (new_key : lookup key store.events ≡ none)
      (found : get_by_scope scope store ≡ some a)
      (stored : lookup a.id store.accounts ≡ some a) where
    enters :
        reserve_and_consume quiet amount key reason scope default_limit fresh_id store
        ≡ attempt quiet amount key reason 4 a (consume_loop quiet amount key reason 4 a.id) store
    unfolding reserve_and_consume consume_new consume_loop get_account
    enters =
        rw (new_key, reserve_and_consume) (rw (found, consume_new) (rw (stored, consume_loop) refl))

    refused :
        ltb a.limit_value (a.consumed_value + amount) ≡ true
        → attempt quiet amount key reason 4 a (consume_loop quiet amount key reason 4 a.id) store
          ≡ ok (result_of (record a { status = exhausted }) false false, store_refused a store)
    unfolding attempt refuse claim
    refused over = rw (over, refuse, claim, new_key) refl

    updated :
        (consumed : ℕ) (status : BudgetAccountStatus)
        → update_if_version_matches a.id a.version consumed status store ≡ (
          true,
          record store {
            accounts =
                insert a.id
                  (record a { consumed_value = consumed; status = status; version = a.version + 1 })
                  store.accounts;
          },
        )
    unfolding update_if_version_matches
    updated consumed status = rw (stored, update_if_version_matches, ==-refl a.version) refl

    claimed :
        (accounts : Dict String Account) (event : BudgetEvent)
        → claim key event (record store { accounts = accounts })
          ≡ (true, record { accounts = accounts; events = insert key event store.events })
    unfolding claim
    claimed accounts event = rw (new_key, claim) refl

    granted :
        ltb a.limit_value (a.consumed_value + amount) ≡ false
        → attempt quiet amount key reason 4 a (consume_loop quiet amount key reason 4 a.id) store
          ≡ ok (result_of (charged quiet amount key reason a) true false, store_after a store)
    unfolding attempt
    granted room = rw room (
        ap (after_update quiet amount key reason 4 a (consume_loop quiet amount key reason 4 a.id))
          (updated (a.consumed_value + amount) (charged quiet amount key reason a).status)
        ∙ ap (after_claim quiet amount key reason a) (
            claimed (insert a.id (account_after a) store.accounts)
              (event_for quiet amount key reason a true)))

-- Where no other caller acts in between and the key is new: a consumption from a configured
-- account is granted exactly if it fits under the limit. It then raises what the account has
-- consumed by the amount, sets its status to EXHAUSTED if the limit is reached and to ACTIVE
-- otherwise, raises its version by one, and changes no other field and no other account. A refusal
-- leaves all the accounts as they were. A later call with the same key, whatever its amount, returns
-- the same grant as a replay and changes nothing.
pub consumed_once :
    (amount later : ℕ) (key reason : String) (scope : Scope) (default_limit : Option ℕ)
    (fresh_id : String) (a : Account) (store : Store)
    → lookup key store.events ≡ none
    → get_by_scope scope store ≡ some a
    → lookup a.id store.accounts ≡ some a
    → (r : BudgetConsumeResult) × (after : Store) × (b : Account) × (reserve_and_consume quiet
          amount key reason scope default_limit fresh_id store
        ≡ ok (r, after))
      × ((r.granted ≡ true) ↔ (a.consumed_value + amount ≤ a.limit_value))
      × (lookup a.id after.accounts ≡ some b)
      × (after.accounts ≡ (if r.granted then insert a.id b store.accounts else store.accounts))
      × (b ≡ (
          if r.granted
          then record a {
            consumed_value = a.consumed_value + amount;
            status = if leb a.limit_value (a.consumed_value + amount) then exhausted else active;
            version = a.version + 1;
          }
          else a))
      × (reserve_and_consume quiet later key reason scope default_limit fresh_id after
          ≡ ok (result_of b r.granted true, after))
consumed_once amount later key reason scope default_limit fresh_id a store new_key found stored =
    elim (Bool-cases (ltb a.limit_value (a.consumed_value + amount))) [
      | inl over ↦ (
        result_of (record a { status = exhausted }) false false,
        store_refused amount key reason a store,
        a,
        enters amount key reason scope default_limit fresh_id a store new_key found stored
            ∙ refused amount key reason scope default_limit fresh_id a store new_key found stored
                over,
        ground (arith, over),
        stored,
        refl,
        refl,
        replayed later key reason scope default_limit fresh_id _ _ a
            (lookup-insert_self key (event_for quiet amount key reason a false) store.events)
            stored,
      )
      | inr room ↦ (
        result_of (charged quiet amount key reason a) true false,
        store_after amount key reason a store,
        account_after amount key reason a,
        enters amount key reason scope default_limit fresh_id a store new_key found stored
            ∙ granted amount key reason scope default_limit fresh_id a store new_key found stored
                room,
        ground (arith, room),
        lookup-insert_self a.id (account_after amount key reason a) store.accounts,
        refl,
        refl,
        replayed later key reason scope default_limit fresh_id _ _
            (account_after amount key reason a)
            (lookup-insert_self key (event_for quiet amount key reason a true) store.events)
            (lookup-insert_self a.id (account_after amount key reason a) store.accounts),
      )
    ]
