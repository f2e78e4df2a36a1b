-- ===== src/Budget/Limits.antt =====
-- Tables in which no account is beyond its limit, and the repository calls that keep them so.
use mr_enderson.Base.{
  ℕ, ◌≤◌, ◌≡◌, refl, sym, ap, ◌∙◌, inl, inr, String, none, some, lookup, insert, lookup-insert_self,
  lookup-insert_ne, string_eq, nat_eq, ◌==◌, ==-cases, arith, Bool-cases, Option-cases, is_some,
}
use mr_enderson.Budget.Ledger.{
  Scope, Account, BudgetEvent, BudgetAccountStatus, Store, get_by_scope, ensure_account,
  update_if_version_matches, claim,
}

-- Every account is filed under its id and has consumed no more than its limit.
unfoldable pub IsWithin : Store → Type 0
IsWithin store =
    (id : String) (a : Account)
    → lookup id store.accounts ≡ some a
    → (a.id ≡ id) × (a.consumed_value ≤ a.limit_value)

-- No account goes away, and no limit changes.
unfoldable pub KeepsLimits : Store → Store → Type 0
KeepsLimits before after =
    (id : String) (a : Account)
    → lookup id before.accounts ≡ some a
    → (b : Account) × (lookup id after.accounts ≡ some b) × (b.limit_value ≡ a.limit_value)

-- What a step must do.
abbrev pub Sound : Store → Store → Type 0
Sound before after = IsWithin after × KeepsLimits before after

pub KeepsLimits-refl : (s : Store) → KeepsLimits s s
unfolding KeepsLimits
KeepsLimits-refl s id a e = (a, e, refl)

pub KeepsLimits-trans : (r s t : Store) → KeepsLimits r s → KeepsLimits s t → KeepsLimits r t
unfolding KeepsLimits
KeepsLimits-trans r s t f g id a e =
    let (b, eb, lb) = f id a e in let (c, ec, lc) = g id b eb in (c, ec, lc ∙ lb)

pub Sound-trans : (r s t : Store) → KeepsLimits r s → Sound s t → Sound r t
Sound-trans r s t f (w, g) = (w, KeepsLimits-trans r s t f g)

-- Filing under `id` an account that keeps the limit and stays below it.
pub put-Sound :
    (store : Store) (id : String) (old new : Account)
    → IsWithin store
    → lookup id store.accounts ≡ some old
    → new.id ≡ id
    → new.limit_value ≡ old.limit_value
    → new.consumed_value ≤ new.limit_value
    → Sound store (record store { accounts = insert id new store.accounts })
unfolding IsWithin KeepsLimits
put-Sound store id old new within stored filed limit below = (within', keeps)
  where
    within' :
        (key : String) (a : Account)
        → lookup key (insert id new store.accounts) ≡ some a
        → (a.id ≡ key) × (a.consumed_value ≤ a.limit_value)
    within' key a e = elim (==-cases key id) [
      | inl same ↦
          let this : new ≡ a = cc (lookup-insert_self id new store.accounts, e, same) in
          rw (← this) (rw same filed, below)
      | inr other ↦ within key a (sym (lookup-insert_ne key id new store.accounts other) ∙ e)
    ]

    keeps :
        (key : String) (a : Account)
        → lookup key store.accounts ≡ some a
        → (b : Account) × (lookup key (insert id new store.accounts) ≡ some b)
          × (b.limit_value ≡ a.limit_value)
    keeps key a e = elim (==-cases key id) [
      | inl same ↦
          let this : old ≡ a = cc (stored, e, same) in
          (
            new,
            rw same (lookup-insert_self id new store.accounts),
            limit ∙ ap (λ x. x.limit_value) this,
          )
      | inr other ↦ (a, lookup-insert_ne key id new store.accounts other ∙ e, refl)
    ]

pub filed :
    (store : Store) (id : String) (a : Account)
    → IsWithin store
    → lookup id store.accounts ≡ some a
    → (a.id ≡ id) × (a.consumed_value ≤ a.limit_value)
unfolding IsWithin
filed store id a within e = within id a e

pub limit_kept :
    (before after : Store) (id : String) (a b : Account)
    → KeepsLimits before after
    → lookup id before.accounts ≡ some a
    → lookup id after.accounts ≡ some b
    → b.limit_value ≡ a.limit_value
unfolding KeepsLimits
limit_kept before after id a b keeps ea eb =
    let (c, ec, lc) = keeps id a ea in
    let same : b ≡ c = cc (eb, ec) in ap (λ x. x.limit_value) same ∙ lc

pub update-Sound :
    (store : Store) (id : String) (version consumed : ℕ) (status : BudgetAccountStatus)
    → IsWithin store
    → ((a : Account) → lookup id store.accounts ≡ some a → consumed ≤ a.limit_value)
    → Sound store (update_if_version_matches id version consumed status store).1
unfolding update_if_version_matches
update-Sound store id version consumed status within below =
    elim (Option-cases (lookup id store.accounts)) [
      | inl absent ↦ rw (absent, update_if_version_matches) (within, KeepsLimits-refl store)
      | inr (a, stored) ↦ elim (Bool-cases (a.version == version)) [
        | inr differ ↦
            rw (stored, update_if_version_matches, differ) (within, KeepsLimits-refl store)
        | inl same ↦
            rw (stored, update_if_version_matches, same)
              (put-Sound store id a _ within stored ((filed store id a within stored).0) refl
                (below a stored))
      ]
    ]

pub claim-Sound :
    (store : Store) (key : String) (event : BudgetEvent)
    → IsWithin store
    → Sound store (claim key event store).1
unfolding claim IsWithin KeepsLimits
claim-Sound store key event within = elim (Bool-cases (is_some (lookup key store.events))) [
  | inl taken ↦ rw taken (within, KeepsLimits-refl store)
  | inr free ↦ rw free (within, KeepsLimits-refl store)
]

-- Opening an account under an id that is not taken.
pub open-Sound :
    (store : Store) (fresh : String) (new : Account)
    → IsWithin store
    → lookup fresh store.accounts ≡ none
    → new.id ≡ fresh
    → new.consumed_value ≤ new.limit_value
    → Sound store (record store { accounts = insert fresh new store.accounts })
unfolding IsWithin KeepsLimits
open-Sound store fresh new within free here below = (within', keeps)
  where
    within' :
        (key : String) (a : Account)
        → lookup key (insert fresh new store.accounts) ≡ some a
        → (a.id ≡ key) × (a.consumed_value ≤ a.limit_value)
    within' key a e = elim (==-cases key fresh) [
      | inl same ↦
          let this : new ≡ a = cc (lookup-insert_self fresh new store.accounts, e, same) in
          rw (← this) (rw same here, below)
      | inr other ↦ within key a (sym (lookup-insert_ne key fresh new store.accounts other) ∙ e)
    ]

    keeps :
        (key : String) (a : Account)
        → lookup key store.accounts ≡ some a
        → (b : Account) × (lookup key (insert fresh new store.accounts) ≡ some b)
          × (b.limit_value ≡ a.limit_value)
    keeps key a e = elim (==-cases key fresh) [
      | inl same ↦ absurd (cc (free, e, same))
      | inr other ↦ (a, lookup-insert_ne key fresh new store.accounts other ∙ e, refl)
    ]

pub ensure-Sound :
    (store : Store) (fresh : String) (scope : Scope) (limit : ℕ)
    → IsWithin store
    → lookup fresh store.accounts ≡ none
    → Sound store (ensure_account fresh scope limit store).1
unfolding ensure_account
ensure-Sound store fresh scope limit within free = elim (Option-cases (get_by_scope scope store)) [
  | inl absent ↦
      rw (absent, ensure_account) (open-Sound store fresh _ within free refl (omega arith))
  | inr (a, found) ↦ rw (found, ensure_account) (within, KeepsLimits-refl store)
]
