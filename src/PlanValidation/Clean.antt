-- ===== src/PlanValidation/Clean.antt =====
-- What it means for a plan that a check of it reports nothing.
use mr_enderson.Base.{
  append-nil, ◌≡◌, refl, inl, inr, String, true, false, ◌&&◌, not, List, [], ◌∷◌, ◌++◌, arith,
  string_eq, ==-cases, keep, In, here, there, contains, Bool-cases, if◌then◌else◌,
}
use mr_enderson.Schemas.{Action}
use mr_enderson.PlanValidation.Checks.{
  duplicates_loop, ids, missing_of, missing_in, Blocker, when_any,
}

module _ {ℓ} {A : Type ℓ} where
  pub when_any-nil : (xs : List A) (b : Blocker) → when_any xs b ≡ [] → xs ≡ []
  when_any-nil [] b h = refl
  when_any-nil (x ∷ xs) b h = cc

  append_one-ne : (xs : List A) (x : A) → xs ++ (x ∷ []) ≡ [] → ⊥
  append_one-ne [] x h = cc
  append_one-ne (y ∷ xs) x h = cc

-- No id of the actions was seen before, and none comes twice.
unfoldable pub Fresh : List Action → List String → Type 0
Fresh [] seen = Unit
Fresh (a ∷ rest) seen = (contains a.id seen ≡ false) × Fresh rest (a.id ∷ seen)

duplicates_loop-grows :
    (actions : List Action) (seen dups : List String)
    → duplicates_loop actions seen dups ≡ []
    → dups ≡ []
unfolding duplicates_loop
duplicates_loop-grows [] seen dups h = h
duplicates_loop-grows (a ∷ rest) seen dups h =
    let more =
      duplicates_loop-grows rest (a.id ∷ seen)
        (if contains a.id seen && not (contains a.id dups) then dups ++ (a.id ∷ []) else dups) h in
    elim (Bool-cases (contains a.id seen && not (contains a.id dups))) [
      | inl holds ↦ absurd (append_one-ne dups a.id (rw holds at more))
      | inr fails ↦ rw fails at more
    ]

pub duplicates-Fresh :
    (actions : List Action) (seen : List String)
    → duplicates_loop actions seen [] ≡ []
    → Fresh actions seen
unfolding duplicates_loop Fresh
duplicates-Fresh [] seen h = tt
duplicates-Fresh (a ∷ rest) seen h = elim (Bool-cases (contains a.id seen)) [
  | inl holds ↦
      absurd (
        append_one-ne [] a.id
          (duplicates_loop-grows rest (a.id ∷ seen) (a.id ∷ []) (rw holds at h)))
  | inr fails ↦ (fails, duplicates-Fresh rest (a.id ∷ seen) (rw fails at h))
]

missing-known :
    (known : List String) (id : String) (deps : List String) (d : String)
    → missing_of known id deps ≡ []
    → contains d deps ≡ true
    → contains d known ≡ true
missing-known known id [] d h k = cc
missing-known known id (x ∷ deps) d h k = elim (Bool-cases (contains x known)) [
  | inl holds ↦ elim (==-cases d x) [
    | inl same ↦ rw same holds
    | inr other ↦ missing-known known id deps d (rw holds at h) (rw other at k)
  ]
  | inr fails ↦ absurd (ground (arith, fails, h))
]

pub missing_in-known :
    (known : List String) (actions : List Action) (a : Action) (d : String)
    → missing_in known actions ≡ []
    → In a actions
    → contains d a.dependencies ≡ true
    → contains d known ≡ true
missing_in-known known [] a d h m k = elim m [ ]
missing_in-known known (b ∷ rest) a d h (here e) k =
    missing-known known b.id b.dependencies d
      (append-nil (missing_of known b.id b.dependencies) (missing_in known rest) h).0 (rw e at k)
missing_in-known known (b ∷ rest) a d h (there m) k =
    missing_in-known known rest a d
      (append-nil (missing_of known b.id b.dependencies) (missing_in known rest) h).1 m k

pub self-none :
    (actions : List Action) (a : Action)
    → ids (keep (λ a. contains a.id a.dependencies) actions) ≡ []
    → In a actions
    → contains a.id a.dependencies ≡ false
self-none [] a h m = elim m [ ]
self-none (b ∷ rest) a h m = elim (Bool-cases (contains b.id b.dependencies)) [
  | inl holds ↦ absurd (ground (arith, holds, h))
  | inr fails ↦ elim m [ here e ↦ rw e fails | there m ↦ self-none rest a (rw fails at h) m ]
]
