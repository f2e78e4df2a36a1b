-- ===== src/Base/Sorting.antt =====
-- `sorted(xs, key=...)`, as an insertion sort by a test `before` on the elements. Both keep equal
-- elements in their order, so that the two return the same list.
use Prim.Native.Nat.{ℕ}
use mathlib.Core.Path.{◌≡◌, refl, subst}
use mathlib.Core.Logic.{◌⊎◌, inl, inr}
use mathlib.Core.Bool.{Bool, true, false, ◌||◌, ◌&&◌}
use mathlib.Core.List.{List, [], ◌∷◌}
use native.Mathlib.Omega.{arith}
use mr_enderson.Base.Tests.{if◌then◌else◌, leb, ltb, Bool-cases}
use mr_enderson.Base.Lists.{In, here, there, In-uncons}

-- The order of texts, by their code points.
abbrev pub codes_le : List ℕ → List ℕ → Bool
codes_le [] _ = true
codes_le (_ ∷ _) [] = false
codes_le (x ∷ xs) (y ∷ ys) = ltb x y || (leb x y && codes_le xs ys)

pub codes_le_total : (xs ys : List ℕ) → (codes_le xs ys ≡ true) ⊎ (codes_le ys xs ≡ true)
codes_le_total [] ys = inl refl
codes_le_total (x ∷ xs) [] = inr refl
codes_le_total (x ∷ xs) (y ∷ ys) = elim (codes_le_total xs ys) [
  | inl h ↦ ground (arith, h)
  | inr h ↦ ground (arith, h)
]

pub codes_le_trans :
    (xs ys zs : List ℕ) → codes_le xs ys ≡ true → codes_le ys zs ≡ true → codes_le xs zs ≡ true
codes_le_trans [] ys zs h k = refl
codes_le_trans (x ∷ xs) [] zs h k = cc
codes_le_trans (x ∷ xs) (y ∷ ys) [] h k = cc
codes_le_trans (x ∷ xs) (y ∷ ys) (z ∷ zs) h k = ground (arith, codes_le_trans xs ys zs)

module _ {ℓ} {A : Type ℓ} (before : A → A → Bool) where
  abbrev pub put : A → List A → List A
  put x [] = x ∷ []
  put x (y ∷ ys) = let rest = put x ys in if before x y then x ∷ y ∷ ys else y ∷ rest

  unfoldable pub sorted : List A → List A
  sorted [] = []
  sorted (x ∷ xs) = put x (sorted xs)

  pub put-In : (a x : A) (ys : List A) → In a (put x ys) → (a ≡ x) ⊎ In a ys
  put-In a x [] m = In-uncons a x [] m
  put-In a x (y ∷ ys) m = elim (Bool-cases (before x y)) [
    | inl b ↦ In-uncons a x (y ∷ ys) (rw b at m)
    | inr b ↦ elim (In-uncons a y (put x ys) (rw b at m)) [
      | inl e ↦ inr (here e)
      | inr k ↦ elim (put-In a x ys k) [ inl e ↦ inl e | inr i ↦ inr (there i) ]
    ]
  ]

  In-put : (a x : A) (ys : List A) → (a ≡ x) ⊎ In a ys → In a (put x ys)
  In-put a x [] (inl e) = here e
  In-put a x [] (inr m) = there m
  In-put a x (y ∷ ys) m = elim (Bool-cases (before x y)) [
    | inl b ↦ rw b (elim m [ inl e ↦ here e | inr k ↦ there k ])
    | inr b ↦ rw b (elim m [
      | inl e ↦ there (In-put a x ys (inl e))
      | inr k ↦ elim (In-uncons a y ys k) [ inl e ↦ here e | inr i ↦ there (In-put a x ys (inr i)) ]
    ])
  ]

  -- Nothing is added.
  pub sorted-In : (a : A) (xs : List A) → In a (sorted xs) → In a xs
  unfolding sorted
  sorted-In a [] m = m
  sorted-In a (x ∷ xs) m = elim (put-In a x (sorted xs) m) [
    | inl e ↦ here e
    | inr k ↦ there (sorted-In a xs k)
  ]

  -- Nothing is dropped.
  pub In-sorted : (a : A) (xs : List A) → In a xs → In a (sorted xs)
  unfolding sorted
  In-sorted a [] m = m
  In-sorted a (x ∷ xs) (here e) = In-put a x (sorted xs) (inl e)
  In-sorted a (x ∷ xs) (there m) = In-put a x (sorted xs) (inr (In-sorted a xs m))

  -- The first element of a sorted list comes before all of the list.
  module _ (total : (x y : A) → (before x y ≡ true) ⊎ (before y x ≡ true))
      (trans : (x y z : A) → before x y ≡ true → before y z ≡ true → before x z ≡ true) where
    refl_before : (x : A) → before x x ≡ true
    refl_before x = elim (total x x) [ inl h ↦ h | inr h ↦ h ]

    put-first :
        (x a : A) (ys rest : List A)
        → ((b : A) (more : List A) → ys ≡ b ∷ more → (y : A) → In y ys → before b y ≡ true)
        → put x ys ≡ a ∷ rest
        → (y : A) → (y ≡ x) ⊎ In y ys
        → before a y ≡ true
    put-first x a [] rest low h y (inl e) =
        let same : x ≡ a = cc (h) in rw (e, ← same) (refl_before x)
    put-first x a [] rest low h y (inr m) = elim m [ ]
    put-first x a (z ∷ zs) rest low h y m = elim (Bool-cases (before x z)) [
      | inl b ↦
          let same : x ≡ a = cc (rw b at h) in
          subst (λ c. before c y ≡ true) same
            (elim m [ inl e ↦ rw e (refl_before x) | inr k ↦ trans x z y b (low z zs refl y k) ])
      | inr b ↦
          let same : z ≡ a = cc (rw b at h) in
          subst (λ c. before c y ≡ true) same
            (elim m [
              | inl e ↦ rw e (elim (total x z) [ inl c ↦ absurd (cc (b, c)) | inr c ↦ c ])
              | inr k ↦ low z zs refl y k
            ])
    ]

    pub sorted-first :
        (a : A) (xs rest : List A) → sorted xs ≡ a ∷ rest → (y : A) → In y xs → before a y ≡ true
    unfolding sorted
    sorted-first a [] rest h y m = elim m [ ]
    sorted-first a (x ∷ xs) rest h y m =
        put-first x a (sorted xs) rest
          (λ b more e z k. sorted-first b xs more e z (sorted-In z xs k)) h y
          (elim (In-uncons y x xs m) [ inl e ↦ inl e | inr k ↦ inr (In-sorted y xs k) ])
