-- ===== src/Base/Sets.antt =====
-- A frozenset as a list: only membership is observed.
use mathlib.Core.Path.{◌≡◌, refl, ap}
use mathlib.Core.Logic.{inl, inr}
use mathlib.Core.Bool.{Bool, true, false, ◌&&◌}
use mathlib.Core.List.{List, [], ◌∷◌}
use native.Mathlib.Omega.{arith}
use mr_enderson.Base.Equality.{Eq, ==-refl, ==-cases}
use mr_enderson.Base.Lists.{all, keep, contains, is_empty}

module _ {ℓ} {A : Type ℓ} ⦃e : Eq A⦄ where
  -- `a <= b`
  abbrev pub subset : List A → List A → Bool
  subset xs ys = all (λ x. contains x ys) xs

  -- `a & b`
  abbrev pub inter : List A → List A → List A
  inter xs ys = keep (λ x. contains x ys) xs

  pub all-at :
      (p : A → Bool) (x : A) (xs : List A) → all p xs ≡ true → contains x xs ≡ true → p x ≡ true
  all-at p x [] h m = cc
  all-at p x (y ∷ ys) h m = elim (==-cases x y) [
    | inl same ↦ ground (arith, ap p same)
    | inr other ↦ ground (arith, all-at p x ys)
  ]

  pub all_of_contains :
      (p : A → Bool) (xs : List A) → ((x : A) → contains x xs ≡ true → p x ≡ true) → all p xs ≡ true
  all_of_contains p [] h = refl
  all_of_contains p (y ∷ ys) h =
      ground (arith, h y, ==-refl y, all_of_contains p ys (λ x m. h x (ground (arith, m))))

  pub contains-keep :
      (p : A → Bool) (x : A) (xs : List A) → contains x (keep p xs) ≡ (contains x xs && p x)
  contains-keep p x [] = refl
  contains-keep p x (y ∷ ys) = elim (==-cases x y) [
    | inl same ↦ ground (arith, ap p same, same, ==-refl x, contains-keep p x ys)
    | inr other ↦ ground (arith, contains-keep p x ys, other)
  ]

  pub subset_refl : (xs : List A) → subset xs xs ≡ true
  subset_refl xs = all_of_contains (λ x. contains x xs) xs (λ x m. m)

  pub subset_trans :
      (xs ys zs : List A) → subset xs ys ≡ true → subset ys zs ≡ true → subset xs zs ≡ true
  subset_trans xs ys zs h k =
      all_of_contains (λ x. contains x zs) xs
        (λ x m. all-at (λ x. contains x zs) x ys k (all-at (λ x. contains x ys) x xs h m))

  pub inter-subset_left : (xs ys : List A) → subset (inter xs ys) xs ≡ true
  inter-subset_left xs ys =
      all_of_contains (λ x. contains x xs) (inter xs ys)
        (λ x m. ground (arith, contains-keep (λ x. contains x ys) x xs, m))

  pub inter-subset_right : (xs ys : List A) → subset (inter xs ys) ys ≡ true
  inter-subset_right xs ys =
      all_of_contains (λ x. contains x ys) (inter xs ys)
        (λ x m. ground (arith, contains-keep (λ x. contains x ys) x xs, m))

  pub subset-inter :
      (zs xs ys : List A)
      → subset zs xs ≡ true
      → subset zs ys ≡ true
      → subset zs (inter xs ys) ≡ true
  subset-inter zs xs ys h k =
      all_of_contains (λ x. contains x (inter xs ys)) zs
        (λ x m. ground (
          arith,
          contains-keep (λ x. contains x ys) x xs,
          all-at (λ x. contains x xs) x zs h m,
          all-at (λ x. contains x ys) x zs k m,
        ))

  pub all-subset :
      (p : A → Bool) (xs ys : List A) → subset xs ys ≡ true → all p ys ≡ true → all p xs ≡ true
  all-subset p xs ys h k =
      all_of_contains p xs (λ x m. all-at p x ys k (all-at (λ x. contains x ys) x xs h m))

  -- A non-empty set that lies in another makes that one non-empty.
  pub is_empty-subset :
      (xs ys : List A) → subset xs ys ≡ true → is_empty xs ≡ false → is_empty ys ≡ false
  is_empty-subset [] ys h k = cc
  is_empty-subset (x ∷ xs) [] h k = ground arith
  is_empty-subset (x ∷ xs) (y ∷ ys) h k = refl
