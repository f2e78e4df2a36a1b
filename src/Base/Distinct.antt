-- ===== src/Base/Distinct.antt =====
-- Lists whose elements have different keys.
use mathlib.Core.Path.{◌≡◌, refl, sym, ap, ◌∙◌}
use mathlib.Core.Logic.{◌≢◌, inl, inr}
use mathlib.Core.Bool.{Bool}
use mathlib.Core.List.{List, [], ◌∷◌, ◌++◌, map}
use mr_enderson.Base.Tests.{Bool-cases}
use mr_enderson.Base.Lists.{In, here, there, In-append, keep, keep-In, map-In}
use mr_enderson.Base.Sorting.{put, sorted, put-In, sorted-In}

module _ {A K : Type 0} (f : A → K) where
  unfoldable pub IsDistinct : List A → Type 0
  IsDistinct [] = Unit
  IsDistinct (x ∷ xs) = ((y : A) → In y xs → f y ≢ f x) × IsDistinct xs

  pub append-IsDistinct :
      (xs ys : List A)
      → IsDistinct xs
      → IsDistinct ys
      → ((x y : A) → In x xs → In y ys → f y ≢ f x)
      → IsDistinct (xs ++ ys)
  unfolding IsDistinct
  append-IsDistinct [] ys d e apart = e
  append-IsDistinct (x ∷ xs) ys d e apart = (
    λ y m. elim (In-append y xs ys m) [ inl i ↦ d.0 y i | inr i ↦ apart x y (here refl) i ],
    append-IsDistinct xs ys d.1 e (λ a b i j. apart a b (there i) j),
  )

  module _ (before : A → A → Bool) where
    put-IsDistinct :
        (x : A) (ys : List A)
        → ((y : A) → In y ys → f y ≢ f x)
        → IsDistinct ys
        → IsDistinct (put before x ys)
    unfolding IsDistinct
    put-IsDistinct x [] apart d = (λ y m. elim m [ ], tt)
    put-IsDistinct x (y ∷ ys) apart d = elim (Bool-cases (before x y)) [
      | inl b ↦ rw b (apart, d)
      | inr b ↦ rw b (
        λ z m. elim (put-In before z x ys m) [
          | inl e ↦ λ same. apart y (here refl) (sym same ∙ ap f e)
          | inr i ↦ d.0 z i
        ],
        put-IsDistinct x ys (λ z i. apart z (there i)) d.1,
      )
    ]

    -- Sorting keeps them apart.
    pub sorted-IsDistinct : (xs : List A) → IsDistinct xs → IsDistinct (sorted before xs)
    unfolding IsDistinct sorted
    sorted-IsDistinct [] d = tt
    sorted-IsDistinct (x ∷ xs) d =
        put-IsDistinct x (sorted before xs) (λ y m. d.0 y (sorted-In before y xs m))
          (sorted-IsDistinct xs d.1)

  pub keep-IsDistinct : (p : A → Bool) (xs : List A) → IsDistinct xs → IsDistinct (keep p xs)
  unfolding IsDistinct
  keep-IsDistinct p [] d = tt
  keep-IsDistinct p (x ∷ xs) d = elim (Bool-cases (p x)) [
    | inl y ↦ rw y ((λ z m. d.0 z (keep-In p z xs m).0), keep-IsDistinct p xs d.1)
    | inr n ↦ rw n (keep-IsDistinct p xs d.1)
  ]

-- Elements with different keys stay apart under a map that keeps the keys.
pub map-IsDistinct :
    {A B K : Type 0} (f : A → K) (g : B → K) (h : A → B)
    → ((x : A) → g (h x) ≡ f x)
    → (xs : List A) → IsDistinct f xs
    → IsDistinct g (map h xs)
unfolding IsDistinct
map-IsDistinct f g h same [] d = tt
map-IsDistinct f g h same (x ∷ xs) d = (
  λ y m e.
      let (z, i, q) = map-In h y xs m in d.0 z i (sym (same z) ∙ (ap g (sym q) ∙ (e ∙ same x))),
  map-IsDistinct f g h same xs d.1,
)
