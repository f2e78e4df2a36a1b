-- ===== src/Base/Lists.antt =====
-- Lists, sets and dictionaries as Python uses them, over the native numbers.
use Prim.Native.Nat.{ℕ, suc}
use mathlib.Core.Path.{◌≡◌, refl, sym, ap, subst}
use mathlib.Core.Bool.{Bool, true, false, ◌&&◌, ◌||◌}
use mathlib.Core.List.{List, [], ◌∷◌, ◌++◌, map}
use mathlib.Core.Logic.{◌⊎◌, inl, inr}
use mr_enderson.Base.Tests.{if◌then◌else◌, Bool-cases}
use mr_enderson.Base.Equality.{Eq, ◌==◌}

module _ {ℓ} {A : Type ℓ} where
  abbrev pub length : List A → ℕ
  length [] = 0
  length (_ ∷ xs) = suc (length xs)

  -- `not xs`
  abbrev pub is_empty : List A → Bool
  is_empty [] = true
  is_empty (_ ∷ _) = false

  -- `any(p(x) for x in xs)` and `all(p(x) for x in xs)`
  abbrev pub any : (A → Bool) → List A → Bool
  any p [] = false
  any p (x ∷ xs) = p x || any p xs

  abbrev pub all : (A → Bool) → List A → Bool
  all p [] = true
  all p (x ∷ xs) = p x && all p xs

  -- `[x for x in xs if p(x)]`
  abbrev pub keep : (A → Bool) → List A → List A
  keep p [] = []
  keep p (x ∷ xs) = let rest = keep p xs in if p x then x ∷ rest else rest

  -- Every element satisfies `P`; some element does.
  abbrev pub All {κ} : (A → Type κ) → List A → Type κ
  All P [] = Unit
  All P (x ∷ xs) = P x × All P xs

  pub data Any {κ} (P : A → Type κ) : List A → Type (ℓ ⊔ κ) where
    here : {x : A} {xs : List A} → P x → Any P (x ∷ xs)
    there : {x : A} {xs : List A} → Any P xs → Any P (x ∷ xs)

-- `x in xs`, as a test and as a relation.
module _ {ℓ} {A : Type ℓ} where
  abbrev pub In : A → List A → Type ℓ
  In a xs = Any (λ x. a ≡ x) xs

  abbrev pub contains : ⦃e : Eq A⦄ → A → List A → Bool
  contains a [] = false
  contains a (x ∷ xs) = a == x || contains a xs

module _ {ℓ κ} {A : Type ℓ} (P : A → Type κ) where
  pub All-at : (x : A) (xs : List A) → All P xs → In x xs → P x
  All-at x [] h m = elim m [ ]
  All-at x (y ∷ ys) h (here e) = subst P (sym e) (h.0)
  All-at x (y ∷ ys) h (there m) = All-at x ys h.1 m

  pub All-of_In : (xs : List A) → ((x : A) → In x xs → P x) → All P xs
  All-of_In [] h = tt
  All-of_In (x ∷ xs) h = (h x (here refl), All-of_In xs (λ y m. h y (there m)))

module _ {ℓ} {A : Type ℓ} where
  pub append-nil : (xs ys : List A) → xs ++ ys ≡ [] → (xs ≡ []) × (ys ≡ [])
  append-nil [] ys h = (refl, h)
  append-nil (x ∷ xs) ys h = cc

  pub In-uncons : (a x : A) (xs : List A) → In a (x ∷ xs) → (a ≡ x) ⊎ In a xs
  In-uncons a x xs (here e) = inl e
  In-uncons a x xs (there m) = inr m

  pub In-append_left : (a : A) (xs ys : List A) → In a xs → In a (xs ++ ys)
  In-append_left a [] ys m = elim m [ ]
  In-append_left a (x ∷ xs) ys (here e) = here e
  In-append_left a (x ∷ xs) ys (there m) = there (In-append_left a xs ys m)

  pub In-append_right : (a : A) (xs ys : List A) → In a ys → In a (xs ++ ys)
  In-append_right a [] ys m = m
  In-append_right a (x ∷ xs) ys m = there (In-append_right a xs ys m)

  pub In-append : (a : A) (xs ys : List A) → In a (xs ++ ys) → In a xs ⊎ In a ys
  In-append a [] ys m = inr m
  In-append a (x ∷ xs) ys (here e) = inl (here e)
  In-append a (x ∷ xs) ys (there m) = elim (In-append a xs ys m) [
    | inl k ↦ inl (there k)
    | inr k ↦ inr k
  ]

  pub In-keep : (p : A → Bool) (a : A) (xs : List A) → In a xs → p a ≡ true → In a (keep p xs)
  In-keep p a [] m h = elim m [ ]
  In-keep p a (x ∷ xs) (here e) h = rw (subst (λ z. p z ≡ true) e h) (here e)
  In-keep p a (x ∷ xs) (there m) h = elim (Bool-cases (p x)) [
    | inl y ↦ rw y (there (In-keep p a xs m h))
    | inr n ↦ rw n (In-keep p a xs m h)
  ]

  pub keep-In : (p : A → Bool) (a : A) (xs : List A) → In a (keep p xs) → In a xs × (p a ≡ true)
  keep-In p a [] m = elim m [ ]
  keep-In p a (x ∷ xs) m = elim (Bool-cases (p x)) [
    | inr n ↦ let (k, h) = keep-In p a xs (rw n at m) in (there k, h)
    | inl y ↦ elim (In-uncons a x (keep p xs) (rw y at m)) [
      | inl e ↦ (here e, subst (λ z. p z ≡ true) (sym e) y)
      | inr k ↦ let (k', h) = keep-In p a xs k in (there k', h)
    ]
  ]

pub is_empty-nil {ℓ} : {A : Type ℓ} (xs : List A) → is_empty xs ≡ true → xs ≡ []
is_empty-nil [] h = refl
is_empty-nil (x ∷ xs) h = cc

module _ {ℓ κ} {A : Type ℓ} {B : Type κ} (f : A → B) where
  pub In-map : (a : A) (xs : List A) → In a xs → In (f a) (map f xs)
  In-map a [] m = elim m [ ]
  In-map a (x ∷ xs) (here e) = here (ap f e)
  In-map a (x ∷ xs) (there m) = there (In-map a xs m)

  pub map-In : (b : B) (xs : List A) → In b (map f xs) → (a : A) × In a xs × (b ≡ f a)
  map-In b [] m = elim m [ ]
  map-In b (x ∷ xs) (here e) = (x, here refl, e)
  map-In b (x ∷ xs) (there m) = let (a, i, e) = map-In b xs m in (a, there i, e)

module _ {ℓ} {A : Type ℓ} (p : A → Bool) where
  pub all-In : (xs : List A) (x : A) → all p xs ≡ true → In x xs → p x ≡ true
  all-In [] x h m = elim m [ ]
  all-In (y ∷ ys) x h m = elim (Bool-cases (p y)) [
    | inr n ↦ absurd (cc (rw n at h))
    | inl t ↦ elim (In-uncons x y ys m) [
      | inl e ↦ subst (λ z. p z ≡ true) (sym e) t
      | inr i ↦ all-In ys x (rw t at h) i
    ]
  ]

  pub any-In : (xs : List A) → any p xs ≡ true → (x : A) × In x xs × (p x ≡ true)
  any-In [] h = cc
  any-In (x ∷ xs) h = elim (Bool-cases (p x)) [
    | inl t ↦ (x, here refl, t)
    | inr n ↦ let (y, i, t) = any-In xs (rw n at h) in (y, there i, t)
  ]

  pub all_of-In : (xs : List A) → ((x : A) → In x xs → p x ≡ true) → all p xs ≡ true
  all_of-In [] h = refl
  all_of-In (x ∷ xs) h = rw (h x (here refl)) (all_of-In xs (λ y m. h y (there m)))
