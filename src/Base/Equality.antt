-- ===== src/Base/Equality.antt =====
-- Python's `==` on the types of the program, as an instance argument.
use Prim.Native.Nat.{ℕ}
use Prim.Native.String.{String}
use mathlib.Core.Path.{◌≡◌, refl}
use mathlib.Core.Logic.{◌↔◌, ◌≢◌, ◌⊎◌, inl, inr}
use mathlib.Core.Bool.{Bool, true, false}
use mathlib.Core.Option.{Option, none, some}
use text.Mathlib.Text.{◌==◌ as str_beq}
use text.Mathlib.TextEquality.{eq_iff}
use mr_enderson.Base.Tests.{nat_beq, nat_beq_iff, Bool-cases}

pub record Eq {ℓ} (A : Type ℓ) : Type ℓ where
  pub same : A → A → Bool
  pub decides : (x y : A) → (same x y ≡ true) ↔ (x ≡ y)

infix 50 ◌==◌
abbrev pub ◌==◌ {ℓ} : {A : Type ℓ} ⦃test : Eq A⦄ (x y : A) → Bool
◌==◌ ⦃test⦄ x y = test.same x y

abbrev pub is_yes {ℓ} : {A : Type ℓ} → Dec A → Bool
is_yes (yes _) = true
is_yes (no _) = false

pub is_yes_iff {ℓ} : {A : Type ℓ} (d : Dec A) → (is_yes d ≡ true) ↔ A
is_yes_iff (yes p) = (λ _. p, λ _. refl)
is_yes_iff (no n) = (λ h. cc, λ p. absurd (n p))

-- An enum compares by its constructors.
abbrev pub eq_of_discrete {ℓ} : {A : Type ℓ} → Discrete A → Eq A
eq_of_discrete d = record { same = λ a b. is_yes (d a b); decides = λ a b. is_yes_iff (d a b) }

instance abbrev pub nat_eq : Eq ℕ
nat_eq = record { same = nat_beq; decides = nat_beq_iff }

instance abbrev pub string_eq : Eq String
string_eq = record { same = str_beq; decides = eq_iff }

module _ {ℓ} {A : Type ℓ} ⦃e : Eq A⦄ where
  pub ==-refl : (a : A) → (a == a) ≡ true
  ==-refl a = (e.decides a a).1 refl

  pub ==→≡ : (a b : A) → (a == b) ≡ true → a ≡ b
  ==→≡ a b h = (e.decides a b).0 h

  pub ==-cases : (a b : A) → (a ≡ b) ⊎ ((a == b) ≡ false)
  ==-cases a b = elim (Bool-cases (a == b)) [
    | inl same ↦ inl ((e.decides a b).0 same)
    | inr other ↦ inr other
  ]

  pub ==-sym : (a b : A) → (a == b) ≡ (b == a)
  ==-sym a b = elim (==-cases a b) [
    | inl same ↦ rw same
    | inr other ↦ elim (==-cases b a) [ inl same ↦ rw same | inr also ↦ rw (other, also) ]
  ]

  pub ==→≢ : (a b : A) → (a == b) ≡ false → a ≢ b
  ==→≢ a b h same = let equal : (a == b) ≡ true = rw same (==-refl b) in cc

  abbrev pub option_beq : Option A → Option A → Bool
  option_beq none none = true
  option_beq (some a) (some b) = a == b
  option_beq _ _ = false
