-- ===== src/Base/Dicts.antt =====
-- A Python dict in insertion order, over any key with `==`.
use mathlib.Core.Path.{◌≡◌, refl}
use mathlib.Core.Logic.{inl, inr}
use mathlib.Core.Bool.{false}
use mathlib.Core.Option.{Option, none, some}
use mathlib.Core.List.{List, [], ◌∷◌}
use native.Mathlib.Omega.{arith}
use mr_enderson.Base.Tests.{if◌then◌else◌}
use mr_enderson.Base.Equality.{Eq, ◌==◌, ==-refl, ==-cases, ==-sym}

abbrev pub Dict {ℓ κ} : Type ℓ → Type κ → Type (ℓ ⊔ κ)
Dict K V = List (K × V)

module _ {ℓ κ} {K : Type ℓ} {V : Type κ} where
  abbrev pub keys : Dict K V → List K
  keys [] = []
  keys ((key, _) ∷ rest) = key ∷ keys rest

  -- `list(d.values())`
  abbrev pub values : Dict K V → List V
  values [] = []
  values ((_, val) ∷ rest) = val ∷ values rest

module _ {ℓ κ} {K : Type ℓ} {V : Type κ} ⦃e : Eq K⦄ where
  -- `d.get(key)`
  abbrev pub lookup : K → Dict K V → Option V
  lookup key [] = none
  lookup key ((other_key, val) ∷ rest) = if key == other_key then some val else lookup key rest

  -- `d[key] = value`
  abbrev pub insert : K → V → Dict K V → Dict K V
  insert key val [] = (key, val) ∷ []
  insert key val ((other_key, old) ∷ rest) =
      if key == other_key then (other_key, val) ∷ rest else (other_key, old) ∷ insert key val rest

  -- `del d[key]`
  abbrev pub erase : K → Dict K V → Dict K V
  erase key [] = []
  erase key ((other_key, old) ∷ rest) =
      if key == other_key then rest else (other_key, old) ∷ erase key rest

  pub lookup-insert_self :
      (key : K) (val : V) (rest : Dict K V) → lookup key (insert key val rest) ≡ some val
  lookup-insert_self key val [] = ground (arith, ==-refl key)
  lookup-insert_self key val ((other_key, old) ∷ rest) =
      ground (arith, ==-refl key, lookup-insert_self key val rest)

  pub lookup-insert_ne :
      (other_key key : K) (val : V) (rest : Dict K V)
      → (other_key == key) ≡ false
      → lookup other_key (insert key val rest) ≡ lookup other_key rest
  lookup-insert_ne other_key key val [] h = ground (arith, h)
  lookup-insert_ne other_key key val ((third, old) ∷ rest) h = elim (==-cases key third) [
    | inl same ↦ ground (arith, h, same, ==-refl key)
    | inr other ↦ ground (arith, other, lookup-insert_ne other_key key val rest h)
  ]

  -- No key is listed twice.
  abbrev pub IsKeyed : Dict K V → Type κ
  IsKeyed [] = Unit
  IsKeyed ((key, _) ∷ rest) = (lookup key rest ≡ none) × IsKeyed rest

  pub insert-IsKeyed :
      (key : K) (val : V) (rest : Dict K V) → IsKeyed rest → IsKeyed (insert key val rest)
  insert-IsKeyed key val [] h = (refl, tt)
  insert-IsKeyed key val ((other_key, old) ∷ rest) h = elim (==-cases key other_key) [
    | inl same ↦ rw (same, ==-refl other_key) h
    | inr other ↦ rw other (
      rw (lookup-insert_ne other_key key val rest (rw (==-sym other_key key) other)) (h.0),
      insert-IsKeyed key val rest h.1,
    )
  ]

  pub lookup-erase_self :
      (key : K) (rest : Dict K V) → IsKeyed rest → lookup key (erase key rest) ≡ none
  lookup-erase_self key [] h = refl
  lookup-erase_self key ((other_key, old) ∷ rest) h = elim (==-cases key other_key) [
    | inl same ↦ rw (same, ==-refl other_key) h.0
    | inr other ↦ ground (arith, other, lookup-erase_self key rest h.1)
  ]

  pub lookup-erase_ne :
      (other_key key : K) (rest : Dict K V)
      → (other_key == key) ≡ false
      → lookup other_key (erase key rest) ≡ lookup other_key rest
  lookup-erase_ne other_key key [] h = refl
  lookup-erase_ne other_key key ((third, old) ∷ rest) h = elim (==-cases key third) [
    | inl same ↦ ground (arith, h, same, ==-refl key)
    | inr other ↦ ground (arith, other, lookup-erase_ne other_key key rest h)
  ]

  pub erase-IsKeyed : (key : K) (rest : Dict K V) → IsKeyed rest → IsKeyed (erase key rest)
  erase-IsKeyed key [] h = tt
  erase-IsKeyed key ((other_key, old) ∷ rest) h = elim (==-cases key other_key) [
    | inl same ↦ rw (same, ==-refl other_key) h.1
    | inr other ↦ rw other (
      rw (lookup-erase_ne other_key key rest (rw (==-sym other_key key) other)) (h.0),
      erase-IsKeyed key rest h.1,
    )
  ]
