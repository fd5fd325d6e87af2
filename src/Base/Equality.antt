-- ===== src/Base/Equality.antt =====
-- Boolean equality as an interface: `===` of the source at each type that it compares.
use Prim.Native.Nat.{ℕ}
use Prim.Native.String.{String}
use mathlib.Core.Path.{◌≡◌, refl}
use mathlib.Core.Logic.{◌≢◌, ◌↔◌, inl, inr}
use mathlib.Core.Bool.{Bool, true, false, ◌&&◌, ◌||◌}
use mathlib.Core.List.{List, [], ◌∷◌}
use native.Mathlib.Omega.{arith}
use text.Mathlib.Text.{◌==◌ as text_eq}
use text.Mathlib.TextEquality.{eq_iff}
use credence_backend.Base.Tests.{nat_beq, nat_beq_iff, Bool-cases}

-- How the values of a type are compared, with what the comparison means.
pub record Eq {ℓ} (A : Type ℓ) : Type ℓ where
  pub test : A → A → Bool
  pub test_iff : (a b : A) → (test a b ≡ true) ↔ (a ≡ b)

infix 50 ◌==◌
abbrev pub ◌==◌ {ℓ} : {S : Type ℓ} ⦃e : Eq S⦄ (a b : S) → Bool
◌==◌ ⦃e⦄ a b = e.test a b

module _ {ℓ} {A : Type ℓ} ⦃e : Eq A⦄ where
  pub ==_iff : (a b : A) → ((a == b) ≡ true) ↔ (a ≡ b)
  ==_iff a b = e.test_iff a b

  pub ==_refl : (a : A) → (a == a) ≡ true
  ==_refl a = (e.test_iff a a).1 refl

  pub ==_ne : (a b : A) → a ≢ b → (a == b) ≡ false
  ==_ne a b h = elim (Bool-cases (a == b)) [
    | inl same ↦ absurd (h ((e.test_iff a b).0 same))
    | inr other ↦ other
  ]

  pub ==_comm : (a b : A) → (a == b) ≡ (b == a)
  ==_comm a b = ground (arith, e.test_iff a b, e.test_iff b a)

  -- `Array.includes` and `Set.has`
  abbrev pub contains : A → List A → Bool
  contains a [] = false
  contains a (x ∷ xs) = x == a || contains a xs

  -- `Set.add`: the set keeps the order of insertion.
  abbrev pub add_elem : A → List A → List A
  add_elem a [] = a ∷ []
  add_elem a (x ∷ xs) =
      let rest = add_elem a xs in elim (x == a) [ true ↦ x ∷ xs | false ↦ x ∷ rest ]

  pub contains-add_elem :
      (b a : A) (xs : List A) → contains b (add_elem a xs) ≡ (a == b || contains b xs)
  contains-add_elem b a [] = refl
  contains-add_elem b a (x ∷ xs) =
      ground (arith, e.test_iff x a, e.test_iff x b, e.test_iff a b, contains-add_elem b a xs)

abbrev pub list_beq : List ℕ → List ℕ → Bool
list_beq [] [] = true
list_beq [] (b ∷ ys) = false
list_beq (a ∷ xs) [] = false
list_beq (a ∷ xs) (b ∷ ys) = nat_beq a b && list_beq xs ys

pub list_beq_iff : (xs ys : List ℕ) → (list_beq xs ys ≡ true) ↔ (xs ≡ ys)
list_beq_iff [] [] = ground arith
list_beq_iff [] (b ∷ ys) = ground arith
list_beq_iff (a ∷ xs) [] = ground arith
list_beq_iff (a ∷ xs) (b ∷ ys) = ground (arith, list_beq_iff xs ys)

instance abbrev pub codes_eq : Eq (List ℕ)
codes_eq = record { test = list_beq; test_iff = list_beq_iff }

instance abbrev pub nat_eq : Eq ℕ
nat_eq = record { test = nat_beq; test_iff = nat_beq_iff }

instance abbrev pub string_eq : Eq String
string_eq = record { test = text_eq; test_iff = eq_iff }
