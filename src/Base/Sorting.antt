-- ===== src/Base/Sorting.antt =====
-- What a page of a sorted table holds.
use Prim.Native.Nat.{ℕ, zero, suc, ◌+◌, ◌≤◌}
use mathlib.Core.Path.{◌≡◌, refl}
use mathlib.Core.Logic.{inl, inr}
use mathlib.Core.Bool.{Bool, true, false, ◌||◌}
use mathlib.Core.Option.{none, some}
use mathlib.Core.List.{List, [], ◌∷◌}
use native.Mathlib.Omega.{arith}
use credence_backend.Base.Tests.{if◌then◌else◌, leb, nat_beq, Bool-cases}
use credence_backend.Base.Lists.{length, filter, take, drop, All}
use credence_backend.Base.Rows.{
  insert_by, sort_by, find_row, has_row, rows_distinct, find-All, has_row-sort_by,
}

module _ {ℓ} {A : Type ℓ} (k : A → ℕ) where
  abbrev pub Sorted : List A → Type ℓ
  Sorted [] = Unit
  Sorted (x ∷ xs) = All (λ y. k x ≤ k y) xs × Sorted xs

  All-insert_by :
      (n : ℕ) (x : A) (xs : List A)
      → n ≤ k x
      → All (λ y. n ≤ k y) xs
      → All (λ y. n ≤ k y) (insert_by k x xs)
  All-insert_by n x [] le h = (le, tt)
  All-insert_by n x (y ∷ ys) le h = elim (Bool-cases (leb (k x) (k y))) [
    | inl first ↦ rw first (le, h)
    | inr later ↦ rw later (h.0, All-insert_by n x ys le h.1)
  ]

  All-le : (m n : ℕ) (xs : List A) → m ≤ n → All (λ y. n ≤ k y) xs → All (λ y. m ≤ k y) xs
  All-le m n [] le h = tt
  All-le m n (x ∷ xs) le h = let here = h.0 in (omega arith, All-le m n xs le h.1)

  insert_by-Sorted : (x : A) (xs : List A) → Sorted xs → Sorted (insert_by k x xs)
  insert_by-Sorted x [] s = (tt, tt)
  insert_by-Sorted x (y ∷ ys) s = elim (Bool-cases (leb (k x) (k y))) [
    | inl first ↦
        let le : k x ≤ k y = ground arith in rw first ((le, All-le (k x) (k y) ys le s.0), s)
    | inr later ↦
        let le : k y ≤ k x = ground arith in
        rw later (All-insert_by (k y) x ys le s.0, insert_by-Sorted x ys s.1)
  ]

  pub sort_by-Sorted : (xs : List A) → Sorted (sort_by k xs)
  sort_by-Sorted [] = tt
  sort_by-Sorted (x ∷ xs) = insert_by-Sorted x (sort_by k xs) (sort_by-Sorted xs)

  All-drop : (P : A → Type 0) (n : ℕ) (xs : List A) → All P xs → All P (drop n xs)
  All-drop P zero xs h = h
  All-drop P (suc n) [] h = tt
  All-drop P (suc n) (x ∷ xs) h = All-drop P n xs h.1

  module _ (key : A → ℕ) where
    -- A row on a page is not after a row behind the page.
    pub take-le-drop :
        (n i j : ℕ) (xs : List A) {b a : A}
        → Sorted xs
        → find_row key i (take n xs) ≡ some b
        → find_row key j (drop n xs) ≡ some a
        → k b ≤ k a
    take-le-drop zero i j xs s hb ha = absurd (ground arith)
    take-le-drop (suc n) i j [] s hb ha = absurd (ground arith)
    take-le-drop (suc n) i j (x ∷ xs) {b} {a} s hb ha = elim (Bool-cases (nat_beq (key x) i)) [
      | inl here ↦
          let same : x ≡ b = ground arith in
          let le =
            find-All (λ y. k x ≤ k y) (λ y. nat_beq (key y) j) (drop n xs)
              (All-drop (λ y. k x ≤ k y) n xs s.0) ha in
          ground arith
      | inr there ↦ take-le-drop n i j xs s.1 (ground arith) ha
    ]

    pub find_row-take-none :
        (n i : ℕ) (xs : List A)
        → find_row key i (take n xs) ≡ none
        → find_row key i (drop n xs) ≡ find_row key i xs
    find_row-take-none zero i xs h = refl
    find_row-take-none (suc n) i [] h = refl
    find_row-take-none (suc n) i (x ∷ xs) h = ground (arith, find_row-take-none n i xs)

    pub find_row-take-some :
        (n i : ℕ) (xs : List A) {b : A}
        → find_row key i (take n xs) ≡ some b
        → find_row key i xs ≡ some b
    find_row-take-some zero i xs h = absurd (ground arith)
    find_row-take-some (suc n) i [] h = absurd (ground arith)
    find_row-take-some (suc n) i (x ∷ xs) {b} h = ground (arith, find_row-take-some n i xs {b = b})

    find_row-insert_by :
        (i : ℕ) (x : A) (xs : List A)
        → has_row key (key x) xs ≡ false
        → find_row key i (insert_by k x xs)
          ≡ (if nat_beq (key x) i then some x else find_row key i xs)
    find_row-insert_by i x [] h = refl
    find_row-insert_by i x (y ∷ ys) h = ground (arith, find_row-insert_by i x ys)

    pub find_row-sort_by :
        (i : ℕ) (xs : List A)
        → rows_distinct key xs ≡ true
        → find_row key i (sort_by k xs) ≡ find_row key i xs
    find_row-sort_by i [] d = refl
    find_row-sort_by i (x ∷ xs) d = ground (
      arith,
      find_row-insert_by i x (sort_by k xs),
      has_row-sort_by key k (key x) xs,
      find_row-sort_by i xs,
    )

module _ {ℓ} {A : Type ℓ} where
  pub filter-or-le :
      (p q : A → Bool) (xs : List A)
      → length (filter (λ x. p x || q x) xs) ≤ length (filter p xs) + length (filter q xs)
  filter-or-le p q [] = omega arith
  filter-or-le p q (x ∷ xs) = ground (arith, filter-or-le p q xs)

  pub one-row-le :
      (key : A → ℕ) (i : ℕ) (xs : List A)
      → rows_distinct key xs ≡ true
      → length (filter (λ x. nat_beq (key x) i) xs) ≤ 1
  one-row-le key i [] d = omega arith
  one-row-le key i (x ∷ xs) d = elim (Bool-cases (nat_beq (key x) i)) [
    | inl here ↦ ground (arith, none-row i xs)
    | inr there ↦ ground (arith, one-row-le key i xs)
  ]
    where
      none-row :
          (j : ℕ) (ys : List A)
          → has_row key j ys ≡ false
          → length (filter (λ y. nat_beq (key y) j) ys) ≡ 0
      none-row j [] h = refl
      none-row j (y ∷ ys) h = ground (arith, none-row j ys)
