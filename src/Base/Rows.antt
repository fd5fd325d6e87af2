-- ===== src/Base/Rows.antt =====
-- Queries on a table, the list of its rows in the order of insertion: `UPDATE … WHERE`, `ORDER BY` and
-- the primary key of numbers.
use Prim.Native.Nat.{ℕ, zero, suc, ◌+◌, ◌≤◌, ◌<◌}
use mathlib.Core.Path.{◌≡◌, refl, ap, sym, subst}
use mathlib.Core.Logic.{inl, inr}
use mathlib.Core.Bool.{Bool, true, false, not, ◌&&◌, ◌||◌}
use mathlib.Core.Option.{Option, none, some}
use mathlib.Core.List.{List, [], ◌∷◌, ◌++◌}
use native.Mathlib.Omega.{arith}
use credence_backend.Base.Tests.{if◌then◌else◌, leb, nat_beq, Bool-cases, Option-cases}
use credence_backend.Base.Lists.{length, filter, find, any, take, All}

module _ {ℓ} {A : Type ℓ} where
  -- Every row that passes the test is changed.
  abbrev pub update_rows : (A → Bool) → (A → A) → List A → List A
  update_rows p f [] = []
  update_rows p f (x ∷ xs) = (if p x then f x else x) ∷ update_rows p f xs

  -- `ORDER BY` a column, rows of the same value in the order of the table.
  abbrev pub insert_by : (A → ℕ) → A → List A → List A
  insert_by key x [] = x ∷ []
  insert_by key x (y ∷ ys) =
      let later = insert_by key x ys in if leb (key x) (key y) then x ∷ y ∷ ys else y ∷ later

  abbrev pub sort_by : (A → ℕ) → List A → List A
  sort_by key [] = []
  sort_by key (x ∷ xs) = insert_by key x (sort_by key xs)

  -- `ORDER BY … DESC`
  abbrev pub insert_by_desc : (A → ℕ) → A → List A → List A
  insert_by_desc key x [] = x ∷ []
  insert_by_desc key x (y ∷ ys) =
      let later = insert_by_desc key x ys in if leb (key y) (key x) then x ∷ y ∷ ys else y ∷ later

  abbrev pub sort_by_desc : (A → ℕ) → List A → List A
  sort_by_desc key [] = []
  sort_by_desc key (x ∷ xs) = insert_by_desc key x (sort_by_desc key xs)

  -- `MIN` of a column, of no rows nothing.
  abbrev pub min_by : (A → ℕ) → List A → Option ℕ
  min_by key [] = none
  min_by key (x ∷ xs) = elim (min_by key xs) [
    | none ↦ some (key x)
    | some m ↦ some (if leb (key x) m then key x else m)
  ]

  pub length-insert_by :
      (key : A → ℕ) (x : A) (xs : List A) → length (insert_by key x xs) ≡ 1 + length xs
  length-insert_by key x [] = omega arith
  length-insert_by key x (y ∷ ys) = ground (arith, length-insert_by key x ys)

  pub length-sort_by : (key : A → ℕ) (xs : List A) → length (sort_by key xs) ≡ length xs
  length-sort_by key [] = omega arith
  length-sort_by key (x ∷ xs) =
      omega (arith, length-insert_by key x (sort_by key xs), length-sort_by key xs)

  pub length-take-le : (n : ℕ) (xs : List A) → (length (take n xs) ≤ n)
  length-take-le zero xs = omega arith
  length-take-le (suc n) [] = omega arith
  length-take-le (suc n) (x ∷ xs) = omega (arith, length-take-le n xs)

  pub take-all : (n : ℕ) (xs : List A) → length xs ≤ n → take n xs ≡ xs
  take-all zero [] h = refl
  take-all zero (x ∷ xs) h = absurd (omega arith)
  take-all (suc n) [] h = refl
  take-all (suc n) (x ∷ xs) h = ap (λ ys. x ∷ ys) (take-all n xs (omega arith))

  -- What holds of the rows holds after an update whose changed rows keep it.
  pub update_rows-All {κ} :
      (P : A → Type κ) (p : A → Bool) (f : A → A)
      → ((x : A) → p x ≡ true → P x → P (f x))
      → (xs : List A) → All P xs
      → All P (update_rows p f xs)
  update_rows-All P p f keep [] h = tt
  update_rows-All P p f keep (x ∷ xs) h = elim (Bool-cases (p x)) [
    | inl hit ↦ (
      subst (λ b. P (if b then f x else x)) (sym hit) (keep x hit h.0),
      update_rows-All P p f keep xs h.1,
    )
    | inr miss ↦
        (subst (λ b. P (if b then f x else x)) (sym miss) h.0, update_rows-All P p f keep xs h.1)
  ]

  pub filter-All {κ} :
      (P : A → Type κ) (p : A → Bool) (xs : List A) → All P xs → All P (filter p xs)
  filter-All P p [] h = tt
  filter-All P p (x ∷ xs) h = elim (Bool-cases (p x)) [
    | inl hit ↦ rw hit (h.0, filter-All P p xs h.1)
    | inr miss ↦ rw miss (filter-All P p xs h.1)
  ]

  pub find-All {κ} :
      (P : A → Type κ) (p : A → Bool) (xs : List A) {x : A} → All P xs → find p xs ≡ some x → P x
  find-All P p [] h e = absurd (ground arith)
  find-All P p (y ∷ ys) {x} h e = elim (Bool-cases (p y)) [
    | inl hit ↦ let same : y ≡ x = ground arith in subst P same h.0
    | inr miss ↦ find-All P p ys h.1 (ground arith)
  ]

module _ {ℓ} {A : Type ℓ} (key : A → ℕ) where
  -- The row of a key.
  abbrev pub find_row : ℕ → List A → Option A
  find_row id xs = find (λ x. nat_beq (key x) id) xs

  -- An update that keeps the keys, as seen at one key.
  pub find_row-update_rows :
      (p : A → Bool) (f : A → A)
      → ((x : A) → key (f x) ≡ key x)
      → (id : ℕ) (xs : List A)
      → find_row id (update_rows p f xs)
        ≡ elim (find_row id xs) [ none ↦ none | some x ↦ some (if p x then f x else x) ]
  find_row-update_rows p f keep id [] = refl
  find_row-update_rows p f keep id (x ∷ xs) =
      ground (arith, keep x, find_row-update_rows p f keep id xs)

  pub find_row-key : (id : ℕ) (xs : List A) {x : A} → find_row id xs ≡ some x → key x ≡ id
  find_row-key id [] h = absurd (ground arith)
  find_row-key id (y ∷ ys) {x} h = ground (arith, find_row-key id ys {x = x})

  pub find_row-append :
      (id : ℕ) (xs : List A) (y : A)
      → find_row id (xs ++ y ∷ []) ≡ elim (find_row id xs) [
        | none ↦ if nat_beq (key y) id then some y else none
        | some x ↦ some x
      ]
  find_row-append id [] y = ground arith
  find_row-append id (x ∷ xs) y = ground (arith, find_row-append id xs y)

  -- A key above all the keys has no row.
  pub find_row-fresh :
      (n id : ℕ) (xs : List A) → All (λ x. key x < n) xs → n ≤ id → find_row id xs ≡ none
  find_row-fresh n id [] h le = refl
  find_row-fresh n id (x ∷ xs) h le =
      let here = h.0 in ground (arith, find_row-fresh n id xs h.1 le)

  abbrev pub has_row : ℕ → List A → Bool
  has_row id xs = any (λ x. nat_beq (key x) id) xs

  -- The primary key: no two rows have the same.
  abbrev pub rows_distinct : List A → Bool
  rows_distinct [] = true
  rows_distinct (x ∷ xs) = not (has_row (key x) xs) && rows_distinct xs

  pub has_row-find_row : (id : ℕ) (xs : List A) → has_row id xs ≡ false → find_row id xs ≡ none
  has_row-find_row id [] h = refl
  has_row-find_row id (x ∷ xs) h = ground (arith, has_row-find_row id xs)

  pub find_row-has_row : (id : ℕ) (xs : List A) → find_row id xs ≡ none → has_row id xs ≡ false
  find_row-has_row id [] h = refl
  find_row-has_row id (x ∷ xs) h = ground (arith, find_row-has_row id xs)

  pub has_row-update_rows :
      (p : A → Bool) (f : A → A)
      → ((x : A) → key (f x) ≡ key x)
      → (id : ℕ) (xs : List A) → has_row id (update_rows p f xs) ≡ has_row id xs
  has_row-update_rows p f keep id [] = refl
  has_row-update_rows p f keep id (x ∷ xs) =
      ground (arith, keep x, has_row-update_rows p f keep id xs)

  pub rows_distinct-update_rows :
      (p : A → Bool) (f : A → A)
      → ((x : A) → key (f x) ≡ key x)
      → (xs : List A) → rows_distinct (update_rows p f xs) ≡ rows_distinct xs
  rows_distinct-update_rows p f keep [] = refl
  rows_distinct-update_rows p f keep (x ∷ xs) = ground (
    arith,
    keep x,
    has_row-update_rows p f keep (key x) xs,
    rows_distinct-update_rows p f keep xs,
  )

  pub has_row-filter :
      (p : A → Bool) (id : ℕ) (xs : List A)
      → has_row id xs ≡ false
      → has_row id (filter p xs) ≡ false
  has_row-filter p id [] h = refl
  has_row-filter p id (x ∷ xs) h = ground (arith, has_row-filter p id xs)

  pub rows_distinct-filter :
      (p : A → Bool) (xs : List A) → rows_distinct xs ≡ true → rows_distinct (filter p xs) ≡ true
  rows_distinct-filter p [] h = refl
  rows_distinct-filter p (x ∷ xs) h =
      ground (arith, has_row-filter p (key x) xs, rows_distinct-filter p xs)

  -- With distinct keys, a filter shows at a key the row of the key, if it passes.
  pub find_row-filter :
      (p : A → Bool) (id : ℕ) (xs : List A)
      → rows_distinct xs ≡ true
      → find_row id (filter p xs)
        ≡ elim (find_row id xs) [ none ↦ none | some x ↦ if p x then some x else none ]
  find_row-filter p id [] d = refl
  find_row-filter p id (x ∷ xs) d = ground (
    arith,
    find_row-filter p id xs,
    has_row-find_row (key x) (filter p xs),
    has_row-filter p (key x) xs,
  )

  -- A row whose key is among those of the rows that pass a test passes it.
  pub has_row-filter-passes :
      (p : A → Bool) (id : ℕ) (xs : List A) {x : A}
      → rows_distinct xs ≡ true
      → find_row id xs ≡ some x
      → has_row id (filter p xs) ≡ true
      → p x ≡ true
  has_row-filter-passes p id [] d h i = absurd (ground arith)
  has_row-filter-passes p id (y ∷ ys) {x} d h i =
      ground (arith, has_row-filter-passes p id ys {x = x}, has_row-filter p id ys)

  has_row-insert_by :
      (k : A → ℕ) (id : ℕ) (x : A) (xs : List A)
      → has_row id (insert_by k x xs) ≡ (nat_beq (key x) id || has_row id xs)
  has_row-insert_by k id x [] = refl
  has_row-insert_by k id x (y ∷ ys) = ground (arith, has_row-insert_by k id x ys)

  pub has_row-sort_by :
      (k : A → ℕ) (id : ℕ) (xs : List A) → has_row id (sort_by k xs) ≡ has_row id xs
  has_row-sort_by k id [] = refl
  has_row-sort_by k id (x ∷ xs) =
      ground (arith, has_row-insert_by k id x (sort_by k xs), has_row-sort_by k id xs)

  pub has_row-take :
      (n id : ℕ) (xs : List A) → has_row id xs ≡ false → has_row id (take n xs) ≡ false
  has_row-take zero id xs h = refl
  has_row-take (suc n) id [] h = refl
  has_row-take (suc n) id (x ∷ xs) h = ground (arith, has_row-take n id xs)

  has_row-append :
      (id : ℕ) (xs : List A) (y : A)
      → has_row id (xs ++ y ∷ []) ≡ (has_row id xs || nat_beq (key y) id)
  has_row-append id [] y = ground arith
  has_row-append id (x ∷ xs) y = ground (arith, has_row-append id xs y)

  pub rows_distinct-append :
      (xs : List A) (y : A)
      → rows_distinct xs ≡ true
      → has_row (key y) xs ≡ false
      → rows_distinct (xs ++ y ∷ []) ≡ true
  rows_distinct-append [] y d h = refl
  rows_distinct-append (x ∷ xs) y d h =
      ground (arith, has_row-append (key x) xs y, rows_distinct-append xs y)

  -- The row that a test of one key finds is the row of the key.
  pub find-find_row :
      (p : A → Bool) (id : ℕ) (xs : List A) {x : A}
      → ((y : A) → p y ≡ true → key y ≡ id)
      → rows_distinct xs ≡ true
      → find p xs ≡ some x
      → (find_row id xs ≡ some x) × (p x ≡ true)
  find-find_row p id [] only d h = absurd (ground arith)
  find-find_row p id (y ∷ ys) {x} only d h = elim (Bool-cases (p y)) [
    | inl hit ↦ let same = only y hit in ground arith
    | inr miss ↦
        let found = find-find_row p id ys {x = x} only (ground arith) (ground arith) in
        let here = only x found.1 in
        (ground (arith, find_row-has_row id ys, has_row-find_row id ys), found.1)
  ]

  -- Of distinct keys, a test of one key is passed by no row or by the key's alone.
  pub length-filter-one :
      (p : A → Bool) (id : ℕ) (xs : List A) {x : A}
      → ((y : A) → p y ≡ true → key y ≡ id)
      → rows_distinct xs ≡ true
      → find_row id xs ≡ some x
      → length (filter p xs) ≡ (if p x then 1 else 0)
  length-filter-one p id [] only d h = absurd (ground arith)
  length-filter-one p id (y ∷ ys) {x} only d h = elim (Bool-cases (p y)) [
    | inl hit ↦
        let same = only y hit in
        let others = absent (key y) ys (ground arith) in ground (arith, others)
    | inr miss ↦ elim (Bool-cases (nat_beq (key y) id)) [
      | inl here ↦
          let eq : y ≡ x = ground arith in
          let others = absent id ys (ground arith) in ground (arith, others)
      | inr there ↦ ground (arith, length-filter-one p id ys {x = x} only)
    ]
  ]
    where
      absent : (i : ℕ) (zs : List A) → has_row i zs ≡ false → i ≡ id → filter p zs ≡ []
      absent i [] n e = refl
      absent i (z ∷ zs) n e = ground (arith, only z, absent i zs)

  -- A test of one key finds the row of the key if the row passes, else none.
  pub find_row-find :
      (p : A → Bool) (id : ℕ) (xs : List A) {x : A}
      → ((y : A) → p y ≡ true → key y ≡ id)
      → rows_distinct xs ≡ true
      → find_row id xs ≡ some x
      → find p xs ≡ (if p x then some x else none)
  find_row-find p id xs {x} only d row = elim (Option-cases (find p xs)) [
    | inl absent ↦
        ground (arith, length-filter-one p id xs {x = x} only d row, find-none p xs absent)
    | inr (y, found) ↦ let r = find-find_row p id xs {x = y} only d found in ground arith
  ]
    where
      find-none : (q : A → Bool) (zs : List A) → find q zs ≡ none → length (filter q zs) ≡ 0
      find-none q [] h = refl
      find-none q (z ∷ zs) h = ground (arith, find-none q zs)
