-- ===== src/Members/Rows.antt =====
-- What the queries of the member repository do to the rows of a table whose keys are distinct.
use credence_backend.Members.Repository.{
  Member, Table, is_active, active_seat, active_id, deleted_id, update_where,
}
use credence_backend.Base.{
  ℕ, ◌+◌, String, ◌≡◌, refl, Bool, true, false, not, ◌&&◌, none, some, [], ◌∷◌, arith, ◌==◌,
  string_eq, filter, any, find, length, inl, inr, Bool-cases, ==_iff, ==_refl, ==_comm,
}

abbrev pub has_id : String → Table → Bool
has_id id t = any (λ m. m.id == id) t

-- The primary key: no two rows have the same id.
abbrev pub ids_distinct : Table → Bool
ids_distinct [] = true
ids_distinct (m ∷ ms) = not (has_id m.id ms) && ids_distinct ms

abbrev pub collides : Member → Table → Bool
collides m t = any (active_seat m.org_id m.user_id) t

-- No two active rows have the same organisation and user.
abbrev pub seats_distinct : Table → Bool
seats_distinct [] = true
seats_distinct (m ∷ ms) = not (is_active m && collides m ms) && seats_distinct ms

-- A change of a row that keeps its key, its organisation and its user.
abbrev pub KeepsKeys : (Member → Member) → Type 0
KeepsKeys f =
    (m : Member) → ((f m).id ≡ m.id) × ((f m).org_id ≡ m.org_id) × ((f m).user_id ≡ m.user_id)

-- A test that only rows with the given id pass.
abbrev pub OnlyId : String → (Member → Bool) → Type 0
OnlyId id p = (m : Member) → p m ≡ true → m.id ≡ id

abbrev pub one_if : Bool → ℕ
one_if true = 1
one_if false = 0

pub active_id-OnlyId : (id : String) → OnlyId id (active_id id)
active_id-OnlyId id m h = ground (arith, ==_iff m.id id)

pub deleted_id-OnlyId : (id : String) → OnlyId id (deleted_id id)
deleted_id-OnlyId id m h = ground (arith, ==_iff m.id id)

module _ (id : String) (p : Member → Bool) (f : Member → Member) (only : OnlyId id p) where
  pub update_where-absent : (t : Table) → has_id id t ≡ false → update_where p f t ≡ t
  update_where-absent [] h = refl
  update_where-absent (m ∷ ms) h = ground (arith, only m, ==_iff m.id id, update_where-absent ms)

  pub find-OnlyId : (t : Table) {m : Member} → find p t ≡ some m → (m.id ≡ id) × (p m ≡ true)
  find-OnlyId [] h = ground arith
  find-OnlyId (r ∷ rs) {m} h = ground (arith, only r, find-OnlyId rs {m = m})

  -- The rows that a count sees change by the one row that is changed.
  pub filter-update_where :
      (q : Member → Bool) (t : Table) {m : Member}
      → ids_distinct t ≡ true
      → find p t ≡ some m
      → length (filter q (update_where p f t)) + one_if (q m)
        ≡ length (filter q t) + one_if (q (f m))
  filter-update_where q [] d h = ground arith
  filter-update_where q (r ∷ rs) {m} d h = elim (Bool-cases (p r)) [
    | inl hit ↦
        let here : r ≡ m = ground arith in ground (arith, only r hit, update_where-absent rs)
    | inr miss ↦ ground (arith, filter-update_where q rs {m = m})
  ]

  pub find-none-update_where : (t : Table) → find p t ≡ none → update_where p f t ≡ t
  find-none-update_where [] h = refl
  find-none-update_where (r ∷ rs) h = ground (arith, find-none-update_where rs)

  pub has_id-update_where :
      KeepsKeys f → (j : String) (t : Table) → has_id j (update_where p f t) ≡ has_id j t
  has_id-update_where keep j [] = refl
  has_id-update_where keep j (r ∷ rs) = ground (arith, keep r, has_id-update_where keep j rs)

  pub ids_distinct-update_where :
      KeepsKeys f → (t : Table) → ids_distinct (update_where p f t) ≡ ids_distinct t
  ids_distinct-update_where keep [] = refl
  ids_distinct-update_where keep (r ∷ rs) =
      ground (arith, keep r, has_id-update_where keep r.id rs, ids_distinct-update_where keep rs)

  collides-update_where-le :
      KeepsKeys f
      → ((r : Member) → is_active (f r) ≡ true → is_active r ≡ true)
      → (m : Member) (t : Table) → collides m t ≡ false
      → collides m (update_where p f t) ≡ false
  collides-update_where-le keep less m [] h = refl
  collides-update_where-le keep less m (r ∷ rs) h =
      ground (arith, keep r, less r, collides-update_where-le keep less m rs)

  -- A change that makes no row active makes no two active rows collide.
  pub seats_distinct-update_where :
      KeepsKeys f
      → ((r : Member) → is_active (f r) ≡ true → is_active r ≡ true)
      → (t : Table) → seats_distinct t ≡ true
      → seats_distinct (update_where p f t) ≡ true
  seats_distinct-update_where keep less [] h = refl
  seats_distinct-update_where keep less (r ∷ rs) h = ground (
    arith,
    keep r,
    less r,
    collides-update_where-le keep less r rs,
    seats_distinct-update_where keep less rs,
  )

  -- A row that collides with no active one can be made active.
  collides-update_where :
      KeepsKeys f
      → (x : Member) (t : Table) {m : Member} → ids_distinct t ≡ true
      → find p t ≡ some m
      → active_seat m.org_id m.user_id x ≡ false
      → is_active x ≡ true
      → collides x t ≡ false
      → collides x (update_where p f t) ≡ false
  collides-update_where keep x [] d h apart on free = refl
  collides-update_where keep x (r ∷ rs) {m} d h apart on free = elim (Bool-cases (p r)) [
    | inl hit ↦ ground (
      arith,
      only r hit,
      keep r,
      update_where-absent rs,
      ==_comm r.org_id x.org_id,
      ==_comm r.user_id x.user_id,
    )
    | inr miss ↦
        ground
          (arith, collides-update_where keep x rs {m = m} (ground arith) (ground arith) apart on)
  ]

  pub seats_distinct-revive :
      KeepsKeys f
      → (t : Table) {m : Member} → ids_distinct t ≡ true
      → find p t ≡ some m
      → collides m t ≡ false
      → seats_distinct t ≡ true
      → seats_distinct (update_where p f t) ≡ true
  seats_distinct-revive keep [] d h free s = refl
  seats_distinct-revive keep (r ∷ rs) {m} d h free s = elim (Bool-cases (p r)) [
    | inl hit ↦ ground (arith, only r hit, keep r, update_where-absent rs)
    | inr miss ↦ ground (
      arith,
      seats_distinct-revive keep rs {m = m} (ground arith) (ground arith),
      collides-update_where keep r rs {m = m} (ground arith) (ground arith),
    )
  ]

  -- Rows of other organisations stay as they are.
  pub others-update_where :
      KeepsKeys f
      → (org : String) (t : Table) {m : Member} → ids_distinct t ≡ true
      → find p t ≡ some m
      → m.org_id ≡ org
      → filter (λ r. not (r.org_id == org)) (update_where p f t)
        ≡ filter (λ r. not (r.org_id == org)) t
  others-update_where keep org [] d h e = refl
  others-update_where keep org (r ∷ rs) {m} d h e = elim (Bool-cases (p r)) [
    | inl hit ↦ ground (arith, only r hit, keep r, update_where-absent rs, ==_refl org)
    | inr miss ↦ ground (arith, others-update_where keep org rs {m = m})
  ]
