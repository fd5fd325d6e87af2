-- ===== src/Members/RoundTrip.antt =====
-- A member that is deleted and restored.
use credence_backend.Members.Repository.{
  role_eq, Member, Table, is_active, active_id, active_seat, find_active_by_id, find_by_id,
  find_active_by_org_and_user, soft_delete, restore, with_deletion, without_deletion, update_where,
  deleted_id,
}
use credence_backend.Members.Audit.{State, Caller, MemberRequest}
use credence_backend.Members.Service.{
  begin_delete_member, begin_restore_member, finish_restore_member, whole, delete_member,
  restore_member,
}
use credence_backend.Members.Rows.{
  has_id, ids_distinct, ids_distinct-update_where, seats_distinct, collides, active_id-OnlyId,
}
use credence_backend.Members.Seats.{with_deletion-KeepsKeys}
use credence_backend.Members.Requests.{find-deleted_id}
use credence_backend.Members.Parts.{
  begin_delete_member-table, begin_delete_member-passes, finish_delete_member-table,
}
use credence_backend.Base.{
  ℕ, String, ◌≡◌, refl, ap, ◌∙◌, Bool, true, false, none, some, [], ◌∷◌, arith, ◌==◌, string_eq,
  inl, inr, Bool-cases, Result-cases, find, any, is_ok, ==_iff, ==_refl, ==_comm,
}

-- A successful delete passed its guards and changed the table as the query says.
delete_member-done :
    (c : Caller) (now : ℕ) (r : MemberRequest) (s : State) (m : Member)
    → find_active_by_id r.member_id s.table ≡ some m
    → is_ok (delete_member c now r s).0 ≡ true
    → (m.org_id ≡ r.org_id)
      × ((delete_member c now r s).1.table
          ≡ update_where (active_id r.member_id) (with_deletion c.admin_id now) s.table)
unfolding delete_member soft_delete
delete_member-done c now r s m found done = elim (Result-cases (begin_delete_member c r s).0) [
  | inl (x, passed) ↦
      let (there, home, _) = begin_delete_member-passes c r s x passed in
      (
        ground arith,
        rw (passed, delete_member, whole)
            (finish_delete_member-table c now r x (begin_delete_member c r s).1
              ∙ ap (update_where (active_id r.member_id) (with_deletion c.admin_id now))
                  (begin_delete_member-table c r s)),
      )
  | inr (e, refused) ↦ ground arith
]

module _ (id by : String) (now : ℕ) where
  find_active-deleted :
      (t : Table)
      → find (active_id id) (update_where (active_id id) (with_deletion by now) t) ≡ none
  find_active-deleted [] = refl
  find_active-deleted (x ∷ xs) = ground (arith, find_active-deleted xs)

  find-deleted :
      (t : Table) {m : Member}
      → ids_distinct t ≡ true
      → find (active_id id) t ≡ some m
      → find (λ x. x.id == id) (update_where (active_id id) (with_deletion by now) t)
        ≡ some (with_deletion by now m)
  find-deleted [] d h = ground arith
  find-deleted (x ∷ xs) {m} d h = elim (Bool-cases (x.id == id)) [
    | inl named ↦ elim (Bool-cases (is_active x)) [
      | inl on ↦ ground arith
      | inr off ↦ let here : x.id ≡ id = (==_iff x.id id).0 named in ground (arith, find-absent xs)
    ]
    | inr other ↦ ground (arith, find-deleted xs {m = m})
  ]
    where
      find-absent : (t : Table) → has_id id t ≡ false → find (active_id id) t ≡ none
      find-absent [] h = refl
      find-absent (x ∷ xs) h = ground (arith, find-absent xs)

  -- Once an active row is deleted, its seat is free.
  seat-absent :
      (m : Member) (t : Table)
      → collides m t ≡ false
      → collides m (update_where (active_id id) (with_deletion by now) t) ≡ false
  seat-absent m [] h = refl
  seat-absent m (x ∷ xs) h = ground (arith, seat-absent m xs)

  seat-deleted :
      (t : Table) {m : Member}
      → ids_distinct t ≡ true
      → seats_distinct t ≡ true
      → find (active_id id) t ≡ some m
      → collides m (update_where (active_id id) (with_deletion by now) t) ≡ false
  seat-deleted [] d s h = ground arith
  seat-deleted (x ∷ xs) {m} d s h = elim (Bool-cases (active_id id x)) [
    | inl hit ↦ ground (arith, seat-absent x xs)
    | inr miss ↦ ground (
      arith,
      seat-deleted xs {m = m},
      find-collides xs {m = m},
      ==_comm x.org_id m.org_id,
      ==_comm x.user_id m.user_id,
      ==_iff x.org_id m.org_id,
      ==_iff x.user_id m.user_id,
    )
  ]
    where
      find-collides :
          (t : Table) {m : Member}
          → find (active_id id) t ≡ some m
          → any (active_seat m.org_id m.user_id) t ≡ true
      find-collides [] h = ground arith
      find-collides (x ∷ xs) {m} h =
          ground (arith, find-collides xs {m = m}, ==_refl m.org_id, ==_refl m.user_id)

pub any-find : (p : Member → Bool) (t : Table) → any p t ≡ false → find p t ≡ none
any-find p [] h = refl
any-find p (x ∷ xs) h = ground (arith, any-find p xs)

find-revived :
    (id : String) (later : ℕ) (t : Table) {m : Member}
    → ids_distinct t ≡ true
    → find (deleted_id id) t ≡ some m
    → find (active_id id) (update_where (deleted_id id) (without_deletion later) t)
      ≡ some (without_deletion later m)
find-revived id later [] d h = ground arith
find-revived id later (x ∷ xs) {m} d h = elim (Bool-cases (x.id == id)) [
  | inl named ↦
      let here : x.id ≡ id = (==_iff x.id id).0 named in ground (arith, find-has_id xs {m = m})
  | inr other ↦ ground (arith, find-revived id later xs {m = m})
]
  where
    find-has_id : (t : Table) {m : Member} → find (deleted_id id) t ≡ some m → has_id id t ≡ true
    find-has_id [] h = ground arith
    find-has_id (x ∷ xs) {m} h = ground (arith, find-has_id xs {m = m})

-- A deleted row of the request's organisation whose seat is free is restored.
pub restore_member-effect :
    (c : Caller) (later : ℕ) (r : MemberRequest) (s : State) (m : Member)
    → ids_distinct s.table ≡ true
    → find_by_id r.member_id s.table ≡ some m
    → m.org_id ≡ r.org_id
    → is_active m ≡ false
    → collides m s.table ≡ false
    → (is_ok (restore_member c later r s).0 ≡ true)
      × (find_active_by_id r.member_id (restore_member c later r s).1.table
          ≡ some (without_deletion later m))
unfolding restore_member begin_restore_member finish_restore_member restore find_by_id
    find_active_by_id find_active_by_org_and_user
restore_member-effect c later r s m d found home off free = ground (
  arith,
  any-find (active_seat m.org_id m.user_id) s.table free,
  find-deleted_id r.member_id s.table found off,
  find-revived r.member_id later s.table d (find-deleted_id r.member_id s.table found off),
  ==_refl r.org_id,
)

-- In a table whose keys are distinct and in which nobody is active twice in an organisation, an active
-- member that a request deletes is then found, marked, but not as active; and the same request to
-- restore, by any caller, succeeds and brings back the row, with a new time of update and no trace of
-- the deletion.
pub delete_member-restore :
    (c c' : Caller) (now later : ℕ) (r : MemberRequest) (s : State) (m : Member)
    → ids_distinct s.table ≡ true
    → seats_distinct s.table ≡ true
    → find_active_by_id r.member_id s.table ≡ some m
    → is_ok (delete_member c now r s).0 ≡ true
    → let s' = (delete_member c now r s).1 in
      let (answer, s'') = restore_member c' later r s' in
      (find_active_by_id r.member_id s'.table ≡ none)
      × (find_by_id r.member_id s'.table ≡ some (with_deletion c.admin_id now m))
      × (is_ok answer ≡ true)
      × (find_active_by_id r.member_id s''.table
          ≡ some (record m { deleted_at = none; deleted_by = none; updated_at = later }))
unfolding find_active_by_id find_by_id
delete_member-restore c c' now later r s m d seats found done =
    let p = active_id r.member_id in
    let f = with_deletion c.admin_id now in
    let (home, table) = delete_member-done c now r s m found done in
    let gone : find p (delete_member c now r s).1.table ≡ none =
      ap (find p) table ∙ find_active-deleted r.member_id c.admin_id now s.table in
    let marked : find_by_id r.member_id (delete_member c now r s).1.table ≡ some (f m) =
      ap (find (λ x. x.id == r.member_id)) table
      ∙ find-deleted r.member_id c.admin_id now s.table d found in
    let (answer, back) =
      restore_member-effect c' later r (delete_member c now r s).1 (f m)
        (ap ids_distinct table
          ∙ ids_distinct-update_where r.member_id p f (active_id-OnlyId r.member_id)
              (with_deletion-KeepsKeys c.admin_id now) s.table
          ∙ d)
        marked home refl
        (ap (collides m) table ∙ seat-deleted r.member_id c.admin_id now s.table d seats found) in
    (gone, marked, answer, back)
