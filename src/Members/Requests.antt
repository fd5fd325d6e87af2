-- ===== src/Members/Requests.antt =====
-- Whole requests: what a request whose parts run with nothing in between does to the table.
use credence_backend.Members.Repository.{
  MemberRole, owner, role_eq, Member, Table, is_active, active_id, deleted_id, active_seat,
  find_active_by_id, find_by_id, insert, update_role, soft_delete, restore, count_active_owners,
  with_role, with_deletion, without_deletion, update_where,
}
use credence_backend.Members.Audit.{State, Caller, InviteMemberRequest, MemberRequest, or_member}
use credence_backend.Members.Service.{
  begin_invite_member, finish_invite_member, begin_update_member_role, begin_delete_member,
  begin_restore_member, finish_restore_member, whole, invite_member, update_member_role,
  delete_member, restore_member,
}
use credence_backend.Members.Parts.{
  begin_invite_member-table, begin_update_member_role-table, begin_delete_member-table,
  begin_restore_member-table, finish_update_member_role-table, finish_delete_member-table,
  finish_invite_member-table, finish_restore_member-table, begin_update_member_role-passes,
  begin_delete_member-passes, begin_restore_member-passes,
}
use credence_backend.Base.{
  ℕ, String, ◌≡◌, ◌⊎◌, ap, ◌∙◌, Bool, true, false, not, ◌&&◌, Option, some, arith, ◌==◌, string_eq,
  leb, inl, inr, [], ◌∷◌, ◌++◌, sym, Bool-cases, Result-cases, find, any,
}

-- A table before, a table after, and what stands between: no change, or the change of one row.
abbrev pub Changes :
    (Member → Bool) → (Member → Member) → (Member → Type 0) → Table → Table → Type 0
Changes p f P t t' =
    (t' ≡ t) ⊎ ((m : Member) × (find p t ≡ some m) × P m × (t' ≡ update_where p f t))

pub find-deleted_id :
    (id : String) (t : Table) {m : Member}
    → find (λ x. x.id == id) t ≡ some m
    → is_active m ≡ false
    → find (deleted_id id) t ≡ some m
find-deleted_id id [] h off = ground arith
find-deleted_id id (x ∷ xs) {m} h off = ground (arith, find-deleted_id id xs {m = m})

module _ (c : Caller) (now : ℕ) (r : MemberRequest) where
  -- The guard of an update let the row pass.
  abbrev pub Demotable : MemberRole → Table → Member → Type 0
  Demotable role t m =
      (m.org_id ≡ r.org_id)
      × (m.role == owner && not (role == owner) && leb (count_active_owners r.org_id t) 1 ≡ false)

  abbrev pub Removable : Table → Member → Type 0
  Removable t m =
      (m.org_id ≡ r.org_id) × (m.role == owner && leb (count_active_owners r.org_id t) 1 ≡ false)

  pub update_member_role-Changes :
      (role : MemberRole) (s : State)
      → Changes
          (active_id r.member_id)
          (with_role role now)
          (Demotable role s.table)
          s.table
          (update_member_role c now r role s).1.table
  unfolding update_member_role find_active_by_id update_role
  update_member_role-Changes role s = elim (Result-cases (begin_update_member_role c r role s).0) [
    | inl (m, passed) ↦ inr (
      m,
      (begin_update_member_role-passes c r role s m passed).0,
      (
        (begin_update_member_role-passes c r role s m passed).1,
        (begin_update_member_role-passes c r role s m passed).2,
      ),
      rw (passed, update_member_role, whole)
          (finish_update_member_role-table c now r role m (begin_update_member_role c r role s).1
            ∙ ap (update_where (active_id r.member_id) (with_role role now))
                (begin_update_member_role-table c r role s)),
    )
    | inr (e, refused) ↦
        inl (rw (refused, update_member_role, whole) (begin_update_member_role-table c r role s))
  ]

  pub delete_member-Changes :
      (s : State)
      → Changes
          (active_id r.member_id)
          (with_deletion c.admin_id now)
          (Removable s.table)
          s.table
          (delete_member c now r s).1.table
  unfolding delete_member find_active_by_id soft_delete
  delete_member-Changes s = elim (Result-cases (begin_delete_member c r s).0) [
    | inl (m, passed) ↦ inr (
      m,
      (begin_delete_member-passes c r s m passed).0,
      (
        (begin_delete_member-passes c r s m passed).1,
        (begin_delete_member-passes c r s m passed).2,
      ),
      rw (passed, delete_member, whole)
          (finish_delete_member-table c now r m (begin_delete_member c r s).1
            ∙ ap (update_where (active_id r.member_id) (with_deletion c.admin_id now))
                (begin_delete_member-table c r s)),
    )
    | inr (e, refused) ↦ inl (rw (refused, delete_member, whole) (begin_delete_member-table c r s))
  ]

  abbrev pub Restorable : Table → Member → Type 0
  Restorable t m =
      (m.org_id ≡ r.org_id)
      × (is_active m ≡ false)
      × (any (active_seat m.org_id m.user_id) t ≡ false)

  restore-Changes :
      (t t' : Table) (u : Option Member) (m : Member)
      → find (deleted_id r.member_id) t ≡ some m
      → m.org_id ≡ r.org_id
      → is_active m ≡ false
      → restore r.member_id now t ≡ some (u, t')
      → Changes (deleted_id r.member_id) (without_deletion now) (Restorable t) t t'
  unfolding restore
  restore-Changes t t' u m found same off h =
      elim (Bool-cases (any (active_seat m.org_id m.user_id) t)) [
        | inl taken ↦ inl (ground arith)
        | inr free ↦ inr (m, found, (same, off, free), ground arith)
      ]

  pub restore_member-Changes :
      (s : State)
      → Changes
          (deleted_id r.member_id)
          (without_deletion now)
          (Restorable s.table)
          s.table
          (restore_member c now r s).1.table
  unfolding restore_member find_by_id
  restore_member-Changes s = elim (Result-cases (begin_restore_member c r s).0) [
    | inl (m, passed) ↦
        rw (passed, restore_member, whole)
          (let (found, same, off, _) = begin_restore_member-passes c r s m passed in
            let before = begin_restore_member-table c r s in
            elim (finish_restore_member-table c now r m (begin_restore_member c r s).1) [
              | inl kept ↦ inl (kept ∙ before)
              | inr (u, changed) ↦
                  restore-Changes s.table
                    (finish_restore_member c now r m (begin_restore_member c r s).1).1.table u m
                    (find-deleted_id r.member_id s.table found off) same off
                    (sym (ap (restore r.member_id now) before) ∙ changed)
            ])
    | inr (e, refused) ↦
        inl (rw (refused, restore_member, whole) (begin_restore_member-table c r s))
  ]

module _ (c : Caller) (id : String) (now : ℕ) (r : InviteMemberRequest) where
  -- The table is as before, or has one more row, which is active.
  abbrev pub Adds : Table → Table → Type 0
  Adds t t' =
      (t' ≡ t)
      ⊎ ((m : Member) × ((m.id ≡ id)
            × (m.org_id ≡ r.org_id)
            × (m.user_id ≡ r.user_id)
            × (m.role ≡ or_member r.role))
          × (is_active m ≡ true)
          × (any (active_seat r.org_id r.user_id) t ≡ false)
          × (t' ≡ t ++ m ∷ []))

  insert-Adds :
      (t t' : Table) (m : Member)
      → insert id now r.org_id r.user_id r.email (or_member r.role) t ≡ some (m, t')
      → Adds t t'
  unfolding insert
  insert-Adds t t' m h = elim (Bool-cases (any (active_seat r.org_id r.user_id) t)) [
    | inl taken ↦ inl (ground arith)
    | inr free ↦ inr (m, ground arith, ground arith, free, ground arith)
  ]

  pub invite_member-Adds : (s : State) → Adds s.table (invite_member c id now r s).1.table
  unfolding invite_member
  invite_member-Adds s = elim (Result-cases (begin_invite_member c r s).0) [
    | inl (u, passed) ↦
        rw (passed, invite_member, whole)
          (let before = begin_invite_member-table c r s in
            elim (finish_invite_member-table c id now r (begin_invite_member c r s).1) [
              | inl kept ↦ inl (kept ∙ before)
              | inr (m, changed) ↦
                  insert-Adds s.table
                    (finish_invite_member c id now r (begin_invite_member c r s).1).1.table m
                    (sym (ap (insert id now r.org_id r.user_id r.email (or_member r.role)) before)
                      ∙ changed)
            ])
    | inr (e, refused) ↦ inl (rw (refused, invite_member, whole) (begin_invite_member-table c r s))
  ]
