-- ===== src/Members/Parts.antt =====
-- What the parts of a request do to the table.
use credence_backend.Members.Repository.{
  MemberRole, owner, role_eq, Member, find_active_by_org_and_user, find_active_by_id, find_by_id,
  is_active, insert, update_role, soft_delete, restore, count_active_owners,
}
use credence_backend.Members.Audit.{State, Caller, InviteMemberRequest, MemberRequest, or_member}
use credence_backend.Members.Service.{
  begin_invite_member, finish_invite_member, begin_update_member_role, finish_update_member_role,
  begin_delete_member, finish_delete_member, begin_restore_member, finish_restore_member,
}
use credence_backend.Base.{
  ℕ, String, ◌≡◌, ◌⊎◌, false, not, ◌&&◌, Option, none, some, arith, ◌==◌, string_eq, leb, ==_iff,
  inl, inr, Option-cases, ok,
}

module _ (c : Caller) where
  pub begin_invite_member-table :
      (r : InviteMemberRequest) (s : State) → (begin_invite_member c r s).1.table ≡ s.table
  unfolding begin_invite_member
  begin_invite_member-table r s = ground arith

  pub begin_update_member_role-table :
      (r : MemberRequest) (role : MemberRole) (s : State)
      → (begin_update_member_role c r role s).1.table ≡ s.table
  unfolding begin_update_member_role
  begin_update_member_role-table r role s = ground arith

  pub begin_delete_member-table :
      (r : MemberRequest) (s : State) → (begin_delete_member c r s).1.table ≡ s.table
  unfolding begin_delete_member
  begin_delete_member-table r s = ground arith

  pub begin_restore_member-table :
      (r : MemberRequest) (s : State) → (begin_restore_member c r s).1.table ≡ s.table
  unfolding begin_restore_member
  begin_restore_member-table r s = ground arith

  pub finish_update_member_role-table :
      (now : ℕ) (r : MemberRequest) (role : MemberRole) (m : Member) (s : State)
      → (finish_update_member_role c now r role m s).1.table
        ≡ (update_role r.member_id role now s.table).1
  unfolding finish_update_member_role
  finish_update_member_role-table now r role m s = ground arith

  pub finish_delete_member-table :
      (now : ℕ) (r : MemberRequest) (m : Member) (s : State)
      → (finish_delete_member c now r m s).1.table
        ≡ (soft_delete r.member_id c.admin_id now s.table).1
  unfolding finish_delete_member
  finish_delete_member-table now r m s = ground arith

  pub finish_invite_member-table :
      (id : String) (now : ℕ) (r : InviteMemberRequest) (s : State)
      → ((finish_invite_member c id now r s).1.table ≡ s.table)
        ⊎ ((m : Member) × (insert id now r.org_id r.user_id r.email (or_member r.role) s.table
              ≡ some (m, (finish_invite_member c id now r s).1.table)))
  unfolding finish_invite_member
  finish_invite_member-table id now r s =
      elim (Option-cases (insert id now r.org_id r.user_id r.email (or_member r.role) s.table)) [
        | inl refused ↦ inl (ground arith)
        | inr ((m, t), added) ↦ inr (m, ground arith)
      ]

  pub finish_restore_member-table :
      (now : ℕ) (r : MemberRequest) (m : Member) (s : State)
      → ((finish_restore_member c now r m s).1.table ≡ s.table)
        ⊎ ((u : Option Member) × (restore r.member_id now s.table
              ≡ some (u, (finish_restore_member c now r m s).1.table)))
  unfolding finish_restore_member
  finish_restore_member-table now r m s = elim (Option-cases (restore r.member_id now s.table)) [
    | inl refused ↦ inl (ground arith)
    | inr ((none, t), answer) ↦ inr (none, ground arith)
    | inr ((some u, t), answer) ↦ inr (some u, ground arith)
  ]

  -- What the guards of an update have found when they let it pass.
  pub begin_update_member_role-passes :
      (r : MemberRequest) (role : MemberRole) (s : State) (m : Member)
      → (begin_update_member_role c r role s).0 ≡ ok m
      → (find_active_by_id r.member_id s.table ≡ some m)
        × (m.org_id ≡ r.org_id)
        × (m.role == owner && not (role == owner) && leb (count_active_owners r.org_id s.table) 1
            ≡ false)
  unfolding begin_update_member_role
  begin_update_member_role-passes r role s m h =
      elim (Option-cases (find_active_by_id r.member_id s.table)) [
        | inl missing ↦ ground arith
        | inr (x, found) ↦ ground (arith, ==_iff x.org_id r.org_id)
      ]

  pub begin_delete_member-passes :
      (r : MemberRequest) (s : State) (m : Member)
      → (begin_delete_member c r s).0 ≡ ok m
      → (find_active_by_id r.member_id s.table ≡ some m)
        × (m.org_id ≡ r.org_id)
        × (m.role == owner && leb (count_active_owners r.org_id s.table) 1 ≡ false)
  unfolding begin_delete_member
  begin_delete_member-passes r s m h = elim (Option-cases (find_active_by_id r.member_id s.table)) [
    | inl missing ↦ ground arith
    | inr (x, found) ↦ ground (arith, ==_iff x.org_id r.org_id)
  ]

  pub begin_restore_member-passes :
      (r : MemberRequest) (s : State) (m : Member)
      → (begin_restore_member c r s).0 ≡ ok m
      → (find_by_id r.member_id s.table ≡ some m)
        × (m.org_id ≡ r.org_id)
        × (is_active m ≡ false)
        × (find_active_by_org_and_user m.org_id m.user_id s.table ≡ none)
  unfolding begin_restore_member
  begin_restore_member-passes r s m h = elim (Option-cases (find_by_id r.member_id s.table)) [
    | inl missing ↦ ground arith
    | inr (x, found) ↦ ground (arith, ==_iff x.org_id r.org_id)
  ]
