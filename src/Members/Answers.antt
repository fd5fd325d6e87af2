-- ===== src/Members/Answers.antt =====
-- What the answer to a request says of the table.
use credence_backend.Members.Repository.{
  MemberRole, role_eq, Member, Table, active_seat, find_active_by_id, find_active_by_org_and_user,
  insert, new_member, update_role, soft_delete, restore, deleted_id,
}
use credence_backend.Members.Audit.{State, Caller, InviteMemberRequest, MemberRequest, or_member}
use credence_backend.Members.Service.{
  begin_invite_member, finish_invite_member, begin_update_member_role, finish_update_member_role,
  begin_delete_member, finish_delete_member, begin_restore_member, finish_restore_member,
  invite_member, update_member_role, delete_member, restore_member,
}
use credence_backend.Base.{
  ℕ, String, ◌≡◌, ◌↔◌, refl, Bool, true, false, none, some, [], ◌∷◌, ◌++◌, arith, string_eq, inl,
  inr, Option-cases, find, any, is_ok, ==_refl,
}

find-any : (p : Member → Bool) (t : Table) → find p t ≡ none → any p t ≡ false
find-any p [] h = refl
find-any p (x ∷ xs) h = ground (arith, find-any p xs)

find-snoc :
    (p : Member → Bool) (t : Table) (m : Member)
    → find p t ≡ none
    → p m ≡ true
    → find p (t ++ m ∷ []) ≡ some m
find-snoc p [] m h k = ground arith
find-snoc p (x ∷ xs) m h k = ground (arith, find-snoc p xs m)

-- An invitation succeeds exactly when the user is not active in the organisation. Then the user has an
-- active row there with the new key, the role that was asked for or else `member`, and no trace of a
-- deletion; otherwise the table stays as it is.
invite_member-accepts :
    (c : Caller) (id : String) (now : ℕ) (r : InviteMemberRequest) (s : State)
    → let seat = find_active_by_org_and_user r.org_id r.user_id in
      let (answer, s') = invite_member c id now r s in
      ((is_ok answer ≡ true) ↔ (seat s.table ≡ none))
      × (is_ok answer ≡ true
          → seat s'.table ≡ some (new_member id now r.org_id r.user_id r.email (or_member r.role)))
      × (is_ok answer ≡ false → s'.table ≡ s.table)
unfolding invite_member begin_invite_member finish_invite_member insert find_active_by_org_and_user
invite_member-accepts c id now r s =
    elim (Option-cases (find (active_seat r.org_id r.user_id) s.table)) [
      | inl free ↦ ground (
        arith,
        free,
        find-any (active_seat r.org_id r.user_id) s.table free,
        find-snoc (active_seat r.org_id r.user_id) s.table
            (new_member id now r.org_id r.user_id r.email (or_member r.role)) free
            (ground (arith, ==_refl r.org_id, ==_refl r.user_id)),
      )
      | inr (m, taken) ↦ ground arith
    ]

-- A request to invite, update, delete or restore a member that is answered with an error changes no row.
pub refused-table :
    (c : Caller) (id : String) (now : ℕ) (i : InviteMemberRequest) (r : MemberRequest)
    (role : MemberRole) (s : State)
    → (is_ok (invite_member c id now i s).0 ≡ false
        → (invite_member c id now i s).1.table ≡ s.table)
      × (is_ok (update_member_role c now r role s).0 ≡ false
          → (update_member_role c now r role s).1.table ≡ s.table)
      × (is_ok (delete_member c now r s).0 ≡ false → (delete_member c now r s).1.table ≡ s.table)
      × (is_ok (restore_member c now r s).0 ≡ false → (restore_member c now r s).1.table ≡ s.table)
unfolding update_member_role begin_update_member_role finish_update_member_role delete_member
    begin_delete_member finish_delete_member restore_member begin_restore_member
    finish_restore_member find_active_by_id update_role soft_delete restore
refused-table c id now i r role s = (
  (invite_member-accepts c id now i s).2,
  ground arith,
  ground arith,
  ground (arith, Option-cases (find (deleted_id r.member_id) s.table)),
)
