-- ===== src/Members/Service.antt =====
-- src/services/members/service.ts. A method that reads and then writes is two functions, `begin_…` for
-- the reads and the guards and `finish_…` from the writing query on, since other requests can run
-- between them; the reads of a first part see one table. Messages and the log are left
-- out.
use credence_backend.Members.Audit.{
  AuditAction, invite_member_action, list_members_action, update_member_role_action,
  delete_member_action, restore_member_action, failure, State, Error, member_already_active,
  member_not_found, member_already_deleted, last_owner, active_membership_exists, unique_violation,
  Caller, InviteMemberRequest, MemberRequest, ListMembersResponse, log_as, failed, succeeded,
  or_member,
}
use credence_backend.Members.Repository.{
  MemberRole, owner, role_eq, Member, MemberView, to_member_view, is_active, find_active_by_id,
  find_by_id, find_active_by_org_and_user, list_by_org, insert, update_role, soft_delete,
  count_active_owners, restore,
}
use credence_backend.Base.{
  ℕ, ◌+◌, String, Bool, not, ◌&&◌, Option, none, some, if◌then◌else◌, ltb, leb, ◌==◌, string_eq,
  length, map, Result, ok, err,
}

unfoldable pub begin_invite_member :
    Caller → InviteMemberRequest → State → Result Error (Unit {0}) × State
begin_invite_member c r s = elim (find_active_by_org_and_user r.org_id r.user_id s.table) [
  | none ↦ (ok tt, s)
  | some _ ↦ (
    err member_already_active,
    log_as invite_member_action c r.user_id r.email (some failure)
        (some "Member already active in this organisation") s,
  )
]

unfoldable pub finish_invite_member :
    Caller → String → ℕ → InviteMemberRequest → State → Result Error MemberView × State
finish_invite_member c id now r s =
    elim (insert id now r.org_id r.user_id r.email (or_member r.role) s.table) [
      | none ↦ (err unique_violation, s)
      | some (m, t) ↦ (ok (to_member_view m), succeeded invite_member_action c m t s)
    ]

unfoldable pub list_members :
    Caller → String → Option ℕ → Option ℕ → Option ℕ → Bool → State → ListMembersResponse × State
list_members c org page limit offset include_deleted s =
    let n : ℕ = elim limit [ none ↦ 50 | some n ↦ n ] in
    let start : ℕ = elim offset [ none ↦ 0 | some k ↦ k ] in
    let (members, total) = list_by_org org include_deleted n start s.table in
    (
      record {
        members = map to_member_view members;
        total = total;
        page = elim page [ none ↦ 1 | some k ↦ k ];
        limit = n;
        has_next = ltb (start + length members) total;
        offset = start;
      },
      log_as list_members_action c c.admin_id c.admin_email none none s,
    )

unfoldable pub begin_update_member_role :
    Caller → MemberRequest → MemberRole → State → Result Error Member × State
begin_update_member_role c r role s = elim (find_active_by_id r.member_id s.table) [
  | none ↦ (err member_not_found, s)
  | some m ↦
      if not (m.org_id == r.org_id)
      then (
        err member_not_found,
        failed update_member_role_action c m "Cross-organisation member operation denied" s,
      )
      else (if m.role == owner
            && not (role == owner)
            && leb (count_active_owners r.org_id s.table) 1
          then (
            err last_owner,
            failed update_member_role_action c m "Cannot demote the last active owner" s,
          )
          else (ok m, s))
]

-- The answer when the row has gone between the two parts.
abbrev pub raced {ℓ} :
    {A : Type ℓ} → AuditAction → Caller → MemberRequest → Member → State → Result Error A × State
raced action c r m s =
    if leb (count_active_owners r.org_id s.table) 0
    then (
      err last_owner,
      failed action c m "Concurrent soft-delete left the organisation with no active owners" s,
    )
    else (err member_already_deleted, failed action c m "Member was concurrently soft-deleted" s)

unfoldable pub finish_update_member_role :
    Caller → ℕ → MemberRequest → MemberRole → Member → State → Result Error MemberView × State
finish_update_member_role c now r role m s =
    let (updated, t) = update_role r.member_id role now s.table in
    elim updated [
      | none ↦ raced update_member_role_action c r m (record s { table = t })
      | some u ↦ (ok (to_member_view u), succeeded update_member_role_action c m t s)
    ]

unfoldable pub begin_delete_member : Caller → MemberRequest → State → Result Error Member × State
begin_delete_member c r s = elim (find_active_by_id r.member_id s.table) [
  | none ↦ (
    err member_already_deleted,
    log_as delete_member_action c r.member_id "unknown" (some failure)
        (some "Member not found or already deleted") s,
  )
  | some m ↦
      if not (m.org_id == r.org_id)
      then (
        err member_not_found,
        failed delete_member_action c m "Cross-organisation member operation denied" s,
      )
      else (if m.role == owner && leb (count_active_owners r.org_id s.table) 1
          then (
            err last_owner,
            failed delete_member_action c m "Cannot remove the last active owner" s,
          )
          else (ok m, s))
]

unfoldable pub finish_delete_member :
    Caller → ℕ → MemberRequest → Member → State → Result Error (Unit {0}) × State
finish_delete_member c now r m s =
    let (deleted, t) = soft_delete r.member_id c.admin_id now s.table in
    elim deleted [
      | none ↦ raced delete_member_action c r m (record s { table = t })
      | some _ ↦ (ok tt, succeeded delete_member_action c m t s)
    ]

unfoldable pub begin_restore_member : Caller → MemberRequest → State → Result Error Member × State
begin_restore_member c r s = elim (find_by_id r.member_id s.table) [
  | none ↦ (
    err member_not_found,
    log_as restore_member_action c r.member_id "unknown" (some failure) (some "Member not found") s,
  )
  | some m ↦
      if is_active m
      then (err member_already_deleted, s)
      else (if not (m.org_id == r.org_id)
          then (
            err member_not_found,
            failed restore_member_action c m "Cross-organisation member operation denied" s,
          )
          else elim (find_active_by_org_and_user m.org_id m.user_id s.table) [
            | some _ ↦ (
              err active_membership_exists,
              failed restore_member_action c m
                  "An active membership already exists for this user in this organisation" s,
            )
            | none ↦ (ok m, s)
          ])
]

unfoldable pub finish_restore_member :
    Caller → ℕ → MemberRequest → Member → State → Result Error MemberView × State
finish_restore_member c now r m s = elim (restore r.member_id now s.table) [
  | none ↦ (err unique_violation, s)
  | some (none, t) ↦ (err member_already_deleted, record s { table = t })
  | some (some u, t) ↦ (ok (to_member_view u), succeeded restore_member_action c m t s)
]

-- A method whose two parts run with nothing in between.
abbrev pub whole {ℓ κ} :
    {A : Type ℓ} {B : Type κ}
    → (State → Result Error A × State)
    → (A → State → Result Error B × State)
    → State
    → Result Error B × State
whole first rest s = elim (first s).0 [ ok a ↦ rest a (first s).1 | err e ↦ (err e, (first s).1) ]

unfoldable pub invite_member :
    Caller → String → ℕ → InviteMemberRequest → State → Result Error MemberView × State
invite_member c id now r = whole (begin_invite_member c r) (λ _. finish_invite_member c id now r)

unfoldable pub update_member_role :
    Caller → ℕ → MemberRequest → MemberRole → State → Result Error MemberView × State
update_member_role c now r role =
    whole (begin_update_member_role c r role) (finish_update_member_role c now r role)

unfoldable pub delete_member : Caller → ℕ → MemberRequest → State → Result Error (Unit {0}) × State
delete_member c now r = whole (begin_delete_member c r) (finish_delete_member c now r)

unfoldable pub restore_member : Caller → ℕ → MemberRequest → State → Result Error MemberView × State
restore_member c now r = whole (begin_restore_member c r) (finish_restore_member c now r)
