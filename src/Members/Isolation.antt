-- ===== src/Members/Isolation.antt =====
-- Requests and the rows of other organisations.
use credence_backend.Members.Repository.{
  MemberRole, role_eq, Member, Table, active_id, deleted_id, with_role, with_deletion,
  without_deletion,
}
use credence_backend.Members.Audit.{State, Caller, MemberRequest}
use credence_backend.Members.Service.{update_member_role, delete_member, restore_member}
use credence_backend.Members.Rows.{
  ids_distinct, KeepsKeys, OnlyId, active_id-OnlyId, deleted_id-OnlyId, ids_distinct-update_where,
  others-update_where,
}
use credence_backend.Members.Seats.{
  with_role-KeepsKeys, with_deletion-KeepsKeys, without_deletion-KeepsKeys,
}
use credence_backend.Members.Requests.{
  Changes, update_member_role-Changes, delete_member-Changes, restore_member-Changes,
}
use credence_backend.Base.{
  ℕ, String, ◌≡◌, ap, ◌∙◌, Bool, true, not, ◌==◌, string_eq, inl, inr, filter,
}

-- The rows of the other organisations.
abbrev pub others : String → Table → Table
others org t = filter (λ m. not (m.org_id == org)) t

pub Changes-ids_distinct :
    (id : String) (p : Member → Bool) (f : Member → Member) (P : Member → Type 0) (t t' : Table)
    → OnlyId id p
    → KeepsKeys f
    → Changes p f P t t'
    → ids_distinct t ≡ true
    → ids_distinct t' ≡ true
Changes-ids_distinct id p f P t t' only keep (inl same) d = ap ids_distinct same ∙ d
Changes-ids_distinct id p f P t t' only keep (inr (m, found, h, e)) d =
    ap ids_distinct e ∙ ids_distinct-update_where id p f only keep t ∙ d

Changes-others :
    (id org : String) (p : Member → Bool) (f : Member → Member) (P : Member → Type 0) (t t' : Table)
    → OnlyId id p
    → KeepsKeys f
    → ((m : Member) → P m → m.org_id ≡ org)
    → Changes p f P t t'
    → ids_distinct t ≡ true
    → others org t' ≡ others org t
Changes-others id org p f P t t' only keep home (inl same) d = ap (others org) same
Changes-others id org p f P t t' only keep home (inr (m, found, h, e)) d =
    ap (others org) e ∙ others-update_where id p f only keep org t d found (home m h)

module _ (c : Caller) (now : ℕ) (r : MemberRequest) (s : State)
    (d : ids_distinct s.table ≡ true) where
  -- In a table whose keys are distinct, a request to update, to delete or to restore changes no row of
  -- another organisation than its own.
  pub requests-others :
      (role : MemberRole)
      → (others r.org_id (update_member_role c now r role s).1.table ≡ others r.org_id s.table)
        × (others r.org_id (delete_member c now r s).1.table ≡ others r.org_id s.table)
        × (others r.org_id (restore_member c now r s).1.table ≡ others r.org_id s.table)
  requests-others role = (
    Changes-others r.member_id r.org_id (active_id r.member_id) (with_role role now) _ s.table
        (update_member_role c now r role s).1.table (active_id-OnlyId r.member_id)
        (with_role-KeepsKeys role now) (λ m h. h.0) (update_member_role-Changes c now r role s) d,
    Changes-others r.member_id r.org_id (active_id r.member_id) (with_deletion c.admin_id now) _
        s.table (delete_member c now r s).1.table (active_id-OnlyId r.member_id)
        (with_deletion-KeepsKeys c.admin_id now) (λ m h. h.0) (delete_member-Changes c now r s) d,
    Changes-others r.member_id r.org_id (deleted_id r.member_id) (without_deletion now) _ s.table
        (restore_member c now r s).1.table (deleted_id-OnlyId r.member_id)
        (without_deletion-KeepsKeys now) (λ m h. h.0) (restore_member-Changes c now r s) d,
  )
