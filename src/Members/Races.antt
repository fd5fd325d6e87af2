-- ===== src/Members/Races.antt =====
-- Requests whose parts are interleaved: the guard for the last owner.
use credence_backend.Members.Repository.{
  owner, Member, active_id, active_owner, find_active_by_id, soft_delete, count_active_owners,
  with_deletion,
}
use credence_backend.Members.Audit.{State, Caller, MemberRequest, last_owner}
use credence_backend.Members.Service.{begin_delete_member, finish_delete_member}
use credence_backend.Members.Rows.{ids_distinct, active_id-OnlyId, find-OnlyId, filter-update_where}
use credence_backend.Base.{◌≡◌, true, some, err, ok, arith, ℕ, ==_refl, string_eq}

-- In a table whose keys are distinct, when an owner is the last active one of the request's
-- organisation: the first part of a request to delete it refuses, but the second part of a request whose
-- first part ran before deletes it, and the organisation has no active owner.
pub last_owner_deleted :
    (c : Caller) (now : ℕ) (r : MemberRequest) (m : Member) (s : State)
    → ids_distinct s.table ≡ true
    → find_active_by_id r.member_id s.table ≡ some m
    → m.org_id ≡ r.org_id
    → m.role ≡ owner
    → count_active_owners r.org_id s.table ≡ 1
    → ((begin_delete_member c r s).0 ≡ err last_owner)
      × ((finish_delete_member c now r m s).0 ≡ ok tt)
      × (count_active_owners r.org_id (finish_delete_member c now r m s).1.table ≡ 0)
unfolding begin_delete_member finish_delete_member find_active_by_id soft_delete count_active_owners
last_owner_deleted c now r m s d found home role one = ground (
  arith,
  filter-update_where r.member_id (active_id r.member_id) (with_deletion c.admin_id now)
      (active_id-OnlyId r.member_id) (active_owner r.org_id) s.table d found,
  find-OnlyId r.member_id (active_id r.member_id) (with_deletion c.admin_id now)
      (active_id-OnlyId r.member_id) s.table found,
  ==_refl r.org_id,
)
