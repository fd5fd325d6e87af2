-- ===== src/Members/Owners.antt =====
-- The last owner of an organisation when requests run one after another.
use credence_backend.Members.Repository.{
  MemberRole, role_eq, Table, active_id, deleted_id, active_owner, count_active_owners, with_role,
  with_deletion, without_deletion,
}
use credence_backend.Members.Audit.{State, Caller, InviteMemberRequest, MemberRequest}
use credence_backend.Members.Service.{
  invite_member, list_members, update_member_role, delete_member, restore_member,
}
use credence_backend.Members.Rows.{
  has_id, ids_distinct, active_id-OnlyId, deleted_id-OnlyId, find-OnlyId, filter-update_where,
}
use credence_backend.Members.Seats.{
  ids_distinct-snoc, with_role-KeepsKeys, with_deletion-KeepsKeys, without_deletion-KeepsKeys,
}
use credence_backend.Members.Requests.{
  update_member_role-Changes, delete_member-Changes, restore_member-Changes, invite_member-Adds,
}
use credence_backend.Members.Isolation.{Changes-ids_distinct}
use credence_backend.Base.{
  ℕ, ◌<◌, String, ◌≡◌, subst, sym, Bool, true, false, Option, [], ◌∷◌, arith, string_eq, inl, inr,
  filter, filter-append, length-append, ==_iff,
}

module _ (c : Caller) (now : ℕ) (r : MemberRequest) (s : State)
    (d : ids_distinct s.table ≡ true) where
  update_member_role-owners :
      (role : MemberRole) (org : String)
      → 0 < count_active_owners org s.table
      → 0 < count_active_owners org (update_member_role c now r role s).1.table
  unfolding count_active_owners
  update_member_role-owners role org h = elim (update_member_role-Changes c now r role s) [
    | inl same ↦ rw (same) h
    | inr (m, found, (home, guard), e) ↦ rw (e) (
        ground (
          arith,
          filter-update_where r.member_id (active_id r.member_id) (with_role role now)
              (active_id-OnlyId r.member_id) (active_owner org) s.table d found,
          find-OnlyId r.member_id (active_id r.member_id) (with_role role now)
              (active_id-OnlyId r.member_id) s.table found,
          ==_iff m.org_id org,
        ))
  ]

  delete_member-owners :
      (org : String)
      → 0 < count_active_owners org s.table
      → 0 < count_active_owners org (delete_member c now r s).1.table
  unfolding count_active_owners
  delete_member-owners org h = elim (delete_member-Changes c now r s) [
    | inl same ↦ rw (same) h
    | inr (m, found, (home, guard), e) ↦ rw (e) (
        ground (
          arith,
          filter-update_where r.member_id (active_id r.member_id) (with_deletion c.admin_id now)
              (active_id-OnlyId r.member_id) (active_owner org) s.table d found,
          find-OnlyId r.member_id (active_id r.member_id) (with_deletion c.admin_id now)
              (active_id-OnlyId r.member_id) s.table found,
          ==_iff m.org_id org,
        ))
  ]

  restore_member-owners :
      (org : String)
      → 0 < count_active_owners org s.table
      → 0 < count_active_owners org (restore_member c now r s).1.table
  unfolding count_active_owners
  restore_member-owners org h = elim (restore_member-Changes c now r s) [
    | inl same ↦ rw (same) h
    | inr (m, found, (home, off, free), e) ↦ rw (e) (
        ground (
          arith,
          filter-update_where r.member_id (deleted_id r.member_id) (without_deletion now)
              (deleted_id-OnlyId r.member_id) (active_owner org) s.table d found,
        ))
  ]

invite_member-owners :
    (c : Caller) (id : String) (now : ℕ) (r : InviteMemberRequest) (s : State) (org : String)
    → 0 < count_active_owners org s.table
    → 0 < count_active_owners org (invite_member c id now r s).1.table
unfolding count_active_owners
invite_member-owners c id now r s org h = elim (invite_member-Adds c id now r s) [
  | inl same ↦ rw (same) h
  | inr (m, _, _, _, e) ↦ rw (e) (
      ground (
        arith,
        filter-append (active_owner org) s.table (m ∷ []),
        length-append (filter (active_owner org) s.table) (filter (active_owner org) (m ∷ [])),
      ))
]

invite_member-ids_distinct :
    (c : Caller) (id : String) (now : ℕ) (r : InviteMemberRequest) (s : State)
    → ids_distinct s.table ≡ true
    → has_id id s.table ≡ false
    → ids_distinct (invite_member c id now r s).1.table ≡ true
invite_member-ids_distinct c id now r s d fresh = elim (invite_member-Adds c id now r s) [
  | inl same ↦ rw (same) d
  | inr (m, (named, _, _, _), _, _, e) ↦
      rw (e)
        (ids_distinct-snoc s.table m d (subst (λ j. has_id j s.table ≡ false) (sym named) fresh))
]

-- One whole request; a new key is fresh.
pub data Request : State → State → Type 0 where
  invite :
      (c : Caller) (id : String) (now : ℕ) (r : InviteMemberRequest) {s : State}
      → has_id id s.table ≡ false
      → Request s (invite_member c id now r s).1
  list :
      (c : Caller) (org : String) (page limit offset : Option ℕ) (deleted : Bool) {s : State}
      → Request s (list_members c org page limit offset deleted s).1
  update :
      (c : Caller) (now : ℕ) (r : MemberRequest) (role : MemberRole) {s : State}
      → Request s (update_member_role c now r role s).1
  delete :
      (c : Caller) (now : ℕ) (r : MemberRequest) {s : State} → Request s (delete_member c now r s).1
  restore :
      (c : Caller) (now : ℕ) (r : MemberRequest) {s : State}
      → Request s (restore_member c now r s).1

pub data Requests : State → State → Type 0 where
  done : {s : State} → Requests s s
  more : {s s' s'' : State} → Requests s s' → Request s' s'' → Requests s s''

-- The keys are distinct and the organisation has an active owner.
abbrev pub Owned : String → Table → Type 0
Owned org t = (ids_distinct t ≡ true) × (0 < count_active_owners org t)

Request-Owned :
    (org : String) {s s' : State} → Request s s' → Owned org s.table → Owned org s'.table
Request-Owned org (invite c id now r {s} fresh) (d, h) =
    (invite_member-ids_distinct c id now r s d fresh, invite_member-owners c id now r s org h)
Request-Owned org (list c o page limit offset deleted {s}) o' = unfold list_members in o'
Request-Owned org (update c now r role {s}) (d, h) = (
  Changes-ids_distinct r.member_id (active_id r.member_id) (with_role role now) _ s.table
      (update_member_role c now r role s).1.table (active_id-OnlyId r.member_id)
      (with_role-KeepsKeys role now) (update_member_role-Changes c now r role s) d,
  update_member_role-owners c now r s d role org h,
)
Request-Owned org (delete c now r {s}) (d, h) = (
  Changes-ids_distinct r.member_id (active_id r.member_id) (with_deletion c.admin_id now) _ s.table
      (delete_member c now r s).1.table (active_id-OnlyId r.member_id)
      (with_deletion-KeepsKeys c.admin_id now) (delete_member-Changes c now r s) d,
  delete_member-owners c now r s d org h,
)
Request-Owned org (restore c now r {s}) (d, h) = (
  Changes-ids_distinct r.member_id (deleted_id r.member_id) (without_deletion now) _ s.table
      (restore_member c now r s).1.table (deleted_id-OnlyId r.member_id)
      (without_deletion-KeepsKeys now) (restore_member-Changes c now r s) d,
  restore_member-owners c now r s d org h,
)

-- While requests run one after another, in a table whose keys are distinct and with fresh keys for new
-- rows, an organisation that has an active owner always has one.
pub Requests-Owned :
    (org : String) {s s' : State} → Requests s s' → Owned org s.table → Owned org s'.table
Requests-Owned org done o = o
Requests-Owned org (more rs r) o = Request-Owned org r (Requests-Owned org rs o)
