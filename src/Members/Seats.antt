-- ===== src/Members/Seats.antt =====
-- The table of members under any interleaving of requests.
use credence_backend.Members.Repository.{
  MemberRole, Member, Table, active_id, deleted_id, active_seat, insert, update_role, soft_delete,
  restore, with_role, with_deletion, without_deletion, update_where,
}
use credence_backend.Members.Audit.{State, Caller, InviteMemberRequest, MemberRequest, or_member}
use credence_backend.Members.Service.{
  begin_invite_member, finish_invite_member, list_members, begin_update_member_role,
  finish_update_member_role, begin_delete_member, finish_delete_member, begin_restore_member,
  finish_restore_member,
}
use credence_backend.Members.Parts.{
  begin_invite_member-table, begin_update_member_role-table, begin_delete_member-table,
  begin_restore_member-table, finish_update_member_role-table, finish_delete_member-table,
  finish_invite_member-table, finish_restore_member-table,
}
use credence_backend.Members.Rows.{
  has_id, ids_distinct, seats_distinct, collides, KeepsKeys, active_id-OnlyId, deleted_id-OnlyId,
  ids_distinct-update_where, seats_distinct-update_where, seats_distinct-revive,
}
use credence_backend.Base.{
  ℕ, String, ◌≡◌, refl, Bool, true, false, Option, some, [], ◌∷◌, ◌++◌, arith, ◌==◌, string_eq,
  any-append, ◌∙◌, subst, sym, find, inl, inr, Bool-cases, Option-cases, ==_comm,
}

-- The keys are distinct, and so are the organisation and user of the active rows.
abbrev pub IsValid : Table → Type 0
IsValid t = (ids_distinct t ≡ true) × (seats_distinct t ≡ true)

pub ids_distinct-snoc :
    (t : Table) (m : Member)
    → ids_distinct t ≡ true
    → has_id m.id t ≡ false
    → ids_distinct (t ++ m ∷ []) ≡ true
ids_distinct-snoc [] m d h = refl
ids_distinct-snoc (r ∷ rs) m d h =
    ground
      (arith, ids_distinct-snoc rs m, any-append (λ x. x.id == r.id) rs (m ∷ []), ==_comm r.id m.id)

seats_distinct-snoc :
    (t : Table) (m : Member)
    → seats_distinct t ≡ true
    → collides m t ≡ false
    → seats_distinct (t ++ m ∷ []) ≡ true
seats_distinct-snoc [] m d h = ground arith
seats_distinct-snoc (r ∷ rs) m d h = ground (
  arith,
  seats_distinct-snoc rs m,
  any-append (active_seat r.org_id r.user_id) rs (m ∷ []),
  ==_comm r.org_id m.org_id,
  ==_comm r.user_id m.user_id,
)

pub insert-IsValid :
    (id : String) (now : ℕ) (org user email : String) (role : MemberRole) (t t' : Table)
    (m : Member)
    → IsValid t
    → has_id id t ≡ false
    → insert id now org user email role t ≡ some (m, t')
    → IsValid t'
unfolding insert
insert-IsValid id now org user email role t t' m (d, s) fresh h =
    ground (arith, ids_distinct-snoc t m, seats_distinct-snoc t m)

pub with_role-KeepsKeys : (role : MemberRole) (now : ℕ) → KeepsKeys (with_role role now)
with_role-KeepsKeys role now m = (refl, refl, refl)

pub with_deletion-KeepsKeys : (by : String) (now : ℕ) → KeepsKeys (with_deletion by now)
with_deletion-KeepsKeys by now m = (refl, refl, refl)

pub without_deletion-KeepsKeys : (now : ℕ) → KeepsKeys (without_deletion now)
without_deletion-KeepsKeys now m = (refl, refl, refl)

pub update_role-IsValid :
    (id : String) (role : MemberRole) (now : ℕ) (t : Table)
    → IsValid t
    → IsValid (update_role id role now t).1
unfolding update_role
update_role-IsValid id role now t (d, s) = (
  ids_distinct-update_where id (active_id id) (with_role role now) (active_id-OnlyId id)
        (with_role-KeepsKeys role now) t
      ∙ d,
  seats_distinct-update_where id (active_id id) (with_role role now) (active_id-OnlyId id)
      (with_role-KeepsKeys role now) (λ r h. h) t s,
)

pub soft_delete-IsValid :
    (id by : String) (now : ℕ) (t : Table) → IsValid t → IsValid (soft_delete id by now t).1
unfolding soft_delete
soft_delete-IsValid id by now t (d, s) = (
  ids_distinct-update_where id (active_id id) (with_deletion by now) (active_id-OnlyId id)
        (with_deletion-KeepsKeys by now) t
      ∙ d,
  seats_distinct-update_where id (active_id id) (with_deletion by now) (active_id-OnlyId id)
      (with_deletion-KeepsKeys by now) (λ r h. ground arith) t s,
)

pub restore-IsValid :
    (id : String) (now : ℕ) (t t' : Table) (r : Option Member)
    → IsValid t
    → restore id now t ≡ some (r, t')
    → IsValid t'
unfolding restore
restore-IsValid id now t t' r (d, s) h = elim (Option-cases (find (deleted_id id) t)) [
  | inl missing ↦ ground arith
  | inr (m, found) ↦ elim (Bool-cases (collides m t)) [
    | inl taken ↦ ground arith
    | inr free ↦
        let new_table : t' ≡ update_where (deleted_id id) (without_deletion now) t = ground arith in
        rw (new_table) (
          ids_distinct-update_where id (deleted_id id) (without_deletion now) (deleted_id-OnlyId id)
                (without_deletion-KeepsKeys now) t
              ∙ d,
          seats_distinct-revive id (deleted_id id) (without_deletion now) (deleted_id-OnlyId id)
              (without_deletion-KeepsKeys now) t d found free s,
        )
  ]
]

-- One part of a request, with any arguments; a new key is fresh.
pub data Step : State → State → Type 0 where
  begin_invite :
      (c : Caller) (r : InviteMemberRequest) {s : State} → Step s (begin_invite_member c r s).1
  finish_invite :
      (c : Caller) (id : String) (now : ℕ) (r : InviteMemberRequest) {s : State}
      → has_id id s.table ≡ false
      → Step s (finish_invite_member c id now r s).1
  list :
      (c : Caller) (org : String) (page limit offset : Option ℕ) (deleted : Bool) {s : State}
      → Step s (list_members c org page limit offset deleted s).1
  begin_update :
      (c : Caller) (r : MemberRequest) (role : MemberRole) {s : State}
      → Step s (begin_update_member_role c r role s).1
  finish_update :
      (c : Caller) (now : ℕ) (r : MemberRequest) (role : MemberRole) (m : Member) {s : State}
      → Step s (finish_update_member_role c now r role m s).1
  begin_delete : (c : Caller) (r : MemberRequest) {s : State} → Step s (begin_delete_member c r s).1
  finish_delete :
      (c : Caller) (now : ℕ) (r : MemberRequest) (m : Member) {s : State}
      → Step s (finish_delete_member c now r m s).1
  begin_restore :
      (c : Caller) (r : MemberRequest) {s : State} → Step s (begin_restore_member c r s).1
  finish_restore :
      (c : Caller) (now : ℕ) (r : MemberRequest) (m : Member) {s : State}
      → Step s (finish_restore_member c now r m s).1

pub data Steps : State → State → Type 0 where
  done : {s : State} → Steps s s
  more : {s s' s'' : State} → Steps s s' → Step s' s'' → Steps s s''

Step-IsValid : {s s' : State} → Step s s' → IsValid s.table → IsValid s'.table
Step-IsValid (begin_invite c r {s}) v = subst IsValid (sym (begin_invite_member-table c r s)) v
Step-IsValid (finish_invite c id now r {s} fresh) v =
    elim (finish_invite_member-table c id now r s) [
      | inl same ↦ subst IsValid (sym same) v
      | inr (m, added) ↦
          insert-IsValid id now r.org_id r.user_id r.email (or_member r.role) s.table
            (finish_invite_member c id now r s).1.table m v fresh added
    ]
Step-IsValid (list c org page limit offset deleted {s}) v = unfold list_members in v
Step-IsValid (begin_update c r role {s}) v =
    subst IsValid (sym (begin_update_member_role-table c r role s)) v
Step-IsValid (finish_update c now r role m {s}) v =
    subst IsValid (sym (finish_update_member_role-table c now r role m s))
      (update_role-IsValid r.member_id role now s.table v)
Step-IsValid (begin_delete c r {s}) v = subst IsValid (sym (begin_delete_member-table c r s)) v
Step-IsValid (finish_delete c now r m {s}) v =
    subst IsValid (sym (finish_delete_member-table c now r m s))
      (soft_delete-IsValid r.member_id c.admin_id now s.table v)
Step-IsValid (begin_restore c r {s}) v = subst IsValid (sym (begin_restore_member-table c r s)) v
Step-IsValid (finish_restore c now r m {s}) v = elim (finish_restore_member-table c now r m s) [
  | inl same ↦ subst IsValid (sym same) v
  | inr (u, changed) ↦
      restore-IsValid r.member_id now s.table (finish_restore_member c now r m s).1.table u v
        changed
]

-- However the parts of requests are interleaved, with fresh keys for new rows, a table whose keys are
-- distinct and in which nobody is active twice in an organisation stays so.
pub Steps-IsValid : {s s' : State} → Steps s s' → IsValid s.table → IsValid s'.table
Steps-IsValid done v = v
Steps-IsValid (more steps step) v = Step-IsValid step (Steps-IsValid steps v)
