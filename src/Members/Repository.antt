-- ===== src/Members/Repository.antt =====
-- src/repositories/member.repository.ts: the queries on the table `org_members`, whose rows are in the
-- order of insertion. `now()` and the default for the key are arguments. A query is `none` where the
-- index `uq_org_members_active` of src/migration/004_add_members_soft_delete.sql refuses the row; the
-- trigger there sets `updated_at`. Times are numbers.
use credence_backend.Base.{
  ℕ, String, ◌≡◌, ◌↔◌, Bool, true, false, not, ◌&&◌, ◌||◌, Option, none, some, List, [], ◌∷◌, ◌++◌,
  arith, if◌then◌else◌, leb, Eq, ◌==◌, nat_beq, string_eq, filter, any, find, length, take, drop,
}

pub data MemberRole : Type 0 where
  owner admin member : MemberRole

abbrev pub role_rank : MemberRole → ℕ
role_rank owner = 0
role_rank admin = 1
role_rank member = 2

pub role_rank_iff : (a b : MemberRole) → (nat_beq (role_rank a) (role_rank b) ≡ true) ↔ (a ≡ b)
role_rank_iff a b = ground arith

instance abbrev pub role_eq : Eq MemberRole
role_eq = record { test = λ a b. nat_beq (role_rank a) (role_rank b); test_iff = role_rank_iff }

pub record Member : Type 0 where
  pub id : String
  pub org_id : String
  pub user_id : String
  pub email : String
  pub role : MemberRole
  pub created_at : ℕ
  pub updated_at : ℕ
  pub deleted_at : Option ℕ
  pub deleted_by : Option String

-- The public view, without the columns of the soft delete.
pub record MemberView : Type 0 where
  pub id : String
  pub org_id : String
  pub user_id : String
  pub email : String
  pub role : MemberRole
  pub created_at : ℕ
  pub updated_at : ℕ

unfoldable pub to_member_view : Member → MemberView
to_member_view m = record {
  id = m.id;
  org_id = m.org_id;
  user_id = m.user_id;
  email = m.email;
  role = m.role;
  created_at = m.created_at;
  updated_at = m.updated_at;
}

abbrev pub Table : Type 0
Table = List Member

-- `deleted_at IS NULL`
abbrev pub is_active : Member → Bool
is_active m = elim m.deleted_at [ none ↦ true | some _ ↦ false ]

abbrev pub same_seat : String → String → Member → Bool
same_seat org user m = m.org_id == org && m.user_id == user

abbrev pub active_id : String → Member → Bool
active_id id m = m.id == id && is_active m

abbrev pub deleted_id : String → Member → Bool
deleted_id id m = m.id == id && not (is_active m)

abbrev pub active_seat : String → String → Member → Bool
active_seat org user m = same_seat org user m && is_active m

abbrev pub active_owner : String → Member → Bool
active_owner org m = m.org_id == org && m.role == owner && is_active m

unfoldable pub find_active_by_id : String → Table → Option Member
find_active_by_id id t = find (active_id id) t

unfoldable pub find_by_id : String → Table → Option Member
find_by_id id t = find (λ m. m.id == id) t

unfoldable pub find_active_by_org_and_user : String → String → Table → Option Member
find_active_by_org_and_user org user t = find (active_seat org user) t

-- `ORDER BY created_at ASC`
abbrev pub insert_by_created : Member → Table → Table
insert_by_created m [] = m ∷ []
insert_by_created m (r ∷ rs) =
    let later = insert_by_created m rs in
    if leb m.created_at r.created_at then m ∷ r ∷ rs else r ∷ later

abbrev pub sort_by_created : Table → Table
sort_by_created [] = []
sort_by_created (m ∷ ms) = insert_by_created m (sort_by_created ms)

-- The total comes with the rows of the page, so an empty page has the total 0.
unfoldable pub list_by_org : String → Bool → ℕ → ℕ → Table → Table × ℕ
list_by_org org include_deleted limit offset t =
    let rows = filter (λ m. m.org_id == org && (include_deleted || is_active m)) t in
    let page = take limit (drop offset (sort_by_created rows)) in
    (page, elim page [ [] ↦ 0 | _ ∷ _ ↦ length rows ])

-- The row of an insertion, with the defaults of its other columns.
abbrev pub new_member : String → ℕ → String → String → String → MemberRole → Member
new_member id now org user email role = record {
  id = id;
  org_id = org;
  user_id = user;
  email = email;
  role = role;
  created_at = now;
  updated_at = now;
  deleted_at = none;
  deleted_by = none;
}

unfoldable pub insert :
    String → ℕ → String → String → String → MemberRole → Table → Option (Member × Table)
insert id now org user email role t =
    let row = new_member id now org user email role in
    if any (active_seat org user) t then none else some (row, t ++ row ∷ [])

-- `UPDATE … SET … WHERE`: every row that passes the test is changed.
abbrev pub update_where : (Member → Bool) → (Member → Member) → Table → Table
update_where p f [] = []
update_where p f (m ∷ ms) = (if p m then f m else m) ∷ update_where p f ms

-- `RETURNING *`: the first changed row.
abbrev pub returning : (Member → Member) → Option Member → Option Member
returning f none = none
returning f (some m) = some (f m)

abbrev pub with_role : MemberRole → ℕ → Member → Member
with_role role now m = record m { role = role; updated_at = now }

abbrev pub with_deletion : String → ℕ → Member → Member
with_deletion by now m = record m { deleted_at = some now; deleted_by = some by; updated_at = now }

abbrev pub without_deletion : ℕ → Member → Member
without_deletion now m = record m { deleted_at = none; deleted_by = none; updated_at = now }

unfoldable pub update_role : String → MemberRole → ℕ → Table → Option Member × Table
update_role id role now t = (
  returning (with_role role now) (find (active_id id) t),
  update_where (active_id id) (with_role role now) t,
)

unfoldable pub soft_delete : String → String → ℕ → Table → Option Member × Table
soft_delete id by now t = (
  returning (with_deletion by now) (find (active_id id) t),
  update_where (active_id id) (with_deletion by now) t,
)

unfoldable pub count_active_owners : String → Table → ℕ
count_active_owners org t = length (filter (active_owner org) t)

unfoldable pub restore : String → ℕ → Table → Option (Option Member × Table)
restore id now t = elim (find (deleted_id id) t) [
  | none ↦ some (none, t)
  | some m ↦
      if any (active_seat m.org_id m.user_id) t
      then none
      else some
          (some (without_deletion now m), update_where (deleted_id id) (without_deletion now) t)
]
