-- ===== src/Members/Tests.antt =====
-- An organisation with two owners.
use credence_backend.Members.Repository.{
  owner, member, role_eq, Member, find_active_by_id, find_by_id, count_active_owners, with_deletion,
  new_member, list_by_org, soft_delete,
}
use credence_backend.Members.Audit.{State, Caller, InviteMemberRequest, MemberRequest, last_owner}
use credence_backend.Members.Service.{
  invite_member, update_member_role, delete_member, restore_member, begin_delete_member,
  finish_delete_member, finish_invite_member, begin_restore_member,
}
use credence_backend.Members.Rows.{has_id}
use credence_backend.Members.Seats.{IsValid, Step, Steps, Steps-IsValid}
use credence_backend.Members.Seats
use credence_backend.Members.Owners.{Request, Requests, Owned, Requests-Owned}
use credence_backend.Members.Owners
use credence_backend.Members.Isolation.{others, requests-others}
use credence_backend.Members.Races.{last_owner_deleted}
use credence_backend.Members.RoundTrip.{delete_member-restore}
use credence_backend.Members.Answers.{refused-table}
use credence_backend.Base.{
  String, ◌≡◌, refl, true, false, none, some, [], ◌∷◌, arith, string_eq, ok, err, is_ok,
}

abbrev acme : String
acme = "acme"

abbrev ada : Member
ada = new_member "m1" 10 acme "u1" "ada@acme.org" owner

abbrev bob : Member
bob = new_member "m2" 20 acme "u2" "bob@acme.org" owner

abbrev eve : Member
eve = new_member "m3" 30 "other" "u3" "eve@other.org" owner

abbrev start : State
start = record { table = ada ∷ bob ∷ eve ∷ []; audit = []; invalidated = [] }

abbrev root : Caller
root = record { tenant_id = "t"; admin_id = "root"; admin_email = "root@acme.org" }

abbrev ada_request : MemberRequest
ada_request = record { org_id = acme; member_id = "m1" }

abbrev bob_request : MemberRequest
bob_request = record { org_id = acme; member_id = "m2" }

abbrev eve_request : MemberRequest
eve_request = record { org_id = acme; member_id = "m3" }

abbrev zoe_request : InviteMemberRequest
zoe_request = record { org_id = acme; user_id = "u4"; email = "zoe@acme.org"; role = none }

-- Both first parts pass their guards on the same table; then both second parts run.
abbrev both_deleted : State
both_deleted =
    (finish_delete_member root 50 bob_request bob
      (finish_delete_member root 50 ada_request ada start).1).1

both_pass :
    ((begin_delete_member root ada_request start).0 ≡ ok ada)
    × ((begin_delete_member root bob_request start).0 ≡ ok bob)
    × (count_active_owners acme both_deleted.table ≡ 0)
unfolding begin_delete_member finish_delete_member count_active_owners find_active_by_id soft_delete
both_pass = (refl, refl, refl)

one_after_another :
    (delete_member root 51 bob_request (delete_member root 50 ada_request start).1).0
    ≡ err last_owner
unfolding delete_member begin_delete_member find_active_by_id count_active_owners
    finish_delete_member soft_delete
one_after_another = refl

past_the_end : list_by_org acme false 10 2 start.table ≡ ([], 0)
unfolding list_by_org
past_the_end = refl

start-IsValid : IsValid start.table
start-IsValid = (refl, refl)

zoe_fresh : has_id "m4" start.table ≡ false
zoe_fresh = refl

steps :
    Steps start
      (begin_restore_member root ada_request
        (finish_delete_member root 60 ada_request ada
          (finish_invite_member root "m4" 50 zoe_request start).1).1).1
steps =
    Seats.more
      (Seats.more (Seats.more Seats.done (Seats.finish_invite root "m4" 50 zoe_request zoe_fresh))
        (Seats.finish_delete root 60 ada_request ada))
      (Seats.begin_restore root ada_request)

Steps-IsValid_example :
    IsValid
      (begin_restore_member root ada_request
        (finish_delete_member root 60 ada_request ada
          (finish_invite_member root "m4" 50 zoe_request start).1).1).1.table
Steps-IsValid_example = Steps-IsValid steps start-IsValid

requests :
    Requests start (delete_member root 51 bob_request (delete_member root 50 ada_request start).1).1
requests =
    Owners.more (Owners.more Owners.done (Owners.delete root 50 ada_request))
      (Owners.delete root 51 bob_request)

start-Owned : Owned acme start.table
unfolding count_active_owners
start-Owned = (refl, omega arith)

Requests-Owned_example :
    Owned acme
      (delete_member root 51 bob_request (delete_member root 50 ada_request start).1).1.table
Requests-Owned_example = Requests-Owned acme requests start-Owned

requests-others_example :
    (others acme (update_member_role root 50 eve_request member start).1.table
      ≡ others acme start.table)
    × (others acme (delete_member root 50 eve_request start).1.table ≡ others acme start.table)
    × (others acme (restore_member root 50 eve_request start).1.table ≡ others acme start.table)
requests-others_example = requests-others root 50 eve_request start refl member

abbrev bob_alone : State
bob_alone = record start { table = bob ∷ eve ∷ [] }

bob_found : find_active_by_id "m2" bob_alone.table ≡ some bob
unfolding find_active_by_id
bob_found = refl

bob_counted : count_active_owners acme bob_alone.table ≡ 1
unfolding count_active_owners
bob_counted = refl

last_owner_deleted_example :
    ((begin_delete_member root bob_request bob_alone).0 ≡ err last_owner)
    × ((finish_delete_member root 50 bob_request bob bob_alone).0 ≡ ok tt)
    × (count_active_owners acme (finish_delete_member root 50 bob_request bob bob_alone).1.table
        ≡ 0)
last_owner_deleted_example =
    last_owner_deleted root 50 bob_request bob bob_alone refl bob_found refl refl bob_counted

ada_found : find_active_by_id "m1" start.table ≡ some ada
unfolding find_active_by_id
ada_found = refl

ada_deleted : is_ok (delete_member root 50 ada_request start).0 ≡ true
unfolding delete_member begin_delete_member find_active_by_id count_active_owners
    finish_delete_member soft_delete
ada_deleted = refl

abbrev without_ada : State
without_ada = (delete_member root 50 ada_request start).1

delete_member-restore_example :
    (find_active_by_id "m1" without_ada.table ≡ none)
    × (find_by_id "m1" without_ada.table ≡ some (with_deletion "root" 50 ada))
    × (is_ok (restore_member root 60 ada_request without_ada).0 ≡ true)
    × (find_active_by_id "m1" (restore_member root 60 ada_request without_ada).1.table
        ≡ some (record ada { deleted_at = none; deleted_by = none; updated_at = 60 }))
delete_member-restore_example =
    delete_member-restore root root 50 60 ada_request start ada refl refl ada_found ada_deleted

abbrev ada_again : InviteMemberRequest
ada_again = record { org_id = acme; user_id = "u1"; email = "ada@acme.org"; role = none }

-- Ada is invited where she is active, and Eve's row is asked for in an organisation that it is not of.
refused-table_example :
    (is_ok (invite_member root "m4" 50 ada_again start).0 ≡ false
      → (invite_member root "m4" 50 ada_again start).1.table ≡ start.table)
    × (is_ok (update_member_role root 50 eve_request member start).0 ≡ false
        → (update_member_role root 50 eve_request member start).1.table ≡ start.table)
    × (is_ok (delete_member root 50 eve_request start).0 ≡ false
        → (delete_member root 50 eve_request start).1.table ≡ start.table)
    × (is_ok (restore_member root 50 eve_request start).0 ≡ false
        → (restore_member root 50 eve_request start).1.table ≡ start.table)
refused-table_example = refused-table root "m4" 50 ada_again eve_request member start
