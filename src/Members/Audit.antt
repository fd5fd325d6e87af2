-- ===== src/Members/Audit.antt =====
-- The state, the requests, the errors and the audit entries of src/services/members. Of an entry the
-- details, the actor's email and the request's id are left out.
use credence_backend.Members.Repository.{MemberRole, role_eq, Member, MemberView, Table}
use credence_backend.Base.{ℕ, String, Bool, Option, none, some, List, [], ◌∷◌, ◌++◌, string_eq}

pub data AuditAction : Type 0 where
  invite_member_action list_members_action update_member_role_action : AuditAction
  delete_member_action restore_member_action : AuditAction

pub data AuditStatus : Type 0 where
  success failure : AuditStatus

pub record AuditEntry : Type 0 where
  pub tenant_id : String
  pub actor_id : String
  pub action : AuditAction
  pub target_id : String
  pub target_email : String
  pub status : Option AuditStatus
  pub error_message : Option String

pub record State : Type 0 where
  pub table : Table
  pub audit : List AuditEntry
  -- The members whose profile caches were invalidated.
  pub invalidated : List (String × String)

-- The error classes of src/services/members/errors.ts, and the database's refusal.
pub data Error : Type 0 where
  member_already_active member_not_found member_already_deleted : Error
  last_owner active_membership_exists unique_violation : Error

pub record Caller : Type 0 where
  pub tenant_id : String
  pub admin_id : String
  pub admin_email : String

pub record InviteMemberRequest : Type 0 where
  pub org_id : String
  pub user_id : String
  pub email : String
  pub role : Option MemberRole

-- The requests to delete and to restore; the request to update has a role besides.
pub record MemberRequest : Type 0 where
  pub org_id : String
  pub member_id : String

pub record ListMembersResponse : Type 0 where
  pub members : List MemberView
  pub total : ℕ
  pub page : ℕ
  pub limit : ℕ
  pub has_next : Bool
  pub offset : ℕ

abbrev pub log_as :
    AuditAction → Caller → String → String → Option AuditStatus → Option String → State → State
log_as action c target email status message s = record s {
  audit =
      s.audit
      ++ record {
        tenant_id = c.tenant_id;
        actor_id = c.admin_id;
        action = action;
        target_id = target;
        target_email = email;
        status = status;
        error_message = message;
      }
        ∷ [];
}

abbrev pub failed : AuditAction → Caller → Member → String → State → State
failed action c m message s = log_as action c m.user_id m.email (some failure) (some message) s

-- The table after a query, the entry of a success, and the invalidation that follows it.
abbrev pub succeeded : AuditAction → Caller → Member → Table → State → State
succeeded action c m t s = record (log_as action c m.user_id m.email (some success) none s) {
  table = t;
  invalidated = s.invalidated ++ (m.org_id, m.id) ∷ [];
}

abbrev pub or_member : Option MemberRole → MemberRole
or_member none = MemberRole.member
or_member (some role) = role
