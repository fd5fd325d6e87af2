-- ===== src/Policy/Evaluator.antt =====
-- src/services/policy/evaluator.ts and types.ts: which rules match a request, and the decision. Reasons
-- are values in place of texts. A number in a condition is a natural number.
use Prim.Native.String.{◌++◌ as ◌text++◌}
use credence_backend.Base.{
  ℕ, String, Bool, true, false, not, ◌&&◌, ◌||◌, Option, none, some, List, [], ◌∷◌, if◌then◌else◌,
  leb, ◌==◌, nat_beq, nat_eq, string_eq, filter, find, all,
}
use credence_backend.Base.Dict.{Dict, lookup}
use credence_backend.Base.Text.{codes, starts_with}

pub data Role : Type 0 where
  admin verifier user public : Role

-- `ROLE_HIERARCHY`
abbrev pub role_weight : Role → ℕ
role_weight public = 0
role_weight user = 1
role_weight verifier = 2
role_weight admin = 3

abbrev pub role_name : Role → String
role_name admin = "admin"
role_name verifier = "verifier"
role_name user = "user"
role_name public = "public"

-- `ROLE_HIERARCHY[subject]`, which is `undefined` for any other text.
abbrev pub weight_of : String → Option ℕ
weight_of subject =
    if subject == "public"
    then some 0
    else (if subject == "user"
        then some 1
        else (if subject == "verifier"
            then some 2
            else (if subject == "admin" then some 3 else none)))

pub data PolicyEffect : Type 0 where
  allow deny : PolicyEffect

pub data Value : Type 0 where
  text : String → Value
  flag : Bool → Value
  number : ℕ → Value

abbrev pub bool_beq : Bool → Bool → Bool
bool_beq true b = b
bool_beq false b = not b

-- `===` on the values of a condition.
abbrev pub value_beq : Value → Value → Bool
value_beq (text a) (text b) = a == b
value_beq (flag a) (flag b) = bool_beq a b
value_beq (number a) (number b) = nat_beq a b
value_beq _ _ = false

pub record PolicyRule : Type 0 where
  pub id : String
  pub org_id : String
  pub subject : String
  pub action : String
  pub resource : String
  pub effect : PolicyEffect
  pub conditions : Option (Dict String Value)
  pub created_at : ℕ
  pub updated_at : ℕ

pub record PolicyContext : Type 0 where
  pub user_id : String
  pub role : Role
  pub org_id : String
  pub action : String
  pub resource : String
  pub extra : Option (Dict String Value)

pub data Reason : Type 0 where
  explicit_deny : String → Reason
  explicit_allow : String → Reason
  admin_fallback deny_by_default : Reason

pub record PolicyDecision : Type 0 where
  pub allowed : Bool
  pub reason : Reason
  pub matched_rule : Option PolicyRule

unfoldable pub subject_matches : String → PolicyContext → Bool
subject_matches subject ctx =
    subject == "*"
    || subject == "user:" text++ ctx.user_id
    || subject == role_name ctx.role
    || elim (weight_of subject) [ none ↦ false | some w ↦ leb w (role_weight ctx.role) ]

unfoldable pub action_matches : String → String → Bool
action_matches rule_action ctx_action = rule_action == "*" || rule_action == ctx_action

-- `endsWith(':*')`
abbrev pub ends_in_wildcard : List ℕ → Bool
ends_in_wildcard [] = false
ends_in_wildcard (a ∷ rest) =
    let later = ends_in_wildcard rest in
    elim rest [ [] ↦ false | b ∷ [] ↦ nat_beq a b':' && nat_beq b b'*' | b ∷ c ∷ cs ↦ later ]

-- `slice(0, -1)`
abbrev pub without_last : List ℕ → List ℕ
without_last [] = []
without_last (a ∷ rest) = let kept = without_last rest in elim rest [ [] ↦ [] | _ ∷ _ ↦ a ∷ kept ]

unfoldable pub resource_matches : String → String → Bool
resource_matches rule_resource ctx_resource =
    rule_resource == "*"
    || rule_resource == ctx_resource
    || (ends_in_wildcard (codes rule_resource)
        && starts_with (codes ctx_resource) (without_last (codes rule_resource)))

abbrev pub holds_in : Dict String Value → String × Value → Bool
holds_in extra (k, v) = elim (lookup k extra) [ none ↦ false | some w ↦ value_beq w v ]

unfoldable pub conditions_match : Option (Dict String Value) → Option (Dict String Value) → Bool
conditions_match none extra = true
conditions_match (some []) extra = true
conditions_match (some (c ∷ cs)) none = false
conditions_match (some (c ∷ cs)) (some extra) = all (holds_in extra) (c ∷ cs)

unfoldable pub matches : PolicyContext → PolicyRule → Bool
matches ctx rule =
    subject_matches rule.subject ctx
    && action_matches rule.action ctx.action
    && resource_matches rule.resource ctx.resource
    && conditions_match rule.conditions ctx.extra

abbrev pub is_deny : PolicyRule → Bool
is_deny rule = elim rule.effect [ allow ↦ false | deny ↦ true ]

abbrev pub is_allow : PolicyRule → Bool
is_allow rule = elim rule.effect [ allow ↦ true | deny ↦ false ]

-- `evaluate` on the rules that the store gives for the organisation.
unfoldable pub decide : List PolicyRule → PolicyContext → PolicyDecision
decide rules ctx =
    let matching = filter (matches ctx) rules in
    elim (find is_deny matching) [
      | some rule ↦ record {
        allowed = false;
        reason = explicit_deny rule.id;
        matched_rule = some rule;
      }
      | none ↦ elim (find is_allow matching) [
        | some rule ↦ record {
          allowed = true;
          reason = explicit_allow rule.id;
          matched_rule = some rule;
        }
        | none ↦
            if leb (role_weight admin) (role_weight ctx.role)
            then record { allowed = true; reason = admin_fallback; matched_rule = none }
            else record { allowed = false; reason = deny_by_default; matched_rule = none }
      ]
    ]
