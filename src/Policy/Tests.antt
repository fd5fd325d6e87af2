-- ===== src/Policy/Tests.antt =====
-- An organisation's rule, and a platform-wide rule that comes after its rules are cached.
use credence_backend.Policy.Evaluator.{
  verifier, admin, allow, deny, Value, PolicyRule, PolicyContext, matches, action_matches, is_deny,
  is_allow, decide, resource_matches, conditions_match, subject_matches,
}
use credence_backend.Policy.Store.{
  CacheEntry, PolicyStore, CreatePolicyRuleInput, create, delete, current, evaluate,
}
use credence_backend.Policy.Cache.{platform_rule-evaluate}
use credence_backend.Policy.Refinement.{Step, Steps, Steps-evaluate}
use credence_backend.Policy.Refinement
use credence_backend.Policy.Decisions.{decide-allowed}
use credence_backend.Base.{
  String, ◌≡◌, ◌≢◌, ◌↔◌, ◌⊎◌, refl, true, false, ◌&&◌, none, some, List, [], ◌∷◌, arith, string_eq,
  any, ==_iff,
}

abbrev acme : String
acme = "acme"

abbrev rule : PolicyRule
rule = record {
  id = "r1";
  org_id = acme;
  subject = "user";
  action = "org:read";
  resource = "org:acme:*";
  effect = allow;
  conditions = some (("mfa", Value.flag true) ∷ []);
  created_at = 5;
  updated_at = 5;
}

abbrev ctx : PolicyContext
ctx = record {
  user_id = "u1";
  role = verifier;
  org_id = acme;
  action = "org:read";
  resource = "org:acme:members";
  extra = some (("mfa", Value.flag true) ∷ []);
}

granted : (decide (rule ∷ []) ctx).allowed ≡ true
unfolding decide matches subject_matches resource_matches conditions_match action_matches
granted = refl

outside : resource_matches "org:acme:*" "org:acme" ≡ false
unfolding resource_matches
outside = refl

abbrev rules : List PolicyRule
rules = rule ∷ []

decide-allowed_example :
    let denied = any (λ r. matches ctx r && is_deny r) rules in
    let granted = any (λ r. matches ctx r && is_allow r) rules in
    (((decide rules ctx).allowed ≡ true)
      ↔ ((denied ≡ false) × ((granted ≡ true) ⊎ (ctx.role ≡ admin))))
    × ((r : PolicyRule)
        → (decide rules ctx).matched_rule ≡ some r
        → (matches ctx r ≡ true) × (is_allow r ≡ (decide rules ctx).allowed))
decide-allowed_example = decide-allowed rules ctx

abbrev input : CreatePolicyRuleInput
input = record {
  org_id = acme;
  subject = "user";
  action = "org:read";
  resource = "*";
  effect = allow;
  conditions = none;
}

abbrev empty : PolicyStore
empty = record { rules = []; cache = [] }

acme_narrow : acme ≢ "*"
acme_narrow = λ e. ground (arith, ==_iff acme "*")

steps : Steps empty (delete "r1" (evaluate 20 ctx (create "r1" 10 input empty).1).1).1
steps =
    Refinement.more
      (Refinement.more
        (Refinement.more Refinement.done (Refinement.creates "r1" 10 input acme_narrow refl))
        (Refinement.evaluates 20 ctx))
      (Refinement.deletes "r1")

abbrev after : PolicyStore
after = (delete "r1" (evaluate 20 ctx (create "r1" 10 input empty).1).1).1

Steps-evaluate_example : (evaluate 30 ctx after).0 ≡ decide (current acme after) ctx
Steps-evaluate_example = Steps-evaluate 30 ctx steps

-- The rules of the organisation are cached until 30020; a rule that denies everything comes at 100.
abbrev entry : CacheEntry
entry = record { rules = rule ∷ []; expires_at = 30020 }

abbrev cached : PolicyStore
cached = record { rules = ("r1", rule) ∷ []; cache = (acme, entry) ∷ [] }

abbrev deny_all : CreatePolicyRuleInput
deny_all = record {
  org_id = "*";
  subject = "*";
  action = "*";
  resource = "*";
  effect = deny;
  conditions = none;
}

platform_rule-evaluate_example :
    (evaluate 200 ctx (create "r2" 100 deny_all cached).1).0 ≡ decide (rule ∷ []) ctx
platform_rule-evaluate_example =
    platform_rule-evaluate "r2" 100 200 deny_all ctx cached entry refl acme_narrow refl
      (omega arith)
