-- ===== src/Policy/Store.antt =====
-- src/services/policy/store.ts: the rules, and the cache of an organisation's rules. `randomBytes` and
-- the clock, in milliseconds, are arguments. A field of a patch that is absent is `none`.
use credence_backend.Policy.Evaluator.{
  PolicyEffect, Value, PolicyRule, PolicyContext, PolicyDecision, decide,
}
use credence_backend.Base.{
  ℕ, ◌+◌, String, Bool, true, false, ◌||◌, Option, none, some, List, if◌then◌else◌, ltb, ◌==◌,
  string_eq, filter, length, take, drop,
}
use credence_backend.Base.Dict.{Dict, lookup, insert, erase, values}

abbrev pub cache_ttl_ms : ℕ
cache_ttl_ms = 30000

pub record CacheEntry : Type 0 where
  pub rules : List PolicyRule
  pub expires_at : ℕ

pub record PolicyStore : Type 0 where
  pub rules : Dict String PolicyRule
  pub cache : Dict String CacheEntry

pub record CreatePolicyRuleInput : Type 0 where
  pub org_id : String
  pub subject : String
  pub action : String
  pub resource : String
  pub effect : PolicyEffect
  pub conditions : Option (Dict String Value)

pub record Patch : Type 0 where
  pub org_id : Option String
  pub subject : Option String
  pub action : Option String
  pub resource : Option String
  pub effect : Option PolicyEffect
  pub conditions : Option (Dict String Value)

-- `invalidate`
unfoldable pub invalidate : String → PolicyStore → PolicyStore
invalidate org s = record s { cache = erase "*" (erase org s.cache) }

unfoldable pub new_rule : String → ℕ → CreatePolicyRuleInput → PolicyRule
new_rule id now input = record {
  id = id;
  org_id = input.org_id;
  subject = input.subject;
  action = input.action;
  resource = input.resource;
  effect = input.effect;
  conditions = input.conditions;
  created_at = now;
  updated_at = now;
}

unfoldable pub create : String → ℕ → CreatePolicyRuleInput → PolicyStore → PolicyRule × PolicyStore
unfolding new_rule invalidate
create id now input s = (
  new_rule id now input,
  invalidate input.org_id (record s { rules = insert id (new_rule id now input) s.rules }),
)

-- What a spread of the patch over the old value gives.
abbrev pub patched {ℓ} : {A : Type ℓ} → Option A → A → A
patched none old = old
patched (some a) old = a

unfoldable pub with_patch : ℕ → Patch → PolicyRule → PolicyRule
with_patch now p rule = record rule {
  org_id = patched p.org_id rule.org_id;
  subject = patched p.subject rule.subject;
  action = patched p.action rule.action;
  resource = patched p.resource rule.resource;
  effect = patched p.effect rule.effect;
  conditions = elim p.conditions [ none ↦ rule.conditions | some c ↦ some c ];
  updated_at = now;
}

-- The organisation that a patch moves the rule to is invalidated too; an empty name counts as none.
unfoldable pub invalidate_moved : Option String → String → PolicyStore → PolicyStore
unfolding invalidate
invalidate_moved none old s = s
invalidate_moved (some org) old s = if org == "" || org == old then s else invalidate org s

unfoldable pub update : String → ℕ → Patch → PolicyStore → Option PolicyRule × PolicyStore
unfolding with_patch invalidate invalidate_moved
update id now p s = elim (lookup id s.rules) [
  | none ↦ (none, s)
  | some rule ↦ (
    some (with_patch now p rule),
    invalidate_moved p.org_id rule.org_id
        (invalidate rule.org_id (record s { rules = insert id (with_patch now p rule) s.rules })),
  )
]

unfoldable pub delete : String → PolicyStore → Bool × PolicyStore
unfolding invalidate
delete id s = elim (lookup id s.rules) [
  | none ↦ (false, s)
  | some rule ↦ (true, invalidate rule.org_id (record s { rules = erase id s.rules }))
]

unfoldable pub find_by_id : String → PolicyStore → Option PolicyRule
find_by_id id s = lookup id s.rules

-- The rules of the organisation and those of the platform, as they are stored.
abbrev pub current : String → PolicyStore → List PolicyRule
current org s = filter (λ r. r.org_id == org || r.org_id == "*") (values s.rules)

abbrev pub fill : ℕ → String → PolicyStore → List PolicyRule × PolicyStore
fill now org s = (
  current org s,
  record s {
    cache = insert org (record { rules = current org s; expires_at = now + cache_ttl_ms }) s.cache;
  },
)

unfoldable pub find_all_by_org : ℕ → String → PolicyStore → List PolicyRule × PolicyStore
find_all_by_org now org s = elim (lookup org s.cache) [
  | none ↦ fill now org s
  | some entry ↦ if ltb now entry.expires_at then (entry.rules, s) else fill now org s
]

unfoldable pub find_by_org : ℕ → String → ℕ → ℕ → PolicyStore → (List PolicyRule × ℕ) × PolicyStore
unfolding find_all_by_org
find_by_org now org limit offset s =
    let (all, s') = find_all_by_org now org s in ((take limit (drop offset all), length all), s')

-- `evaluate` of src/services/policy/evaluator.ts
unfoldable pub evaluate : ℕ → PolicyContext → PolicyStore → PolicyDecision × PolicyStore
unfolding find_all_by_org
evaluate now ctx s = let (rules, s') = find_all_by_org now ctx.org_id s in (decide rules ctx, s')
