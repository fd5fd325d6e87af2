-- ===== src/Policy/Cache.antt =====
-- The cache before the rules: when it answers as the rules do, and when not.
use credence_backend.Policy.Evaluator.{PolicyContext, decide}
use credence_backend.Policy.Store.{
  CacheEntry, PolicyStore, CreatePolicyRuleInput, create, current, find_all_by_org, evaluate,
}
use credence_backend.Base.{
  ℕ, ◌<◌, String, ◌≡◌, ◌≢◌, inl, inr, some, arith, string_eq, ==_iff, Option-cases,
}
use credence_backend.Base.Dict.{lookup, erase, lookup-erase}

-- The cache answers for `org` as the rules do, whenever it is asked.
abbrev pub Agrees : String → PolicyStore → Type 0
Agrees org s = (entry : CacheEntry) → lookup org s.cache ≡ some entry → entry.rules ≡ current org s

pub Agrees-find_all_by_org :
    (now : ℕ) (org : String) (s : PolicyStore)
    → Agrees org s
    → (find_all_by_org now org s).0 ≡ current org s
unfolding find_all_by_org
Agrees-find_all_by_org now org s h = elim (Option-cases (lookup org s.cache)) [
  | inl missing ↦ ground arith
  | inr (entry, found) ↦ ground (arith, h entry)
]

-- A new platform-wide rule does not reach an organisation whose rules are cached: until the entry
-- expires, a request there is decided on the cached rules alone, whatever the new rule says.
pub platform_rule-evaluate :
    (id : String) (now later : ℕ) (input : CreatePolicyRuleInput) (ctx : PolicyContext)
    (s : PolicyStore) (entry : CacheEntry)
    → input.org_id ≡ "*"
    → ctx.org_id ≢ "*"
    → lookup ctx.org_id s.cache ≡ some entry
    → later < entry.expires_at
    → (evaluate later ctx (create id now input s).1).0 ≡ decide entry.rules ctx
unfolding evaluate create
platform_rule-evaluate id now later input ctx s entry wide narrow found fresh = ground (
  arith,
  lookup-erase "*" ctx.org_id (erase input.org_id s.cache),
  lookup-erase input.org_id ctx.org_id s.cache,
  ==_iff "*" ctx.org_id,
  ==_iff input.org_id ctx.org_id,
)
