-- ===== src/Policy/Decisions.antt =====
-- What a decision depends on.
use credence_backend.Policy.Evaluator.{
  admin, PolicyRule, PolicyContext, matches, is_deny, is_allow, decide,
}
use credence_backend.Base.{
  ◌≡◌, ◌↔◌, ◌⊎◌, inl, inr, Bool, true, false, ◌&&◌, none, some, List, [], ◌∷◌, arith, any, find,
  filter, Option-cases,
}

find-filter :
    (p q : PolicyRule → Bool) (rules : List PolicyRule)
    → (find p (filter q rules) ≡ none) ↔ (any (λ r. q r && p r) rules ≡ false)
find-filter p q [] = ground arith
find-filter p q (r ∷ rs) = ground (arith, find-filter p q rs)

find-filter-some :
    (p q : PolicyRule → Bool) (rules : List PolicyRule) {r : PolicyRule}
    → find p (filter q rules) ≡ some r
    → (q r ≡ true) × (p r ≡ true)
find-filter-some p q [] h = ground arith
find-filter-some p q (x ∷ xs) {r} h = ground (arith, find-filter-some p q xs {r = r})

-- A request is allowed exactly when no deny rule matches it and an allow rule matches it or the caller
-- is an admin, for whom no rule need match; and a rule that the decision names matches the request and
-- has the effect decided.
pub decide-allowed :
    (rules : List PolicyRule) (ctx : PolicyContext)
    → let denied = any (λ r. matches ctx r && is_deny r) rules in
      let granted = any (λ r. matches ctx r && is_allow r) rules in
      (((decide rules ctx).allowed ≡ true)
        ↔ ((denied ≡ false) × ((granted ≡ true) ⊎ (ctx.role ≡ admin))))
      × ((rule : PolicyRule)
          → (decide rules ctx).matched_rule ≡ some rule
          → (matches ctx rule ≡ true) × (is_allow rule ≡ (decide rules ctx).allowed))
unfolding decide
decide-allowed rules ctx =
    let denies = find-filter is_deny (matches ctx) rules in
    let grants = find-filter is_allow (matches ctx) rules in
    elim (Option-cases (find is_deny (filter (matches ctx) rules))) [
      | inr (r, denial) ↦
          ground (arith, denies, find-filter-some is_deny (matches ctx) rules {r = r} denial)
      | inl none_denies ↦ elim (Option-cases (find is_allow (filter (matches ctx) rules))) [
        | inr (r, grant) ↦
            ground
              (arith, denies, grants, find-filter-some is_allow (matches ctx) rules {r = r} grant)
        | inl none_grants ↦ ground (arith, denies, grants)
      ]
    ]
