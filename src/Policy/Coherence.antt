-- ===== src/Policy/Coherence.antt =====
-- Without platform-wide rules the cached store decides as the rules do.
use credence_backend.Policy.Evaluator.{PolicyRule}
use credence_backend.Policy.Store.{
  cache_ttl_ms, CacheEntry, PolicyStore, CreatePolicyRuleInput, invalidate, new_rule, create,
  delete, current, fill, find_all_by_org,
}
use credence_backend.Policy.Cache.{Agrees}
use credence_backend.Base.{
  ℕ, ◌+◌, String, ◌≡◌, ◌≢◌, refl, inl, inr, Bool, true, false, ◌||◌, Option, none, some, [], ◌∷◌,
  arith, sym, ap, ◌∙◌, ◌==◌, string_eq, filter, ==_iff, ==_refl, Option-cases, Bool-cases, ltb,
}
use credence_backend.Base.Dict.{
  keys_distinct, keys_distinct-insert, keys_distinct-erase, erase-absent, Dict, lookup, insert,
  erase, values, lookup-insert, lookup-erase,
}

module _ {V : Type 0} (p : V → Bool) where
  -- A test that neither the new value nor the old one passes does not see the insertion.
  filter-values-insert :
      (k : String) (v : V) (d : Dict String V)
      → p v ≡ false
      → ((w : V) → lookup k d ≡ some w → p w ≡ false)
      → filter p (values (insert k v d)) ≡ filter p (values d)
  filter-values-insert k v [] h old = ground arith
  filter-values-insert k v ((j, w) ∷ d) h old = elim (Bool-cases (j == k)) [
    | inl same ↦ ground (arith, old w)
    | inr other ↦ ground (arith, filter-values-insert k v d h (λ x e. old x (ground arith)))
  ]

  filter-values-erase :
      (k : String) (d : Dict String V)
      → keys_distinct d ≡ true
      → ((w : V) → lookup k d ≡ some w → p w ≡ false)
      → filter p (values (erase k d)) ≡ filter p (values d)
  filter-values-erase k [] h old = refl
  filter-values-erase k ((j, w) ∷ d) h old = elim (Bool-cases (j == k)) [
    | inl same ↦ let here : j ≡ k = (==_iff j k).0 same in ground (arith, old w, erase-absent k d)
    | inr other ↦
        ground (arith, filter-values-erase k d (ground arith) (λ x e. old x (ground arith)))
  ]

-- No rule is platform-wide.
abbrev pub NoPlatformRule : PolicyStore → Type 0
NoPlatformRule s = (id : String) (r : PolicyRule) → lookup id s.rules ≡ some r → r.org_id ≢ "*"

-- The rules that an organisation sees.
abbrev pub sees : String → PolicyRule → Bool
sees org r = r.org_id == org || r.org_id == "*"

unseen : (org : String) (r : PolicyRule) → r.org_id ≢ org → r.org_id ≢ "*" → sees org r ≡ false
unseen org r h k = ground (arith, ==_iff r.org_id org, ==_iff r.org_id "*")

pub current-insert :
    (id org : String) (r : PolicyRule) (d : Dict String PolicyRule)
    → r.org_id ≢ org
    → r.org_id ≢ "*"
    → ((w : PolicyRule) → lookup id d ≡ some w → (w.org_id ≢ org) × (w.org_id ≢ "*"))
    → filter (sees org) (values (insert id r d)) ≡ filter (sees org) (values d)
current-insert id org r d h k old =
    filter-values-insert (sees org) id r d (unseen org r h k)
      (λ w e. unseen org w (old w e).0 (old w e).1)

-- An organisation whose cached rules outlive an invalidation is another one.
pub lookup-invalidate :
    (org o : String) (s : PolicyStore) {entry : CacheEntry}
    → lookup o (invalidate org s).cache ≡ some entry
    → (o ≢ org) × (lookup o s.cache ≡ some entry)
unfolding invalidate
lookup-invalidate org o s {entry} h = ground (
  arith,
  lookup-erase "*" o (erase org s.cache),
  lookup-erase org o s.cache,
  ==_refl o,
  ==_iff org o,
)

-- No id is stored twice, no rule is platform-wide, and every organisation that is cached is cached as it is.
abbrev pub Coherent : PolicyStore → Type 0
Coherent s = (keys_distinct s.rules ≡ true) × NoPlatformRule s × ((org : String) → Agrees org s)

-- The rules change under one id, whose rule belongs to `o` before, and the cache forgets `o`.
pub Coherent-change :
    (id o : String) (rules' : Dict String PolicyRule) (s : PolicyStore)
    → Coherent s
    → keys_distinct rules' ≡ true
    → NoPlatformRule (record s { rules = rules' })
    → ((org : String)
        → org ≢ o
        → filter (sees org) (values rules') ≡ filter (sees org) (values s.rules))
    → Coherent (invalidate o (record s { rules = rules' }))
unfolding invalidate
Coherent-change id o rules' s (distinct, narrow, agree) d n same = (
  d,
  n,
  λ org entry h.
      let (apart, before) = lookup-invalidate o org s h in
      agree org entry before ∙ sym (same org apart),
)

pub insert-NoPlatformRule :
    (id : String) (r : PolicyRule) (s : PolicyStore)
    → r.org_id ≢ "*"
    → NoPlatformRule s
    → NoPlatformRule (record s { rules = insert id r s.rules })
insert-NoPlatformRule id r s narrow h j q e = elim (Bool-cases (id == j)) [
  | inl same ↦
      let new : q ≡ r = ground (arith, lookup-insert id j r s.rules) in
      λ wide. narrow (ap (λ x. x.org_id) (sym new) ∙ wide)
  | inr other ↦ h j q (ground (arith, lookup-insert id j r s.rules))
]

erase-NoPlatformRule :
    (id : String) (s : PolicyStore)
    → NoPlatformRule s
    → NoPlatformRule (record s { rules = erase id s.rules })
erase-NoPlatformRule id s h j q e = h j q (ground (arith, lookup-erase id j s.rules))

pub create-Coherent :
    (id : String) (now : ℕ) (input : CreatePolicyRuleInput) (s : PolicyStore)
    → input.org_id ≢ "*"
    → lookup id s.rules ≡ none
    → Coherent s
    → Coherent (create id now input s).1
unfolding create new_rule
create-Coherent id now input s narrow fresh c =
    let r = new_rule id now input in
    Coherent-change id input.org_id (insert id r s.rules) s c
      (keys_distinct-insert id r s.rules c.0) (insert-NoPlatformRule id r s narrow c.1)
      (λ org apart.
        current-insert id org r s.rules (λ e. apart (sym e)) narrow
          (λ w e. absurd (none_some fresh e)))
  where
    none_some : {o : Option PolicyRule} {w : PolicyRule} → o ≡ none → o ≡ some w → ⊥
    none_some a b = ground arith

pub delete-Coherent : (id : String) (s : PolicyStore) → Coherent s → Coherent (delete id s).1
unfolding delete
delete-Coherent id s c = elim (Option-cases (lookup id s.rules)) [
  | inl missing ↦ rw (missing, delete) c
  | inr (r, found) ↦
      rw (found, delete)
        (Coherent-change id r.org_id (erase id s.rules) s c (keys_distinct-erase id s.rules c.0)
          (erase-NoPlatformRule id s c.1)
          (λ org apart. filter-values-erase (sees org) id s.rules c.0 (λ w e.
            let same : w ≡ r = ground arith in
            unseen org w (λ h. apart (sym h ∙ ap (λ x. x.org_id) same)) (c.1 id w e))))
]

pub find_all_by_org-Coherent :
    (now : ℕ) (org : String) (s : PolicyStore) → Coherent s → Coherent (find_all_by_org now org s).1
unfolding find_all_by_org
find_all_by_org-Coherent now org s (d, n, agree) = elim (Option-cases (lookup org s.cache)) [
  | inl missing ↦ rw (missing, find_all_by_org) filled
  | inr (entry, found) ↦ elim (Bool-cases (ltb now entry.expires_at)) [
    | inl fresh ↦ rw (found, find_all_by_org, fresh) (d, n, agree)
    | inr expired ↦ rw (found, find_all_by_org, expired) filled
  ]
]
  where
    filled : Coherent (fill now org s).1
    filled = (
      d,
      n,
      λ o entry h. ground (
        arith,
        agree o entry,
        lookup-insert org o (record { rules = current org s; expires_at = now + cache_ttl_ms })
            s.cache,
        ==_iff org o,
      ),
    )
