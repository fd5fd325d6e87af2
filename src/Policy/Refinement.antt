-- ===== src/Policy/Refinement.antt =====
-- The cached store refines the rules, as long as no rule is platform-wide.
use credence_backend.Policy.Evaluator.{PolicyRule, PolicyContext, decide}
use credence_backend.Policy.Store.{
  PolicyStore, CreatePolicyRuleInput, Patch, invalidate, create, patched, with_patch,
  invalidate_moved, find_by_org, update, delete, current, evaluate,
}
use credence_backend.Policy.Coherence.{
  sees, current-insert, lookup-invalidate, NoPlatformRule, Coherent, Coherent-change,
  insert-NoPlatformRule, create-Coherent, delete-Coherent, find_all_by_org-Coherent,
}
use credence_backend.Policy.Cache.{Agrees-find_all_by_org}
use credence_backend.Base.{
  ℕ, String, ◌≡◌, ◌≢◌, refl, inl, inr, true, false, ◌||◌, Option, none, some, [], arith, sym, ap,
  ◌∙◌, ◌==◌, string_eq, filter, ==_iff, ==_ne, Option-cases, Bool-cases,
}
use credence_backend.Base.Dict.{keys_distinct, keys_distinct-insert, Dict, lookup, insert, values}

-- The second invalidation of a rule that moves to the organisation `o`.
Coherent-moved :
    (old o : String) (rules' : Dict String PolicyRule) (s : PolicyStore)
    → Coherent s
    → keys_distinct rules' ≡ true
    → NoPlatformRule (record s { rules = rules' })
    → ((org : String)
        → org ≢ old
        → org ≢ o
        → filter (sees org) (values rules') ≡ filter (sees org) (values s.rules))
    → Coherent (invalidate o (invalidate old (record s { rules = rules' })))
Coherent-moved old o rules' s (_, _, agree) d n same = (
  unfold invalidate in d,
  unfold invalidate in n,
  λ org entry h.
      let (apart, once) =
        lookup-invalidate o org (invalidate old (record s { rules = rules' })) h in
      let (apart_old, before) = lookup-invalidate old org (record s { rules = rules' }) once in
      unfold invalidate in (agree org entry before ∙ sym (same org apart_old apart)),
)

patched-NotWide :
    (p : Option String) (old : String) → p ≢ some "*" → old ≢ "*" → patched p old ≢ "*"
patched-NotWide none old h k = k
patched-NotWide (some o) old h k = λ e. h (ap some e)

-- A rule `r` becomes `q`, which is of the organisation that the patch names or else of the old one.
change-Coherent :
    (id : String) (q r : PolicyRule) (p : Option String) (s : PolicyStore)
    → q.org_id ≡ patched p r.org_id
    → p ≢ some "*"
    → p ≢ some ""
    → lookup id s.rules ≡ some r
    → Coherent s
    → Coherent (
        invalidate_moved p r.org_id
          (invalidate r.org_id (record s { rules = insert id q s.rules })))
unfolding invalidate_moved
change-Coherent id q r p s home narrow named found c = go p home narrow named
  where
    same :
        (org : String)
        → org ≢ r.org_id
        → q.org_id ≢ org
        → q.org_id ≢ "*"
        → filter (sees org) (values (insert id q s.rules)) ≡ filter (sees org) (values s.rules)
    same org apart apart_q narrow_q = current-insert id org q s.rules apart_q narrow_q (λ w e.
        let old : w ≡ r = ground arith in
        ((λ h. apart (sym h ∙ ap (λ x. x.org_id) old)), c.1 id w e))

    go :
        (o : Option String)
        → q.org_id ≡ patched o r.org_id
        → o ≢ some "*"
        → o ≢ some ""
        → Coherent (
            invalidate_moved o r.org_id
              (invalidate r.org_id (record s { rules = insert id q s.rules })))
    go none h _ _ =
        let wide_not : q.org_id ≢ "*" = λ e. c.1 id r found (sym h ∙ e) in
        Coherent-change id r.org_id (insert id q s.rules) s c
          (keys_distinct-insert id q s.rules c.0) (insert-NoPlatformRule id q s wide_not c.1)
          (λ org apart. same org apart (λ e. apart (sym e ∙ h)) wide_not)
    go (some o) h narrow_o named_o =
        let wide_not : q.org_id ≢ "*" = λ e. narrow_o (ap some (sym h ∙ e)) in
        elim (Bool-cases (o == r.org_id)) [
          | inl stays ↦
              let home_again : o ≡ r.org_id = (==_iff o r.org_id).0 stays in
              let skip : (o == "" || o == r.org_id) ≡ true = ground arith in
              rw (skip, invalidate_moved)
                (Coherent-change id r.org_id (insert id q s.rules) s c
                  (keys_distinct-insert id q s.rules c.0)
                  (insert-NoPlatformRule id q s wide_not c.1)
                  (λ org apart. same org apart (λ e. apart (sym e ∙ h ∙ home_again)) wide_not))
          | inr moves ↦
              let both : (o == "" || o == r.org_id) ≡ false =
                ground (arith, moves, ==_ne o "" (λ e. named_o (ap some e))) in
              rw (both, invalidate_moved)
                (Coherent-moved r.org_id o (insert id q s.rules) s c
                  (keys_distinct-insert id q s.rules c.0)
                  (insert-NoPlatformRule id q s wide_not c.1)
                  (λ org apart apart_o. same org apart (λ e. apart_o (sym e ∙ h)) wide_not))
        ]

update-Coherent :
    (id : String) (now : ℕ) (p : Patch) (s : PolicyStore)
    → p.org_id ≢ some "*"
    → p.org_id ≢ some ""
    → Coherent s
    → Coherent (update id now p s).1
unfolding update with_patch
update-Coherent id now p s narrow named c = elim (Option-cases (lookup id s.rules)) [
  | inl missing ↦ rw (missing, update) c
  | inr (r, found) ↦
      rw (found, update)
        (change-Coherent id (with_patch now p r) r p.org_id s refl narrow named found c)
]

-- The operations, none of which makes a rule platform-wide; a new id is fresh.
pub data Step : PolicyStore → PolicyStore → Type 0 where
  creates :
      (id : String) (now : ℕ) (input : CreatePolicyRuleInput) {s : PolicyStore}
      → input.org_id ≢ "*"
      → lookup id s.rules ≡ none
      → Step s (create id now input s).1
  updates :
      (id : String) (now : ℕ) (p : Patch) {s : PolicyStore}
      → p.org_id ≢ some "*"
      → p.org_id ≢ some ""
      → Step s (update id now p s).1
  deletes : (id : String) {s : PolicyStore} → Step s (delete id s).1
  lists :
      (now : ℕ) (org : String) (limit offset : ℕ) {s : PolicyStore}
      → Step s (find_by_org now org limit offset s).1
  evaluates : (now : ℕ) (ctx : PolicyContext) {s : PolicyStore} → Step s (evaluate now ctx s).1

pub data Steps : PolicyStore → PolicyStore → Type 0 where
  done : {s : PolicyStore} → Steps s s
  more : {s s' s'' : PolicyStore} → Steps s s' → Step s' s'' → Steps s s''

Step-Coherent : {s s' : PolicyStore} → Step s s' → Coherent s → Coherent s'
Step-Coherent (creates id now input {s} narrow fresh) c =
    create-Coherent id now input s narrow fresh c
Step-Coherent (updates id now p {s} narrow named) c = update-Coherent id now p s narrow named c
Step-Coherent (deletes id {s}) c = delete-Coherent id s c
Step-Coherent (lists now org limit offset {s}) c =
    unfold find_by_org in find_all_by_org-Coherent now org s c
Step-Coherent (evaluates now ctx {s}) c =
    unfold evaluate in find_all_by_org-Coherent now ctx.org_id s c

pub Steps-Coherent : {s s' : PolicyStore} → Steps s s' → Coherent s → Coherent s'
Steps-Coherent done c = c
Steps-Coherent (more steps step) c = Step-Coherent step (Steps-Coherent steps c)

-- From a store without rules, whatever rules are created, changed and deleted and whatever is asked, at
-- whatever times, the store with its cache decides every request as the stored rules do at that moment,
-- as long as no rule is platform-wide, a new rule has a fresh id and no patch names the empty
-- organisation.
pub Steps-evaluate :
    {s : PolicyStore} (now : ℕ) (ctx : PolicyContext)
    → Steps (record { rules = []; cache = [] }) s
    → (evaluate now ctx s).0 ≡ decide (current ctx.org_id s) ctx
unfolding evaluate
Steps-evaluate {s} now ctx steps =
    ap (λ rules. decide rules ctx)
      (Agrees-find_all_by_org now ctx.org_id s ((Steps-Coherent steps fresh).2 ctx.org_id))
  where
    fresh : Coherent (record { rules = []; cache = [] })
    fresh = (refl, (λ id r h. ground arith), λ org entry h. ground arith)
