-- ===== src/Auth/Bursts.antt =====
-- Bursts of validations of one key, in any order with those of other keys.
use credence_backend.Auth.SingleFlight.{SingleFlight, runs, joins, enter, settle, size}
use credence_backend.Auth.Guard.{
  AuthValidateResult, AuthConcurrencyGuard, entered, begin_validate, evict, Lookup, verdict,
  finish_validate,
}
use credence_backend.Auth.Runs.{Step, Steps, done, more, begins, finishes, evicts}
use credence_backend.Base.{
  ℕ, String, ◌≡◌, ◌≢◌, refl, sym, subst, inl, inr, Bool, true, not, some, List, [], ◌∷◌, ◌++◌,
  arith, ◌==◌, ◌&&◌, nat_eq, string_eq, codes_eq, ltb, leb, Bool-cases, Option-cases, any, All,
  All-append, any-append, ==_iff, ==_refl, map,
}
use credence_backend.Base.Dict.{lookup, lookup-insert, lookup-erase}

-- The step does not end the lookup of the key.
abbrev pub is_other : {g h : AuthConcurrencyGuard} → String → Step g h → Bool
is_other key (finishes raw_key leader result) = not (raw_key == key)
is_other key _ = true

unfoldable pub are_others : {g h : AuthConcurrencyGuard} → String → Steps g h → Bool
are_others key done = true
are_others key (more run step) = are_others key run && is_other key step

are_others-more :
    {g h k : AuthConcurrencyGuard} (key : String) (run : Steps g h) (step : Step h k)
    → are_others key (more run step) ≡ true
    → (are_others key run ≡ true) × (is_other key step ≡ true)
unfolding are_others
are_others-more key run step h = (ground arith, ground arith)

-- The lookup of the key is in flight, and the caller waits for it.
abbrev Waits : String → ℕ → AuthConcurrencyGuard → Type 0
Waits key caller g =
    (ws : List ℕ) × (lookup key g.sf ≡ some ws) × (any (λ w. w == caller) ws ≡ true)

Step-Waits :
    (key : String) (caller : ℕ) {g h : AuthConcurrencyGuard} (step : Step g h)
    → is_other key step ≡ true
    → Waits key caller g
    → Waits key caller h
unfolding begin_validate finish_validate evict enter settle
Step-Waits key caller {g} (begins raw c) o w =
    elim (Bool-cases (ltb 0 g.max_in_flight && leb g.max_in_flight (size g.sf))) [
      | inl full ↦ rw full w
      | inr room ↦ elim (Option-cases (lookup raw g.sf)) [
        | inl absent ↦
            rw (room, absent, enter)
              (w.0, ground (arith, lookup-insert raw key [] g.sf, ==_iff raw key), w.2)
        | inr (ws, there) ↦ elim (Bool-cases (raw == key)) [
          | inl own ↦
              rw (room, there, enter)
                (
                  ws ++ c ∷ [],
                  ground (arith, lookup-insert raw key (ws ++ c ∷ []) g.sf),
                  ground (arith, any-append (λ x. x == caller) ws (c ∷ []), ==_iff raw key),
                )
          | inr other ↦
              rw (room, there, enter)
                (w.0, ground (arith, lookup-insert raw key (ws ++ c ∷ []) g.sf), w.2)
        ]
      ]
    ]
Step-Waits key caller {g} (finishes raw leader result) o w =
    (w.0, ground (arith, lookup-erase raw key g.sf), w.2)
Step-Waits key caller (evicts id) o w = w

Steps-Waits :
    (key : String) (caller : ℕ) {g h : AuthConcurrencyGuard} (run : Steps g h)
    → are_others key run ≡ true
    → Waits key caller g
    → Waits key caller h
Steps-Waits key caller done o w = w
Steps-Waits key caller (more run step) o w =
    let parts = are_others-more key run step o in
    Step-Waits key caller step parts.1 (Steps-Waits key caller run parts.0 w)

begin_validate-Waits :
    (key : String) (caller : ℕ) (g : AuthConcurrencyGuard)
    → (begin_validate key caller g).0 ≡ entered joins
    → Waits key caller (begin_validate key caller g).1
unfolding begin_validate enter
begin_validate-Waits key caller g h =
    elim (Bool-cases (ltb 0 g.max_in_flight && leb g.max_in_flight (size g.sf))) [
      | inl full ↦ absurd (ground arith)
      | inr room ↦ elim (Option-cases (lookup key g.sf)) [
        | inl absent ↦ absurd (ground arith)
        | inr (ws, there) ↦
            rw (room, there, enter)
              (
                ws ++ caller ∷ [],
                ground (arith, lookup-insert key key (ws ++ caller ∷ []) g.sf, ==_refl key),
                ground (arith, any-append (λ x. x == caller) ws (caller ∷ []), ==_refl caller),
              )
      ]
    ]

in_flight-joins :
    (key : String) (caller : ℕ) (g : AuthConcurrencyGuard) (ws : List ℕ)
    → lookup key g.sf ≡ some ws
    → (begin_validate key caller g).0 ≢ entered runs
unfolding begin_validate enter
in_flight-joins key caller g ws there e =
    elim (Bool-cases (ltb 0 g.max_in_flight && leb g.max_in_flight (size g.sf))) [
      | inl full ↦ ground arith
      | inr room ↦ ground arith
    ]

any-answers {ℓ} :
    {A : Type ℓ} (r : A) (c : ℕ) (ws : List ℕ)
    → any {A = ℕ × A} (λ a. a.0 == c) (map (λ w. (w, r)) ws) ≡ any (λ w. w == c) ws
any-answers r c [] = refl
any-answers r c (w ∷ ws) = ground (arith, any-answers r c ws)

All-answers {ℓ} :
    {A : Type ℓ} (r : A) (ws : List ℕ) → All {A = ℕ × A} (λ a. a.1 ≡ r) (map (λ w. (w, r)) ws)
All-answers r [] = tt
All-answers r (w ∷ ws) = (refl, All-answers r ws)

settle-answers :
    (key : String) (leader : ℕ) (r : AuthValidateResult) (sf : SingleFlight) (ws : List ℕ)
    → lookup key sf ≡ some ws
    → (caller : ℕ)
    → (any (λ w. w == caller) ws ≡ true
        → any (λ a. a.0 == caller) (settle key leader r sf).0 ≡ true)
      × (any (λ a. a.0 == leader) (settle key leader r sf).0 ≡ true)
      × All (λ a. a.1 ≡ r) (settle key leader r sf).0
unfolding settle
settle-answers key leader r sf ws there caller =
    let all : List (ℕ × AuthValidateResult) = map (λ w. (w, r)) ws in
    let answers : (settle key leader r sf).0 ≡ all ++ (leader, r) ∷ [] = ground (arith, there) in
    subst
      (λ as_.
        (any (λ w. w == caller) ws ≡ true → any (λ a. a.0 == caller) as_ ≡ true)
        × (any (λ a. a.0 == leader) as_ ≡ true)
        × All (λ a. a.1 ≡ r) as_)
      (sym answers)
      (
        (λ w. ground (
          arith,
          any-append (λ a. a.0 == caller) all ((leader, r) ∷ []),
          any-answers r caller ws,
        )),
        ground (arith, any-append (λ a. a.0 == leader) all ((leader, r) ∷ []), ==_refl leader),
        All-append (λ a. a.1 ≡ r) all ((leader, r) ∷ []) (All-answers r ws) (refl, tt),
      )

-- A caller that joins the lookup of a key is answered when the lookup ends: in every order of other
-- validations and evictions up to the end, no other caller starts a lookup of the key, and at the end
-- the joined caller, the first one and all that joined have the one verdict on the lookup's result.
pub begin_validate-shared :
    (key : String) (caller : ℕ) (g : AuthConcurrencyGuard) {h : AuthConcurrencyGuard}
    → (begin_validate key caller g).0 ≡ entered joins
    → (run : Steps (begin_validate key caller g).1 h) → are_others key run ≡ true
    → ((other : ℕ) → (begin_validate key other h).0 ≢ entered runs)
      × ((leader : ℕ) (result : Lookup)
          → (any (λ a. a.0 == caller) (finish_validate key leader result h).0 ≡ true)
            × (any (λ a. a.0 == leader) (finish_validate key leader result h).0 ≡ true)
            × All (λ a. a.1 ≡ (verdict result h).0) (finish_validate key leader result h).0)
unfolding finish_validate
begin_validate-shared key caller g {h} joined run o =
    let w = Steps-Waits key caller run o (begin_validate-Waits key caller g joined) in
    (
      (λ other e. in_flight-joins key other h w.0 w.1 e),
      λ leader result.
          let answers = settle-answers key leader (verdict result h).0 h.sf w.0 w.1 caller in
          (answers.0 w.2, answers.1, answers.2),
    )
