-- ===== src/Auth/Decisions.antt =====
-- The decision on a key: what it leaves behind, and the retry after a conflict.
use credence_backend.Auth.Guard.{
  StoredApiKey, authorized, scope_conflict, AuthConcurrencyGuard, evict, decide_for_burst,
  scope_fingerprint,
}
use credence_backend.Auth.Fingerprints.{Reordered, scope_fingerprint-Reordered}
use credence_backend.Base.{
  ℕ, ◌≡◌, ◌≢◌, ◌↔◌, ◌⊎◌, refl, ap, ◌∙◌, inl, inr, false, none, some, List, arith, ◌==◌, nat_eq,
  string_eq, codes_eq, Bool-cases, Option-cases, ==_iff, ==_refl,
}
use credence_backend.Base.Dict.{lookup, lookup-insert, lookup-erase}

-- What a decision answers, and what it leaves behind of the key.
abbrev Unchanged : StoredApiKey → AuthConcurrencyGuard → Type 0
Unchanged key g =
    (lookup key.id g.scope_snapshots ≡ none)
    ⊎ (lookup key.id g.scope_snapshots ≡ some (scope_fingerprint key.scopes))

decide-Unchanged :
    (key : StoredApiKey) (g : AuthConcurrencyGuard)
    → Unchanged key g
    → ((decide_for_burst (some key) g).0 ≡ authorized key)
      × (lookup key.id (decide_for_burst (some key) g).1.scope_snapshots
          ≡ some (scope_fingerprint key.scopes))
unfolding decide_for_burst
decide-Unchanged key g (inl absent) = (
  rw (absent, decide_for_burst) refl,
  rw (absent, decide_for_burst)
      (ground (
        arith,
        lookup-insert key.id key.id (scope_fingerprint key.scopes) g.scope_snapshots,
        ==_refl key.id,
      )),
)
decide-Unchanged key g (inr there) =
    let same = ==_refl (scope_fingerprint key.scopes) in
    (
      rw (there, same, decide_for_burst) refl,
      rw (there, same, decide_for_burst)
          (ground (
            arith,
            lookup-insert key.id key.id (scope_fingerprint key.scopes) g.scope_snapshots,
            ==_refl key.id,
          )),
    )

decide-changed :
    (key : StoredApiKey) (g : AuthConcurrencyGuard) (f : List ℕ)
    → lookup key.id g.scope_snapshots ≡ some f
    → (f == scope_fingerprint key.scopes) ≡ false
    → ((decide_for_burst (some key) g).0 ≡ scope_conflict g.conflict_retry_after_seconds)
      × (lookup key.id (decide_for_burst (some key) g).1.scope_snapshots ≡ none)
unfolding decide_for_burst evict
decide-changed key g f there differ = (
  rw (there, differ, decide_for_burst) refl,
  rw (there, differ, decide_for_burst)
      (ground (arith, lookup-erase key.id key.id g.scope_snapshots, ==_refl key.id)),
)

decide-cases :
    (key : StoredApiKey) (g : AuthConcurrencyGuard)
    → Unchanged key g
      ⊎ ((f : List ℕ) × (lookup key.id g.scope_snapshots ≡ some f)
          × ((f == scope_fingerprint key.scopes) ≡ false))
decide-cases key g = elim (Option-cases (lookup key.id g.scope_snapshots)) [
  | inl absent ↦ inl (inl absent)
  | inr (f, there) ↦ elim (Bool-cases (f == scope_fingerprint key.scopes)) [
    | inl agree ↦ inl (inr (there ∙ ap some ((==_iff f (scope_fingerprint key.scopes)).0 agree)))
    | inr differ ↦ inr (f, there, differ)
  ]
]

-- A key that was found is authorized exactly where its last burst left no fingerprint or left the one
-- of its scopes; else the caller is told to retry. After a conflict the next decision on the key
-- authorizes it, whatever its scopes are then; after an authorization so does the next one whose scopes
-- are the same in any order.
pub decide_for_burst-decides :
    (key : StoredApiKey) (g : AuthConcurrencyGuard)
    → (((decide_for_burst (some key) g).0 ≡ authorized key) ↔ (
        (lookup key.id g.scope_snapshots ≡ none)
        ⊎ (lookup key.id g.scope_snapshots ≡ some (scope_fingerprint key.scopes))))
      × ((decide_for_burst (some key) g).0 ≢ authorized key
          → ((decide_for_burst (some key) g).0 ≡ scope_conflict g.conflict_retry_after_seconds)
            × ((later : StoredApiKey)
                → later.id ≡ key.id
                → (decide_for_burst (some later) (decide_for_burst (some key) g).1).0
                  ≡ authorized later))
      × ((decide_for_burst (some key) g).0 ≡ authorized key
          → (later : StoredApiKey) → later.id ≡ key.id
          → Reordered key.scopes later.scopes
          → (decide_for_burst (some later) (decide_for_burst (some key) g).1).0 ≡ authorized later)
decide_for_burst-decides key g = elim (decide-cases key g) [
  | inl unchanged ↦
      let d = decide-Unchanged key g unchanged in
      (
        ((λ h. unchanged), λ h. d.0),
        (λ no_. absurd (no_ d.0)),
        λ h later same_id r.
            (decide-Unchanged later (decide_for_burst (some key) g).1 (
              inr (
                ap (λ i. lookup i (decide_for_burst (some key) g).1.scope_snapshots) same_id
                ∙ d.1
                ∙ ap some (scope_fingerprint-Reordered r)))).0,
      )
  | inr (f, there, differ) ↦
      let d = decide-changed key g f there differ in
      (
        ((λ h. absurd (ground (arith, d.0))), λ u. (decide-Unchanged key g u).0),
        (λ no_. (
          d.0,
          λ later same_id.
              (decide-Unchanged later (decide_for_burst (some key) g).1 (
                inl (
                  ap (λ i. lookup i (decide_for_burst (some key) g).1.scope_snapshots) same_id
                  ∙ d.1))).0,
        )),
        λ h. absurd (ground (arith, d.0)),
      )
]
