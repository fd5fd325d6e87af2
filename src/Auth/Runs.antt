-- ===== src/Auth/Runs.antt =====
-- The runs of the guard: the parts of validations and the evictions, one after another.
use credence_backend.Auth.Guard.{
  AuthConcurrencyGuard, begin_validate, evict, decide_for_burst, Lookup, threw, found, verdict,
  finish_validate, scope_fingerprint,
}
use credence_backend.Base.{
  ℕ, String, ◌≡◌, refl, inl, inr, none, some, ◌==◌, nat_eq, string_eq, codes_eq, Bool-cases,
  Option-cases,
}
use credence_backend.Base.Dict.{lookup}

pub data Step (g : AuthConcurrencyGuard) : AuthConcurrencyGuard → Type 0 where
  begins : (raw_key : String) (caller : ℕ) → Step g (begin_validate raw_key caller g).1
  finishes :
      (raw_key : String) (leader : ℕ) (result : Lookup)
      → Step g (finish_validate raw_key leader result g).1
  evicts : (key_id : String) → Step g (evict key_id g)

pub data Steps (g : AuthConcurrencyGuard) : AuthConcurrencyGuard → Type 0 where
  done : Steps g g
  more : {h k : AuthConcurrencyGuard} → Steps g h → Step h k → Steps g k

pub verdict-sf :
    (result : Lookup) (g : AuthConcurrencyGuard)
    → ((verdict result g).1.sf ≡ g.sf) × ((verdict result g).1.max_in_flight ≡ g.max_in_flight)
unfolding verdict decide_for_burst evict
verdict-sf threw g = (refl, refl)
verdict-sf (found none) g = (refl, refl)
verdict-sf (found (some key)) g = elim (Option-cases (lookup key.id g.scope_snapshots)) [
  | inl absent ↦ rw (absent, verdict, decide_for_burst) (refl, refl)
  | inr (f, there) ↦ elim (Bool-cases (f == scope_fingerprint key.scopes)) [
    | inl agree ↦ rw (there, agree, verdict, decide_for_burst) (refl, refl)
    | inr differ ↦ rw (there, differ, verdict, decide_for_burst) (refl, refl)
  ]
]
