-- ===== src/Auth/Sizes.antt =====
-- How many keys are in flight.
use credence_backend.Auth.SingleFlight.{enter, settle, size}
use credence_backend.Auth.Guard.{AuthConcurrencyGuard, new, begin_validate, evict, finish_validate}
use credence_backend.Auth.Runs.{Step, Steps, done, more, begins, finishes, evicts, verdict-sf}
use credence_backend.Base.{
  none, ℕ, ◌+◌, ◌≤◌, ◌<◌, String, ◌≡◌, inl, inr, Option, some, [], ◌∷◌, ◌++◌, arith, ◌&&◌, nat_eq,
  string_eq, codes_eq, ltb, leb, Bool-cases, Option-cases, length,
}
use credence_backend.Base.Dict.{Dict, lookup, insert, erase}

length-insert-le {ℓ} :
    {V : Type ℓ} (k : String) (v : V) (d : Dict String V) → length (insert k v d) ≤ 1 + length d
length-insert-le k v [] = omega arith
length-insert-le k v ((j, w) ∷ d) = ground (arith, length-insert-le k v d)

length-insert-there {ℓ} :
    {V : Type ℓ} (k : String) (v w : V) (d : Dict String V)
    → lookup k d ≡ some w
    → length (insert k v d) ≡ length d
length-insert-there k v w [] h = absurd (ground arith)
length-insert-there k v w ((j, x) ∷ d) h = ground (arith, length-insert-there k v w d)

length-erase-le {ℓ} : {V : Type ℓ} (k : String) (d : Dict String V) → length (erase k d) ≤ length d
length-erase-le k [] = omega arith
length-erase-le k ((j, x) ∷ d) = ground (arith, length-erase-le k d)

abbrev Bounded : AuthConcurrencyGuard → Type 0
Bounded g = 0 < g.max_in_flight → length g.sf ≤ g.max_in_flight

Step-Bounded : {g h : AuthConcurrencyGuard} → Step g h → Bounded g → Bounded h
unfolding begin_validate finish_validate evict enter settle size
Step-Bounded {g} (begins raw c) b =
    elim (Bool-cases (ltb 0 g.max_in_flight && leb g.max_in_flight (size g.sf))) [
      | inl full ↦ rw full b
      | inr room ↦ elim (Option-cases (lookup raw g.sf)) [
        | inl absent ↦
            rw (room, absent, enter) (λ pos. ground (arith, length-insert-le raw [] g.sf))
        | inr (ws, there) ↦
            rw (room, there, enter)
              (λ pos. ground (arith, b pos, length-insert-there raw (ws ++ c ∷ []) ws g.sf))
      ]
    ]
Step-Bounded {g} (finishes raw leader result) b =
    λ pos. let same = (verdict-sf result g).1 in ground (arith, b, length-erase-le raw g.sf)
Step-Bounded (evicts id) b = b

-- From a new guard with a SingleFlight of its own on, in every order of the parts of validations and evictions, no more keys are in
-- flight than the maximum, where one is set.
pub new-size :
    (max conflict overload : Option ℕ) {g : AuthConcurrencyGuard}
    → Steps (new none max conflict overload) g
    → 0 < g.max_in_flight
    → size g.sf ≤ g.max_in_flight
unfolding size
new-size max conflict overload run pos = bounded run pos
  where
    bounded : {h : AuthConcurrencyGuard} → Steps (new none max conflict overload) h → Bounded h
    bounded done p = unfold new in omega arith
    bounded (more r step) p = Step-Bounded step (bounded r) p
