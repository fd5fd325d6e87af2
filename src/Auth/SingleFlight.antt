-- ===== src/Auth/SingleFlight.antt =====
-- src/lib/singleflight.ts. A call of `do` is two parts: `enter` up to the await, and `settle` when the
-- operation of the first caller of a key has a result or an error. Callers are numbers; a caller that
-- joins waits until the first caller's part settles it.
use credence_backend.Base.{ℕ, String, Bool, none, some, List, [], ◌∷◌, ◌++◌, string_eq, length, map}
use credence_backend.Base.Dict.{Dict, lookup, insert, erase, contains_key}

-- The callers that wait, for each key in flight.
abbrev pub SingleFlight : Type 0
SingleFlight = Dict String (List ℕ)

pub data Entry : Type 0 where
  runs joins : Entry

unfoldable pub enter : String → ℕ → SingleFlight → Entry × SingleFlight
enter key caller in_flight = elim (lookup key in_flight) [
  | some waiters ↦ (joins, insert key (waiters ++ caller ∷ []) in_flight)
  | none ↦ (runs, insert key [] in_flight)
]

-- The answers, of the waiters in their order and then of the first caller, and the map without the key.
unfoldable pub settle {ℓ} :
    {A : Type ℓ} → String → ℕ → A → SingleFlight → List (ℕ × A) × SingleFlight
settle key leader result in_flight = (
  elim (lookup key in_flight) [
    | none ↦ (leader, result) ∷ []
    | some waiters ↦ map (λ w. (w, result)) waiters ++ (leader, result) ∷ []
  ],
  erase key in_flight,
)

unfoldable pub has : String → SingleFlight → Bool
has key in_flight = contains_key key in_flight

unfoldable pub size : SingleFlight → ℕ
size in_flight = length in_flight
