-- ===== src/Auth/Tests.antt =====
-- Two callers of one key, and a change of its scopes.
use credence_backend.Auth.SingleFlight.{runs, enter, size}
use credence_backend.Auth.Guard.{
  StoredApiKey, authorized, scope_conflict, AuthConcurrencyGuard, new, entered, begin_validate,
  decide_for_burst, Lookup, verdict, finish_validate, scope_fingerprint,
}
use credence_backend.Auth.Fingerprints.{Reordered}
use credence_backend.Auth.Runs.{Steps, done, more, begins}
use credence_backend.Auth.Bursts.{are_others, begin_validate-shared}
use credence_backend.Auth.Sizes.{new-size}
use credence_backend.Auth.Decisions.{decide_for_burst-decides}
use credence_backend.Base.{
  arith, ℕ, ◌≤◌, ◌≡◌, ◌≢◌, ◌↔◌, ◌⊎◌, refl, true, none, some, [], ◌∷◌, ◌==◌, nat_eq, string_eq, any,
  All,
}
use credence_backend.Base.Dict.{lookup}

abbrev key : StoredApiKey
key = record { id = "k1"; scopes = "write" ∷ "read" ∷ []; owner_id = "o1" }

abbrev reader : StoredApiKey
reader = record { id = "k1"; scopes = "read" ∷ []; owner_id = "o1" }

-- A sort by units: a comma joins them.
fingerprinted : scope_fingerprint ("write" ∷ "read" ∷ []) ≡ scope_fingerprint ("read,write" ∷ [])
unfolding scope_fingerprint
fingerprinted = refl

-- The caller 1 looks the key up.
abbrev looking : AuthConcurrencyGuard
looking = record {
  sf = ("cr_1", []) ∷ [];
  scope_snapshots = [];
  max_in_flight = 1000;
  conflict_retry_after_seconds = 1;
  overload_retry_after_seconds = 5;
}

looks : Steps (new none none none none) looking
unfolding new begin_validate enter size
looks = more done (begins "cr_1" 1)

new-size_example : size looking.sf ≤ looking.max_in_flight
new-size_example = new-size none none none looks (omega arith)

-- The caller 2 joins, and another key is looked up before the end.
abbrev joined : AuthConcurrencyGuard
joined = (begin_validate "cr_1" 2 looking).1

abbrev busy : AuthConcurrencyGuard
busy = (begin_validate "cr_2" 3 joined).1

begin_validate-shared_example :
    ((other : ℕ) → (begin_validate "cr_1" other busy).0 ≢ entered runs)
    × ((leader : ℕ) (result : Lookup)
        → (any (λ a. a.0 == 2) (finish_validate "cr_1" leader result busy).0 ≡ true)
          × (any (λ a. a.0 == leader) (finish_validate "cr_1" leader result busy).0 ≡ true)
          × All (λ a. a.1 ≡ (verdict result busy).0) (finish_validate "cr_1" leader result busy).0)
unfolding begin_validate enter size are_others
begin_validate-shared_example =
    begin_validate-shared "cr_1" 2 looking refl (more done (begins "cr_2" 3)) refl

-- The last burst saw the scopes of `key`.
abbrev seen : AuthConcurrencyGuard
seen = (decide_for_burst (some key) looking).1

decide_for_burst-decides_example :
    (((decide_for_burst (some reader) seen).0 ≡ authorized reader) ↔ (
      (lookup "k1" seen.scope_snapshots ≡ none)
      ⊎ (lookup "k1" seen.scope_snapshots ≡ some (scope_fingerprint reader.scopes))))
    × ((decide_for_burst (some reader) seen).0 ≢ authorized reader
        → ((decide_for_burst (some reader) seen).0
            ≡ scope_conflict seen.conflict_retry_after_seconds)
          × ((later : StoredApiKey)
              → later.id ≡ "k1"
              → (decide_for_burst (some later) (decide_for_burst (some reader) seen).1).0
                ≡ authorized later))
    × ((decide_for_burst (some reader) seen).0 ≡ authorized reader
        → (later : StoredApiKey) → later.id ≡ "k1"
        → Reordered reader.scopes later.scopes
        → (decide_for_burst (some later) (decide_for_burst (some reader) seen).1).0
          ≡ authorized later)
decide_for_burst-decides_example = decide_for_burst-decides reader seen

refused : (decide_for_burst (some reader) seen).0 ≡ scope_conflict 1
unfolding decide_for_burst scope_fingerprint
refused = refl
