-- ===== src/Auth/Guard.antt =====
-- src/auth/concurrency.ts. A validation is `begin_validate` up to the lookup of the key, and
-- `finish_validate` when the lookup of the first caller has ended. A text is its UTF-16 units where it
-- is ordered or joined.
use credence_backend.Auth.SingleFlight.{SingleFlight, Entry, enter, settle, size}
use credence_backend.Base.{
  ℕ, ◌+◌, ◌-◌, ◌/◌, ◌%◌, String, Bool, true, false, Option, none, some, List, [], ◌∷◌, ◌++◌,
  if◌then◌else◌, ltb, leb, nat_beq, ◌&&◌, ◌||◌, ◌==◌, nat_eq, string_eq, codes_eq, map,
}
use credence_backend.Base.Dict.{Dict, lookup, insert, erase}
use credence_backend.Base.Text.{codes}

-- The columns of a stored key that the guard reads, and its owner.
pub record StoredApiKey : Type 0 where
  pub id : String
  pub scopes : List String
  pub owner_id : String

pub data AuthValidateResult : Type 0 where
  authorized : StoredApiKey → AuthValidateResult
  unauthorized : AuthValidateResult
  lookup_failed : AuthValidateResult
  scope_conflict : ℕ → AuthValidateResult
  overloaded : ℕ → AuthValidateResult

-- A code point above 0xffff is two units.
abbrev pub units : List ℕ → List ℕ
units [] = []
units (c ∷ cs) =
    let rest = units cs in
    if ltb c 0x10000
    then c ∷ rest
    else (0xd800 + (c - 0x10000) / 1024) ∷ (0xdc00 + (c - 0x10000) % 1024) ∷ rest

-- The order of `Array.sort` without a comparison.
abbrev pub not_after : List ℕ → List ℕ → Bool
not_after [] ys = true
not_after (x ∷ xs) [] = false
not_after (x ∷ xs) (y ∷ ys) = ltb x y || nat_beq x y && not_after xs ys

abbrev pub insert_text : List ℕ → List (List ℕ) → List (List ℕ)
insert_text x [] = x ∷ []
insert_text x (y ∷ ys) =
    let rest = insert_text x ys in if not_after x y then x ∷ y ∷ ys else y ∷ rest

abbrev pub sort_texts : List (List ℕ) → List (List ℕ)
sort_texts [] = []
sort_texts (x ∷ xs) = insert_text x (sort_texts xs)

-- `join(',')`
abbrev pub join_commas : List (List ℕ) → List ℕ
join_commas [] = []
join_commas (x ∷ []) = x
join_commas (x ∷ y ∷ ys) = x ++ b',' ∷ join_commas (y ∷ ys)

unfoldable pub scope_fingerprint : List String → List ℕ
scope_fingerprint scopes = join_commas (sort_texts (map (λ s. units (codes s)) scopes))

pub record AuthConcurrencyGuard : Type 0 where
  pub sf : SingleFlight
  pub scope_snapshots : Dict String (List ℕ)
  pub max_in_flight : ℕ
  pub conflict_retry_after_seconds : ℕ
  pub overload_retry_after_seconds : ℕ

-- Each option may be left out. A `SingleFlight` that is given may have keys of other callers in flight.
unfoldable pub new : Option SingleFlight → Option ℕ → Option ℕ → Option ℕ → AuthConcurrencyGuard
new singleflight max_in_flight conflict overload = record {
  sf = elim singleflight [ none ↦ [] | some sf ↦ sf ];
  scope_snapshots = [];
  max_in_flight = elim max_in_flight [ none ↦ 1000 | some n ↦ n ];
  conflict_retry_after_seconds = elim conflict [ none ↦ 1 | some n ↦ n ];
  overload_retry_after_seconds = elim overload [ none ↦ 5 | some n ↦ n ];
}

-- What the first part comes to: an answer at once, the lookup of the key, or a wait for another's.
pub data Begun : Type 0 where
  answered : AuthValidateResult → Begun
  entered : Entry → Begun

unfoldable pub begin_validate : String → ℕ → AuthConcurrencyGuard → Begun × AuthConcurrencyGuard
begin_validate raw_key caller g =
    let (entry, sf) = enter raw_key caller g.sf in
    if ltb 0 g.max_in_flight && leb g.max_in_flight (size g.sf)
    then (answered (overloaded g.overload_retry_after_seconds), g)
    else (entered entry, record g { sf = sf })

unfoldable pub evict : String → AuthConcurrencyGuard → AuthConcurrencyGuard
evict key_id g = record g { scope_snapshots = erase key_id g.scope_snapshots }

unfoldable pub decide_for_burst :
    Option StoredApiKey → AuthConcurrencyGuard → AuthValidateResult × AuthConcurrencyGuard
decide_for_burst none g = (unauthorized, g)
decide_for_burst (some key) g =
    let current = scope_fingerprint key.scopes in
    let kept = record g { scope_snapshots = insert key.id current g.scope_snapshots } in
    elim (lookup key.id g.scope_snapshots) [
      | none ↦ (authorized key, kept)
      | some previous ↦
          if previous == current
          then (authorized key, kept)
          else (scope_conflict g.conflict_retry_after_seconds, evict key.id g)
    ]

-- What the lookup comes to: an error, or the key, if there is one.
pub data Lookup : Type 0 where
  threw : Lookup
  found : Option StoredApiKey → Lookup

unfoldable pub verdict : Lookup → AuthConcurrencyGuard → AuthValidateResult × AuthConcurrencyGuard
verdict threw g = (lookup_failed, g)
verdict (found key) g = decide_for_burst key g

unfoldable pub finish_validate :
    String
    → ℕ
    → Lookup
    → AuthConcurrencyGuard
    → List (ℕ × AuthValidateResult) × AuthConcurrencyGuard
finish_validate raw_key leader result g =
    let (answer, decided) = verdict result g in
    let (answers, sf) = settle raw_key leader answer g.sf in (answers, record decided { sf = sf })
