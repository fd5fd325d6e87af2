-- ===== src/Breaker/Tests.antt =====
-- The breaker's theorems at concrete breakers.
use credence_backend.Breaker.{Config, Breaker, closed, half_open, new, on_failure}
use credence_backend.Breaker.Invariant.{IsValid, attempt, failure, success, run, new-run-IsValid}
use credence_backend.Breaker.Episodes.{failures, OpensAt, failures-OpensAt}
use credence_backend.Base.{String, ◌≡◌, refl, none, some, [], ◌∷◌, arith, string_eq}

abbrev config : Config
config = record {
  failure_threshold = 3;
  open_window_ms = some 100;
  half_open_after_ms = none;
  cooldown_period_ms = some 50;
}

abbrev fresh : Breaker
fresh = record {
  host = "rpc";
  state = closed;
  failure_count = 0;
  opened_at = 0;
  active_probes = 0;
  failure_threshold = 3;
  open_window_ms = 100;
  half_open_after_ms = 100;
}

abbrev other : String
other = "other"

new-fresh : new "rpc" config ≡ fresh
unfolding new
new-fresh = refl

abbrev probing : Breaker
probing = record fresh { state = half_open; failure_count = 3; opened_at = 7 }

new-run-IsValid_example :
    IsValid
      (run (failure 1 ∷ failure 2 ∷ failure 3 ∷ attempt 500 ∷ success 501 ∷ []) (new "rpc" config))
new-run-IsValid_example =
    new-run-IsValid "rpc" config
      (failure 1 ∷ failure 2 ∷ failure 3 ∷ attempt 500 ∷ success 501 ∷ []) (omega arith)

failures-OpensAt_example :
    ((failures (1 ∷ 2 ∷ []) fresh).state ≡ closed)
    × ((failures (1 ∷ 2 ∷ []) fresh).failure_count ≡ 2)
    × OpensAt 7 107 (on_failure 7 (failures (1 ∷ 2 ∷ []) fresh))
failures-OpensAt_example = failures-OpensAt (1 ∷ 2 ∷ []) fresh 7 107 refl refl refl
