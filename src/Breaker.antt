-- ===== src/Breaker.antt =====
-- src/clients/circuitBreaker.ts: the circuit breaker before the Soroban RPC host.
-- `execute` waits for the operation, so it is two parts: `admit`, all that runs before the operation
-- starts, and `on_success` or `on_failure`, all that runs once it has settled. Other calls may run in
-- between. `Date.now()` is the argument `now`, in milliseconds; `now - openedAt >= d` is written
-- `openedAt + d <= now`. The Prometheus gauge is not modelled.
pub mod Invariant
pub mod Episodes
mod Tests
use credence_backend.Base.{
  ℕ, ◌+◌, String, ◌≡◌, ◌↔◌, Bool, true, false, Option, none, some, List, [], ◌∷◌, arith,
  if◌then◌else◌, leb, max, Eq, ◌==◌, nat_beq, string_eq,
}
use credence_backend.Base.Dict.{Dict, lookup, insert}

pub data BreakerState : Type 0 where
  closed open_state half_open : BreakerState

abbrev pub rank : BreakerState → ℕ
rank closed = 0
rank open_state = 1
rank half_open = 2

pub rank_iff : (a b : BreakerState) → (nat_beq (rank a) (rank b) ≡ true) ↔ (a ≡ b)
rank_iff a b = ground arith

instance abbrev pub state_eq : Eq BreakerState
state_eq = record { test = λ a b. nat_beq (rank a) (rank b); test_iff = rank_iff }

-- `CircuitBreakerConfig`
pub record Config : Type 0 where
  pub failure_threshold : ℕ
  pub open_window_ms : Option ℕ
  pub half_open_after_ms : Option ℕ
  pub cooldown_period_ms : Option ℕ

pub record Breaker : Type 0 where
  pub host : String
  pub state : BreakerState
  pub failure_count : ℕ
  pub opened_at : ℕ
  pub active_probes : ℕ
  pub failure_threshold : ℕ
  pub open_window_ms : ℕ
  pub half_open_after_ms : ℕ

-- `CIRCUIT_BREAKER_DEFAULTS` of src/config/sorobanConstants.ts
abbrev pub default_open_window_ms : ℕ
default_open_window_ms = 10000

abbrev pub default_half_open_after_ms : ℕ
default_half_open_after_ms = 30000

-- `a ?? b`
abbrev pub or_else : Option ℕ → ℕ → ℕ
or_else none d = d
or_else (some n) d = n

-- The constructor.
unfoldable pub new : String → Config → Breaker
new host config =
    let resolved_half_open =
      or_else config.half_open_after_ms
        (or_else config.cooldown_period_ms default_half_open_after_ms) in
    let window = or_else config.open_window_ms default_open_window_ms in
    record {
      host = host;
      state = closed;
      failure_count = 0;
      opened_at = 0;
      active_probes = 0;
      failure_threshold = config.failure_threshold;
      open_window_ms = window;
      half_open_after_ms = max resolved_half_open window;
    }

-- `transitionTo`
unfoldable pub transition_to : BreakerState → ℕ → Breaker → Breaker
transition_to open_state now b = record b { state = open_state; opened_at = now; active_probes = 0 }
transition_to closed now b = record b { state = closed; failure_count = 0; active_probes = 0 }
transition_to half_open now b = record b { state = half_open; active_probes = 0 }

-- `checkTimers`
unfoldable pub check_timers : ℕ → Breaker → Breaker
unfolding transition_to
check_timers now b =
    if b.state == open_state
    then (if leb (b.opened_at + b.half_open_after_ms) now then transition_to half_open now b else b)
    else b

-- `getState`
unfoldable pub get_state : ℕ → Breaker → BreakerState × Breaker
unfolding check_timers
get_state now b = ((check_timers now b).state, check_timers now b)

-- `isOpenWindowExpired`
unfoldable pub is_open_window_expired : ℕ → Breaker → Bool
is_open_window_expired now b =
    if b.state == open_state then leb (b.opened_at + b.open_window_ms) now else false

-- How `execute` begins: the operation is started, or the call is refused with one of two errors.
pub data Admission : Type 0 where
  started refused_open refused_probe : Admission

admit_checked : Breaker → Admission × Breaker
admit_checked b =
    if b.state == open_state
    then (refused_open, b)
    else (if b.state == half_open
        then (if leb 1 b.active_probes
            then (refused_probe, b)
            else (started, record b { active_probes = b.active_probes + 1 }))
        else (started, b))

-- `execute` up to `await fn()`.
unfoldable pub admit : ℕ → Breaker → Admission × Breaker
unfolding check_timers admit_checked
admit now b = admit_checked (check_timers now b)

-- `execute` after `fn` has resolved.
unfoldable pub on_success : ℕ → Breaker → Breaker
unfolding transition_to
on_success now b =
    if b.state == half_open
    then transition_to closed now b
    else (if b.state == closed then record b { failure_count = 0 } else b)

-- `recordFailure`, which is `execute` after `fn` has rejected.
unfoldable pub on_failure : ℕ → Breaker → Breaker
unfolding transition_to
on_failure now b =
    if b.state == closed
    then (let counted : Breaker = record b { failure_count = b.failure_count + 1 } in
        if leb b.failure_threshold counted.failure_count
        then transition_to open_state now counted
        else counted)
    else (if b.state == half_open then transition_to open_state now b else b)

-- The module's `breakers` map.
abbrev pub Registry : Type 0
Registry = Dict String Breaker

unfoldable pub get_circuit_breaker : String → Config → Registry → Breaker × Registry
unfolding new
get_circuit_breaker host config r = elim (lookup host r) [
  | some b ↦ (b, r)
  | none ↦ (new host config, insert host (new host config) r)
]

unfoldable pub reset_circuit_breakers : Registry → Registry
reset_circuit_breakers r = []
