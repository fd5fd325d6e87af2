-- ===== src/Breaker/Invariant.antt =====
-- What holds of a breaker between two parts of calls, in whatever order they run.
use credence_backend.Breaker.{
  closed, half_open, Config, Breaker, new, admit, on_success, on_failure,
}
use credence_backend.Base.{ℕ, ◌≤◌, ◌<◌, String, ◌≡◌, List, [], ◌∷◌, arith}

pub record IsValid (b : Breaker) : Type 0 where
  pub threshold_positive : 0 < b.failure_threshold
  pub window_first : b.open_window_ms ≤ b.half_open_after_ms
  pub one_probe : b.active_probes ≤ 1
  pub probes_half_open : 0 < b.active_probes → b.state ≡ half_open
  pub below_threshold : b.state ≡ closed → b.failure_count < b.failure_threshold
  pub count_capped : b.failure_count ≤ b.failure_threshold

-- One part of a call, at a time.
pub data Event : Type 0 where
  attempt : ℕ → Event
  success : ℕ → Event
  failure : ℕ → Event

abbrev pub step : Event → Breaker → Breaker
step (attempt now) b = (admit now b).1
step (success now) b = on_success now b
step (failure now) b = on_failure now b

abbrev pub run : List Event → Breaker → Breaker
run [] b = b
run (e ∷ es) b = run es (step e b)

new-IsValid : (host : String) (c : Config) → 0 < c.failure_threshold → IsValid (new host c)
unfolding new
new-IsValid host c h = ground arith

step-IsValid : (e : Event) (b : Breaker) → IsValid b → IsValid (step e b)
unfolding admit on_success on_failure
step-IsValid (attempt now) b v = ground arith
step-IsValid (success now) b v = ground arith
step-IsValid (failure now) b v = ground arith

run-IsValid : (es : List Event) (b : Breaker) → IsValid b → IsValid (run es b)
run-IsValid [] b v = v
run-IsValid (e ∷ es) b v = run-IsValid es (step e b) (step-IsValid e b v)

-- A breaker with a positive threshold stays valid whatever parts of calls run in whatever order:
-- at most one probe is counted, and only while it is half open; a closed breaker is below its
-- threshold; the probe time is not before the end of the open window.
pub new-run-IsValid :
    (host : String) (c : Config) (es : List Event)
    → 0 < c.failure_threshold
    → IsValid (run es (new host c))
new-run-IsValid host c es h = run-IsValid es (new host c) (new-IsValid host c h)
