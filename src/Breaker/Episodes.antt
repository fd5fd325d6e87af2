-- ===== src/Breaker/Episodes.antt =====
-- When a breaker trips, refuses, probes and closes.
use credence_backend.Breaker.{
  closed, open_state, half_open, Config, Breaker, Registry, started, refused_open, refused_probe,
  new, admit, on_success, on_failure, get_circuit_breaker,
}
use credence_backend.Base.{
  ℕ, ◌+◌, ◌≤◌, ◌<◌, String, ◌≡◌, ◌≢◌, inl, inr, List, [], ◌∷◌, arith, Option-cases, length, ==_iff,
  ==_refl, string_eq,
}
use credence_backend.Base.Dict.{lookup, lookup-insert}

-- Failures at the times of a list, one after the other.
abbrev pub failures : List ℕ → Breaker → Breaker
failures [] b = b
failures (now ∷ ts) b = failures ts (on_failure now b)

-- A closed breaker that has room for all of the failures counts them and stays closed.
failures-closed :
    (ts : List ℕ) (b : Breaker)
    → b.state ≡ closed
    → b.failure_count + length ts < b.failure_threshold
    → ((failures ts b).state ≡ closed)
      × ((failures ts b).failure_count ≡ b.failure_count + length ts)
      × ((failures ts b).failure_threshold ≡ b.failure_threshold)
      × ((failures ts b).half_open_after_ms ≡ b.half_open_after_ms)
unfolding on_failure
failures-closed [] b s h = ground arith
failures-closed (now ∷ ts) b s h =
    ground (arith, failures-closed ts (record b { failure_count = b.failure_count + 1 }))

-- What a call meets at `later`, at a breaker that was opened at `now`: it is refused and changes
-- nothing before the probe time; from then on it is started as a probe, and the next is refused.
abbrev pub OpensAt : ℕ → ℕ → Breaker → Type 0
OpensAt now later b =
    (b.state ≡ open_state)
    × (later < now + b.half_open_after_ms → admit later b ≡ (refused_open, b))
    × (now + b.half_open_after_ms ≤ later
        → ((admit later b).0 ≡ started)
          × ((admit later b).1.state ≡ half_open)
          × ((admit later (admit later b).1).0 ≡ refused_probe))

on_failure-OpensAt :
    (b : Breaker) (now later : ℕ)
    → b.state ≡ closed
    → b.failure_count + 1 ≡ b.failure_threshold
    → OpensAt now later (on_failure now b)
unfolding on_failure admit
on_failure-OpensAt b now later s h = ground arith

-- A closed breaker counts failures in a row and stays closed while they are fewer than its
-- threshold; the one that makes up the threshold opens it, and then calls are refused until the
-- probe time, when one call is started and a second one is refused.
pub failures-OpensAt :
    (ts : List ℕ) (b : Breaker) (now later : ℕ)
    → b.state ≡ closed
    → b.failure_count ≡ 0
    → length ts + 1 ≡ b.failure_threshold
    → ((failures ts b).state ≡ closed)
      × ((failures ts b).failure_count ≡ length ts)
      × OpensAt now later (on_failure now (failures ts b))
failures-OpensAt ts b now later s z h =
    let (closed_still, count, threshold, _) = failures-closed ts b s (omega arith) in
    (
      closed_still,
      omega arith,
      on_failure-OpensAt (failures ts b) now later closed_still (omega arith),
    )

-- While it is half open, the outcome of any call that settles decides: a success closes the breaker
-- and resets its count, a failure opens it for the whole probe time again.
half_open-settles :
    (b : Breaker) (now later : ℕ)
    → b.state ≡ half_open
    → ((on_success now b).state ≡ closed)
      × ((on_success now b).failure_count ≡ 0)
      × ((admit later (on_success now b)).0 ≡ started)
      × OpensAt now later (on_failure now b)
unfolding on_success on_failure admit
half_open-settles b now later s = ground arith

-- Two probes can be out at once: with one probe started, the failure of an older call opens the
-- breaker again and forgets the probe, so after the probe time a second probe is started although
-- the first has not settled.
second_probe_started :
    (b : Breaker) (first now later : ℕ)
    → b.state ≡ half_open
    → b.active_probes ≡ 0
    → now + b.half_open_after_ms ≤ later
    → let probing = (admit first b).1 in
      ((admit first b).0 ≡ started)
      × ((admit first probing).0 ≡ refused_probe)
      × ((admit later (on_failure now probing)).0 ≡ started)
unfolding on_failure admit
second_probe_started b first now later s p h = ground arith

-- A host keeps the breaker that it was first given, whatever configuration comes later, and the
-- breakers of other hosts stay as they are.
get_circuit_breaker-stable :
    (host other : String) (c d : Config) (r : Registry)
    → let (b, r') = get_circuit_breaker host c r in
      (get_circuit_breaker host d r' ≡ (b, r')) × (other ≢ host → lookup other r' ≡ lookup other r)
unfolding get_circuit_breaker
get_circuit_breaker-stable host other c d r = elim (Option-cases (lookup host r)) [
  | inl missing ↦ ground (
    arith,
    lookup-insert host host (new host c) r,
    lookup-insert host other (new host c) r,
    ==_iff host other,
    ==_refl host,
  )
  | inr (b, found) ↦ ground arith
]
