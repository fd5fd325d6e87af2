-- ===== src/RingBuffer/Invariant.antt =====
-- What holds of a ring buffer between two calls.
use credence_backend.RingBuffer.{RingBuffer, new, push, pop, clear}
use native.Mathlib.Nat.{mod-eq_of_lt, mod-eq-sub-mod}
use credence_backend.Base.{
  ℕ, ◌+◌, ◌-◌, ◌%◌, ◌≤◌, ◌<◌, ◌≡◌, ◌∙◌, Option, none, some, arith, length, length-set,
  length-replicate,
}

-- Below twice the modulus a remainder takes off the modulus at most once.
pub mod_once : (k c : ℕ) → k < c + c → (k < c → k % c ≡ k) × (c ≤ k → k % c ≡ k - c)
mod_once k c h = (λ lt. mod-eq_of_lt lt, λ le. mod-eq-sub-mod le ∙ mod-eq_of_lt (omega arith))

module _ {T : Type 0} where
  pub record IsRing (r : RingBuffer T) : Type 0 where
    pub positive : 0 < r.capacity
    pub room : length r.buffer ≡ r.capacity
    pub head_below : r.head < r.capacity
    pub size_capped : r.size ≤ r.capacity
    pub tail_after : r.tail ≡ (r.head + r.size) % r.capacity

  pub new-IsRing : (capacity : ℕ) {r : RingBuffer T} → new capacity ≡ some r → IsRing r
  unfolding new
  new-IsRing capacity {r} h = ground (arith, length-replicate {A = Option T} capacity none)

  pub push-IsRing : (x : T) (r : RingBuffer T) → IsRing r → IsRing (push x r).1
  unfolding push
  push-IsRing x r v = ground (
    arith,
    length-set r.buffer r.tail (some x),
    mod_once (r.head + r.size) r.capacity,
    mod_once (r.head + (r.size + 1)) r.capacity,
    mod_once (r.tail + 1) r.capacity,
  )

  pub pop-IsRing : (r : RingBuffer T) → IsRing r → IsRing (pop r).1
  unfolding pop
  pop-IsRing r v = ground (
    arith,
    length-set r.buffer r.head none,
    mod_once (r.head + r.size) r.capacity,
    mod_once (r.head + 1) r.capacity,
    mod_once ((r.head + 1) % r.capacity + (r.size - 1)) r.capacity,
  )

  pub clear-IsRing : (r : RingBuffer T) → IsRing r → IsRing (clear r)
  unfolding clear
  clear-IsRing r v =
      ground (arith, length-replicate {A = Option T} (length r.buffer) none, mod_once 0 r.capacity)
