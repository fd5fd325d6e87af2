-- ===== src/RingBuffer.antt =====
-- src/jobs/ringBuffer.ts: the class `RingBuffer<T>`. A cell is `none` where the source has
-- `undefined`. The constructor is `none` where it throws; a capacity is a natural number.
pub mod Invariant
pub mod Refinement
mod Tests
use credence_backend.Base.{
  ℕ, zero, suc, ◌+◌, ◌-◌, ◌%◌, Bool, true, false, Option, none, some, List, [], ◌∷◌, if◌then◌else◌,
  leb, ltb, Eq, ◌==◌, nat_eq, length, get_elem?, set, replicate,
}

pub record RingBuffer (T : Type 0) : Type 0 where
  pub buffer : List (Option T)
  pub head : ℕ
  pub tail : ℕ
  pub size : ℕ
  pub capacity : ℕ

module _ {T : Type 0} where
  -- `buffer[i]`, `undefined` out of range.
  abbrev pub cell : List (Option T) → ℕ → Option T
  cell b i = elim (get_elem? b i) [ none ↦ none | some c ↦ c ]

  unfoldable pub new : ℕ → Option (RingBuffer T)
  new capacity =
      if ltb capacity 1
      then none
      else some (record {
        buffer = replicate capacity none;
        head = 0;
        tail = 0;
        size = 0;
        capacity = capacity;
      })

  unfoldable pub push : T → RingBuffer T → Bool × RingBuffer T
  push item r = if r.size == r.capacity then (false, r) else (
    true,
    record r {
      buffer = set r.buffer r.tail (some item);
      tail = (r.tail + 1) % r.capacity;
      size = r.size + 1;
    },
  )

  unfoldable pub pop : RingBuffer T → Option T × RingBuffer T
  pop r = if r.size == 0 then (none, r) else (
    cell r.buffer r.head,
    record r {
      buffer = set r.buffer r.head none;
      head = (r.head + 1) % r.capacity;
      size = r.size - 1;
    },
  )

  unfoldable pub peek : RingBuffer T → Option T
  peek r = if ltb 0 r.size then cell r.buffer r.head else none

  unfoldable pub is_empty : RingBuffer T → Bool
  is_empty r = r.size == 0

  unfoldable pub is_full : RingBuffer T → Bool
  is_full r = r.size == r.capacity

  unfoldable pub clear : RingBuffer T → RingBuffer T
  clear r = record r { buffer = replicate (length r.buffer) none; head = 0; tail = 0; size = 0 }

  -- The loop of `toArray`: `n` rounds are left, and `j` is `head + i`.
  unfoldable pub cells : List (Option T) → ℕ → ℕ → ℕ → List (Option T)
  cells b capacity j zero = []
  cells b capacity j (suc n) = cell b (j % capacity) ∷ cells b capacity (suc j) n

  unfoldable pub to_array : RingBuffer T → List (Option T)
  to_array r = cells r.buffer r.capacity r.head r.size
