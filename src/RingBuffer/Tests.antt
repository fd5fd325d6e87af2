-- ===== src/RingBuffer/Tests.antt =====
-- The ring buffer's theorems at a buffer of two cells.
use credence_backend.RingBuffer.{RingBuffer, push, to_array, cells}
use credence_backend.RingBuffer.Refinement.{Represents, push-Represents}
use credence_backend.Base.{
  ℕ, ◌≤◌, ◌<◌, ◌≡◌, refl, true, false, none, some, List, [], ◌∷◌, arith, length,
}

-- One item, 7, at the second cell; the next push wraps round.
abbrev ring : RingBuffer ℕ
ring = record { buffer = none ∷ some 7 ∷ []; head = 1; tail = 0; size = 1; capacity = 2 }

abbrev items : List ℕ
items = 7 ∷ []

abbrev two : ℕ
two = 2

ring-Represents : Represents ring (7 ∷ [])
unfolding to_array cells
ring-Represents = (omega arith, refl)

wraps_round : to_array (push 8 ring).1 ≡ some 7 ∷ some 8 ∷ []
unfolding to_array push cells
wraps_round = refl

push-Represents_example :
    (length items < ring.capacity
      → ((push 8 ring).0 ≡ true) × Represents (push 8 ring).1 (7 ∷ 8 ∷ []))
    × (ring.capacity ≤ length items → push 8 ring ≡ (false, ring))
push-Represents_example = push-Represents 8 ring items ring-Represents
