-- ===== src/RingBuffer/Refinement.antt =====
-- The ring buffer implements a queue of at most `capacity` items.
use credence_backend.RingBuffer.{RingBuffer, cell, cells, new, push, pop, peek, clear, to_array}
use credence_backend.RingBuffer.Invariant.{
  IsRing, mod_once, new-IsRing, push-IsRing, pop-IsRing, clear-IsRing,
}
use native.Mathlib.Nat.{mod-lt, mod-eq_of_lt, mod-add-mod, add-zero}
use native.Mathlib.Numerals.{add-one}
use mathlib.Core.Path.{ap₂}
use mathlib.Core.List.{map-append}
use credence_backend.Base.{
  ℕ, zero, suc, ◌+◌, ◌-◌, ◌%◌, ◌≤◌, ◌<◌, ◌≡◌, ◌≢◌, ◌↔◌, refl, sym, ap, ◌∙◌, true, false, Option,
  none, some, List, [], ◌∷◌, ◌++◌, map, arith, length, set, get_elem?-set_self, get_elem?-set_ne,
  nat_eq,
}

shift : (j k : ℕ) → suc j + k ≡ j + suc k
shift j k = omega arith

suc_mod : (j k c : ℕ) → j % c ≡ k % c → suc j % c ≡ suc k % c
suc_mod j k c h = rw (← add-one j, ← add-one k, ← mod-add-mod j c 1, ← mod-add-mod k c 1, h) refl

-- Two indices less than a turn apart have different remainders.
mod_apart : (a b c : ℕ) → a < b → b < a + c → b < c + c → a % c ≢ b % c
mod_apart a b c lt near far = ground (arith, mod_once a c, mod_once b c)

module _ {T : Type 0} where
  cell-set_self :
      (b : List (Option T)) (i : ℕ) (v : Option T) → i < length b → cell (set b i v) i ≡ v
  cell-set_self b i v h = ground (arith, get_elem?-set_self b i v h)

  cell-set_ne :
      (b : List (Option T)) (i j : ℕ) (v : Option T) → i ≢ j → cell (set b i v) j ≡ cell b j
  cell-set_ne b i j v h = ground (arith, get_elem?-set_ne b i j v h)

  -- The cells from `j` on do not see a write at an index that none of them has.
  cells-set :
      (b : List (Option T)) (c i j n : ℕ) (v : Option T)
      → ((k : ℕ) → k < n → i ≢ (j + k) % c)
      → cells (set b i v) c j n ≡ cells b c j n
  unfolding cells
  cells-set b c i j zero v h = refl
  cells-set b c i j (suc n) v h =
      let here : cell (set b i v) (j % c) ≡ cell b (j % c) =
        cell-set_ne b i (j % c) v (rw (add-zero j) at (h 0 (omega arith))) in
      ap₂ (λ x xs. x ∷ xs) here
        (cells-set b c i (suc j) n v (λ k lt. rw (shift j k) (h (suc k) (omega arith))))

  cells_snoc :
      (b : List (Option T)) (c j n : ℕ)
      → cells b c j (suc n) ≡ cells b c j n ++ cell b ((j + n) % c) ∷ []
  unfolding cells
  cells_snoc b c j zero = rw (add-zero j)
  cells_snoc b c j (suc n) =
      ap (λ xs. cell b (j % c) ∷ xs) (rw (← shift j n) (cells_snoc b c (suc j) n))

  -- Only the remainder of the first index matters.
  cells_mod : (b : List (Option T)) (c j k n : ℕ) → j % c ≡ k % c → cells b c j n ≡ cells b c k n
  unfolding cells
  cells_mod b c j k zero h = refl
  cells_mod b c j k (suc n) h =
      let e : suc j % c ≡ suc k % c = suc_mod j k c h in
      ap₂ (λ x xs. x ∷ xs) (ap (cell b) h) (cells_mod b c (suc j) (suc k) n e)

  -- The buffer is well formed and its cells in order are the items of `q`, oldest first.
  abbrev pub Represents : RingBuffer T → List T → Type 0
  Represents r q = IsRing r × (to_array r ≡ map some q)

  length-cells : (b : List (Option T)) (c j n : ℕ) → length (cells b c j n) ≡ n
  unfolding cells
  length-cells b c j zero = refl
  length-cells b c j (suc n) = ap suc (length-cells b c (suc j) n)

  length-map : (q : List T) → length (map some q) ≡ length q
  length-map [] = refl
  length-map (x ∷ q) = ap suc (length-map q)

  Represents-size : (r : RingBuffer T) (q : List T) → Represents r q → r.size ≡ length q
  unfolding to_array
  Represents-size r q (v, e) =
      sym (length-cells r.buffer r.capacity r.head r.size) ∙ ap length e ∙ length-map q

  cells_pushed :
      (b : List (Option T)) (c h n : ℕ) (x : T)
      → length b ≡ c
      → h < c
      → n < c
      → cells (set b ((h + n) % c) (some x)) c h (suc n) ≡ cells b c h n ++ some x ∷ []
  cells_pushed b c h n x e lt room =
      let t = (h + n) % c in
      cells_snoc (set b t (some x)) c h n
      ∙ ap₂ (λ xs y. xs ++ y ∷ [])
          (cells-set b c t h n (some x) (λ k less same.
            mod_apart (h + k) (h + n) c (omega arith) (omega arith) (omega arith) (sym same)))
          (cell-set_self b t (some x) (rw e (mod-lt (h + n) (omega arith))))

  cells_popped :
      (b : List (Option T)) (c h m : ℕ)
      → h < c
      → m < c
      → cells b c h (suc m) ≡ cell b h ∷ cells (set b h none) c ((h + 1) % c) m
  unfolding cells
  cells_popped b c h m lt room =
      let stay : h % c ≡ h = mod-eq_of_lt lt in
      let unseen : cells (set b h none) c (suc h) m ≡ cells b c (suc h) m =
        cells-set b c h (suc h) m none (λ k less same.
          mod_apart h (suc h + k) c (omega arith) (omega arith) (omega arith) (stay ∙ same)) in
      let turned : (h + 1) % c % c ≡ suc h % c =
        mod-eq_of_lt (mod-lt (h + 1) (omega arith)) ∙ ap (λ k. k % c) (add-one h) in
      ap₂ (λ x xs. x ∷ xs) (ap (cell b) stay)
        (sym unseen ∙ sym (cells_mod (set b h none) c ((h + 1) % c) (suc h) m turned))

  to_array-push :
      (x : T) (r : RingBuffer T)
      → IsRing r
      → r.size < r.capacity
      → to_array (push x r).1 ≡ to_array r ++ some x ∷ []
  unfolding to_array push
  to_array-push x r v room =
      let same : cells (set r.buffer r.tail (some x)) r.capacity r.head (r.size + 1)
          ≡ cells r.buffer r.capacity r.head r.size ++ some x ∷ [] =
        rw (add-one r.size, v.tail_after)
          (cells_pushed r.buffer r.capacity r.head r.size x v.room v.head_below room) in
      ground arith

  to_array-pop :
      (r : RingBuffer T)
      → IsRing r
      → 0 < r.size
      → to_array r ≡ cell r.buffer r.head ∷ to_array (pop r).1
  unfolding to_array pop
  to_array-pop r v some_left =
      let one_more : r.size ≡ suc (r.size - 1) = omega arith in
      let same : cells r.buffer r.capacity r.head r.size
          ≡ cell r.buffer r.head
            ∷ cells (set r.buffer r.head none) r.capacity ((r.head + 1) % r.capacity) (r.size - 1) =
        ap (cells r.buffer r.capacity r.head) one_more
        ∙ cells_popped r.buffer r.capacity r.head (r.size - 1) v.head_below (omega arith) in
      ground arith

  -- A push into a buffer with room puts the item last; into a full one it changes nothing.
  pub push-Represents :
      (x : T) (r : RingBuffer T) (q : List T)
      → Represents r q
      → (length q < r.capacity → ((push x r).0 ≡ true) × Represents (push x r).1 (q ++ x ∷ []))
        × (r.capacity ≤ length q → push x r ≡ (false, r))
  unfolding push
  push-Represents x r q (v, e) = (
    λ room.
        let fits : r.size < r.capacity = omega (arith, Represents-size r q (v, e)) in
        (
          ground arith,
          (push-IsRing x r v, to_array-push x r v fits ∙ rw (e, map-append some q (x ∷ [])) refl),
        ),
    λ full. ground (arith, Represents-size r q (v, e)),
  )

  -- A pop of an empty buffer gives nothing and changes nothing; any other pop takes the oldest item
  -- and leaves the rest in order. `peek` gives what a pop would.
  pop-Represents :
      (r : RingBuffer T) (q : List T)
      → Represents r q
      → (peek r ≡ (pop r).0)
        × (q ≡ [] → pop r ≡ (none, r))
        × ((x : T) (rest : List T)
            → q ≡ x ∷ rest
            → ((pop r).0 ≡ some x) × Represents (pop r).1 rest)
  unfolding pop peek
  pop-Represents r q (v, e) = (
    ground arith,
    λ nothing. ground (arith, Represents-size r q (v, e)),
    λ x rest more.
        let left : 0 < r.size = ground (arith, Represents-size r q (v, e)) in
        let parts : cell r.buffer r.head ∷ to_array (pop r).1 ≡ some x ∷ map some rest =
          sym (to_array-pop r v left) ∙ e ∙ ap (map some) more in
        (ground arith, (pop-IsRing r v, ground arith)),
  )

  -- `new` makes an empty queue for every positive capacity and only for those; `clear` empties it.
  new-Represents :
      (capacity : ℕ)
      → ((new {T = T} capacity ≡ none) ↔ (capacity ≡ 0))
        × ((r : RingBuffer T) → new capacity ≡ some r → (r.capacity ≡ capacity) × Represents r [])
        × ((r : RingBuffer T) → IsRing r → Represents (clear r) [])
  unfolding new clear to_array cells
  new-Represents capacity = (
    ground arith,
    (λ r h. (ground arith, (new-IsRing capacity h, ground arith))),
    (λ r v. (clear-IsRing r v, refl)),
  )
