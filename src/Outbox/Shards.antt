-- ===== src/Outbox/Shards.antt =====
-- src/db/outbox/repository.ts: which shard of several may claim an event.
use credence_backend.Outbox.Claims.{in_shard}
use native.Mathlib.Nat.{mod-lt}
use credence_backend.Base.{
  ℕ, ◌-◌, ◌^◌, ◌%◌, ◌<◌, ◌≡◌, ◌↔◌, ◌⊎◌, inl, inr, true, some, arith, ltb, nat_eq, ==_iff,
  Bool-cases,
}

-- Of a positive number of shards, no two claim the same event; and some shard claims an event exactly
-- where the 32 bits of its hash are no negative number, or a negative one that the number of shards
-- divides. The events with other hashes are claimed by no shard.
pub in_shard-decides :
    (hash : ℕ → ℕ) (count id : ℕ)
    → 0 < count
    → ((a b : ℕ)
        → in_shard hash (some (count, a)) id ≡ true
        → in_shard hash (some (count, b)) id ≡ true
        → a ≡ b)
      × (((a : ℕ) × (a < count) × (in_shard hash (some (count, a)) id ≡ true))
          ↔ ((hash id < 2 ^ 31) ⊎ ((2 ^ 32 - hash id) % count ≡ 0)))
unfolding in_shard
in_shard-decides hash count id pos = (
  (λ a b ha hb.
      ground
        (arith, ==_iff (hash id % count) a, ==_iff (hash id % count) b, ==_iff a 0, ==_iff b 0)),
  (
    (λ h. elim (Bool-cases (ltb (hash id) (2 ^ 31))) [
      | inl low ↦ inl (ground arith)
      | inr high ↦ inr (ground (arith, h.2, ==_iff ((2 ^ 32 - hash id) % count) 0))
    ]),
    λ h. elim (Bool-cases (ltb (hash id) (2 ^ 31))) [
      | inl low ↦ (hash id % count, mod-lt (hash id) pos, ground arith)
      | inr high ↦ (0, pos, ground arith)
    ],
  ),
)
