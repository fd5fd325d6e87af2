-- ===== src/Outbox/Selections.antt =====
-- Which events a claim takes.
use credence_backend.Lifecycle.Outbox.{status_eq}
use credence_backend.Outbox.Table.{
  OutboxEventRow, normalize_limit, normalize_shard, normalize_lease_seconds,
}
use credence_backend.Outbox.Changes.{with_claim}
use credence_backend.Outbox.Claims.{not_positive, oldest, is_selected, is_candidate, claim_events}
use credence_backend.Outbox.Consistency.{selected-passes, contains-has_row}
use credence_backend.Outbox.Runs.{Valid}
use credence_backend.Outbox.Lifecycles.{key}
use credence_backend.Base.{
  ℕ, suc, ◌+◌, ◌≤◌, String, ◌≡◌, refl, sym, subst, ap, ◌∙◌, inl, inr, Bool, true, false, Option,
  none, some, List, [], ◌∷◌, arith, ◌||◌, nat_eq, nat_beq, Bool-cases, Option-cases, find_row,
  has_row, rows_distinct, update_rows, filter, length, take, map, sort_by, find_row-update_rows,
  find_row-key, find_row-filter, has_row-find_row, find_row-has_row, rows_distinct-filter,
  rows_distinct-update_rows, sort_by-Sorted, take-le-drop, find_row-take-none, find_row-take-some,
  find_row-sort_by, filter-or-le, one-row-le, take-all, length-take-le, length-sort_by, ==_comm,
  if◌then◌else◌,
}

selected-split :
    (i : ℕ) (is : List ℕ) (t : List OutboxEventRow)
    → filter (is_selected (i ∷ is)) t ≡ filter (λ r. nat_beq r.id i || is_selected is r) t
selected-split i is [] = refl
selected-split i is (r ∷ rs) = ground (arith, selected-split i is rs, ==_comm i r.id)

-- No more rows have the keys of a list than the list is long.
selected-le :
    (ids : List ℕ) (t : List OutboxEventRow)
    → rows_distinct key t ≡ true
    → length (filter (is_selected ids) t) ≤ length ids
selected-le [] t d = ground (arith, filter-none t)
  where
    filter-none : (rs : List OutboxEventRow) → length (filter (is_selected []) rs) ≡ 0
    filter-none [] = refl
    filter-none (r ∷ rs) = filter-none rs
selected-le (i ∷ is) t d = ground (
  arith,
  selected-split i is t,
  filter-or-le (λ r. nat_beq r.id i) (is_selected is) t,
  one-row-le key i t d,
  selected-le is t d,
)

length-map : (rows : List OutboxEventRow) → length (map (λ r. r.id) rows) ≡ length rows
length-map [] = refl
length-map (r ∷ rs) = ap suc (length-map rs)

module _ {n : ℕ} {t : List OutboxEventRow} (v : Valid n t) (p : OutboxEventRow → Bool)
    (limit : ℕ) where
  abbrev rows : List OutboxEventRow
  rows = sort_by (λ r. r.created_at) (filter p t)

  selected-taken :
      (id : ℕ) {r : OutboxEventRow}
      → find_row key id t ≡ some r
      → is_selected (oldest limit p t) r ≡ has_row key id (take limit rows)
  selected-taken id {r} row =
      contains-has_row r.id (take limit rows)
      ∙ ap (λ i. has_row key i (take limit rows)) (find_row-key key id t row)

  row-sorted :
      (id : ℕ) {r : OutboxEventRow}
      → find_row key id t ≡ some r
      → p r ≡ true
      → find_row key id rows ≡ some r
  row-sorted id {r} row h = ground (
    arith,
    find_row-sort_by (λ x. x.created_at) key id (filter p t)
        (rows_distinct-filter key p t v.distinct),
    find_row-filter key p id t v.distinct,
  )

  -- A row that is left is not older than one that is taken.
  pub oldest-first :
      (i j : ℕ) {b a : OutboxEventRow}
      → find_row key i t ≡ some b
      → find_row key j t ≡ some a
      → p a ≡ true
      → is_selected (oldest limit p t) b ≡ true
      → is_selected (oldest limit p t) a ≡ false
      → b.created_at ≤ a.created_at
  oldest-first i j {b} {a} rb ra ha sb sa =
      let taken : has_row key i (take limit rows) ≡ true = sym (selected-taken i rb) ∙ sb in
      let left : has_row key j (take limit rows) ≡ false = sym (selected-taken j ra) ∙ sa in
      let behind =
        find_row-take-none (λ x. x.created_at) key limit j rows
          (has_row-find_row key j (take limit rows) left)
        ∙ row-sorted j ra ha in
      elim (Option-cases (find_row key i (take limit rows))) [
        | inl absent ↦ absurd (ground (arith, find_row-has_row key i (take limit rows) absent))
        | inr (c, there) ↦
            let in_rows = find_row-take-some (λ x. x.created_at) key limit i rows there in
            let same : b ≡ c = ground (
              arith,
              find_row-sort_by (λ x. x.created_at) key i (filter p t)
                  (rows_distinct-filter key p t v.distinct),
              find_row-filter key p i t v.distinct,
            ) in
            subst (λ x. x.created_at ≤ a.created_at) (sym same)
              (take-le-drop (λ x. x.created_at) key limit i j rows
                (sort_by-Sorted (λ x. x.created_at) (filter p t)) there behind)
      ]

  pub all-selected :
      (id : ℕ) {r : OutboxEventRow}
      → length (filter p t) ≤ limit
      → find_row key id t ≡ some r
      → p r ≡ true
      → is_selected (oldest limit p t) r ≡ true
  all-selected id {r} le row h =
      let whole =
        take-all limit rows (omega (arith, length-sort_by (λ x. x.created_at) (filter p t))) in
      elim (Bool-cases (has_row key id rows)) [
        | inl here ↦ selected-taken id row ∙ ap (has_row key id) whole ∙ here
        | inr absent ↦
            absurd (ground (arith, has_row-find_row key id rows absent, row-sorted id row h))
      ]

module _ {n : ℕ} {t : List OutboxEventRow} (v : Valid n t) (hash : ℕ → ℕ) (consumer : String)
    (limit lease shard_count shard_id : Option ℕ) (now : ℕ) where
  abbrev test : OutboxEventRow → Bool
  test = is_candidate hash (normalize_shard shard_count shard_id) now

  abbrev taken : OutboxEventRow → Bool
  taken = is_selected (oldest (normalize_limit limit) test t)

  abbrev claim : OutboxEventRow → OutboxEventRow
  claim =
      with_claim consumer (now + normalize_lease_seconds lease)
        (normalize_shard shard_count shard_id)

  -- Of a valid outbox, a claim with a limit that is positive or not finite returns at most as many events
  -- as its normalised limit. It takes only events that can be claimed and are of the caller's shard: all
  -- of them where they are no more than the limit, else none that is younger than one it leaves. The
  -- rows it takes get the caller and its lease, the other rows stay as they are, and the rows it returns
  -- are the taken ones.
  pub claim_events-oldest :
      not_positive limit ≡ false
      → (length (claim_events hash consumer limit lease shard_count shard_id now t).0
          ≤ normalize_limit limit)
        × ((id : ℕ) (r : OutboxEventRow)
            → find_row key id t ≡ some r
            → (find_row key id (claim_events hash consumer limit lease shard_count shard_id now t).1
                ≡ some (if taken r then claim r else r))
              × (find_row key id
                    (claim_events hash consumer limit lease shard_count shard_id now t).0
                  ≡ (if taken r then some (claim r) else none))
              × (taken r ≡ true → test r ≡ true)
              × (length (filter test t) ≤ normalize_limit limit → test r ≡ true → taken r ≡ true)
              × ((j : ℕ) (a : OutboxEventRow)
                  → find_row key j t ≡ some a
                  → test a ≡ true
                  → taken r ≡ true
                  → taken a ≡ false
                  → r.created_at ≤ a.created_at))
  unfolding claim_events
  claim_events-oldest positive =
      let distinct = rows_distinct-update_rows key taken claim (λ x. refl) t ∙ v.distinct in
      (
        rw positive (
            omega (
              arith,
              selected-le (oldest (normalize_limit limit) test t) (update_rows taken claim t)
                  distinct,
              length-map
                  (take (normalize_limit limit) (sort_by (λ r. r.created_at) (filter test t))),
              length-take-le (normalize_limit limit) (sort_by (λ r. r.created_at) (filter test t)),
            )),
        λ id r row.
            let after = find_row-update_rows key taken claim (λ x. refl) id t in
            let seen = find_row-filter key taken id (update_rows taken claim t) distinct in
            (
              ground (arith, positive),
              rw positive (elim (Bool-cases (taken r)) [
                | inl sel ↦ ground arith
                | inr free ↦ ground arith
              ]),
              (λ sel.
                  selected-passes t test (normalize_limit limit) v.distinct
                    (subst (λ i. find_row key i t ≡ some r) (sym (find_row-key key id t row)) row)
                    sel),
              (λ few can. all-selected v test (normalize_limit limit) id few row can),
              λ j a other can sel left.
                  oldest-first v test (normalize_limit limit) id j row other can sel left,
            ),
      )
