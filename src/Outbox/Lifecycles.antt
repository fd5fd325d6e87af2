-- ===== src/Outbox/Lifecycles.antt =====
-- What a run of the outbox does to the tables' validity and to the row of one event.
use credence_backend.Lifecycle.Outbox.{status_eq}
use credence_backend.Outbox.Table.{OutboxEventRow, State, CreateOutboxEvent}
use credence_backend.Outbox.Events.{new_row}
use credence_backend.Outbox.Consistency.{is_consistent, Follows}
use credence_backend.Outbox.Runs.{
  Steps, done, more, Effect, keeps, changes, removes, adds, Valid, IsValid, Step-Effect,
}
use credence_backend.Base.{
  ℕ, ◌≤◌, ◌<◌, ◌≡◌, refl, sym, subst, ◌∙◌, inl, inr, true, some, List, arith, nat_eq, Bool-cases,
  Option-cases, find_row, find_row-update_rows, find_row-key, find_row-append, find_row-filter,
  find_row-has_row, rows_distinct-update_rows, rows_distinct-filter, rows_distinct-append,
}

abbrev pub key : OutboxEventRow → ℕ
key r = r.id

new_row-consistent : (n now : ℕ) (e : CreateOutboxEvent) → is_consistent (new_row n now e) ≡ true
unfolding is_consistent
new_row-consistent n now e = refl

module _ {n : ℕ} {t : List OutboxEventRow} (v : Valid n t) where
  -- The row of an event before an operation, from the one after it.
  pub Effect-back :
      {m : ℕ} {t' : List OutboxEventRow}
      → Effect n t m t'
      → (id : ℕ) {r' : OutboxEventRow} → id < n
      → find_row key id t' ≡ some r'
      → (r : OutboxEventRow) × (find_row key id t ≡ some r) × Follows r r'
  Effect-back keeps id {r'} lt h = (r', h, (ground arith, refl, omega arith))
  Effect-back (changes p f sound) id {r'} lt h = elim (Option-cases (find_row key id t)) [
    | inl absent ↦ absurd (ground (arith, find_row-update_rows key p f sound.0 id t))
    | inr (r, row) ↦
        let same = find_row-key key id t row in
        let after = find_row-update_rows key p f sound.0 id t in
        elim (Bool-cases (p r)) [
          | inl hit ↦
              let eq : f r ≡ r' = ground arith in
              (
                r,
                row,
                subst (Follows r) eq
                    (sound.1 r (subst (λ i. find_row key i t ≡ some r) (sym same) row) hit
                      (v.consistent id r row)).1,
              )
          | inr miss ↦
              let eq : r ≡ r' = ground arith in
              (r, row, subst (Follows r) eq (ground arith, refl, omega arith))
        ]
  ]
  Effect-back (removes p) id {r'} lt h =
      let after = find_row-filter key p id t v.distinct in
      elim (Option-cases (find_row key id t)) [
        | inl absent ↦ absurd (ground arith)
        | inr (r, row) ↦
            let eq : r ≡ r' = ground arith in
            (r, row, subst (Follows r) eq (ground arith, refl, omega arith))
      ]
  Effect-back (adds now e) id {r'} lt h =
      let after = find_row-append key id t (new_row n now e) in
      elim (Option-cases (find_row key id t)) [
        | inl absent ↦ absurd (ground arith)
        | inr (r, row) ↦
            let eq : r ≡ r' = ground arith in
            (r, row, subst (Follows r) eq (ground arith, refl, omega arith))
      ]

  pub Effect-le : {m : ℕ} {t' : List OutboxEventRow} → Effect n t m t' → n ≤ m
  Effect-le keeps = omega arith
  Effect-le (changes p f sound) = omega arith
  Effect-le (removes p) = omega arith
  Effect-le (adds now e) = omega arith

  pub Effect-Valid : {m : ℕ} {t' : List OutboxEventRow} → Effect n t m t' → Valid m t'
  Effect-Valid keeps = v
  Effect-Valid (changes p f sound) = record {
    distinct = rows_distinct-update_rows key p f sound.0 t ∙ v.distinct;
    below = λ id le. ground (arith, find_row-update_rows key p f sound.0 id t, v.below id le);
    consistent = λ id r' row'. elim (Option-cases (find_row key id t)) [
      | inl absent ↦ absurd (ground (arith, find_row-update_rows key p f sound.0 id t))
      | inr (r, row) ↦
          let same = find_row-key key id t row in
          let after = find_row-update_rows key p f sound.0 id t in
          elim (Bool-cases (p r)) [
            | inl hit ↦
                let eq : f r ≡ r' = ground arith in
                subst (λ x. is_consistent x ≡ true) eq
                  (sound.1 r (subst (λ i. find_row key i t ≡ some r) (sym same) row) hit
                    (v.consistent id r row)).0
            | inr miss ↦
                let eq : r ≡ r' = ground arith in
                subst (λ x. is_consistent x ≡ true) eq (v.consistent id r row)
          ]
    ];
  }
  Effect-Valid (removes p) = record {
    distinct = rows_distinct-filter key p t v.distinct;
    below = λ id le. ground (arith, find_row-filter key p id t v.distinct, v.below id le);
    consistent = λ id r' row'.
        let after = find_row-filter key p id t v.distinct in
        elim (Option-cases (find_row key id t)) [
          | inl absent ↦ absurd (ground arith)
          | inr (r, row) ↦
              let eq : r ≡ r' = ground arith in
              subst (λ x. is_consistent x ≡ true) eq (v.consistent id r row)
        ];
  }
  Effect-Valid (adds now e) = record {
    distinct =
        rows_distinct-append key t (new_row n now e) v.distinct
          (find_row-has_row key n t (v.below n (omega arith)));
    below = λ id le.
        ground (arith, find_row-append key id t (new_row n now e), v.below id (omega arith));
    consistent = λ id r' row'.
        let after = find_row-append key id t (new_row n now e) in
        elim (Option-cases (find_row key id t)) [
          | inl absent ↦
              let eq : new_row n now e ≡ r' = ground arith in
              subst (λ x. is_consistent x ≡ true) eq (new_row-consistent n now e)
          | inr (r, row) ↦
              let eq : r ≡ r' = ground arith in
              subst (λ x. is_consistent x ≡ true) eq (v.consistent id r row)
        ];
  }

module _ (hash : ℕ → ℕ) where
  -- From a valid outbox every run of the repository's operations leads to a valid one: the keys of the
  -- events are distinct and below the next key, and every row is consistent.
  pub Steps-Valid : {s s' : State} → IsValid s → Steps hash s s' → IsValid s'
  Steps-Valid v done = v
  Steps-Valid v (more {t} run step) =
      let w = Steps-Valid v run in Effect-Valid w (Step-Effect hash t w step)

  pub Steps-le : {s s' : State} → IsValid s → Steps hash s s' → s.next_event_id ≤ s'.next_event_id
  Steps-le v done = omega arith
  Steps-le v (more {t} run step) =
      let w = Steps-Valid v run in
      omega (arith, Steps-le v run, Effect-le w (Step-Effect hash t w step))
