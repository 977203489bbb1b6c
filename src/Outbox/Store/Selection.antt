-- ===== src/Outbox/Store/Selection.antt =====
-- What the queries of pkg/outbox/storage.go select: rows of the table that fit, each at most once.
use kc.Prelude.{
  ℕ, zero, suc, ◌+◌, ◌-◌, ◌≤◌, ◌≡◌, refl, subst, Bool, true, false, Option, some, none, List, [],
  ◌∷◌, ◌++◌, if◌then◌else◌, ltb, leb, ◌==◌, length, take, not, ◌&&◌, ◌||◌, All, arith, Bool-cases,
  Option-cases, inl, inr,
}
use kc.Prelude.Selecting.{All-append, All-take, All-map}
use kc.Outbox.Store.{
  Row, Task, Rows, Table, scan, insert_by, order_by, is_due, is_stale, shard_tasks, stale_tasks,
  due_tasks, row_task, Status, pending, processing, succeeded, failed, is_pending, is_processing,
}

-- How often the list has a task of that key.
abbrev pub count : ℕ → List Task → ℕ
count id [] = 0
count id (t ∷ rest) = let others = count id rest in if id == t.id then suc others else others

module _ (P : Task → Type 0) where
  All-insert_by :
      (key : Row → ℕ) (t : Task) (xs : List Task) → P t → All P xs → All P (insert_by key t xs)
  All-insert_by key t [] p a = (p, tt)
  All-insert_by key t (u ∷ rest) p (q, a) = elim (Bool-cases (ltb (key u.row) (key t.row))) [
    | inl first ↦
        subst (All P) {x = u ∷ insert_by key t rest} {y = insert_by key t (u ∷ rest)} (simp first)
          (q, All-insert_by key t rest p a)
    | inr later ↦
        subst (All P) {x = t ∷ u ∷ rest} {y = insert_by key t (u ∷ rest)} (simp later) (p, (q, a))
  ]

  pub All-order_by : (key : Row → ℕ) (xs : List Task) → All P xs → All P (order_by key xs)
  unfolding order_by
  All-order_by key [] a = tt
  All-order_by key (t ∷ rest) (p, a) =
      All-insert_by key t (order_by key rest) p (All-order_by key rest a)

-- The task is a row of the table that fits.
abbrev pub IsRow : Rows → (ℕ → Row → Bool) → Task → Type 0
IsRow rows fits t = (rows t.id ≡ some t.row) × (fits t.id t.row ≡ true)

pub scan-AllRows :
    (rows : Rows) (fits : ℕ → Row → Bool) (n : ℕ) → All (IsRow rows fits) (scan rows fits n)
unfolding scan
scan-AllRows rows fits zero = tt
scan-AllRows rows fits (suc n) =
    All-append (IsRow rows fits) (scan rows fits n) (row_task fits n (rows n))
      (scan-AllRows rows fits n) (last (rows n) refl)
  where
    last : (o : Option Row) → rows n ≡ o → All (IsRow rows fits) (row_task fits n o)
    last none e = tt
    last (some row) e = elim (Bool-cases (fits n row)) [
      | inl fit ↦
          subst (All (IsRow rows fits)) {x = record { id = n; row = row } ∷ []}
            {y = row_task fits n (some row)} (simp fit) ((e, fit), tt)
      | inr unfit ↦
          subst (All (IsRow rows fits)) {x = []} {y = row_task fits n (some row)} (simp unfit) tt
    ]

pub count-append : (id : ℕ) (xs ys : List Task) → count id (xs ++ ys) ≡ count id xs + count id ys
count-append id [] ys = omega arith
count-append id (x ∷ xs) ys = ground (arith, count-append id xs ys)

pub count-take : (id n : ℕ) (xs : List Task) → count id (take n xs) ≤ count id xs
count-take id zero xs = omega arith
count-take id (suc n) [] = omega arith
count-take id (suc n) (x ∷ xs) = ground (arith, count-take id n xs)

count-insert_by :
    (id : ℕ) (key : Row → ℕ) (t : Task) (xs : List Task)
    → count id (insert_by key t xs) ≡ count id (t ∷ xs)
count-insert_by id key t [] = refl
count-insert_by id key t (u ∷ rest) = ground (arith, count-insert_by id key t rest)

pub count-order_by :
    (id : ℕ) (key : Row → ℕ) (xs : List Task) → count id (order_by key xs) ≡ count id xs
unfolding order_by
count-order_by id key [] = refl
count-order_by id key (t ∷ rest) =
    ground (arith, count-insert_by id key t (order_by key rest), count-order_by id key rest)

-- A row that fits is selected once, and no other.
abbrev pub matches : Rows → (ℕ → Row → Bool) → ℕ → ℕ
matches rows fits id = elim (rows id) [ none ↦ 0 | some row ↦ (if fits id row then 1 else 0) ]

count-row_task :
    (id : ℕ) (rows : Rows) (fits : ℕ → Row → Bool) (n : ℕ)
    → count id (row_task fits n (rows n)) ≡ (if id == n then matches rows fits id else 0)
count-row_task id rows fits n = elim (Option-cases (rows n)) [
  | inl e ↦ ground arith
  | inr (row, e) ↦ elim (Bool-cases (fits n row)) [
    | inl fit ↦ ground arith
    | inr unfit ↦ ground arith
  ]
]

pub count-scan :
    (id : ℕ) (rows : Rows) (fits : ℕ → Row → Bool) (n : ℕ)
    → count id (scan rows fits n) ≡ (if ltb id n then matches rows fits id else 0)
unfolding scan
count-scan id rows fits zero = ground arith
count-scan id rows fits (suc n) = ground (
  arith,
  count-scan id rows fits n,
  count-append id (scan rows fits n) (row_task fits n (rows n)),
  count-row_task id rows fits n,
)

-- Two conditions on rows that exclude each other select a row at most once between them.
pub count-scans :
    (id : ℕ) (rows : Rows) (fits others : ℕ → Row → Bool) (n : ℕ)
    → ((row : Row) → fits id row ≡ true → others id row ≡ false)
    → count id (scan rows fits n) + count id (scan rows others n) ≤ 1
count-scans id rows fits others n apart = elim (Option-cases (rows id)) [
  | inl e ↦ ground (arith, count-scan id rows fits n, count-scan id rows others n)
  | inr (row, e) ↦ ground (arith, count-scan id rows fits n, count-scan id rows others n, apart row)
]

pub count_at_most_once :
    (id : ℕ) (rows : Rows) (fits : ℕ → Row → Bool) (n : ℕ) → count id (scan rows fits n) ≤ 1
count_at_most_once id rows fits n = elim (Option-cases (rows id)) [
  | inl e ↦ ground (arith, count-scan id rows fits n)
  | inr (row, e) ↦ ground (arith, count-scan id rows fits n)
]

-- What a claim may select: a row that waits and is due, or whose delivery has outlived its lease.
abbrev pub IsClaimable : Rows → ℕ → Task → Type 0
IsClaimable rows now t =
    (rows t.id ≡ some t.row) × ((is_due now t.row || is_stale now t.row) ≡ true)

stale_not_due : (now : ℕ) (row : Row) → is_stale now row ≡ true → is_due now row ≡ false
stale_not_due now row h = by_status row.status h
  where
    by_status :
        (s : Status)
        → (is_processing s && leb row.lease_until now) ≡ true
        → (is_pending s && leb row.next_attempt_at now) ≡ false
    by_status pending h = absurd (ground (arith, h))
    by_status processing h = refl
    by_status succeeded h = refl
    by_status failed h = refl

module _ (t : Table) (locked : ℕ → Bool) (shard now : ℕ) where
  stale_tasks-AllClaimable :
      (limit : ℕ) → All (IsClaimable t.rows now) (stale_tasks t locked shard limit now)
  unfolding stale_tasks
  stale_tasks-AllClaimable limit =
      All-take (IsClaimable t.rows now) limit (order_by (λ row. row.lease_until) found) (
        All-order_by (IsClaimable t.rows now) (λ row. row.lease_until) found
          (All-map (IsRow t.rows fits) (IsClaimable t.rows now) (λ u h. (h.0, ground (arith, h.1)))
            found (scan-AllRows t.rows fits t.next)))
    where
      fits : ℕ → Row → Bool
      fits id row = not (locked id) && (row.shard_id == shard) && is_stale now row

      found : List Task
      found =
          scan t.rows (λ id row. not (locked id) && (row.shard_id == shard) && is_stale now row)
            t.next

  due_tasks-AllClaimable :
      (limit : ℕ) → All (IsClaimable t.rows now) (due_tasks t locked shard limit now)
  unfolding due_tasks
  due_tasks-AllClaimable limit =
      All-take (IsClaimable t.rows now) limit (order_by (λ row. row.next_attempt_at) found) (
        All-order_by (IsClaimable t.rows now) (λ row. row.next_attempt_at) found
          (All-map (IsRow t.rows fits) (IsClaimable t.rows now) (λ u h. (h.0, ground (arith, h.1)))
            found (scan-AllRows t.rows fits t.next)))
    where
      fits : ℕ → Row → Bool
      fits id row = not (locked id) && (row.shard_id == shard) && is_due now row

      found : List Task
      found =
          scan t.rows (λ id row. not (locked id) && (row.shard_id == shard) && is_due now row)
            t.next

  pub shard_tasks-AllClaimable :
      (limit : ℕ) → All (IsClaimable t.rows now) (shard_tasks t locked shard limit now)
  unfolding shard_tasks
  shard_tasks-AllClaimable limit =
      elim (Bool-cases (ltb (length (stale_tasks t locked shard limit now)) limit)) [
        | inl more ↦
            subst (All (IsClaimable t.rows now))
              {x = stale_tasks t locked shard limit now
                ++ due_tasks t locked shard (limit - length (stale_tasks t locked shard limit now))
                    now}
              {y = shard_tasks t locked shard limit now} (simp more)
              (All-append (IsClaimable t.rows now) (stale_tasks t locked shard limit now)
                (due_tasks t locked shard (limit - length (stale_tasks t locked shard limit now))
                  now)
                (stale_tasks-AllClaimable limit)
                (due_tasks-AllClaimable (limit - length (stale_tasks t locked shard limit now))))
        | inr full ↦
            subst (All (IsClaimable t.rows now)) {x = stale_tasks t locked shard limit now}
              {y = shard_tasks t locked shard limit now} (simp full)
              (stale_tasks-AllClaimable limit)
      ]

  count-stale_and_due :
      (id limit more : ℕ)
      → count id (stale_tasks t locked shard limit now)
          + count id (due_tasks t locked shard more now)
        ≤ 1
  unfolding stale_tasks due_tasks
  count-stale_and_due id limit more = omega (
    arith,
    count-take id limit (order_by (λ row. row.lease_until) stale),
    count-take id more (order_by (λ row. row.next_attempt_at) due),
    count-order_by id (λ row. row.lease_until) stale,
    count-order_by id (λ row. row.next_attempt_at) due,
    count-scans id t.rows (λ id row. not (locked id) && (row.shard_id == shard) && is_stale now row)
        (λ id row. not (locked id) && (row.shard_id == shard) && is_due now row) t.next apart,
  )
    where
      stale : List Task
      stale =
          scan t.rows (λ id row. not (locked id) && (row.shard_id == shard) && is_stale now row)
            t.next

      due : List Task
      due =
          scan t.rows (λ id row. not (locked id) && (row.shard_id == shard) && is_due now row)
            t.next

      apart :
          (row : Row)
          → (not (locked id) && (row.shard_id == shard) && is_stale now row) ≡ true
          → (not (locked id) && (row.shard_id == shard) && is_due now row) ≡ false
      apart row h = ground (arith, stale_not_due now row)

  pub count-shard_tasks : (id limit : ℕ) → count id (shard_tasks t locked shard limit now) ≤ 1
  unfolding shard_tasks
  count-shard_tasks id limit = ground (
    arith,
    count-stale_and_due id limit (limit - length (stale_tasks t locked shard limit now)),
    count-append id (stale_tasks t locked shard limit now)
        (due_tasks t locked shard (limit - length (stale_tasks t locked shard limit now)) now),
  )
