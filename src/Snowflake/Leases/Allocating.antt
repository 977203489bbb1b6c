-- ===== src/Snowflake/Leases/Allocating.antt =====
-- What an allocation of pkg/idgen/snowflake/storage.go gives away.
use kc.Prelude.{
  ℕ, zero, suc, ◌≤◌, ◌<◌, ◌≡◌, ◌≢◌, refl, sym, ap, ◌∙◌, subst, some-injective, true, false, Option,
  some, none, if◌then◌else◌, ltb, ◌==◌, ◌&&◌, Result, ok, err, arith, Bool-cases, inl, inr, ◌⊎◌,
}
use kc.Prelude.Names.{String}
use kc.Snowflake.Node.{max_worker_id}
use kc.Snowflake.Leases.{
  Error, no_worker_id, Worker, Workers, Allocation, larger, timestamp_of, max_timestamp, is_expired,
  earlier, find_expired, is_present, next_worker_id, find_available_worker_id, take_worker,
  allocate_locked, allocate_from, global_timestamp,
}

pub max_timestamp_least :
    (rows : ℕ → Option Worker) (n id : ℕ) → id < n → timestamp_of (rows id) ≤ max_timestamp rows n
unfolding max_timestamp
max_timestamp_least rows zero id h = absurd (omega arith)
max_timestamp_least rows (suc n) id h = elim (Bool-cases (id == n)) [
  | inl here ↦ ground (arith, ap (λ i. timestamp_of (rows i)) {x = id} {y = n})
  | inr below ↦ ground (arith, below, max_timestamp_least rows n id (ground (arith, below)))
]

-- The search has found an expired row, or there is none.
abbrev IsSearched : (ℕ → Option Worker) → ℕ → ℕ → Option (ℕ × Worker) → Type 0
IsSearched rows now n none =
    (id : ℕ) (worker : Worker) → id < n → rows id ≡ some worker → is_expired now worker ≡ false
IsSearched rows now n (some (id, worker)) =
    (id < n) × (rows id ≡ some worker) × (is_expired now worker ≡ true)

earlier-IsSearched :
    (rows : ℕ → Option Worker) (now n : ℕ) (o : Option Worker) (best : Option (ℕ × Worker))
    → rows n ≡ o
    → IsSearched rows now n best
    → IsSearched rows now (suc n) (earlier now n o best)
earlier-IsSearched rows now n none none e h = λ id worker below at. elim (Bool-cases (id == n)) [
  | inl here ↦ absurd (ground (arith, sym at ∙ ap rows (ground (arith, here)) ∙ e))
  | inr earlier_id ↦ h id worker (ground (arith, earlier_id)) at
]
earlier-IsSearched rows now n none (some best) e h = (omega (arith, h.0), h.1, h.2)
earlier-IsSearched rows now n (some worker) none e h = elim (Bool-cases (is_expired now worker)) [
  | inl over ↦
      subst (IsSearched rows now (suc n)) {x = some (n, worker)}
        {y = earlier now n (some worker) none} (simp over) (omega arith, e, over)
  | inr live ↦
      subst (IsSearched rows now (suc n)) {x = none} {y = earlier now n (some worker) none}
        (simp live)
        (λ id w below at. elim (Bool-cases (id == n)) [
          | inl here ↦
              subst (λ x. is_expired now x ≡ false)
                (some-injective (sym e ∙ ap rows (ground (arith, here)) ∙ at)) live
          | inr earlier_id ↦ h id w (ground (arith, earlier_id)) at
        ])
]
earlier-IsSearched rows now n (some worker) (some best) e h =
    elim (Bool-cases (is_expired now worker && ltb worker.updated_at best.1.updated_at)) [
      | inl first ↦
          subst (IsSearched rows now (suc n)) {x = some (n, worker)}
            {y = earlier now n (some worker) (some best)} (simp first)
            (omega arith, e, ground (arith, first))
      | inr later ↦
          subst (IsSearched rows now (suc n)) {x = some best}
            {y = earlier now n (some worker) (some best)} (simp later)
            (omega (arith, h.0), h.1, h.2)
    ]

pub find_expired-IsSearched :
    (rows : ℕ → Option Worker) (now n : ℕ) → IsSearched rows now n (find_expired rows now n)
unfolding find_expired
find_expired-IsSearched rows now zero = λ id worker below at. absurd (omega arith)
find_expired-IsSearched rows now (suc n) =
    earlier-IsSearched rows now n (rows n) (find_expired rows now n) refl
      (find_expired-IsSearched rows now n)

-- The candidate is the first worker ID that is not in use.
abbrev IsFirst : (ℕ → Option Worker) → ℕ → ℕ → Type 0
IsFirst rows n next =
    (next ≤ n)
    × ((id : ℕ) → id < next → is_present (rows id) ≡ true)
    × (next < n → is_present (rows next) ≡ false)

IsFirst-further :
    (rows : ℕ → Option Worker) (n next : ℕ)
    → IsFirst rows n next
    → IsFirst rows (suc n) (if is_present (rows n) && (n == next) then suc next else next)
IsFirst-further rows n next so_far = elim (Bool-cases (is_present (rows n) && (n == next))) [
  | inl taken ↦ subst (IsFirst rows (suc n)) {x = suc next} (simp taken) (
    ground (arith, taken),
    λ id h. ground (arith, taken, so_far.1 id, ap (λ i. is_present (rows i)) {x = id} {y = n}),
    λ h. absurd (ground (arith, h, taken)),
  )
  | inr gap ↦
      subst (IsFirst rows (suc n)) {x = next} (simp gap)
        (omega (arith, so_far.0), so_far.1, here gap)
]
  where
    here :
        (is_present (rows n) && (n == next)) ≡ false → next < suc n → is_present (rows next) ≡ false
    here gap h = elim (Bool-cases (n == next)) [
      | inl at_end ↦ ground (arith, gap, at_end, ap (λ i. is_present (rows i)) {x = n} {y = next})
      | inr before_end ↦ so_far.2 (ground (arith, before_end, h))
    ]

pub next_worker_id-IsFirst :
    (rows : ℕ → Option Worker) (n : ℕ) → IsFirst rows n (next_worker_id rows n)
unfolding next_worker_id
next_worker_id-IsFirst rows zero =
    (omega arith, λ id h. absurd (omega arith), λ h. absurd (omega arith))
next_worker_id-IsFirst rows (suc n) =
    IsFirst-further rows n (next_worker_id rows n) (next_worker_id-IsFirst rows n)

-- An allocation and its failure.
abbrev pub Allocates : Workers → ℕ → String → Workers × Result Error Allocation → Type 0
Allocates w now token (w', ok a) =
    (a.worker_id ≤ max_worker_id)
    × ((w.rows a.worker_id ≡ none)
        ⊎ ((worker : Worker) × (w.rows a.worker_id ≡ some worker) × (is_expired now worker ≡ true)))
    × (a.lease_token ≡ token)
    × (w'.rows a.worker_id
        ≡ some
            (record { last_timestamp = a.last_timestamp; updated_at = now; lease_token = token }))
    × ((other : ℕ) → other ≢ a.worker_id → w'.rows other ≡ w.rows other)
    × (now ≤ a.last_timestamp)
    × ((id : ℕ) → id ≤ max_worker_id → timestamp_of (w.rows id) ≤ a.last_timestamp)
Allocates w now token (w', err e) =
    (w' ≡ w)
    × (e ≡ no_worker_id)
    × ((id : ℕ)
        → id ≤ max_worker_id
        → (worker : Worker) × (w.rows id ≡ some worker) × (is_expired now worker ≡ false))

take_worker-Allocates :
    (w : Workers) (id barrier now : ℕ) (token : String)
    → id ≤ max_worker_id
    → ((w.rows id ≡ none)
        ⊎ ((worker : Worker) × (w.rows id ≡ some worker) × (is_expired now worker ≡ true)))
    → now ≤ barrier
    → ((other : ℕ) → other ≤ max_worker_id → timestamp_of (w.rows other) ≤ barrier)
    → Allocates w now token
        ((take_worker w id barrier now token).0, ok (take_worker w id barrier now token).1)
take_worker-Allocates w id barrier now token h free late above =
    (h, free, refl, ground arith, λ other apart. ground (arith, apart), late, above)

present_some : (o : Option Worker) → is_present o ≡ true → (worker : Worker) × (o ≡ some worker)
present_some none h = absurd (ground (arith, h))
present_some (some worker) h = (worker, refl)

absent_none : (o : Option Worker) → is_present o ≡ false → o ≡ none
absent_none none h = refl
absent_none (some worker) h = absurd (ground (arith, h))

-- The search for a free worker ID has found the ID, or every ID is in use.
abbrev IsAvailable : Workers → Result Error ℕ → Type 0
IsAvailable w (ok id) = (id ≤ max_worker_id) × (w.rows id ≡ none)
IsAvailable w (err e) =
    (e ≡ no_worker_id) × ((id : ℕ) → id ≤ max_worker_id → is_present (w.rows id) ≡ true)

find_available_worker_id-IsAvailable :
    (w : Workers) → IsAvailable w (find_available_worker_id w.rows)
unfolding find_available_worker_id
find_available_worker_id-IsAvailable w =
    by_room (next_worker_id w.rows (suc max_worker_id))
      (next_worker_id-IsFirst w.rows (suc max_worker_id))
  where
    by_room :
        (next : ℕ)
        → IsFirst w.rows (suc max_worker_id) next
        → IsAvailable w (if ltb max_worker_id next then err no_worker_id else ok next)
    by_room next f = elim (Bool-cases (ltb max_worker_id next)) [
      | inl full ↦
          subst (IsAvailable w) {x = err no_worker_id} (simp full)
            (refl, λ id h. f.1 id (ground (arith, full, h)))
      | inr room ↦
          subst (IsAvailable w) {x = ok next} (simp room)
            (ground (arith, room), absent_none (w.rows next) (f.2 (ground (arith, room))))
    ]

module _ (w : Workers) (now : ℕ) (token : String) where
  above : (other : ℕ) → other ≤ max_worker_id → timestamp_of (w.rows other) ≤ global_timestamp w
  above other h = max_timestamp_least w.rows (suc max_worker_id) other (omega arith)

  allocate_from-Allocates :
      (found : Option (ℕ × Worker)) (available : Result Error ℕ)
      → IsSearched w.rows now (suc max_worker_id) found
      → IsAvailable w available
      → Allocates w now token (allocate_from w now token found available)
  allocate_from-Allocates (some (id, worker)) available k free =
      take_worker-Allocates w id (larger (larger worker.last_timestamp (global_timestamp w)) now)
        now token (omega (arith, k.0)) (inr (worker, k.1, k.2)) (ground arith)
        (λ other h. ground (arith, above other h))
  allocate_from-Allocates none (ok id) k (h, free) =
      take_worker-Allocates w id (larger (global_timestamp w) now) now token h (inl free)
        (ground arith) (λ other g. ground (arith, above other g))
  allocate_from-Allocates none (err e) k (full, all_present) =
      (refl, full, λ id h. in_use id h (present_some (w.rows id) (all_present id h)))
    where
      in_use :
          (id : ℕ)
          → id ≤ max_worker_id
          → (worker : Worker) × (w.rows id ≡ some worker)
          → (worker : Worker) × (w.rows id ≡ some worker) × (is_expired now worker ≡ false)
      in_use id h (worker, at) = (worker, at, k id worker (omega arith) at)

  -- An allocation gives away a worker ID in range that is free or whose lease is over, under the new
  -- token, and changes no other row. Its barrier is no earlier than the clock of the database and
  -- than the last timestamp of any worker. It fails only if every worker ID has a lease that lasts,
  -- and then changes nothing.
  pub allocate_locked-Allocates : Allocates w now token (allocate_locked w now token)
  unfolding allocate_locked
  allocate_locked-Allocates =
      allocate_from-Allocates (find_expired w.rows now (suc max_worker_id))
        (find_available_worker_id w.rows) (find_expired-IsSearched w.rows now (suc max_worker_id))
        (find_available_worker_id-IsAvailable w)
