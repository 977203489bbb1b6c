-- ===== src/Snowflake/Leases/Barrier.antt =====
-- The timestamps of pkg/idgen/snowflake/storage.go through the transactions on its worker table.
use kc.Prelude.{
  ℕ, ◌≤◌, ◌<◌, ◌≡◌, ap, ◌∙◌, subst, some-injective, true, some, List, [], ◌∷◌, leb, ◌==◌, ◌&&◌,
  Result, ok, err, All, arith, Bool-cases, Option-cases, inl, inr,
}
use kc.Prelude.Names.{String, same}
use kc.Prelude.Int.{ℤ, pos, two63}
use kc.Snowflake.Node.{Node, max_worker_id, new_node, run}
use kc.Snowflake.Node.Draws.{IsInt64}
use kc.Snowflake.Node.Since.{IsFrom, Since, run-Since, new_node-IsValid}
use kc.Snowflake.Leases.{
  Error, Worker, Workers, Allocation, timestamp_of, owns, heartbeat, release, allocate_locked,
  allocate_worker_once, lock_coordinator, after_lock, startup_clock_wait, wait_for_clock,
}
use kc.Snowflake.Leases.Allocating.{Allocates, allocate_locked-Allocates}

-- The transactions on the worker table, with the time at which they run.
pub data Op : Type 0 where
  allocates : ℕ → String → ℕ → Op
  beats : ℕ → String → ℕ → ℕ → Op
  releases : ℕ → String → ℕ → ℕ → Op

unfoldable pub apply : Workers → Op → Workers
apply w (allocates epoch token now) = (allocate_worker_once w epoch now token).0
apply w (beats id token timestamp now) = (heartbeat w id token timestamp now).0
apply w (releases id token timestamp now) = release w id token timestamp now

abbrev pub apply_all : Workers → List Op → Workers
apply_all w [] = w
apply_all w (op ∷ rest) = apply_all (apply w op) rest

-- No timestamp of a worker in range has gone back.
abbrev Grows : Workers → Workers → Type 0
Grows w w' = (id : ℕ) → id ≤ max_worker_id → timestamp_of (w.rows id) ≤ timestamp_of (w'.rows id)

allocated-Grows :
    (w : Workers) (now : ℕ) (token : String) (w' : Workers) (r : Result Error Allocation)
    → Allocates w now token (w', r)
    → Grows w w'
allocated-Grows w now token w' (ok a) (in_range, free, tok, row, others, late, above) id h =
    elim (Bool-cases (id == a.worker_id)) [
      | inl here ↦
          ground
            (arith, above id h, row, ap (λ i. timestamp_of (w'.rows i)) {x = id} {y = a.worker_id})
      | inr other ↦ ground (arith, others id (ground (arith, other)))
    ]
allocated-Grows w now token w' (err e) (same_table, _, _) id h =
    ground (arith, ap (λ x. timestamp_of (x.rows id)) same_table)

locked-Grows : (w : Workers) (now : ℕ) (token : String) → Grows w (allocate_locked w now token).0
locked-Grows w now token =
    allocated-Grows w now token (allocate_locked w now token).0 (allocate_locked w now token).1
      (allocate_locked-Allocates w now token)

pub owns_row :
    (w : Workers) (id : ℕ) (token : String) (worker : Worker)
    → owns w id token ≡ some worker
    → (w.rows id ≡ some worker) × (same worker.lease_token token ≡ true) × (id ≤ max_worker_id)
owns_row w id token worker e = elim (Option-cases (w.rows id)) [
  | inl gone ↦ absurd (ground (arith, e, gone))
  | inr (row, at) ↦ elim (Bool-cases (leb id max_worker_id && same row.lease_token token)) [
    | inl own ↦ (
      ground (arith, e, at, own),
      ground (
        arith,
        e,
        at,
        own,
        ap (λ x. same x.lease_token token) (some-injective (owned row at own ∙ e)),
      ),
      ground (arith, own),
    )
    | inr foreign ↦ absurd (ground (arith, e, at, foreign))
  ]
]
  where
    owned :
        (row : Worker)
        → w.rows id ≡ some row
        → (leb id max_worker_id && same row.lease_token token) ≡ true
        → some row ≡ owns w id token
    owned row at own = ground (arith, at, own)

apply-Grows : (w : Workers) (op : Op) → Grows w (apply w op)
unfolding apply allocate_worker_once heartbeat release
apply-Grows w (allocates epoch token now) id h = by_lock (lock_coordinator w epoch)
  where
    by_lock :
        (r : Result Error (Unit {0}))
        → timestamp_of (w.rows id) ≤ timestamp_of ((after_lock w now token r).0.rows id)
    by_lock (err e) = omega arith
    by_lock (ok locked) = locked-Grows w now token id h
apply-Grows w (beats other token timestamp now) id h = elim (Option-cases (owns w other token)) [
  | inl foreign ↦ ground (arith, foreign)
  | inr (worker, own) ↦ ground (
    arith,
    own,
    (owns_row w other token worker own).0,
    ap (λ i. timestamp_of (w.rows i)) {x = id} {y = other},
  )
]
apply-Grows w (releases other token timestamp now) id h = elim (Option-cases (owns w other token)) [
  | inl foreign ↦ ground (arith, foreign)
  | inr (worker, own) ↦ ground (
    arith,
    own,
    (owns_row w other token worker own).0,
    ap (λ i. timestamp_of (w.rows i)) {x = id} {y = other},
  )
]

apply_all-Grows : (w : Workers) (ops : List Op) → Grows w (apply_all w ops)
apply_all-Grows w [] id h = omega arith
apply_all-Grows w (op ∷ rest) id h =
    omega (arith, apply-Grows w op id h, apply_all-Grows (apply w op) rest id h)

-- The wait ends at a reading past the barrier.
wait_passes :
    (readings : List ℕ) (last start : ℕ)
    → wait_for_clock readings last ≡ some (ok start)
    → last < start
unfolding wait_for_clock startup_clock_wait
wait_passes [] last start e = absurd (ground (arith, e))
wait_passes (now ∷ later) last start e = ground (arith, e, wait_passes later last start)

-- The timestamp that the owner of a worker ID hands in with its release is in the table afterwards.
released_timestamp :
    (w : Workers) (id : ℕ) (token : String) (timestamp now : ℕ) (worker : Worker)
    → owns w id token ≡ some worker
    → timestamp ≤ timestamp_of ((release w id token timestamp now).rows id)
unfolding release
released_timestamp w id token timestamp now worker own = ground (arith, own)

-- Let the owner of a worker ID release it and say up to which timestamp it has used it. Whatever
-- happens to the table in between, whoever gets a worker ID later, this one or another, and waits for
-- its clock starts after that timestamp; and as long as its clock does not go back behind that start,
-- its node composes no ID of that timestamp or an earlier one. (A clock that goes back after the wait
-- is not caught: the new node starts at the timestamp 0.)
pub reuse_is_later :
    (w : Workers) (id : ℕ) (token : String) (timestamp now : ℕ) (worker : Worker)
    → owns w id token ≡ some worker
    → (ops : List Op) (later : ℕ) (new_token : String) (a : Allocation)
    → (allocate_locked (apply_all (release w id token timestamp now) ops) later new_token).1 ≡ ok a
    → (readings : List ℕ) (start : ℕ) → wait_for_clock readings a.last_timestamp ≡ some (ok start)
    → (epoch : ℕ) (n : Node) → new_node (pos a.worker_id) (pos epoch) ≡ ok n
    → epoch < two63
    → (calls : List (List ℤ)) → All (All IsInt64) calls
    → All (All (IsFrom start)) calls
    → (timestamp < start) × Since n start (run n calls).1
reuse_is_later w id token timestamp now worker own ops later new_token a e readings start waited
      epoch n made fits calls in_64 from =
    (
      omega (
        arith,
        released_timestamp w id token timestamp now worker own,
        apply_all-Grows (release w id token timestamp now) ops id in_range,
        barrier.6 id in_range,
        wait_passes readings a.last_timestamp start waited,
      ),
      run-Since n start calls (new_node-IsValid a.worker_id epoch n made fits) in_64 from,
    )
  where
    in_range : id ≤ max_worker_id
    in_range = (owns_row w id token worker own).2

    barrier : Allocates (apply_all (release w id token timestamp now) ops) later new_token (
      (allocate_locked (apply_all (release w id token timestamp now) ops) later new_token).0,
      ok a,
    )
    barrier =
        subst
          (λ r. Allocates (apply_all (release w id token timestamp now) ops) later new_token (
            (allocate_locked (apply_all (release w id token timestamp now) ops) later new_token).0,
            r,
          ))
          e
          (allocate_locked-Allocates (apply_all (release w id token timestamp now) ops) later
            new_token)
