-- ===== src/Snowflake/Leases.antt =====
-- The worker table of pkg/idgen/snowflake/storage.go and the waits of snowflake.go. A transaction
-- holds the coordinator row, so that it is one step; `now` is the clock of the database, in
-- milliseconds.
pub mod Allocating
pub mod Barrier
pub mod Survival
use kc.Prelude.{
  ℕ, zero, suc, ◌+◌, ◌-◌, ◌*◌, ◌^◌, Bool, true, false, Option, some, none, List, [], ◌∷◌,
  if◌then◌else◌, ltb, leb, ◌==◌, not, ◌&&◌, ◌||◌, Result, ok, err, refuse, ◌>>◌,
}
use kc.Prelude.Names.{String, same}
use kc.Snowflake.Node.{max_worker_id}

pub data Error : Type 0 where
  missing_coordinator reserved_id wrong_epoch no_worker_id lease_lost clock_backwards closed : Error
  retryable database : Error

-- A row of the worker table.
pub record Worker : Type 0 where
  pub last_timestamp : ℕ
  pub updated_at : ℕ
  pub lease_token : String

pub record Coordinator : Type 0 where
  pub epoch : ℕ
  pub lease_token : String

pub record Workers : Type 0 where
  pub rows : ℕ → Option Worker
  pub coordinator : Option Coordinator

pub record Allocation : Type 0 where
  pub worker_id : ℕ
  pub last_timestamp : ℕ
  pub lease_token : String

abbrev pub default_worker_timeout : ℕ
default_worker_timeout = 30000

abbrev pub worker_allocation_retries : ℕ
worker_allocation_retries = 8

abbrev pub max_startup_clock_rollback : ℕ
max_startup_clock_rollback = 5000

abbrev pub coordinator_lease_token : String
coordinator_lease_token = "snowflake-coordinator-v1"

abbrev pub lock_coordinator : Workers → ℕ → Result Error (Unit {0})
lock_coordinator w epoch = elim w.coordinator [
  | none ↦ err missing_coordinator
  | some c ↦
      refuse (not (same c.lease_token coordinator_lease_token)) reserved_id
      >> refuse (not (c.epoch == epoch)) wrong_epoch
]

abbrev pub larger : ℕ → ℕ → ℕ
larger a b = if ltb a b then b else a

abbrev pub timestamp_of : Option Worker → ℕ
timestamp_of none = 0
timestamp_of (some worker) = worker.last_timestamp

-- `COALESCE(MAX(last_timestamp), 0)` over the workers below n.
unfoldable pub max_timestamp : (ℕ → Option Worker) → ℕ → ℕ
max_timestamp rows zero = 0
max_timestamp rows (suc n) = larger (max_timestamp rows n) (timestamp_of (rows n))

-- Whether the lease of the row is over.
abbrev pub is_expired : ℕ → Worker → Bool
is_expired now worker = ltb (worker.updated_at + default_worker_timeout) now

-- Of two expired workers the one that was updated first.
abbrev pub earlier : ℕ → ℕ → Option Worker → Option (ℕ × Worker) → Option (ℕ × Worker)
earlier now id none best = best
earlier now id (some worker) none = if is_expired now worker then some (id, worker) else none
earlier now id (some worker) (some best) =
    if is_expired now worker && ltb worker.updated_at best.1.updated_at
    then some (id, worker)
    else some best

-- The expired worker below n that was updated first.
unfoldable pub find_expired : (ℕ → Option Worker) → ℕ → ℕ → Option (ℕ × Worker)
find_expired rows now zero = none
find_expired rows now (suc n) = earlier now n (rows n) (find_expired rows now n)

abbrev pub is_present : Option Worker → Bool
is_present none = false
is_present (some worker) = true

-- The loop over the worker IDs below n, in order: the next candidate.
unfoldable pub next_worker_id : (ℕ → Option Worker) → ℕ → ℕ
next_worker_id rows zero = 0
next_worker_id rows (suc n) =
    let next = next_worker_id rows n in
    if is_present (rows n) && (n == next) then suc next else next

unfoldable pub find_available_worker_id : (ℕ → Option Worker) → Result Error ℕ
find_available_worker_id rows =
    let next = next_worker_id rows (suc max_worker_id) in
    if ltb max_worker_id next then err no_worker_id else ok next

abbrev pub write_worker : Workers → ℕ → Worker → Workers
write_worker w id worker = record w {
  rows = λ other. if other == id then some worker else w.rows other;
}

abbrev pub take_worker : Workers → ℕ → ℕ → ℕ → String → Workers × Allocation
take_worker w id barrier now token = (
  write_worker w id (record { last_timestamp = barrier; updated_at = now; lease_token = token }),
  record { worker_id = id; last_timestamp = barrier; lease_token = token },
)

abbrev pub global_timestamp : Workers → ℕ
global_timestamp w = max_timestamp w.rows (suc max_worker_id)

-- The worker ID that is given away: an expired one, or else the first that is not in use.
abbrev pub allocate_from :
    Workers → ℕ → String → Option (ℕ × Worker) → Result Error ℕ → Workers × Result Error Allocation
allocate_from w now token (some (id, worker)) available =
    let r =
      take_worker w id (larger (larger worker.last_timestamp (global_timestamp w)) now) now token in
    (r.0, ok r.1)
allocate_from w now token none (err e) = (w, err e)
allocate_from w now token none (ok id) =
    let r = take_worker w id (larger (global_timestamp w) now) now token in (r.0, ok r.1)

-- The transaction of one attempt, once it has locked the coordinator.
unfoldable pub allocate_locked : Workers → ℕ → String → Workers × Result Error Allocation
allocate_locked w now token =
    allocate_from w now token (find_expired w.rows now (suc max_worker_id))
      (find_available_worker_id w.rows)

abbrev pub after_lock :
    Workers → ℕ → String → Result Error (Unit {0}) → Workers × Result Error Allocation
after_lock w now token (err e) = (w, err e)
after_lock w now token (ok locked) = allocate_locked w now token

unfoldable pub allocate_worker_once : Workers → ℕ → ℕ → String → Workers × Result Error Allocation
allocate_worker_once w epoch now token = after_lock w now token (lock_coordinator w epoch)

-- How an attempt meets the database: it goes through at a time and with a token, or it fails with
-- an error that is tried again, or with one that is not, and is rolled back.
pub data Weather : Type 0 where
  fine : ℕ → String → Weather
  deadlock : Weather
  broken : Weather

abbrev pub attempt_once : Workers → ℕ → Weather → Workers × Result Error Allocation
attempt_once w epoch (fine now token) = allocate_worker_once w epoch now token
attempt_once w epoch deadlock = (w, err retryable)
attempt_once w epoch broken = (w, err database)

abbrev pub is_retryable : Error → Bool
is_retryable retryable = true
is_retryable e = false

-- The loop of allocateWorker, with so many attempts to go.
unfoldable pub allocate_worker : ℕ → Workers → ℕ → (ℕ → Weather) → Workers × Result Error Allocation
allocate_worker zero w epoch weather = (w, err retryable)
allocate_worker (suc attempts) w epoch weather =
    let r = attempt_once w epoch (weather 0) in
    let again = allocate_worker attempts r.0 epoch (λ k. weather (suc k)) in
    elim r.1 [ ok a ↦ (r.0, ok a) | err e ↦ (if is_retryable e then again else (r.0, err e)) ]

-- The `WHERE` of heartbeat and release.
abbrev pub owns : Workers → ℕ → String → Option Worker
owns w id token = elim (w.rows id) [
  | none ↦ none
  | some worker ↦
      (if leb id max_worker_id && same worker.lease_token token then some worker else none)
]

unfoldable pub heartbeat : Workers → ℕ → String → ℕ → ℕ → Workers × Result Error (Unit {0})
heartbeat w id token timestamp now = elim (owns w id token) [
  | none ↦ (w, err lease_lost)
  | some worker ↦ (
    write_worker w id (record worker {
      last_timestamp = larger (larger worker.last_timestamp timestamp) now;
      updated_at = now;
    }),
    ok tt,
  )
]

unfoldable pub release : Workers → ℕ → String → ℕ → ℕ → Workers
release w id token timestamp now = elim (owns w id token) [
  | none ↦ w
  | some worker ↦ write_worker w id (record worker {
    last_timestamp = larger (larger worker.last_timestamp timestamp) now;
    updated_at = 0;
  })
]

-- The wait before a barrier is passed, in milliseconds.
unfoldable pub startup_clock_wait : ℕ → ℕ → Result Error ℕ
startup_clock_wait now last =
    if ltb last now
    then ok 0
    else (if ltb max_startup_clock_rollback (last - now)
        then err clock_backwards
        else ok (suc (last - now)))

-- The loop of waitForClock over the readings of the clock: `none` if they end while it waits.
unfoldable pub wait_for_clock : List ℕ → ℕ → Option (Result Error ℕ)
wait_for_clock [] last = none
wait_for_clock (now ∷ later) last =
    let further = wait_for_clock later last in
    elim (startup_clock_wait now last) [
      | err e ↦ some (err e)
      | ok wait ↦ (if wait == 0 then some (ok now) else further)
    ]
