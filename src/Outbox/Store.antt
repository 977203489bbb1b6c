-- ===== src/Outbox/Store.antt =====
-- The message table of pkg/outbox/storage.go and pkg/outbox/types.go. A transaction is one step;
-- `now` is the clock of the database, in milliseconds, and a fresh token is what rand.Text gives.
pub mod Selection
pub mod Steps
pub mod Leases
pub mod Budget
use kc.Prelude.{
  ℕ, zero, suc, ◌+◌, ◌-◌, ◌*◌, Bool, true, false, Option, some, none, List, [], ◌∷◌, ◌++◌, map,
  if◌then◌else◌, ltb, leb, ◌==◌, length, take, not, ◌&&◌, ◌||◌, Result, ok, err,
}
use kc.Prelude.Names.{String, same}

pub data Error : Type 0 where
  invalid_argument not_found not_failed lease_lost : Error

pub data Status : Type 0 where
  pending processing succeeded failed : Status

abbrev pub is_pending : Status → Bool
is_pending pending = true
is_pending s = false

abbrev pub is_processing : Status → Bool
is_processing processing = true
is_processing s = false

abbrev pub is_succeeded : Status → Bool
is_succeeded succeeded = true
is_succeeded s = false

abbrev pub is_failed : Status → Bool
is_failed failed = true
is_failed s = false

pub record Message : Type 0 where
  pub message_type : String
  pub payload : String

-- A row of the message table, without its key.
pub record Row : Type 0 where
  pub message : Message
  pub shard_id : ℕ
  pub status : Status
  pub attempts : ℕ
  pub next_attempt_at : ℕ
  pub lease_token : String
  pub lease_until : ℕ
  pub last_error : String
  pub created_at : ℕ
  pub updated_at : ℕ
  pub completed_at : ℕ

pub record Task : Type 0 where
  pub id : ℕ
  pub row : Row

abbrev pub Rows : Type 0
Rows = ℕ → Option Row

-- The message table; `next` is the key of the next row.
pub record Table : Type 0 where
  pub rows : Rows
  pub next : ℕ

-- The settings of resolveConfig that the storage reads, times in milliseconds.
pub record Settings : Type 0 where
  pub retries : ℕ
  pub task_lease : ℕ
  pub retention : ℕ
  pub cleanup_batch_size : ℕ

abbrev pub write_row : Rows → ℕ → Option Row → Rows
write_row rows id row = λ other. if other == id then row else rows other

unfoldable pub insert : Table → Message → ℕ → ℕ → Table × ℕ
insert t m shard now =
    let row : Row = record {
      message = m;
      shard_id = shard;
      status = pending;
      attempts = 0;
      next_attempt_at = now;
      lease_token = "";
      lease_until = 0;
      last_error = "";
      created_at = now;
      updated_at = now;
      completed_at = 0;
    } in
    (record { rows = write_row t.rows t.next (some row); next = suc t.next }, t.next)

abbrev pub get : Table → ℕ → Result Error Row
get t id = elim (t.rows id) [ none ↦ err not_found | some row ↦ ok row ]

abbrev pub row_task : (ℕ → Row → Bool) → ℕ → Option Row → List Task
row_task fits id none = []
row_task fits id (some row) = if fits id row then record { id = id; row = row } ∷ [] else []

-- The rows with a key below n that fit, by ascending key.
unfoldable pub scan : Rows → (ℕ → Row → Bool) → ℕ → List Task
scan rows fits zero = []
scan rows fits (suc n) = scan rows fits n ++ row_task fits n (rows n)

-- `ORDER BY key, id`, of rows in the order of their keys.
abbrev pub insert_by : (Row → ℕ) → Task → List Task → List Task
insert_by key t [] = t ∷ []
insert_by key t (u ∷ rest) =
    let later = insert_by key t rest in
    if ltb (key u.row) (key t.row) then u ∷ later else t ∷ u ∷ rest

unfoldable pub order_by : (Row → ℕ) → List Task → List Task
order_by key [] = []
order_by key (t ∷ rest) = insert_by key t (order_by key rest)

abbrev pub holds : List ℕ → ℕ → Bool
holds [] id = false
holds (x ∷ xs) id = (id == x) || holds xs id

-- `UPDATE ... WHERE id IN (ids)`
abbrev pub update_rows : Rows → List ℕ → (Row → Row) → Rows
update_rows rows ids f =
    λ id. if holds ids id then elim (rows id) [ none ↦ none | some row ↦ some (f row) ] else rows id

-- The delivery budget of the row is used up.
abbrev pub is_exhausted : Settings → Row → Bool
is_exhausted settings row = leb (suc settings.retries) row.attempts

abbrev pub exhaust : ℕ → Row → Row
exhaust now row = record row {
  status = failed;
  lease_token = "";
  lease_until = 0;
  updated_at = now;
  last_error = "delivery budget exhausted after lease expiration";
}

abbrev pub claim_row : Settings → ℕ → String → Row → Row
claim_row settings now token row = record row {
  status = processing;
  attempts = suc row.attempts;
  lease_token = token;
  lease_until = now + settings.task_lease;
  updated_at = now;
}

abbrev pub exhausted_ids : Settings → List Task → List ℕ
exhausted_ids settings [] = []
exhausted_ids settings (t ∷ rest) =
    let others = exhausted_ids settings rest in
    if is_exhausted settings t.row then t.id ∷ others else others

abbrev pub claimed_tasks : Settings → ℕ → String → List Task → List Task
claimed_tasks settings now token [] = []
claimed_tasks settings now token (t ∷ rest) =
    let others = claimed_tasks settings now token rest in
    if is_exhausted settings t.row
    then others
    else record t { row = claim_row settings now token t.row } ∷ others

abbrev pub ids_of : List Task → List ℕ
ids_of [] = []
ids_of (t ∷ rest) = t.id ∷ ids_of rest

unfoldable pub mark_claimed : Settings → Table → List Task → ℕ → String → Table × List Task
mark_claimed settings t tasks now token =
    let claimed = claimed_tasks settings now token tasks in
    (
      record t {
        rows =
            update_rows (update_rows t.rows (exhausted_ids settings tasks) (exhaust now))
              (ids_of claimed) (claim_row settings now token);
      },
      claimed,
    )

-- A row that waits and is due, and one whose delivery has outlived its lease.
abbrev pub is_due : ℕ → Row → Bool
is_due now row = is_pending row.status && leb row.next_attempt_at now

abbrev pub is_stale : ℕ → Row → Bool
is_stale now row = is_processing row.status && leb row.lease_until now

-- `locked` are the rows that other transactions hold: SKIP LOCKED.
unfoldable pub claim_ids :
    Settings → Table → (ℕ → Bool) → List ℕ → ℕ → ℕ → String → Table × List Task
claim_ids settings t locked ids limit now token =
    if (length ids == 0) || (limit == 0)
    then (t, [])
    else mark_claimed settings t
        (take limit (
          scan t.rows
            (λ id row. not (locked id) && holds ids id && (is_due now row || is_stale now row))
            t.next))
        now token

-- The deliveries of a shard that have outlived their leases, the earliest first.
unfoldable pub stale_tasks : Table → (ℕ → Bool) → ℕ → ℕ → ℕ → List Task
stale_tasks t locked shard limit now = take limit (
    order_by (λ row. row.lease_until)
      (scan t.rows (λ id row. not (locked id) && (row.shard_id == shard) && is_stale now row)
        t.next))

-- The messages of a shard that wait and are due, the earliest first.
unfoldable pub due_tasks : Table → (ℕ → Bool) → ℕ → ℕ → ℕ → List Task
due_tasks t locked shard limit now = take limit (
    order_by (λ row. row.next_attempt_at)
      (scan t.rows (λ id row. not (locked id) && (row.shard_id == shard) && is_due now row) t.next))

-- What claimShard selects, once it holds the shard.
unfoldable pub shard_tasks : Table → (ℕ → Bool) → ℕ → ℕ → ℕ → List Task
shard_tasks t locked shard limit now =
    let stale = stale_tasks t locked shard limit now in
    if ltb (length stale) limit
    then stale ++ due_tasks t locked shard (limit - length stale) now
    else stale

unfoldable pub claim_shard_rows :
    Settings → Table → (ℕ → Bool) → ℕ → ℕ → ℕ → String → Table × List Task
claim_shard_rows settings t locked shard limit now token =
    mark_claimed settings t (shard_tasks t locked shard limit now) now token

-- The row after its delivery: done, waiting for the next attempt, or given up.
abbrev pub finished : Settings → Task → Option String → ℕ → ℕ → Row → Row
finished settings task none delay now row = record row {
  status = succeeded;
  last_error = "";
  lease_token = "";
  lease_until = 0;
  updated_at = now;
  completed_at = now;
  next_attempt_at = 0;
}
finished settings task (some error) delay now row =
    let spent = is_exhausted settings task.row in
    record row {
      status = if spent then failed else pending;
      last_error = error;
      lease_token = "";
      lease_until = 0;
      updated_at = now;
      completed_at = 0;
      next_attempt_at = if spent then 0 else now + delay;
    }

-- The `WHERE` of finish: the delivery still holds its lease.
abbrev pub holds_lease : Task → ℕ → Row → Bool
holds_lease task now row =
    is_processing row.status && same row.lease_token task.row.lease_token && ltb now row.lease_until

unfoldable pub finish :
    Settings → Table → Task → Option String → ℕ → ℕ → Table × Result Error Status
finish settings t task handler_error delay now = elim (t.rows task.id) [
  | none ↦ (t, err lease_lost)
  | some row ↦
      (let row' = finished settings task handler_error delay now row in
        if holds_lease task now row
        then (record t { rows = write_row t.rows task.id (some row') }, ok row'.status)
        else (t, err lease_lost))
]

abbrev pub reset_row : ℕ → Row → Row
reset_row now row = record row {
  status = pending;
  attempts = 0;
  next_attempt_at = now;
  lease_token = "";
  lease_until = 0;
  last_error = "";
  updated_at = now;
  completed_at = 0;
}

unfoldable pub retry : Table → ℕ → ℕ → Table × Result Error (Unit {0})
retry t id now = elim (t.rows id) [
  | none ↦ (t, err not_found)
  | some row ↦
      (if is_failed row.status
        then (record t { rows = write_row t.rows id (some (reset_row now row)) }, ok tt)
        else (t, err not_failed))
]

abbrev pub delete_rows : Rows → List ℕ → Rows
delete_rows rows ids = λ id. if holds ids id then none else rows id

unfoldable pub cleanup_rows : Settings → Table → (ℕ → Bool) → ℕ → ℕ → Table × ℕ
cleanup_rows settings t locked shard now =
    let old = ids_of (
      take settings.cleanup_batch_size (
        order_by (λ row. row.completed_at)
          (scan t.rows
            (λ id row.
              not (locked id)
              && (row.shard_id == shard)
              && is_succeeded row.status
              && ltb (row.completed_at + settings.retention) now)
            t.next))) in
    (record t { rows = delete_rows t.rows old }, length old)
