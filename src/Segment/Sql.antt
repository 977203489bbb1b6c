-- ===== src/Segment/Sql.antt =====
-- pkg/idgen/segment/storage.go: the row of one business tag, and the two dialects' statements on
-- it. A statement or a transaction is atomic; what the database answers is chosen from outside.
pub mod Laws
pub mod Init
use kc.Prelude.{
  ℕ, zero, suc, ◌+◌, ◌-◌, ◌≤◌, Bool, true, false, ◌&&◌, ◌||◌, not, Option, some, none, List, [],
  ◌∷◌, Result, ok, err, ltb, if◌then◌else◌,
}
use kc.Prelude.Int.{ℤ, pos, negsuc}
use kc.Segment.Store.{
  Error, invalid_config, biz_tag_not_found, id_overflow, database, canceled, Segment,
}

abbrev pub max_int64 : ℕ
max_int64 = 9223372036854775807

abbrev pub database_retries : ℕ
database_retries = 3

-- `max_id` is never negative: `Init` refuses a negative start.
pub record Row : Type 0 where
  pub max_id : ℕ
  pub step : ℤ

pub data Dialect : Type 0 where
  postgresql mysql : Dialect

-- The driver errors that the code tells apart (`isRetryableTransaction`, `isDuplicateKey`).
pub data Fault : Type 0 where
  deadlock duplicate_key other : Fault

-- What happens to one attempt: the context is done before it, the database refuses it, or it
-- commits and the answer is lost, or it runs.
pub data Weather : Type 0 where
  done fine : Weather
  refused lost : Fault → Weather

-- What an attempt reports: an error of the package, or one of the driver.
pub data Failure : Type 0 where
  own : Error → Failure
  driver : Fault → Failure

abbrev pub Attempt : Type 0 → Type 0
Attempt A = Option Row → Option Row × Result Failure A

unfoldable pub make_segment : ℕ → ℤ → Result Failure Segment
make_segment max_id (pos (suc s)) =
    let start = max_id - suc s + 1 in ok (record { start = start; end = max_id; current = start })
make_segment max_id _ = err (own invalid_config)

-- UPDATE ... SET max_id = max_id + step ... WHERE biz_tag = ? AND step > 0 RETURNING max_id, step,
-- and, if no row came back, SELECT step to tell why. A sum over the column's range is refused.
unfoldable pub fetch_postgresql : Attempt Segment
fetch_postgresql none = (none, err (own biz_tag_not_found))
fetch_postgresql (some row) = elim row.step [
  | pos (suc s) ↦
      let new_max = row.max_id + suc s in
      if ltb max_int64 new_max
      then (some row, err (own id_overflow))
      else (some (record row { max_id = new_max }), make_segment new_max row.step)
  | _ ↦ (some row, err (own invalid_config))
]

-- SELECT max_id, step ... FOR UPDATE, the checks in Go, and UPDATE ... SET max_id.
unfoldable pub fetch_mysql_once : Attempt Segment
fetch_mysql_once none = (none, err (own biz_tag_not_found))
fetch_mysql_once (some row) = elim row.step [
  | pos (suc s) ↦
      if ltb (max_int64 - suc s) row.max_id
      then (some row, err (own id_overflow))
      else let new_max = row.max_id + suc s in
        (some (record row { max_id = new_max }), make_segment new_max row.step)
  | _ ↦ (some row, err (own invalid_config))
]

-- INSERT ... ON CONFLICT (biz_tag) DO UPDATE SET step: an old row keeps its `max_id`.
unfoldable pub init_postgresql : ℕ → ℤ → Attempt (Unit {0})
init_postgresql start_id step none = (some (record { max_id = start_id; step = step }), ok tt)
init_postgresql start_id step (some row) = (some (record row { step = step }), ok tt)

-- SELECT max_id ... FOR UPDATE, then UPDATE ... SET step or INSERT.
unfoldable pub init_mysql_once : ℕ → ℤ → Attempt (Unit {0})
init_mysql_once start_id step none = (some (record { max_id = start_id; step = step }), ok tt)
init_mysql_once start_id step (some row) = (some (record row { step = step }), ok tt)

-- One attempt in its weather. What is refused is rolled back.
unfoldable pub under : {A : Type 0} → Weather → Attempt A → Attempt A
under done op row = (row, err (own canceled))
under fine op row = op row
under (refused f) op row = (row, err (driver f))
under (lost f) op row = ((op row).0, err (driver f))

abbrev pub is_retryable : Bool → Fault → Bool
is_retryable retry_duplicate deadlock = true
is_retryable retry_duplicate duplicate_key = retry_duplicate
is_retryable retry_duplicate other = false

-- The row, and the weather of the attempts to come; where none is said it is fine.
pub record Db : Type 0 where
  pub row : Option Row
  pub weather : List Weather

abbrev pub weather_now : List Weather → Weather
weather_now [] = fine
weather_now (w ∷ ws) = w

abbrev pub weather_later : List Weather → List Weather
weather_later [] = []
weather_later (w ∷ ws) = ws

-- What the loop of `retry` does after an attempt; `rest` are the rounds that are left.
unfoldable pub after_attempt :
    {A : Type 0} → (Db → Db × Result Error A) → Bool → Db → Result Failure A → Db × Result Error A
after_attempt rest retry_duplicate db (ok a) = (db, ok a)
after_attempt rest retry_duplicate db (err (own e)) = (db, err e)
after_attempt rest retry_duplicate db (err (driver f)) = elim (is_retryable retry_duplicate f) [
  | true ↦ rest db
  | false ↦ (db, err database)
]

-- The loop of `retry`, with the attempts that are left.
unfoldable pub retry : {A : Type 0} → ℕ → Bool → Attempt A → Db → Db × Result Error A
unfolding under after_attempt
retry zero retry_duplicate op db = (db, err database)
retry (suc attempts) retry_duplicate op db =
    let (row, r) = under (weather_now db.weather) op db.row in
    after_attempt (retry attempts retry_duplicate op) retry_duplicate
      (record { row = row; weather = weather_later db.weather }) r

unfoldable pub fetch_segment : Dialect → Db → Db × Result Error Segment
unfolding retry fetch_postgresql fetch_mysql_once make_segment
fetch_segment postgresql = retry database_retries false fetch_postgresql
fetch_segment mysql = retry database_retries false fetch_mysql_once

unfoldable pub init_tag : Dialect → ℕ → ℤ → Db → Db × Result Error (Unit {0})
unfolding retry init_postgresql init_mysql_once
init_tag postgresql start_id step = retry database_retries false (init_postgresql start_id step)
init_tag mysql start_id step = retry database_retries true (init_mysql_once start_id step)
