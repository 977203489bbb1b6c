-- ===== src/Segment/Sql/Laws.antt =====
-- What pkg/idgen/segment/storage.go guarantees, whatever the database answers.
use kc.Prelude.{
  ℕ, zero, suc, ◌≤◌, ◌<◌, ◌≡◌, Bool, true, false, Option, some, none, List, Result, ok, err, arith,
  refl,
}
use kc.Prelude.Int.{ℤ, pos, negsuc}
use kc.Segment.Store.{Error, Segment, SegmentStore, IsFresh}
use kc.Segment.Sql.{
  Row, Dialect, postgresql, mysql, deadlock, duplicate_key, other, Weather, done, fine, refused,
  lost, Failure, own, driver, Attempt, Db, make_segment, fetch_postgresql, fetch_mysql_once, under,
  retry, after_attempt, fetch_segment, max_int64, weather_now, weather_later, database_retries,
}

-- The last ID given away.
abbrev pub high : Option Row → ℕ
high none = 0
high (some row) = row.max_id

-- An attempt that only gives IDs away, and whose segment lies above all that were given before.
abbrev pub Gives : Option Row → Option Row × Result Failure Segment → Type 0
Gives row (row', ok seg) =
    (high row < seg.start)
    × (seg.start ≤ seg.end)
    × (seg.current ≡ seg.start)
    × (seg.end ≡ high row')
    × (high row ≤ high row')
Gives row (row', err f) = high row ≤ high row'

abbrev pub IsInt32 : ℤ → Type 0
IsInt32 (pos n) = n < 2147483648
IsInt32 (negsuc n) = n < 2147483648

-- The two dialects give the same segments and the same errors, and leave the same row, for every
-- row whose columns are in range, though they find an overflow in different ways.
pub fetch_dialects :
    (max_id : ℕ) (step : ℤ)
    → max_id ≤ max_int64
    → IsInt32 step
    → fetch_postgresql (some (record { max_id = max_id; step = step }))
      ≡ fetch_mysql_once (some (record { max_id = max_id; step = step }))
unfolding fetch_postgresql fetch_mysql_once
fetch_dialects max_id (pos zero) h k = refl
fetch_dialects max_id (pos (suc s)) h k = ground arith
fetch_dialects max_id (negsuc s) h k = refl

fetch_postgresql-Gives : (row : Option Row) → Gives row (fetch_postgresql row)
unfolding fetch_postgresql make_segment
fetch_postgresql-Gives none = omega arith
fetch_postgresql-Gives (some row) = ground arith

fetch_mysql-Gives : (row : Option Row) → Gives row (fetch_mysql_once row)
unfolding fetch_mysql_once make_segment
fetch_mysql-Gives none = omega arith
fetch_mysql-Gives (some row) = ground arith

under-Gives :
    (w : Weather) (op : Attempt Segment) (row : Option Row)
    → Gives row (op row)
    → Gives row (under w op row)
unfolding under
under-Gives done op row g = omega arith
under-Gives fine op row g = g
under-Gives (refused f) op row g = omega arith
under-Gives (lost f) op row g = lost_answer row (op row) g
  where
    lost_answer :
        (row : Option Row) (out : Option Row × Result Failure Segment)
        → Gives row out
        → high row ≤ high out.0
    lost_answer row (row', ok seg) g = g.4
    lost_answer row (row', err e) g = g

-- The segment that a fetch returns lies above `start`, up to the last ID that was given away.
abbrev pub Above : ℕ → Db × Result Error Segment → Type 0
Above start (db, ok seg) =
    (start < seg.start)
    × (seg.start ≤ seg.end)
    × (seg.current ≡ seg.start)
    × (seg.end ≡ high db.row)
Above start (db, err e) = start ≤ high db.row

after_attempt-Above :
    (rest : Db → Db × Result Error Segment) (dup : Bool) (start : ℕ) (ws : List Weather)
    (row : Option Row) (out : Option Row × Result Failure Segment)
    → ((db : Db) → start ≤ high db.row → Above start (rest db))
    → start ≤ high row
    → Gives row out
    → Above start (after_attempt rest dup (record { row = out.0; weather = ws }) out.1)
unfolding after_attempt
after_attempt-Above rest dup start ws row (row', ok seg) more h g = omega arith
after_attempt-Above rest dup start ws row (row', err (own e)) more h g = omega arith
after_attempt-Above rest dup start ws row (row', err (driver deadlock)) more h g =
    more (record { row = row'; weather = ws }) (omega arith)
after_attempt-Above rest true start ws row (row', err (driver duplicate_key)) more h g =
    more (record { row = row'; weather = ws }) (omega arith)
after_attempt-Above rest false start ws row (row', err (driver duplicate_key)) more h g =
    omega arith
after_attempt-Above rest dup start ws row (row', err (driver other)) more h g = omega arith

retry-Above :
    (op : Attempt Segment)
    → ((row : Option Row) → Gives row (op row))
    → (n : ℕ) (dup : Bool) (start : ℕ) (db : Db) → start ≤ high db.row
    → Above start (retry n dup op db)
unfolding retry
retry-Above op gives zero dup start db h = h
retry-Above op gives (suc n) dup start db h =
    after_attempt-Above (retry n dup op) dup start (weather_later db.weather) db.row
      (under (weather_now db.weather) op db.row) (retry-Above op gives n dup start) h
      (under-Gives (weather_now db.weather) op db.row (gives db.row))

-- Whatever the database answers, at most three attempts: a segment that is returned is not empty,
-- lies above every ID given away before, and ends at the row's new `max_id`; a call that fails
-- may have given IDs away, but never takes any back.
pub fetch_segment-Above : (d : Dialect) (db : Db) → Above (high db.row) (fetch_segment d db)
unfolding fetch_segment
fetch_segment-Above postgresql db =
    retry-Above fetch_postgresql fetch_postgresql-Gives database_retries false (high db.row) db
      (omega arith)
fetch_segment-Above mysql db =
    retry-Above fetch_mysql_once fetch_mysql-Gives database_retries false (high db.row) db
      (omega arith)

-- The contract of the double buffer, met by either dialect.
pub Above-high :
    (start : ℕ) (out : Db × Result Error Segment) → Above start out → start ≤ high out.0.row
Above-high start (db, ok seg) a = omega arith
Above-high start (db, err e) a = a

Above-IsFresh :
    (start : ℕ) (out : Db × Result Error Segment) (seg : Segment)
    → Above start out
    → out.1 ≡ ok seg
    → IsFresh seg × (start < seg.start) × (seg.end ≤ high out.0.row)
Above-IsFresh start (db, ok s) seg a e = ground arith
Above-IsFresh start (db, err x) seg a e = cc

pub sql-IsFresh :
    (d : Dialect) (db : Db) (seg : Segment) → (fetch_segment d db).1 ≡ ok seg → IsFresh seg
sql-IsFresh d db seg e =
    (Above-IsFresh (high db.row) (fetch_segment d db) seg (fetch_segment-Above d db) e).0

pub sql-above :
    (d : Dialect) (db : Db) (seg : Segment)
    → (fetch_segment d db).1 ≡ ok seg
    → (high db.row < seg.start) × (seg.end ≤ high (fetch_segment d db).0.row)
sql-above d db seg e =
    let a = Above-IsFresh (high db.row) (fetch_segment d db) seg (fetch_segment-Above d db) e in
    (a.1, a.2)

abbrev pub sql_store : Dialect → SegmentStore
sql_store d = record {
  State = Db;
  fetch_segment = fetch_segment d;
  high = λ db. high db.row;
  high-fetch = λ db. Above-high (high db.row) (fetch_segment d db) (fetch_segment-Above d db);
  fetch_fresh = sql-IsFresh d;
  fetch_above = sql-above d;
}
