-- ===== src/Segment/Examples.antt =====
-- Runs of pkg/idgen/segment on small inputs, and the theorems at concrete states.
use kc.Prelude.{ℕ, ◌≡◌, ◌≢◌, Bool, true, false, some, none, [], ◌∷◌, Result, ok, err, arith, refl}
use kc.Prelude.Int.{pos}
use kc.Segment.Store.{Error, Segment, database}
use kc.Segment.Buffer.{Buffer, returns, waits, next_id, take, load_next}
use kc.Segment.System.{Task, System, call, Run, done, handed}
use kc.Segment.System.Ascending.{Ascends, Ahead, Run-Ascends}
use kc.Segment.System.Waiting.{wait_ends}
use kc.Segment.Sql.{
  Row, Db, postgresql, mysql, refused, lost, deadlock, init_tag, fetch_segment, fetch_postgresql,
  fetch_mysql_once,
}
use kc.Segment.Sql.Laws.{sql_store, fetch_dialects, Above, fetch_segment-Above}
use kc.Segment.Sql.Init.{Settles, init_tag-Settles}

abbrev row : Row
row = record { max_id = 10; step = pos 2 }

abbrev db : Db
db = record { row = some row; weather = [] }

-- IDs 9 and 10 are in the buffer.
abbrev block : Segment
block = record { start = 9; end = 10; current = 9 }

abbrev start : Buffer
start = record {
  current = some block;
  exhausted = false;
  next = none;
  loading = false;
  load_done = 0;
  channels = 0;
}

abbrev sys : System (sql_store mysql)
sys = record { buffer = start; task = none; db = db }

abbrev loading_one : Buffer
loading_one = record start {
  current = some (record block { current = 10 });
  loading = true;
  channels = 1;
}

sys-Ahead : Ahead (sql_store mysql) 9 sys
sys-Ahead = record {
  bounded = omega arith;
  current_ok = (omega arith, omega arith, omega arith);
  next_ok = tt;
  pending_ok = tt;
  task_ok = refl;
}

first_call : next_id (sql_store mysql) start db true ≡ (db, returns loading_one (ok 9))
unfolding next_id take
first_call = refl

fetch_retries : fetch_segment mysql (record { row = some row; weather = refused deadlock ∷ [] }) ≡ (
  record { row = some (record { max_id = 12; step = pos 2 }); weather = [] },
  ok (record { start = 11; end = 12; current = 11 }),
)
unfolding fetch_segment
fetch_retries = refl

fetch_gives_up :
    fetch_segment postgresql
      (record { row = some row; weather = lost deadlock ∷ lost deadlock ∷ lost deadlock ∷ [] })
    ≡ (record { row = some (record { max_id = 16; step = pos 2 }); weather = [] }, err database)
unfolding fetch_segment
fetch_gives_up = refl

history :
    Run (sql_store mysql) sys (9 ∷ []) (record {
      buffer = loading_one;
      task = some (record { channel = 0; fetched = none });
      db = db;
    })
unfolding next_id take
history = handed 9 (call true db loading_one (ok 9) refl) (done _)

Run-Ascends_example : Ascends 9 (9 ∷ [])
Run-Ascends_example = Run-Ascends (sql_store mysql) history 9 sys-Ahead

abbrev used_up : Buffer
used_up = record loading_one { exhausted = true }

abbrev busy : System (sql_store mysql)
busy = record { buffer = used_up; task = some (record { channel = 0; fetched = none }); db = db }

busy-Ahead : Ahead (sql_store mysql) 11 busy
busy-Ahead = record {
  bounded = omega arith;
  current_ok = (omega arith, omega arith, omega arith);
  next_ok = tt;
  pending_ok = tt;
  task_ok = (refl, refl, refl);
}

wait_ends_example :
    ((task : Task) × (busy.task ≡ some task) × (task.channel ≡ 0))
    × ((r : Result Error Segment) (later : Db) (still : Bool) (other : ℕ)
        → (next_id (sql_store mysql) (load_next used_up 0 r) later still).1 ≢ waits other)
unfolding next_id
wait_ends_example = wait_ends (sql_store mysql) 11 busy true db 0 busy-Ahead refl

fetch_dialects_example : fetch_postgresql (some row) ≡ fetch_mysql_once (some row)
fetch_dialects_example = fetch_dialects 10 (pos 2) (omega arith) (omega arith)

fetch_segment-Above_example : Above 10 (fetch_segment mysql db)
fetch_segment-Above_example = fetch_segment-Above mysql db

init_tag-Settles_example :
    Settles
      (some row)
      (some (record { max_id = 10; step = pos 50 }))
      (init_tag postgresql 0 (pos 50) (record { row = some row; weather = lost deadlock ∷ [] }))
init_tag-Settles_example = init_tag-Settles postgresql 0 (pos 50) (some row) (lost deadlock ∷ [])
