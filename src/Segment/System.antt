-- ===== src/Segment/System.antt =====
-- One buffer of pkg/idgen/segment/segment.go at work: callers of `nextID`, the preload that runs
-- beside them, and other processes on the same row.
pub mod Invariant
pub mod Ascending
pub mod Waiting
use kc.Prelude.{
  ℕ, suc, ◌+◌, ◌≤◌, ◌<◌, ◌≡◌, Bool, true, false, Option, some, none, List, [], ◌∷◌, Result, ok, err,
  arith, refl, if◌then◌else◌, ltb,
}
use kc.Segment.Store.{Error, biz_tag_not_found, Segment, SegmentStore, IsFresh}
use kc.Segment.Buffer.{
  Buffer, Outcome, returns, waits, next_id, take, load_next, refill, maybe_start_preload, hands_out,
}

-- The goroutine that `startAsync` starts: its channel, and the result once it has fetched.
pub record Task : Type 0 where
  pub channel : ℕ
  pub fetched : Option (Result Error Segment)

abbrev pub given : Result Error ℕ → Option ℕ
given (ok id) = some id
given (err e) = none

-- A call that has set `loading` has started the task.
abbrev pub spawn : Buffer → Buffer → Option Task → Option Task
spawn b b' task =
    if b.loading
    then task
    else if b'.loading
    then some (record { channel = b'.load_done; fetched = none })
    else task

module _ (store : SegmentStore) where
  open store use {State, fetch_segment, high, high-fetch, fetch_fresh, fetch_above}

  pub record System : Type 0 where
    pub buffer : Buffer
    pub task : Option Task
    pub db : State

  -- A step, with the ID that it hands out. A call that waits changes nothing.
  pub data Step (sys : System) : Option ℕ → System → Type 0 where
    call :
        (active : Bool) (db : State) (b : Buffer) (r : Result Error ℕ)
        → next_id store sys.buffer sys.db active ≡ (db, returns b r)
        → Step sys (given r) (record { buffer = b; task = spawn sys.buffer b sys.task; db = db })
    fetch :
        (channel : ℕ)
        → sys.task ≡ some (record { channel = channel; fetched = none })
        → Step sys none (record sys {
          task = some (record { channel = channel; fetched = some (fetch_segment sys.db).1 });
          db = (fetch_segment sys.db).0;
        })
    deliver :
        (channel : ℕ) (r : Result Error Segment)
        → sys.task ≡ some (record { channel = channel; fetched = some r })
        → Step sys none (record sys { buffer = load_next sys.buffer channel r; task = none })
    others : (db : State) → high sys.db ≤ high db → Step sys none (record sys { db = db })

  -- A history, with the IDs that it hands out in order.
  pub data Run : System → List ℕ → System → Type 0 where
    done : (sys : System) → Run sys [] sys
    silent :
        {sys mid end : System} {ids : List ℕ}
        → Step sys none mid
        → Run mid ids end
        → Run sys ids end
    handed :
        {sys mid end : System} {ids : List ℕ} (id : ℕ)
        → Step sys (some id) mid
        → Run mid ids end
        → Run sys (id ∷ ids) end
