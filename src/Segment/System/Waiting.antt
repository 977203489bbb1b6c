-- ===== src/Segment/System/Waiting.antt =====
-- A caller of `nextID` that waits (segment.go).
use kc.Prelude.{
  ℕ, ◌≡◌, ◌≢◌, Bool, true, false, Option, some, none, Result, ok, err, arith, refl, sym, subst,
}
use kc.Segment.Store.{Error, Segment, SegmentStore}
use kc.Segment.Buffer.{Buffer, waits, next_id, load_next}
use kc.Segment.System.{Task, System}
use kc.Segment.System.Invariant.{TaskOk, After, next_id-After}
use kc.Segment.System.Ascending.{Ahead}

has_task :
    (t : Option Task) (b : Buffer) (ch : ℕ)
    → TaskOk t b
    → b.loading ≡ true
    → ch ≡ b.load_done
    → (task : Task) × (t ≡ some task) × (task.channel ≡ ch)
has_task none b ch k l e = absurd (ground arith)
has_task (some task) b ch k l e = (task, refl, ground arith)

module _ (store : SegmentStore) where
  open store use {State}

  idle-returns :
      (b : Buffer) (db : State) (active : Bool) (ch : ℕ)
      → b.loading ≡ false
      → (next_id store b db active).1 ≢ waits ch
  unfolding next_id
  idle-returns b db active ch l = λ e. ground arith

  load_next-idle :
      (b : Buffer) (r : Result Error Segment) → (load_next b b.load_done r).loading ≡ false
  unfolding load_next
  load_next-idle b (ok s) = ground arith
  load_next-idle b (err e) = ground arith

  -- A caller waits only for a preload that is under way, and once that has ended, with whatever
  -- result, a round of `nextID` returns.
  pub wait_ends :
      (low : ℕ) (sys : System store) (active : Bool) (db : State) (ch : ℕ)
      → Ahead store low sys
      → next_id store sys.buffer sys.db active ≡ (db, waits ch)
      → ((task : Task) × (sys.task ≡ some task) × (task.channel ≡ ch))
        × ((r : Result Error Segment) (later : State) (still : Bool) (other : ℕ)
            → (next_id store (load_next sys.buffer ch r) later still).1 ≢ waits other)
  wait_ends low sys active db ch v e =
      let w : (sys.buffer.loading ≡ true) × (ch ≡ sys.buffer.load_done) =
        subst (After store low sys.buffer sys.task) e
          (next_id-After store low sys.buffer sys.task sys.db active v) in
      (
        has_task sys.task sys.buffer ch v.task_ok w.0 w.1,
        λ r later still other. idle-returns (load_next sys.buffer ch r) later still other (
            subst (λ c. (load_next sys.buffer c r).loading ≡ false) (sym w.1)
              (load_next-idle sys.buffer r)),
      )
