-- ===== src/Segment/System/Ascending.antt =====
-- Over every history of one buffer (segment.go): the IDs ascend, and no caller waits in vain.
use kc.Prelude.{
  ℕ, suc, ◌≤◌, ◌<◌, ◌≡◌, Bool, Option, some, none, List, [], ◌∷◌, Result, ok, err, arith, refl, ap,
  subst,
}
use kc.Segment.Store.{Error, Segment, SegmentStore, IsFresh}
use kc.Segment.Buffer.{Buffer, load_next}
use kc.Segment.System.{Task, System, Step, call, fetch, deliver, others, Run, done, silent, handed}
use kc.Segment.System.Invariant.{IsAhead, CurrentOk, BlockOk, pending, After, next_id-After, top}

-- Each ID is above the ones before it, and none is below `low`.
abbrev pub Ascends : ℕ → List ℕ → Type 0
Ascends low [] = Unit {0}
Ascends low (id ∷ ids) = (low ≤ id) × Ascends (suc id) ids

raise-BlockOk : (low : ℕ) (s : Option Segment) (h k : ℕ) → h ≤ k → BlockOk low s h → BlockOk low s k
raise-BlockOk low none h k le b = tt
raise-BlockOk low (some s) h k le b = omega arith

raise-CurrentOk :
    (low : ℕ) (x : Bool) (s : Option Segment) (h k : ℕ)
    → h ≤ k
    → CurrentOk low x s h
    → CurrentOk low x s k
raise-CurrentOk low x none h k le b = tt
raise-CurrentOk low x (some s) h k le b = (b.0, b.1, omega arith)

raise-IsAhead :
    (low : ℕ) (b : Buffer) (t : Option Task) (h k : ℕ)
    → h ≤ k
    → IsAhead low b t h
    → IsAhead low b t k
raise-IsAhead low b t h k le v = record {
  bounded = omega (arith, v.bounded);
  current_ok = raise-CurrentOk low b.exhausted b.current h k le v.current_ok;
  next_ok = raise-BlockOk (top low b.current) b.next h k le v.next_ok;
  pending_ok = raise-BlockOk (top low b.current) (pending t) h k le v.pending_ok;
  task_ok = v.task_ok;
}

-- Where the preload ends its segment becomes the next one, and the buffer is free to load again.
load_next-IsAhead :
    (low : ℕ) (b : Buffer) (channel : ℕ) (r : Result Error Segment) (h : ℕ)
    → IsAhead low b (some (record { channel = channel; fetched = some r })) h
    → IsAhead low (load_next b channel r) none h
unfolding load_next
load_next-IsAhead low b channel (ok s) h v = ground arith
load_next-IsAhead low b channel (err e) h v = ground arith

module _ (store : SegmentStore) where
  open store use {State, fetch_segment, high, high-fetch, fetch_fresh, fetch_above}

  abbrev pub Ahead : ℕ → System store → Type 0
  Ahead low sys = IsAhead low sys.buffer sys.task (high sys.db)

  abbrev StepOk : ℕ → Option ℕ → System store → Type 0
  StepOk low none sys = Ahead low sys
  StepOk low (some id) sys = (low ≤ id) × Ahead (suc id) sys

  -- The fetched segment lies above all that the store had given away, so above the current one.
  fetched-IsAhead :
      (low : ℕ) (b : Buffer) (channel : ℕ) (db : State) (out : State × Result Error Segment)
      → fetch_segment db ≡ out
      → IsAhead low b (some (record { channel = channel; fetched = none })) (high db)
      → IsAhead low b (some (record { channel = channel; fetched = some out.1 })) (high out.0)
  fetched-IsAhead low b channel db (db', err e) f v =
      let up : high db ≤ high db' = subst (λ o. high db ≤ high o.0) f (high-fetch db) in
      let w =
        raise-IsAhead low b (some (record { channel = channel; fetched = none })) (high db)
          (high db') up v in
      record {
        bounded = w.bounded;
        current_ok = w.current_ok;
        next_ok = w.next_ok;
        pending_ok = tt;
        task_ok = v.task_ok;
      }
  fetched-IsAhead low b channel db (db', ok seg) f v =
      let up : high db ≤ high db' = subst (λ o. high db ≤ high o.0) f (high-fetch db) in
      let fresh : IsFresh seg = fetch_fresh db seg (ap (λ o. o.1) f) in
      let above = fetch_above db seg (ap (λ o. o.1) f) in
      let upto : seg.end ≤ high db' = subst (λ o. seg.end ≤ high o.0) f above.1 in
      let least : high db < seg.start = above.0 in
      let w =
        raise-IsAhead low b (some (record { channel = channel; fetched = none })) (high db)
          (high db') up v in
      record {
        bounded = w.bounded;
        current_ok = w.current_ok;
        next_ok = w.next_ok;
        pending_ok = (top_le b.current v.bounded v.current_ok least fresh, ground arith, upto);
        task_ok = v.task_ok;
      }
    where
      top_le :
          (c : Option Segment)
          → low ≤ suc (high db)
          → CurrentOk low b.exhausted c (high db)
          → high db < seg.start
          → IsFresh seg
          → top low c ≤ seg.current
      top_le none p q r fr = omega arith
      top_le (some c) p q r fr = omega arith

  Step-StepOk :
      {low : ℕ} {sys sys' : System store} {l : Option ℕ}
      → Step store sys l sys'
      → Ahead low sys
      → StepOk low l sys'
  Step-StepOk {low} {sys} (call active db b (ok id) e) v =
      subst (After store low sys.buffer sys.task) e
        (next_id-After store low sys.buffer sys.task sys.db active v)
  Step-StepOk {low} {sys} (call active db b (err x) e) v =
      subst (After store low sys.buffer sys.task) e
        (next_id-After store low sys.buffer sys.task sys.db active v)
  Step-StepOk {low} {sys} (fetch channel e) v =
      fetched-IsAhead low sys.buffer channel sys.db (fetch_segment sys.db) refl
        (subst (λ t. IsAhead low sys.buffer t (high sys.db)) e v)
  Step-StepOk {low} {sys} (deliver channel r e) v =
      load_next-IsAhead low sys.buffer channel r (high sys.db)
        (subst (λ t. IsAhead low sys.buffer t (high sys.db)) e v)
  Step-StepOk {low} {sys} (others db h) v =
      raise-IsAhead low sys.buffer sys.task (high sys.db) (high db) h v

  -- Whatever the calls, the preloads and the other processes on the row do in between, and whatever
  -- fails, the IDs that one buffer hands out strictly ascend.
  pub Run-Ascends :
      {sys sys' : System store} {ids : List ℕ}
      → Run store sys ids sys'
      → (low : ℕ) → Ahead low sys
      → Ascends low ids
  Run-Ascends (done sys) low v = tt
  Run-Ascends (silent s r) low v = Run-Ascends r low (Step-StepOk s v)
  Run-Ascends (handed id s r) low v = let w = Step-StepOk s v in (w.0, Run-Ascends r (suc id) w.1)
