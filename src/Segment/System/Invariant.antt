-- ===== src/Segment/System/Invariant.antt =====
-- The blocks that a buffer holds or awaits lie above one another (segment.go).
use kc.Prelude.{
  ℕ, suc, ◌≤◌, ◌<◌, ◌≡◌, Bool, true, false, Option, some, none, Result, ok, err, arith, refl, sym,
  ap, subst, if◌then◌else◌, ltb, Option-cases, Bool-cases, inl, inr, ◌||◌,
}
use kc.Segment.Store.{Error, Segment, SegmentStore, IsFresh}
use kc.Segment.Buffer.{Buffer, Outcome, returns, waits, next_id, take, refill, hands_out}
use kc.Segment.System.{Task, spawn}

-- The first ID of the current segment that is not taken.
abbrev pub cursor : Bool → Segment → ℕ
cursor exhausted c = if exhausted then suc c.end else c.current

abbrev pub CurrentOk : ℕ → Bool → Option Segment → ℕ → Type 0
CurrentOk low exhausted none high = Unit {0}
CurrentOk low exhausted (some c) high =
    (low ≤ cursor exhausted c) × (c.current ≤ c.end) × (c.end ≤ high)

abbrev pub BlockOk : ℕ → Option Segment → ℕ → Type 0
BlockOk low none high = Unit {0}
BlockOk low (some s) high = (low ≤ s.current) × (s.current ≤ s.end) × (s.end ≤ high)

abbrev pub top : ℕ → Option Segment → ℕ
top low none = low
top low (some s) = suc s.end

abbrev pub pending : Option Task → Option Segment
pending none = none
pending (some t) = elim t.fetched [
  | none ↦ none
  | some r ↦ elim r [ ok seg ↦ some seg | err e ↦ none ]
]

-- A preload is under way exactly while its task is, on the channel that callers wait for.
abbrev pub TaskOk : Option Task → Buffer → Type 0
TaskOk none b = b.loading ≡ false
TaskOk (some t) b = (b.loading ≡ true) × (t.channel ≡ b.load_done) × (b.next ≡ none)

-- From here on only IDs from `low` on are handed out. The segment that is current, the next one
-- and the one that a preload has fetched ascend, and the store has given them away.
pub record IsAhead (low : ℕ) (b : Buffer) (task : Option Task) (high : ℕ) : Type 0 where
  pub bounded : low ≤ suc high
  pub current_ok : CurrentOk low b.exhausted b.current high
  pub next_ok : BlockOk (top low b.current) b.next high
  pub pending_ok : BlockOk (top low b.current) (pending task) high
  pub task_ok : TaskOk task b

-- Taking an ID from a segment that has some left.
take-IsAhead :
    (low : ℕ) (b : Buffer) (c : Segment) (task : Option Task) (high : ℕ) (active : Bool)
    → b.current ≡ some c
    → b.exhausted ≡ false
    → low ≤ c.current
    → c.current ≤ c.end
    → c.end ≤ high
    → BlockOk (suc c.end) b.next high
    → BlockOk (suc c.end) (pending task) high
    → TaskOk task b
    → IsAhead (suc c.current) (take b c active).0 (spawn b (take b c active).0 task) high
unfolding take
take-IsAhead low b c none high active e x p q r n k t = ground arith
take-IsAhead low b c (some task) high active e x p q r n k t = ground arith

module _ (store : SegmentStore) where
  open store use {State, fetch_segment, high, high-fetch, fetch_fresh, fetch_above}

  abbrev pub After : ℕ → Buffer → Option Task → State × Outcome → Type 0
  After low b task (db, waits ch) = (b.loading ≡ true) × (ch ≡ b.load_done)
  After low b task (db, returns b' (err e)) = IsAhead low b' (spawn b b' task) (high db)
  After low b task (db, returns b' (ok id)) =
      (low ≤ id) × IsAhead (suc id) b' (spawn b b' task) (high db)

  hands_out-After :
      (low : ℕ) (b : Buffer) (c : Segment) (task : Option Task) (db : State) (active : Bool)
      → b.current ≡ some c
      → b.exhausted ≡ false
      → low ≤ c.current
      → c.current ≤ c.end
      → c.end ≤ high db
      → BlockOk (suc c.end) b.next (high db)
      → BlockOk (suc c.end) (pending task) (high db)
      → TaskOk task b
      → After low b task (db, hands_out store b c active)
  unfolding take
  hands_out-After low b c task db active e x p q r n k t =
      (p, take-IsAhead low b c task (high db) active e x p q r n k t)

  abbrev fetches : Buffer → Bool → State × Result Error Segment → State × Outcome
  fetches b active out = elim out.1 [
    | err e ↦ (out.0, returns b (err e))
    | ok seg ↦
        (out.0, hands_out store (record b { current = some seg; exhausted = false }) seg active)
  ]

  refill_idle :
      (b : Buffer) (db : State) (active : Bool)
      → b.next ≡ none
      → b.loading ≡ false
      → refill store b db active ≡ fetches b active (fetch_segment db)
  unfolding refill
  refill_idle b db active e l = simp (e, refill, l)

  -- No preload is under way, so there is no task.
  fetched-After :
      (low : ℕ) (b : Buffer) (c : Segment) (task : Option Task) (db : State) (active : Bool)
      (out : State × Result Error Segment)
      → fetch_segment db ≡ out
      → b.next ≡ none
      → b.loading ≡ false
      → b.current ≡ some c
      → IsAhead low b task (high db)
      → After low b task (fetches b active out)
  fetched-After low b c none db active (db', err e) f n l cur v =
      let h : high db ≤ high db' = subst (λ o. high db ≤ high o.0) f (high-fetch db) in ground arith
  fetched-After low b c none db active (db', ok seg) f n l cur v =
      let fresh : IsFresh seg = fetch_fresh db seg (ap (λ o. o.1) f) in
      let above = fetch_above db seg (ap (λ o. o.1) f) in
      let upto : seg.end ≤ high db' = subst (λ o. seg.end ≤ high o.0) f above.1 in
      let least : high db < seg.start = above.0 in
      hands_out-After low (record b { current = some seg; exhausted = false }) seg none db' active
        refl refl (ground (arith, v.bounded)) (ground arith) upto (ground arith) tt l
  fetched-After low b c (some t) db active out f n l cur v = ground (arith, v.task_ok)

  refill-After :
      (low : ℕ) (b : Buffer) (c : Segment) (task : Option Task) (db : State) (active : Bool)
      → b.current ≡ some c
      → low ≤ suc c.end
      → IsAhead low b task (high db)
      → After low b task (refill store b db active)
  unfolding refill
  refill-After low b c task db active cur lo v = elim (Option-cases b.next) [
    | inl empty ↦ elim (Bool-cases b.loading) [
      | inl busy ↦ rw (empty, refill, busy) (refl, refl)
      | inr idle ↦
          subst (After low b task) (sym (refill_idle b db active empty idle))
            (fetched-After low b c task db active (fetch_segment db) refl empty idle cur v)
    ]
    | inr (n, waiting) ↦
        rw (waiting, refill)
          (hands_out-After low (record b { current = some n; exhausted = false; next = none }) n
            task db active refl refl (ground (arith, v.next_ok)) (ground (arith, v.next_ok))
            (ground (arith, v.next_ok)) tt (no_pending task n waiting v.task_ok)
            (no_task task n waiting v.task_ok))
  ]
    where
      no_pending :
          (t : Option Task) (n : Segment)
          → b.next ≡ some n
          → TaskOk t b
          → BlockOk (suc n.end) (pending t) (high db)
      no_pending none n e k = tt
      no_pending (some t) n e k = ground (arith, k)

      no_task :
          (t : Option Task) (n : Segment)
          → b.next ≡ some n
          → TaskOk t b
          → TaskOk t (record b { current = some n; exhausted = false; next = none })
      no_task none n e k = k
      no_task (some t) n e k = (k.0, k.1, refl)

  -- One round of `nextID` hands out an ID from `low` on and leaves only higher ones, or fails and
  -- leaves the bound; it waits only for the channel of a preload that is under way.
  pub next_id-After :
      (low : ℕ) (b : Buffer) (task : Option Task) (db : State) (active : Bool)
      → IsAhead low b task (high db)
      → After low b task (next_id store b db active)
  unfolding next_id
  next_id-After low b task db active v = elim (Option-cases b.current) [
    | inl none_yet ↦ rw (none_yet, next_id) (same task v)
    | inr (c, cur) ↦ elim (Bool-cases (b.exhausted || ltb c.end c.current)) [
      | inl used_up ↦
          rw (cur, next_id, used_up)
            (refill-After low b c task db active cur (ground (arith, v.current_ok)) v)
      | inr left ↦
          rw (cur, next_id, left)
            (hands_out-After low b c task db active cur (ground arith)
              (ground (arith, v.current_ok)) (ground (arith, v.current_ok))
              (ground (arith, v.current_ok)) (ground (arith, v.next_ok))
              (ground (arith, v.pending_ok)) v.task_ok)
    ]
  ]
    where
      same : (t : Option Task) → IsAhead low b t (high db) → IsAhead low b (spawn b b t) (high db)
      same none w = ground (arith, w)
      same (some t) w = ground (arith, w)
