-- ===== src/Segment/Buffer.antt =====
-- `segmentBuffer` of pkg/idgen/segment/segment.go. Its mutex makes each locked section one step.
-- A channel is the number under which it was made; int64 values here are never negative.
use kc.Prelude.{
  ℕ, ◌+◌, ◌-◌, ◌*◌, Bool, true, false, Option, some, none, Result, ok, err, ltb, ◌==◌, ◌||◌, ◌&&◌,
  if◌then◌else◌,
}
use kc.Segment.Store.{Error, biz_tag_not_found, Segment, SegmentStore}

abbrev pub preload_numerator : ℕ
preload_numerator = 1

abbrev pub preload_denominator : ℕ
preload_denominator = 5

-- `channels` counts the channels made so far.
pub record Buffer : Type 0 where
  pub current : Option Segment
  pub exhausted : Bool
  pub next : Option Segment
  pub loading : Bool
  pub load_done : ℕ
  pub channels : ℕ

-- `nextID` returns, or unlocks and waits for a channel to be closed, and then starts over.
pub data Outcome : Type 0 where
  returns : Buffer → Result Error ℕ → Outcome
  waits : ℕ → Outcome

abbrev pub is_some {ℓ} : {A : Type ℓ} → Option A → Bool
is_some none = false
is_some (some a) = true

-- `active`: `startAsync` starts the task, since the generator is not closed. Without it the new
-- channel is closed at once.
unfoldable pub start_preload : Buffer → Bool → Buffer
start_preload b active = record b {
  loading = active;
  load_done = b.channels;
  channels = b.channels + 1;
}

-- `total` and `used` as in the source; they stop at 0 where the source's are negative, and
-- both tests then return just as there.
unfoldable pub maybe_start_preload : Buffer → Segment → ℕ → Bool → Buffer
unfolding start_preload
maybe_start_preload b c last active =
    let total = c.end + 1 - c.start in
    let used = last + 1 - c.start in
    if b.loading || is_some b.next
    then b
    else if total == 0 || ltb (used * preload_denominator) (total * preload_numerator)
    then b
    else start_preload b active

-- From `id := b.current.Current` on. `End` may be the largest int64, so `Current` stays there.
unfoldable pub take : Buffer → Segment → Bool → Buffer × ℕ
unfolding maybe_start_preload
take b c active =
    let b' =
      if c.current == c.end
      then record b { exhausted = true }
      else record b { current = some (record c { current = c.current + 1 }) } in
    (maybe_start_preload b' c c.current active, c.current)

-- The locked section of `loadNext`, with the result of its fetch.
unfoldable pub load_next : Buffer → ℕ → Result Error Segment → Buffer
load_next b channel (ok next) =
    if b.loading && (b.load_done == channel)
    then record b { next = some next; loading = false }
    else b
load_next b channel (err e) =
    if b.loading && (b.load_done == channel) then record b { loading = false } else b

module _ (store : SegmentStore) where
  open store use {State, fetch_segment}

  abbrev pub hands_out : Buffer → Segment → Bool → Outcome
  hands_out b c active = let (b', id) = take b c active in returns b' (ok id)

  -- The current segment is used up.
  unfoldable pub refill : Buffer → State → Bool → State × Outcome
  refill b s active = elim b.next [
    | some n ↦
        (s, hands_out (record b { current = some n; exhausted = false; next = none }) n active)
    | none ↦
        if b.loading
        then (s, waits b.load_done)
        else let (s', fetched) = fetch_segment s in
          elim fetched [
            | err e ↦ (s', returns b (err e))
            | ok seg ↦
                (s', hands_out (record b { current = some seg; exhausted = false }) seg active)
          ]
  ]

  -- One round of the loop of `nextID`.
  unfoldable pub next_id : Buffer → State → Bool → State × Outcome
  unfolding refill
  next_id b s active = elim b.current [
    | none ↦ (s, returns b (err biz_tag_not_found))
    | some c ↦
        if b.exhausted || ltb c.end c.current then refill b s active else (s, hands_out b c active)
  ]
