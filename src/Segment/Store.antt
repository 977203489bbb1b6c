-- ===== src/Segment/Store.antt =====
-- The types of pkg/idgen/segment/segment.go, and what its double buffer needs of the store.
use kc.Prelude.{ℕ, ◌≤◌, ◌<◌, ◌≡◌, Result, ok}

-- `database` and `canceled` stand for errors that come from outside: the driver's, the context's.
pub data Error : Type 0 where
  invalid_config closed biz_tag_not_found id_overflow database canceled : Error

pub record Segment : Type 0 where
  pub start : ℕ
  pub end : ℕ
  pub current : ℕ

-- A segment as it comes from the store: not empty, and nothing of it taken.
pub record IsFresh (s : Segment) : Type 0 where
  pub nonempty : s.start ≤ s.end
  pub untouched : s.current ≡ s.start

-- `segmentStore`, for one business tag. `high` is the last ID that the store has given away.
pub record SegmentStore : Type 1 where
  pub State : Type 0
  pub fetch_segment : State → State × Result Error Segment
  pub high : State → ℕ
  pub high-fetch : (s : State) → high s ≤ high (fetch_segment s).0
  pub fetch_fresh : (s : State) (seg : Segment) → (fetch_segment s).1 ≡ ok seg → IsFresh seg
  pub fetch_above :
      (s : State) (seg : Segment)
      → (fetch_segment s).1 ≡ ok seg
      → (high s < seg.start) × (seg.end ≤ high (fetch_segment s).0)
