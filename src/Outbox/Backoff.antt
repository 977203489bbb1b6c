-- ===== src/Outbox/Backoff.antt =====
-- The waiting times between attempts of pkg/outbox/worker.go, in nanoseconds.
use kc.Prelude.{
  ℕ, zero, suc, ◌+◌, ◌-◌, ◌*◌, ◌/◌, ◌≤◌, ◌<◌, ◌≡◌, refl, subst, if◌then◌else◌, ltb, arith,
  Bool-cases, inl, inr,
}

abbrev pub millisecond : ℕ
millisecond = 1000000

abbrev pub lower : ℕ → ℕ → ℕ
lower a b = if ltb b a then b else a

abbrev pub upper : ℕ → ℕ → ℕ
upper a b = if ltb a b then b else a

-- The loop of backoff, with `rounds` rounds to go: the delay doubles until it reaches the maximum,
-- and it is the maximum as soon as doubling would pass it.
unfoldable pub grow : ℕ → ℕ → ℕ → ℕ
grow zero delay retry_max = delay
grow (suc rounds) delay retry_max =
    let rest = grow rounds (delay * 2) retry_max in
    if ltb delay retry_max then (if ltb (retry_max / 2) delay then retry_max else rest) else delay

-- Half of the delay, and a random part of the other half.
unfoldable pub jittered : (ℕ → ℕ) → ℕ → ℕ
jittered draw delay = upper millisecond (delay / 2 + draw (delay - delay / 2 + 1))

-- `draw n` is rand.Int64N, a number below n.
unfoldable pub backoff : ℕ → ℕ → (ℕ → ℕ) → ℕ → ℕ
backoff retry_min retry_max draw attempt =
    jittered draw (lower (grow (attempt - 1) retry_min retry_max) retry_max)

-- Doubled as often as there are rounds.
abbrev pub doubled : ℕ → ℕ → ℕ
doubled zero delay = delay
doubled (suc rounds) delay = doubled rounds (delay * 2)

doubled_least : (rounds delay : ℕ) → delay ≤ doubled rounds delay
doubled_least zero delay = omega arith
doubled_least (suc rounds) delay = omega (arith, doubled_least rounds (delay * 2))

pub grow_doubles :
    (rounds delay retry_max : ℕ)
    → delay ≤ retry_max
    → lower (grow rounds delay retry_max) retry_max ≡ lower (doubled rounds delay) retry_max
unfolding grow
grow_doubles zero delay retry_max h = refl
grow_doubles (suc rounds) delay retry_max h = elim (Bool-cases (ltb (retry_max / 2) delay)) [
  | inl late ↦ ground (arith, late, doubled_least rounds (delay * 2))
  | inr early ↦ ground (
    arith,
    early,
    doubled_least rounds (delay * 2),
    grow_doubles rounds (delay * 2) retry_max (ground (arith, early)),
  )
]

jittered_bounds :
    (draw : ℕ → ℕ) (delay : ℕ)
    → draw (delay - delay / 2 + 1) < delay - delay / 2 + 1
    → millisecond ≤ delay
    → (delay / 2 ≤ jittered draw delay)
      × (jittered draw delay ≤ delay)
      × (millisecond ≤ jittered draw delay)
unfolding jittered
jittered_bounds draw delay below least = (ground arith, ground arith, ground arith)

-- The wait before the next attempt is the shortest wait, doubled once for each attempt after the
-- first and cut at the longest wait, with a random half: at least half of that, and at most all of
-- it. It is a millisecond at least, when the waits are. The draw gives a number below its bound.
pub backoff_bounds :
    (retry_min retry_max : ℕ) (draw : ℕ → ℕ) (attempt : ℕ)
    → ((n : ℕ) → 0 < n → draw n < n)
    → millisecond ≤ retry_min
    → retry_min ≤ retry_max
    → let delay = lower (doubled (attempt - 1) retry_min) retry_max in
      (delay / 2 ≤ backoff retry_min retry_max draw attempt)
      × (backoff retry_min retry_max draw attempt ≤ delay)
      × (millisecond ≤ backoff retry_min retry_max draw attempt)
      × (retry_min ≤ delay)
      × (delay ≤ retry_max)
unfolding backoff
backoff_bounds retry_min retry_max draw attempt below least order =
    let same_delay = grow_doubles (attempt - 1) retry_min retry_max order in
    let bounds =
      subst
        (λ d.
          (d / 2 ≤ jittered draw (lower (grow (attempt - 1) retry_min retry_max) retry_max))
          × (jittered draw (lower (grow (attempt - 1) retry_min retry_max) retry_max) ≤ d)
          × (millisecond
              ≤ jittered draw (lower (grow (attempt - 1) retry_min retry_max) retry_max)))
        same_delay
        (jittered_bounds draw (lower (grow (attempt - 1) retry_min retry_max) retry_max)
          (below _ (omega arith))
          (ground (arith, same_delay, doubled_least (attempt - 1) retry_min))) in
    (
      bounds.0,
      bounds.1,
      bounds.2,
      ground (arith, doubled_least (attempt - 1) retry_min),
      ground arith,
    )
