-- ===== src/Balancer/Pick.antt =====
-- The choice of an instance in pkg/registry/etcd/balancer.go: pick, reserve, score, randomN,
-- allEjected and canEvict. The float arithmetic of the processor is a parameter.
pub mod Choosing
pub mod Chosen
pub mod Probing
use Prim.Native.Nat.{bit_xor}
use kc.Prelude.{
  ℕ, zero, suc, ◌+◌, ◌-◌, ◌*◌, ◌/◌, ◌%◌, Bool, true, false, Option, some, none, List, [], ◌∷◌,
  if◌then◌else◌, ltb, leb, ◌==◌, length, get_elem?, not, ◌&&◌, ◌||◌,
}
use kc.Prelude.Int.{ℤ, pos, ◌+ℤ◌, two64}
use kc.Balancer.State.{InstanceState, Heap, write, ServiceState}

-- `float64`.
pub record Floats : Type 1 where
  pub F : Type 0
  pub float64 : ℤ → F
  pub mul : F → F → F
  pub add : F → F → F
  pub sub : F → F → F
  pub lt : F → F → Bool
  pub int64 : F → ℤ

abbrev pub eligible : InstanceState → ℕ → Bool
eligible item now = (item.ejected_until == 0) || (leb item.ejected_until now && not item.half_open)

abbrev pub none_eligible : Heap → ℕ → List ℕ → Bool
none_eligible heap now [] = true
none_eligible heap now (a ∷ rest) =
    let others = none_eligible heap now rest in if eligible (heap a) now then false else others

unfoldable pub all_ejected : ServiceState → ℕ → Bool
all_ejected s now = if length s.items == 0 then false else none_eligible s.heap now s.items

unfoldable pub can_evict : ServiceState → ℕ → ℕ → Bool
can_evict s now idle_ttl = (s.active == 0) && leb (s.last_used + idle_ttl) now

-- The next state of the generator, which is also what the mixing starts from.
abbrev pub next_seed : ℕ → ℕ
next_seed rng = (rng + 11400714819323198485) % two64

abbrev pub mixed : ℕ → ℕ
mixed x =
    let y = bit_xor x (x / 1073741824) * 13787848793156543929 % two64 in
    let z = bit_xor y (y / 134217728) * 10723151780598845931 % two64 in bit_xor z (z / 2147483648)

unfoldable pub random_n : ℕ → ℕ → ℕ
random_n seed n = mixed seed % n

pub record Candidates : Type 0 where
  pub first : Option ℕ
  pub second : Option ℕ
  pub rng : ℕ

abbrev pub is_nil : Option ℕ → Bool
is_nil none = true
is_nil (some a) = false

-- A candidate is still wanted: `first == nil || (second == nil && count > 1)`.
abbrev pub wanting : Candidates → ℕ → Bool
wanting c count = is_nil c.first || (is_nil c.second && ltb 1 count)

-- An eligible item becomes the first candidate, or the second if it is another one.
abbrev pub consider : ℕ → Candidates → Candidates
consider a c = elim c.first [
  | none ↦ record c { first = some a }
  | some f ↦ if a == f then c else record c { second = some a }
]

abbrev pub attempt : Heap → List ℕ → ℕ → Candidates → Option Candidates
attempt heap items now c =
    let seed = next_seed c.rng in
    let drawn : Candidates = record c { rng = seed } in
    elim (get_elem? items (random_n seed (length items))) [
      | none ↦ none
      | some a ↦ if eligible (heap a) now then some (consider a drawn) else some drawn
    ]

-- At most `attempts` further draws, while a candidate is wanted.
abbrev pub sample : ℕ → Heap → List ℕ → ℕ → Candidates → Option Candidates
sample zero heap items now c = some c
sample (suc attempts) heap items now c =
    elim (if wanting c (length items) then attempt heap items now c else some c) [
      | none ↦ none
      | some c' ↦ sample attempts heap items now c'
    ]

-- The scan of the slice: it stops at the first item that makes a second candidate.
abbrev pub scan : Heap → ℕ → List ℕ → Candidates → Candidates
scan heap now [] c = c
scan heap now (a ∷ rest) c =
    let further = scan heap now rest c in
    let further_first = scan heap now rest (record c { first = some a }) in
    if eligible (heap a) now
    then (elim c.first [
      | none ↦ further_first
      | some f ↦ if a == f then further else record c { second = some a }
    ])
    else further

-- Of the items without a probe in flight, the one whose ejection ends first.
abbrev pub earliest : Heap → List ℕ → Option ℕ → Option ℕ
earliest heap [] first = first
earliest heap (a ∷ rest) first =
    let passed = earliest heap rest first in
    let taken = earliest heap rest (some a) in
    if (heap a).half_open then passed else (elim first [
      | none ↦ taken
      | some f ↦ if ltb (heap a).ejected_until (heap f).ejected_until then taken else passed
    ])

-- `halfOpen.CompareAndSwap(false, true)` is refused while an ejected item has a probe in flight.
abbrev pub probe_refused : InstanceState → ℕ → Bool
probe_refused item now =
    (not (item.ejected_until == 0)) && leb item.ejected_until now && item.half_open

-- The swap that succeeds marks an item whose ejection is over as probed.
abbrev pub admitted : InstanceState → ℕ → InstanceState
admitted item now = record item {
  half_open = item.half_open || ((not (item.ejected_until == 0)) && leb item.ejected_until now);
  inflight = suc item.inflight;
}

unfoldable pub reserve : Heap → ℕ → ℕ → Option Heap
reserve heap a now =
    if probe_refused (heap a) now then none else some (write heap a (admitted (heap a) now))

abbrev pub no_candidates : ServiceState → Candidates
no_candidates s = record { first = none; second = none; rng = s.rng }

-- At most eight draws.
unfoldable pub draws : ServiceState → ℕ → Option Candidates
draws s now = sample 8 s.heap s.items now (no_candidates s)

-- What the draws have found, completed by the scan.
abbrev pub completed : ServiceState → ℕ → Candidates → Candidates
completed s now drawn =
    if wanting drawn (length s.items) then scan s.heap now s.items drawn else drawn

module _ (fl : Floats) where
  unfoldable pub score : InstanceState → Floats.F fl
  score item = fl.mul (fl.float64 item.ewma) (fl.float64 (pos (suc item.inflight)))

  abbrev pub better : Heap → ℕ → Option ℕ → ℕ
  better heap first none = first
  better heap first (some second) =
      if fl.lt (score (heap second)) (score (heap first)) then second else first

  -- The counter of the chosen item goes up, unless another caller has its probe: then the second
  -- candidate is tried.
  unfoldable pub claim : ServiceState → ℕ → Option ℕ → ℕ → ServiceState × Option ℕ
  claim s chosen second now =
      let used : Heap → ServiceState = λ heap. record s { heap = heap; last_used = now } in
      if probe_refused (s.heap chosen) now
      then (elim second [
        | none ↦ (s, none)
        | some b ↦ elim (reserve s.heap b now) [
          | none ↦ (s, none)
          | some heap ↦ (used heap, some b)
        ]
      ])
      else (used (write s.heap chosen (admitted (s.heap chosen) now)), some chosen)

  -- The choice among the candidates; without one, the item whose ejection ends first. pick holds the
  -- read lock alone: `meanwhile` is what other callers and reports do to the items between the choice
  -- and the swap.
  abbrev pub finish : ServiceState → (Heap → Heap) → ℕ → Candidates → ServiceState × Option ℕ × Bool
  finish s meanwhile now c =
      let all_ejected = is_nil c.first in
      let first = if all_ejected then earliest s.heap s.items none else c.first in
      let seeded : ServiceState = record s { rng = c.rng } in
      elim first [
        | none ↦ (seeded, none, true)
        | some f ↦
            (let r =
                claim (record seeded { heap = meanwhile s.heap }) (better s.heap f c.second)
                  c.second now in
              (r.0, r.1, all_ejected))
      ]

  unfoldable pub pick : ServiceState → (Heap → Heap) → ℕ → Option (ServiceState × Option ℕ × Bool)
  pick s meanwhile now =
      if length s.items == 0 then some (s, none, false) else (elim (draws s now) [
        | none ↦ none
        | some drawn ↦ some (finish s meanwhile now (completed s now drawn))
      ])
