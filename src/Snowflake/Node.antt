-- ===== src/Snowflake/Node.antt =====
-- pkg/idgen/snowflake/node.go. The mutex makes each method one step: a function on the node.
-- An int64 that the code keeps non-negative is a number; one that comes from outside is a ℤ.
-- The readings of `n.now().UnixMilli()` during a call are a list, in the order they are taken.
pub mod Layout
pub mod Draws
pub mod Order
pub mod Decoding
pub mod Waiting
pub mod Retired
pub mod Since
mod Examples
use Prim.Native.Nat.{bit_or}
use kc.Prelude.{
  ℕ, ◌+◌, ◌-◌, ◌*◌, ◌/◌, ◌%◌, ◌^◌, Bool, true, false, Option, none, some, List, [], ◌∷◌, Result, ok,
  err, ltb, leb, ◌==◌, if◌then◌else◌, ◌||◌,
}
use kc.Prelude.Int.{ℤ, pos, negsuc, ltb_ℤ, ◌+ℤ◌, ◌-ℤ◌, wrap64, two64}

-- The errors of the package (snowflake.go) that the modelled code returns.
pub data Error : Type 0 where
  invalid_config closed lease_lost clock_backwards no_worker_id timestamp_overflow : Error

abbrev pub max_worker_id : ℕ
max_worker_id = 1023

abbrev pub max_sequence : ℕ
max_sequence = 4095

abbrev pub max_timestamp : ℕ
max_timestamp = 2199023255551

abbrev pub default_epoch : ℕ
default_epoch = 1577836800000

pub record Node : Type 0 where
  pub timestamp : ℕ
  pub worker_id : ℕ
  pub sequence : ℕ
  pub epoch : ℤ
  pub retired : Bool

is_zero : ℤ → Bool
is_zero (pos n) = n == 0
is_zero (negsuc n) = false

unfoldable pub new_node : ℤ → ℤ → Result Error Node
unfolding is_zero
new_node (negsuc w) epoch = err invalid_config
new_node (pos w) epoch =
    if ltb max_worker_id w
    then err invalid_config
    else ok (record {
      timestamp = 0;
      worker_id = w;
      sequence = 0;
      epoch = if is_zero epoch then pos default_epoch else epoch;
      retired = false;
    })

-- `x << k` on the 64-bit pattern.
abbrev pub shl : ℕ → ℕ → ℕ
shl x k = (x * 2 ^ k) % two64

pub pack : ℕ → ℕ → ℕ → ℕ
pack elapsed worker sequence = bit_or (bit_or (shl elapsed 22) (shl worker 12)) sequence

-- The end of `generate`: the sequence is set already, the timestamp moves only on success.
pub issue : Node → ℕ → ℕ → Node × Result Error ℕ
unfolding pack ◌-ℤ◌
issue n sequence current =
    let n' = record n { sequence = sequence } in
    elim (wrap64 (pos current -ℤ n.epoch)) [
      | negsuc _ ↦ (n', err invalid_config)
      | pos elapsed ↦
          if ltb max_timestamp elapsed
          then (n', err timestamp_overflow)
          else (record n' { timestamp = current }, ok (pack elapsed n.worker_id sequence))
    ]

-- The loop that waits for the next millisecond, over the readings that follow. `none`: the
-- readings are used up and the loop still waits.
pub wait_next : ℕ → List ℤ → Option (Result Error ℕ)
wait_next timestamp [] = none
wait_next timestamp (negsuc _ ∷ later) = some (err clock_backwards)
wait_next timestamp (pos current ∷ later) =
    let rest = wait_next timestamp later in
    if ltb current timestamp
    then some (err clock_backwards)
    else if leb current timestamp
    then rest
    else some (ok current)

pub after_wait : Node → Option (Result Error ℕ) → Option (Node × Result Error ℕ)
unfolding issue
after_wait n none = none
after_wait n (some (err e)) = some (n, err e)
after_wait n (some (ok current)) = some (issue n 0 current)

-- From the first reading on; a reading before 1970 is behind every timestamp.
pub at_reading : Node → ℤ → List ℤ → Option (Node × Result Error ℕ)
unfolding after_wait wait_next
at_reading n (negsuc _) later = some (n, err clock_backwards)
at_reading n (pos current) later =
    if ltb current n.timestamp
    then some (n, err clock_backwards)
    else if current == n.timestamp
    then if n.sequence == max_sequence
      then after_wait n (wait_next n.timestamp later)
      else some (issue n (n.sequence + 1) current)
    else some (issue n 0 current)

unfoldable pub generate : Node → List ℤ → Option (Node × Result Error ℕ)
unfolding at_reading
generate n readings =
    if n.retired
    then some (n, err lease_lost)
    else elim readings [ [] ↦ none | current ∷ later ↦ at_reading n current later ]

-- `retire` stops the node and returns the last timestamp that it used.
unfoldable pub retire : Node → Node × ℕ
retire n = (record n { retired = true }, n.timestamp)

pub latest_timestamp : Node → ℕ
latest_timestamp n = n.timestamp

-- `>>` on an int64 rounds down.
abbrev pub sar : ℤ → ℕ → ℤ
sar (pos n) k = pos (n / 2 ^ k)
sar (negsuc n) k = negsuc (n / 2 ^ k)

unfoldable pub get_time_from_id : Node → ℤ → ℤ
unfolding ◌+ℤ◌
get_time_from_id n id = wrap64 (sar id 22 +ℤ n.epoch)

-- A series of calls on one node, each with its readings, until one never returns: the node at
-- the end, and the results in order.
unfoldable pub run : Node → List (List ℤ) → Node × List (Result Error ℕ)
run n [] = (n, [])
run n (readings ∷ calls) = elim (generate n readings) [
  | none ↦ (n, [])
  | some (n', r) ↦ let (m, rs) = run n' calls in (m, r ∷ rs)
]
