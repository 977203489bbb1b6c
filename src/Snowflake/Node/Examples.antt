-- ===== src/Snowflake/Node/Examples.antt =====
-- Runs of node.go on small inputs, and the theorems at concrete nodes.
use kc.Prelude.{ℕ, ◌/◌, ◌%◌, ◌<◌, ◌≡◌, ◌≢◌, refl, false, some, List, [], ◌∷◌, err, ok, arith}
use kc.Prelude.Int.{ℤ, pos, two63}
use kc.Snowflake.Node.{
  Node, invalid_config, clock_backwards, timestamp_overflow, new_node, generate, run,
  get_time_from_id,
}
use kc.Snowflake.Node.Layout.{IsValid, id_at}
use kc.Snowflake.Node.Order.{Ascending, run-Ascending}
use kc.Snowflake.Node.Decoding.{generate-decodes, generate_workers_disjoint}
use kc.Snowflake.Node.Retired.{generate_overflow_reissues}

abbrev fresh : Node
fresh = record { timestamp = 0; worker_id = 5; sequence = 0; epoch = pos 1000; retired = false }

abbrev other : Node
other = record fresh { worker_id = 6 }

abbrev full : Node
full = record fresh { timestamp = 2000; sequence = 4095 }

fresh-IsValid : IsValid fresh
fresh-IsValid = record {
  epoch = refl;
  epoch_fits = omega arith;
  worker = omega arith;
  sequence = omega arith;
}

other-IsValid : IsValid other
other-IsValid = record {
  epoch = refl;
  epoch_fits = omega arith;
  worker = omega arith;
  sequence = omega arith;
}

new_node_runs : new_node (pos 5) (pos 1000) ≡ ok fresh
unfolding new_node
new_node_runs = refl

new_node_refuses : new_node (pos 1024) (pos 1000) ≡ err invalid_config
unfolding new_node
new_node_refuses = refl

abbrev clock : List (List ℤ)
clock = (pos 2000 ∷ []) ∷ (pos 2000 ∷ []) ∷ (pos 1999 ∷ []) ∷ (pos 2001 ∷ []) ∷ []

clock_runs : run fresh clock ≡ (
  record fresh { timestamp = 2001; sequence = 0 },
  ok 4194324480 ∷ ok 4194324481 ∷ err clock_backwards ∷ ok 4198518784 ∷ [],
)
unfolding run generate
clock_runs = refl

waits_for_next :
    generate full (pos 2000 ∷ pos 2000 ∷ pos 2001 ∷ [])
    ≡ some (record fresh { timestamp = 2001; sequence = 0 }, ok 4198518784)
unfolding generate
waits_for_next = refl

run-Ascending_example : Ascending 0 (run fresh clock).1
run-Ascending_example = run-Ascending fresh clock fresh-IsValid (omega arith)

generate-decodes_example :
    (get_time_from_id fresh (pos 4194324480) ≡ pos 2000)
    × (4194324480 / 4096 % 1024 ≡ 5)
    × (4194324480 % 4096 ≡ 0)
    × (4194324480 < two63)
unfolding generate
generate-decodes_example =
    generate-decodes fresh (pos 2000 ∷ []) {n' = record fresh { timestamp = 2000; sequence = 0 }}
      {id = 4194324480} fresh-IsValid (omega arith) refl

generate_workers_disjoint_example : ◌≢◌ {A = ℕ} 4194324480 4194328576
unfolding generate
generate_workers_disjoint_example =
    generate_workers_disjoint fresh other (pos 2000 ∷ []) (pos 2000 ∷ [])
      {n' = record fresh { timestamp = 2000; sequence = 0 }}
      {m' = record other { timestamp = 2000; sequence = 0 }} fresh-IsValid other-IsValid
      (λ e. absurd (omega arith)) (omega arith) (omega arith) refl refl

generate_overflow_reissues_example :
    (run fresh
      ((pos 2000 ∷ []) ∷ (pos 2000 ∷ []) ∷ (pos 2200000000000 ∷ []) ∷ (pos 2000 ∷ []) ∷ [])).1
    ≡ ok (id_at fresh 2000 0)
      ∷ ok (id_at fresh 2000 1)
      ∷ err timestamp_overflow
      ∷ ok (id_at fresh 2000 1)
      ∷ []
generate_overflow_reissues_example =
    generate_overflow_reissues fresh 2000 2200000000000 fresh-IsValid refl (omega arith)
      (omega arith) (omega arith) (omega arith) (omega arith)
