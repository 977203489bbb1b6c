-- ===== src/Snowflake/Examples.antt =====
-- Runs of the leases of pkg/idgen/snowflake on a table with one worker.
use kc.Prelude.{◌<◌, ◌≡◌, refl, false, some, none, [], ◌∷◌, if◌then◌else◌, ◌==◌, ok, arith}
use kc.Prelude.Names.{same}
use kc.Prelude.Int.{pos}
use kc.Snowflake.Node.{Node}
use kc.Snowflake.Node as Node
use kc.Snowflake.Node.Since.{Since}
use kc.Snowflake.Leases.{
  Worker, Workers, Allocation, allocate_locked, release, heartbeat, wait_for_clock, find_expired,
  max_timestamp, is_expired, startup_clock_wait,
}
use kc.Snowflake.Leases.Allocating.{Allocates, allocate_locked-Allocates}
use kc.Snowflake.Leases.Barrier.{allocates, apply_all, reuse_is_later}
use kc.Snowflake.Leases.Survival.{live_lease_survives}
use kc.Snowflake.Generator.{Generator, active, generate}
use kc.Snowflake.Generator.Guarded.{generate_excludes_reclaim}

abbrev worker : Worker
worker = record { last_timestamp = 900; updated_at = 1000; lease_token = "mine" }

abbrev workers : Workers
workers = record { rows = λ id. if id == 0 then some worker else none; coordinator = none }

allocate_locked-Allocates_example :
    Allocates workers 40000 "new" (allocate_locked workers 40000 "new")
allocate_locked-Allocates_example = allocate_locked-Allocates workers 40000 "new"

-- After the release at 2000 the worker ID goes to another process, with the barrier 40000.
abbrev allocation : Allocation
allocation = record { worker_id = 0; last_timestamp = 40000; lease_token = "new" }

allocated :
    (allocate_locked (apply_all (release workers 0 "mine" 950 2000) []) 40000 "new").1
    ≡ ok allocation
unfolding allocate_locked find_expired max_timestamp release same
allocated = refl

-- The new owner starts at the reading 40001, and its clock goes on from there.
abbrev new_owner : Node
new_owner = record { timestamp = 0; worker_id = 0; sequence = 0; epoch = pos 7; retired = false }

reuse_is_later_example :
    (950 < 40001)
    × Since new_owner 40001
        (Node.run new_owner ((pos 40001 ∷ []) ∷ (pos 40001 ∷ []) ∷ (pos 40003 ∷ []) ∷ [])).1
unfolding same wait_for_clock startup_clock_wait Node.new_node
reuse_is_later_example =
    reuse_is_later workers 0 "mine" 950 2000 worker refl [] 40000 "new" allocation allocated
      (40001 ∷ []) 40001 refl 7 new_owner refl (omega arith)
      ((pos 40001 ∷ []) ∷ (pos 40001 ∷ []) ∷ (pos 40003 ∷ []) ∷ [])
      (omega arith, (omega arith, (omega arith, tt)))
      (omega arith, (omega arith, (omega arith, tt)))

live_lease_survives_example :
    (heartbeat (apply_all workers (allocates 7 "new" 31000 ∷ [])) 0 "mine" 990 31500).1 ≡ ok tt
live_lease_survives_example =
    live_lease_survives 0 "mine" 1000 workers (allocates 7 "new" 31000 ∷ [])
      (worker, refl, refl, omega arith, omega arith) (omega arith, tt) 990 31500

abbrev node : Node
node = record { timestamp = 1200; worker_id = 0; sequence = 0; epoch = pos 1000; retired = false }

abbrev generator : Generator
generator = record {
  node = node;
  worker_id = 0;
  token = "mine";
  last_heartbeat = 1000;
  state = active;
  context_done = false;
}

-- A heartbeat comes between the check and the node.
abbrev beaten : Generator → Generator
beaten g = record g { last_heartbeat = 1290 }

abbrev after_issue : Generator
after_issue = record generator { node = record node { timestamp = 1400 }; last_heartbeat = 1290 }

issued : generate generator 1300 beaten (pos 1400 ∷ []) ≡ some (after_issue, ok 1677721600)
unfolding generate Node.generate
issued = refl

generate_excludes_reclaim_example :
    (active ≡ active)
    × ((row : Worker) × (workers.rows 0 ≡ some row) × (is_expired 11300 row ≡ false))
generate_excludes_reclaim_example =
    generate_excludes_reclaim generator after_issue 1300 1677721600 beaten (pos 1400 ∷ []) issued
      refl workers 1000 11300 100 9900 (worker, refl, refl, omega arith, omega arith) (omega arith)
      (omega arith) (omega arith)
