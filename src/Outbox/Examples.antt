-- ===== src/Outbox/Examples.antt =====
-- Runs of the outbox of pkg/outbox on a few messages.
use kc.Prelude.{
  ℕ, ◌+◌, ◌-◌, ◌≤◌, ◌<◌, ◌≡◌, refl, Bool, true, false, Option, some, none, List, [], ◌∷◌, ok, err,
  arith, inr, if◌then◌else◌, ltb,
}
use kc.Prelude.Names.{String, same}
use kc.Prelude.Int.{pos}
use kc.Outbox.Store.{
  Message, Row, Table, Task, Settings, Status, processing, lease_lost, finish, holds,
}
use kc.Outbox.Store.Selection.{count}
use kc.Outbox.Store.Steps.{Step, claims_shard, finishes, apply_all}
use kc.Outbox.Store.Leases.{lease_exclusive}
use kc.Outbox.Store.Budget.{budget, deliveries_bounded}
use kc.Outbox.Shards.{Cluster, ShardLease, lock_shard, claim_shard, cleanup, assignment}
use kc.Outbox.Shards.Fencing.{
  Op, acquires, leaves, apply, apply_all as apply_ops, apply_all-Held, overtaken_is_fenced,
}
use kc.Outbox.Shards.Sorting.{has}
use kc.Outbox.Shards.Partition.{assignment_partition}
use kc.Outbox.Backoff.{backoff, backoff_bounds, millisecond}
use kc.Outbox.Config.{Config, ResolvedConfig, resolve_config, with_defaults, checked}
use kc.Outbox.Config.Consistent.{IsConsistent, resolve_config-IsConsistent}
use kc.Outbox.Transactions.{Outbox, Handler, returns, enqueues, answer_lost, transaction}
use kc.Outbox.Transactions.Atomic.{IsAtomic, transaction-IsAtomic}

abbrev settings : Settings
settings = record { retries = 2; task_lease = 60; retention = 1000; cleanup_batch_size = 10 }

abbrev hello : Message
hello = record { message_type = "greeting"; payload = "{}" }

abbrev claimed_row : Row
claimed_row = record {
  message = hello;
  shard_id = 3;
  status = processing;
  attempts = 1;
  next_attempt_at = 5;
  lease_token = "mine";
  lease_until = 70;
  last_error = "";
  created_at = 5;
  updated_at = 10;
  completed_at = 0;
}

abbrev one_row : Table
one_row = record { rows = λ id. if ltb id 1 then some claimed_row else none; next = 1 }

abbrev claimed : Task
claimed = record { id = 0; row = claimed_row }

abbrev nothing_locked : ℕ → Bool
nothing_locked id = false

abbrev foreign_steps : List (Step × ℕ)
foreign_steps =
    (claims_shard nothing_locked 3 10 "other", 20)
    ∷ (finishes (record claimed { row = record claimed_row { lease_token = "stale" } }) none 0, 30)
    ∷ []

lease_exclusive_example :
    (count 0 (apply_all settings one_row foreign_steps).1 ≡ 0)
    × ((error : Option String) (delay now : ℕ)
        → now < 70
        → (status : Status) × ((finish settings
              (apply_all settings one_row foreign_steps).0
              claimed
              error
              delay
              now).1
            ≡ ok status))
unfolding same
lease_exclusive_example =
    lease_exclusive settings one_row claimed 70 foreign_steps
      (claimed_row, refl, refl, refl, refl, omega arith)
      ((tt, omega arith), ((inr refl, omega arith), tt))

deliveries_bounded_example :
    count 0 (apply_all settings one_row foreign_steps).1
      + budget settings (apply_all settings one_row foreign_steps).0 0
    ≤ 2
deliveries_bounded_example =
    deliveries_bounded settings one_row 0 foreign_steps (omega arith) (tt, (tt, tt))

abbrev lease : ShardLease
lease = record { shard_id = 3; owner_id = "a"; token = "mine" }

abbrev cluster : Cluster
cluster = record {
  shards = λ id. some (record { owner = "a"; token = "mine"; until = 100 });
  nodes = ("a", 100) ∷ [];
}

abbrev takes : Op
takes = acquires "b" "theirs" (3 ∷ []) 50

apply_all-Held_example : lock_shard (apply_ops 30 cluster (takes ∷ [])) lease 99 ≡ ok tt
unfolding same
apply_all-Held_example =
    apply_all-Held 30 lease cluster 100 (takes ∷ []) refl ((refl, omega arith), tt) 99 (omega arith)

overtaken_is_fenced_example :
    let c' =
      apply_ops 30 (apply 30 cluster (acquires "b" "theirs" (3 ∷ []) 100)) (leaves "b" 120 ∷ []) in
    (claim_shard settings c' one_row nothing_locked lease 10 130 "new" ≡ (one_row, err lease_lost))
    × (cleanup settings c' one_row nothing_locked lease 130 ≡ (one_row, err lease_lost))
unfolding same
overtaken_is_fenced_example =
    overtaken_is_fenced 30 lease cluster 100 "b" "theirs" (3 ∷ []) 100 refl refl (omega arith) refl
      refl refl (leaves "b" 120 ∷ []) (tt, tt) settings one_row nothing_locked 9 130 "new"

abbrev two_nodes : List String
two_nodes = "b" ∷ "a" ∷ []

assignment_partition_example :
    (node : String) × (has two_nodes node ≡ true)
    × (holds (assignment two_nodes node) 5 ≡ true)
    × ((other : String) → holds (assignment two_nodes other) 5 ≡ true → other ≡ node)
unfolding same
assignment_partition_example =
    assignment_partition two_nodes (refl, (refl, tt)) 5 (omega arith) (omega arith)

backoff_bounds_example :
    (2000000 ≤ backoff 1000000 300000000 (λ n. n - 1) 3)
    × (backoff 1000000 300000000 (λ n. n - 1) 3 ≤ 4000000)
    × (millisecond ≤ backoff 1000000 300000000 (λ n. n - 1) 3)
    × (1000000 ≤ 4000000)
    × (4000000 ≤ 300000000)
backoff_bounds_example =
    backoff_bounds 1000000 300000000 (λ n. n - 1) 3 (λ n h. omega arith) (omega arith) (omega arith)

abbrev plain : Config
plain = record {
  names_safe = true;
  worker_count = pos 0;
  batch_size = pos 0;
  cleanup_batch_size = pos 0;
  durations = record {
    scan_interval = pos 0;
    handler_timeout = pos 0;
    task_lease = pos 0;
    heartbeat_interval = pos 0;
    shard_lease = pos 0;
    retry_min = pos 0;
    retry_max = pos 0;
    retention = pos 0;
    cleanup_interval = pos 0;
    operation_timeout = pos 0;
    close_timeout = pos 0;
  };
  max_retries = none;
  postgres_fits = true;
}

abbrev resolved : ResolvedConfig
resolved = record {
  worker_count = 4;
  batch_size = 100;
  cleanup_batch_size = 1000;
  scan_interval = 1000000000;
  handler_timeout = 30000000000;
  task_lease = 60000000000;
  heartbeat_interval = 5000000000;
  shard_lease = 30000000000;
  retry_min = 1000000000;
  retry_max = 300000000000;
  retention = 86400000000000;
  cleanup_interval = 60000000000;
  operation_timeout = 5000000000;
  close_timeout = 35000000000;
  retries = 20;
}

resolve_config-IsConsistent_example : IsConsistent resolved
unfolding resolve_config with_defaults checked
resolve_config-IsConsistent_example = resolve_config-IsConsistent plain resolved refl

abbrev outbox : Outbox
outbox = record {
  is_closed = false;
  has_handler = λ name. true;
  valid_type = λ name. true;
  blank = λ text. false;
}

abbrev two_messages : Handler
two_messages =
    enqueues (record { message = hello; id = 0; attempts = 0 }) 10
      (record { insert_fails = false; shard = 3 })
      (λ first.
        enqueues (record { message = hello; id = 0; attempts = 0 }) 11
          (record { insert_fails = false; shard = 4 }) (λ second. returns none))

transaction-IsAtomic_example :
    IsAtomic outbox one_row
      (some two_messages)
      (transaction outbox one_row (some two_messages) false answer_lost)
transaction-IsAtomic_example =
    transaction-IsAtomic outbox one_row (some two_messages) false answer_lost
