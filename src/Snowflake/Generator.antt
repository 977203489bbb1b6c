-- ===== src/Snowflake/Generator.antt =====
-- The generator of pkg/idgen/snowflake/snowflake.go: a node under a lease. Local times are
-- milliseconds. The generator is changed by Generate, by the heartbeat loop and by Close.
pub mod Guarded
use kc.Prelude.{
  ℕ, ◌+◌, Bool, true, false, Option, some, none, List, if◌then◌else◌, ltb, Result, ok, err,
}
use kc.Prelude.Names.{String}
use kc.Prelude.Int.{ℤ, pos}
use kc.Snowflake.Node.{Node, new_node, lease_lost, closed}
use kc.Snowflake.Node as Node
use kc.Snowflake.Leases.{
  Error, Workers, Allocation, heartbeat, release, allocate_worker, worker_allocation_retries,
  wait_for_clock, Weather,
}

pub data State : Type 0 where
  active stopped lost : State

pub record Generator : Type 0 where
  pub node : Node
  pub worker_id : ℕ
  pub token : String
  pub last_heartbeat : ℕ
  pub state : State
  pub context_done : Bool

abbrev pub default_safety_threshold : ℕ
default_safety_threshold = 20000

abbrev pub heartbeat_expired : Generator → ℕ → Bool
heartbeat_expired g now = ltb (g.last_heartbeat + default_safety_threshold) now

-- The swap from active to lost.
abbrev pub mark_lease_lost : Generator → Generator
mark_lease_lost g = elim g.state [ active ↦ record g { state = lost } | _ ↦ g ]

-- The part of Generate that asks the node.
abbrev pub issue_from :
    Generator → Option (Node × Result Node.Error ℕ) → Option (Generator × Result Node.Error ℕ)
issue_from g none = none
issue_from g (some (n, r)) = some (record g { node = n }, r)

-- Generate in each state of the generator. No lock spans the check of the heartbeat and the node:
-- `meanwhile` is what the heartbeat loop and Close do to the generator between the two.
abbrev pub generate_in :
    State
    → Generator
    → ℕ
    → (Generator → Generator)
    → List ℤ
    → Option (Generator × Result Node.Error ℕ)
generate_in stopped g now meanwhile readings = some (g, err closed)
generate_in lost g now meanwhile readings = some (g, err lease_lost)
generate_in active g now meanwhile readings =
    if g.context_done
    then some (g, err closed)
    else (if heartbeat_expired g now
        then some (mark_lease_lost g, err lease_lost)
        else issue_from (meanwhile g) (Node.generate (meanwhile g).node readings))

unfoldable pub generate :
    Generator → ℕ → (Generator → Generator) → List ℤ → Option (Generator × Result Node.Error ℕ)
generate g now meanwhile readings = generate_in g.state g now meanwhile readings

-- What updateHeartbeat and the loop around it make of the answer of the table.
abbrev pub after_heartbeat : Generator → ℕ → Result Error (Unit {0}) → Generator
after_heartbeat g now (ok done) = record g { last_heartbeat = now }
after_heartbeat g now (err Error.lease_lost) = mark_lease_lost g
after_heartbeat g now (err e) = if heartbeat_expired g now then mark_lease_lost g else g

-- updateHeartbeat in the loop: the table hears the latest timestamp of the node.
unfoldable pub update_heartbeat : Generator → Workers → ℕ → ℕ → Generator × Workers
update_heartbeat g w now database_now =
    let r = heartbeat w g.worker_id g.token (Node.latest_timestamp g.node) database_now in
    (after_heartbeat g now r.1, r.0)

-- The node of a new lease takes the place of the old one.
abbrev pub renewed : Generator → Node → Allocation → ℕ → Generator
renewed g n a now =
    let state' : State = elim g.state [ lost ↦ active | s ↦ s ] in
    record g {
      node = n;
      worker_id = a.worker_id;
      token = a.lease_token;
      last_heartbeat = now;
      state = state';
    }

-- The end of recoverLease: without a node or a clock that is past the barrier the new lease is
-- released again.
abbrev pub settled :
    Generator
    → Workers
    → Allocation
    → ℕ
    → Result Node.Error Node
    → Option (Result Error ℕ)
    → ℕ
    → Option (Generator × Workers)
settled g w a now (err e) waited database_now =
    some (g, release w a.worker_id a.lease_token a.last_timestamp database_now)
settled g w a now (ok n) none database_now = none
settled g w a now (ok n) (some (err e)) database_now =
    some (g, release w a.worker_id a.lease_token a.last_timestamp database_now)
settled g w a now (ok n) (some (ok start)) database_now = some (renewed g n a now, w)

-- recoverLease: the old node is retired before its lease is released. `none`: the readings of the
-- clock end while it waits.
abbrev pub reallocated :
    Generator
    → ℕ
    → Workers × Result Error Allocation
    → List ℕ
    → ℕ
    → ℕ
    → Option (Generator × Workers)
reallocated g epoch (w, err e) readings now database_now = some (g, w)
reallocated g epoch (w, ok a) readings now database_now =
    settled g w a now (new_node (pos a.worker_id) (pos epoch))
      (wait_for_clock readings a.last_timestamp) database_now

unfoldable pub recover_lease :
    Generator → Workers → ℕ → (ℕ → Weather) → List ℕ → ℕ → ℕ → Option (Generator × Workers)
recover_lease g w epoch weather readings now database_now =
    let old = Node.retire g.node in
    let released = release w g.worker_id g.token old.1 database_now in
    reallocated (record g { node = old.0 }) epoch
      (allocate_worker worker_allocation_retries released epoch weather) readings now database_now

unfoldable pub close : Generator → Workers → ℕ → Generator × Workers
close g w database_now =
    let old = Node.retire g.node in
    (
      record g { state = stopped; context_done = true; node = old.0 },
      release w g.worker_id g.token old.1 database_now,
    )
