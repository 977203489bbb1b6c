-- ===== src/Balancer/State.antt =====
-- The types of pkg/registry/etcd/balancer.go, and the instances of pkg/registry/registry.go.
-- The states of instances are shared by pointer: by the name map, the dense slice and the
-- resolutions in flight. They stand in a heap, and a pointer is an address. Times are the
-- nanoseconds of UnixNano, from 1970 on.
use kc.Prelude.{ℕ, Bool, false, List, if◌then◌else◌, ◌==◌}
use kc.Prelude.Names.{String, Map}
use kc.Prelude.Int.{ℤ}

pub record Instance : Type 0 where
  pub service : String
  pub id : String
  pub endpoint : String
  pub metadata : List (String × String)

pub record InstanceState : Type 0 where
  pub instance : Instance
  pub index : ℕ
  pub ewma : ℤ
  pub inflight : ℕ
  pub failures : ℕ
  pub ejected_until : ℕ
  pub half_open : Bool

abbrev pub new_instance_state : Instance → ℤ → InstanceState
new_instance_state instance initial_latency = record {
  instance = instance;
  index = 0;
  ewma = initial_latency;
  inflight = 0;
  failures = 0;
  ejected_until = 0;
  half_open = false;
}

-- The descriptor is replaced; health stays.
abbrev pub store_instance : InstanceState → Instance → InstanceState
store_instance item instance = record item { instance = instance }

abbrev pub Heap : Type 0
Heap = ℕ → InstanceState

abbrev pub write : Heap → ℕ → InstanceState → Heap
write heap a item = λ b. if b == a then item else heap b

-- `fresh` is the next address that `newInstanceState` returns.
pub record ServiceState : Type 0 where
  pub heap : Heap
  pub fresh : ℕ
  pub instances : Map ℕ
  pub items : List ℕ
  pub revision : ℤ
  pub last_used : ℕ
  pub active : ℕ
  pub rng : ℕ
