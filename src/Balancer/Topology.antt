-- ===== src/Balancer/Topology.antt =====
-- The topology of pkg/registry/etcd/balancer.go: snapshots, watch events and their revisions.
-- An operation on a slice that Go would refuse with a panic gives `none`.
pub mod Dense
pub mod Removal
pub mod Snapshot
pub mod Events
use kc.Prelude.{
  ℕ, suc, ◌+◌, ◌-◌, Bool, true, false, Option, some, none, List, [], ◌∷◌, ◌++◌, if◌then◌else◌, ltb,
  ◌==◌, length, get_elem?, set, take, not,
}
use kc.Prelude.Names.{String, Map, empty, insert, delete, same}
use kc.Prelude.Int.{ℤ, ltb_ℤ}
use kc.Balancer.State.{
  Instance, InstanceState, new_instance_state, store_instance, Heap, write, ServiceState,
}

-- `s.items[i] = item`
abbrev pub assign : List ℕ → ℕ → ℕ → Option (List ℕ)
assign items i a = if ltb i (length items) then some (set items i a) else none

-- An item with its place in the slice.
abbrev pub placed : InstanceState → ℕ → InstanceState
placed item index = record item { index = index }

-- The new state of an instance that is listed: the same object with its health when the endpoint
-- is the same, and else a new object.
abbrev pub refreshed : ServiceState → ℕ → Instance → ℤ → ℕ × InstanceState × ℕ
refreshed s a instance latency =
    if same (s.heap a).instance.endpoint instance.endpoint
    then (a, store_instance (s.heap a) instance, s.fresh)
    else (s.fresh, new_instance_state instance latency, suc s.fresh)

abbrev pub put_known : ServiceState → ℕ → Instance → ℤ → Option ServiceState
put_known s previous instance latency =
    let r = refreshed s previous instance latency in
    let index = (s.heap previous).index in
    elim (assign s.items index r.0) [
      | none ↦ none
      | some items ↦ some (record s {
        heap = write s.heap r.0 (placed r.1 index);
        fresh = r.2;
        instances = insert s.instances instance.id r.0;
        items = items;
      })
    ]

abbrev pub put_new : ServiceState → Instance → ℤ → ServiceState
put_new s instance latency = record s {
  heap = write s.heap s.fresh (placed (new_instance_state instance latency) (length s.items));
  fresh = suc s.fresh;
  instances = insert s.instances instance.id s.fresh;
  items = s.items ++ s.fresh ∷ [];
}

unfoldable pub put_locked : ServiceState → Instance → ℤ → Option ServiceState
put_locked s instance latency = elim (s.instances instance.id) [
  | none ↦ some (put_new s instance latency)
  | some previous ↦ put_known s previous instance latency
]

-- The tail of the slice takes the place of the item, unless the item is the tail.
abbrev pub swap_tail : Heap → List ℕ → ℕ → ℕ → Option (Heap × List ℕ)
swap_tail heap items index last =
    if index == last then some (heap, items) else (elim (get_elem? items last) [
      | none ↦ none
      | some tail ↦ elim (assign items index tail) [
        | none ↦ none
        | some items' ↦ some (write heap tail (placed (heap tail) index), items')
      ]
    ])

abbrev pub remove_known : ServiceState → String → ℕ → Option ServiceState
remove_known s id a =
    let last = length s.items - 1 in
    elim (swap_tail s.heap s.items (s.heap a).index last) [
      | none ↦ none
      | some swapped ↦ some (record s {
        heap = swapped.0;
        items = take last (swapped.1);
        instances = delete s.instances id;
      })
    ]

unfoldable pub remove_locked : ServiceState → String → Option ServiceState
remove_locked s id = elim (s.instances id) [ none ↦ some s | some a ↦ remove_known s id a ]

-- What the loop over a snapshot carries: the heap, and the map and slice that it builds.
pub record Rebuild : Type 0 where
  pub heap : Heap
  pub fresh : ℕ
  pub next_map : Map ℕ
  pub next_items : List ℕ

-- The state as the loop has it, with the new map and slice in place.
abbrev pub built : ServiceState → Rebuild → ServiceState
built s b = record s {
  heap = b.heap;
  fresh = b.fresh;
  instances = b.next_map;
  items = b.next_items;
}

-- The object of an instance: the previous one if it is known, as the loop has left it.
abbrev pub reused : ServiceState → ℤ → Rebuild → Instance → ℕ × InstanceState × ℕ
reused s latency b instance = elim (s.instances instance.id) [
  | none ↦ (b.fresh, new_instance_state instance latency, suc b.fresh)
  | some a ↦ refreshed (built s b) a instance latency
]

abbrev pub rebuild_one : ServiceState → ℤ → Rebuild → Instance → Rebuild
rebuild_one s latency b instance =
    let r : ℕ × InstanceState × ℕ = reused s latency b instance in
    record {
      heap = write b.heap r.0 (placed r.1 (length b.next_items));
      fresh = r.2;
      next_map = insert b.next_map instance.id r.0;
      next_items = b.next_items ++ r.0 ∷ [];
    }

unfoldable pub rebuild : ServiceState → ℤ → Rebuild → List Instance → Rebuild
rebuild s latency b [] = b
rebuild s latency b (instance ∷ rest) = rebuild s latency (rebuild_one s latency b instance) rest

abbrev pub start : ServiceState → Rebuild
start s = record { heap = s.heap; fresh = s.fresh; next_map = empty; next_items = [] }

unfoldable pub replace_locked : ServiceState → List Instance → ℤ → ServiceState
replace_locked s instances latency = built s (rebuild s latency (start s) instances)

abbrev pub stamp : ℤ → Option ServiceState → Option ServiceState
stamp revision none = none
stamp revision (some s) = some (record s { revision = revision })

unfoldable pub put_at : ServiceState → Instance → ℤ → ℤ → Option ServiceState
put_at s instance latency revision =
    if ltb_ℤ revision s.revision then some s else stamp revision (put_locked s instance latency)

unfoldable pub remove_at : ServiceState → String → ℤ → Option ServiceState
remove_at s id revision =
    if ltb_ℤ revision s.revision then some s else stamp revision (remove_locked s id)

unfoldable pub replace_at : ServiceState → List Instance → ℤ → ℤ → Option ServiceState
replace_at s instances latency revision =
    if ltb_ℤ revision s.revision
    then some s
    else stamp revision (some (replace_locked s instances latency))

unfoldable pub advance_revision : ServiceState → ℤ → ServiceState
advance_revision s revision =
    if ltb_ℤ s.revision revision then record s { revision = revision } else s
