-- ===== src/Balancer/Topology/Removal.antt =====
-- Removal from the dense slice of pkg/registry/etcd/balancer.go, by a swap with its tail.
use kc.Prelude.{
  ℕ, ◌-◌, ◌<◌, ◌≡◌, ◌≢◌, false, some, none, if◌then◌else◌, ◌==◌, length, inl, inr, get_elem?, set,
  take, arith, get_elem?-set, get_elem?-take, get_elem?-lt, get_elem?-some, Option-cases,
  Bool-cases,
}
use kc.Prelude.Names.{String, delete, same, same→eq, same_self}
use kc.Balancer.State.{write, ServiceState}
use kc.Balancer.Topology.{remove_locked, placed, remove_known}
use kc.Balancer.Topology.Dense.{IsDense, view}

module _ (s : ServiceState) (id : String) (a : ℕ) (d : IsDense s)
    (found : s.instances id ≡ some a) where
  -- The state after the removal of the tail.
  abbrev cut : ServiceState
  cut = record s { items = take (length s.items - 1) s.items; instances = delete s.instances id }

  cut-IsDense : (s.heap a).index ≡ length s.items - 1 → IsDense cut
  cut-IsDense at_tail = record { slot = slot; named = named }
    where
      slot :
          (k b : ℕ)
          → get_elem? (take (length s.items - 1) s.items) k ≡ some b
          → ((s.heap b).index ≡ k) × (delete s.instances id (s.heap b).instance.id ≡ some b)
      slot k b e = ground (
        arith,
        get_elem?-take (length s.items - 1) s.items k,
        d.slot k b,
        d.named id a found,
        same→eq (s.heap b).instance.id id,
      )

      named :
          (id' : String) (b : ℕ)
          → delete s.instances id id' ≡ some b
          → (get_elem? (take (length s.items - 1) s.items) (s.heap b).index ≡ some b)
            × ((s.heap b).instance.id ≡ id')
            × (b < s.fresh)
      named id' b e = ground (
        arith,
        get_elem?-take (length s.items - 1) s.items (s.heap b).index,
        d.named id' b,
        d.named id a found,
        get_elem?-lt s.items (s.heap b).index {a = b},
        same_self id,
      )

  -- The state after the tail t takes the place of the item.
  abbrev swapped : ℕ → ServiceState
  swapped t = record s {
    heap = write s.heap t (placed (s.heap t) (s.heap a).index);
    items = take (length s.items - 1) (set s.items (s.heap a).index t);
    instances = delete s.instances id;
  }

  swapped-IsDense :
      (t : ℕ)
      → get_elem? s.items (length s.items - 1) ≡ some t
      → (s.heap a).index ≢ length s.items - 1
      → IsDense (swapped t)
  swapped-IsDense t tail inner = record { slot = slot; named = named }
    where
      slot :
          (k b : ℕ)
          → get_elem? (take (length s.items - 1) (set s.items (s.heap a).index t)) k ≡ some b
          → ((write s.heap t (placed (s.heap t) (s.heap a).index) b).index ≡ k)
            × (delete s.instances id
                  (write s.heap t (placed (s.heap t) (s.heap a).index) b).instance.id
                ≡ some b)
      slot k b e = ground (
        arith,
        get_elem?-take (length s.items - 1) (set s.items (s.heap a).index t) k,
        get_elem?-set s.items (s.heap a).index t k,
        d.slot k b,
        d.slot (length s.items - 1) t tail,
        d.named id a found,
        same→eq (s.heap b).instance.id id,
        same→eq (s.heap t).instance.id id,
      )

      named :
          (id' : String) (b : ℕ)
          → delete s.instances id id' ≡ some b
          → (get_elem?
                (take (length s.items - 1) (set s.items (s.heap a).index t))
                (write s.heap t (placed (s.heap t) (s.heap a).index) b).index
              ≡ some b)
            × ((write s.heap t (placed (s.heap t) (s.heap a).index) b).instance.id ≡ id')
            × (b < s.fresh)
      named id' b e = ground (
        arith,
        get_elem?-take (length s.items - 1) (set s.items (s.heap a).index t) (s.heap b).index,
        get_elem?-take (length s.items - 1) (set s.items (s.heap a).index t) (s.heap a).index,
        get_elem?-set s.items (s.heap a).index t (s.heap b).index,
        get_elem?-set s.items (s.heap a).index t (s.heap a).index,
        d.named id' b,
        d.slot (length s.items - 1) t tail,
        d.named id a found,
        get_elem?-lt s.items (s.heap b).index {a = b},
        get_elem?-lt s.items (s.heap a).index {a = a},
        same_self id,
      )

  view-cut : (id' : String) → view cut id' ≡ (if same id' id then none else view s id')
  unfolding view
  view-cut id' = ground arith

  view-swapped :
      (t : ℕ) → (id' : String) → view (swapped t) id' ≡ (if same id' id then none else view s id')
  unfolding view
  view-swapped t id' = elim (Option-cases (s.instances id')) [
    | inl e ↦ ground arith
    | inr (b, e) ↦ ground arith
  ]

  remove_known-refines :
      (s' : ServiceState) × (remove_known s id a ≡ some s')
      × IsDense s'
      × ((id' : String) → view s' id' ≡ (if same id' id then none else view s id'))
  remove_known-refines = elim (Bool-cases ((s.heap a).index == length s.items - 1)) [
    | inl e ↦ (cut, ground arith, cut-IsDense (ground arith), view-cut)
    | inr e ↦ inner e (
        get_elem?-some s.items (length s.items - 1)
          (omega (arith, get_elem?-lt s.items (s.heap a).index (d.named id a found).0)))
  ]
    where
      inner :
          ((s.heap a).index == length s.items - 1) ≡ false
          → (t : ℕ) × (get_elem? s.items (length s.items - 1) ≡ some t)
          → (s' : ServiceState) × (remove_known s id a ≡ some s')
            × IsDense s'
            × ((id' : String) → view s' id' ≡ (if same id' id then none else view s id'))
      inner e (t, tail) = (
        swapped t,
        ground (arith, get_elem?-lt s.items (s.heap a).index (d.named id a found).0),
        swapped-IsDense t tail (ground arith),
        view-swapped t,
      )

view-absent :
    (s : ServiceState) (id : String)
    → s.instances id ≡ none
    → (id' : String) → view s id' ≡ (if same id' id then none else view s id')
unfolding view
view-absent s id absent id' = ground (arith, same→eq id' id)

-- A removal never leaves the slice. It takes the name away and changes no other, whether the item
-- stood at the tail or inside, and it keeps the map and the slice the same set.
pub remove_locked-refines :
    (s : ServiceState) (id : String)
    → IsDense s
    → (s' : ServiceState) × (remove_locked s id ≡ some s')
      × IsDense s'
      × ((id' : String) → view s' id' ≡ (if same id' id then none else view s id'))
unfolding remove_locked
remove_locked-refines s id d = elim (Option-cases (s.instances id)) [
  | inl absent ↦ (s, ground arith, d, view-absent s id absent)
  | inr (a, found) ↦ (
    _,
    ground (arith, (remove_known-refines s id a d found).1),
    (remove_known-refines s id a d found).2,
    (remove_known-refines s id a d found).3,
  )
]
