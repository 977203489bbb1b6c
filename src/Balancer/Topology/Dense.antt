-- ===== src/Balancer/Topology/Dense.antt =====
-- The index of pkg/registry/etcd/balancer.go: the name map and the dense slice hold the same
-- instances, and each instance knows its place in the slice.
use kc.Prelude.{
  ℕ, suc, ◌≤◌, ◌<◌, ◌≡◌, ◌≢◌, refl, Option, some, none, [], ◌∷◌, ◌++◌, if◌then◌else◌, length, ◌⊎◌,
  inl, inr, get_elem?, set, arith, get_elem?-set, get_elem?-append_one, get_elem?-lt, Option-cases,
}
use kc.Prelude.Names.{String, insert, same, same→eq, same_self}
use kc.Prelude.Int.{ℤ}
use kc.Balancer.State.{Instance, InstanceState, new_instance_state, write, ServiceState}
use kc.Balancer.Topology.{put_locked, refreshed, placed, put_new, put_known}

pub record IsDense (s : ServiceState) : Type 0 where
  pub slot :
      (k a : ℕ)
      → get_elem? s.items k ≡ some a
      → ((s.heap a).index ≡ k) × (s.instances (s.heap a).instance.id ≡ some a)
  pub named :
      (id : String) (a : ℕ)
      → s.instances id ≡ some a
      → (get_elem? s.items (s.heap a).index ≡ some a)
        × ((s.heap a).instance.id ≡ id)
        × (a < s.fresh)

-- The object r, which is the listed one or a new one, takes the place of a listed object.
abbrev pub replaced : ServiceState → String → ℕ → ℕ → InstanceState → ℕ → ServiceState
replaced s id a r item fresh = record s {
  heap = write s.heap r item;
  fresh = fresh;
  instances = insert s.instances id r;
  items = set s.items (s.heap a).index r;
}

module _ (s : ServiceState) (id : String) (a r : ℕ) (item : InstanceState) (fresh : ℕ)
    (d : IsDense s) (at_id : s.instances id ≡ some a) (which : (r ≡ a) ⊎ (r ≡ s.fresh))
    (same_id : item.instance.id ≡ id) (same_index : item.index ≡ (s.heap a).index)
    (above : r < fresh) (grown : s.fresh ≤ fresh) where
  replaced-slot :
      (j b : ℕ)
      → get_elem? (set s.items (s.heap a).index r) j ≡ some b
      → ((write s.heap r item b).index ≡ j)
        × (insert s.instances id r (write s.heap r item b).instance.id ≡ some b)
  replaced-slot j b e = ground (
    arith,
    get_elem?-set s.items (s.heap a).index r j,
    d.named id a at_id,
    get_elem?-lt s.items (s.heap a).index (d.named id a at_id).0,
    d.slot j b,
    d.named (s.heap b).instance.id b,
    same_self id,
    same→eq (s.heap b).instance.id id,
  )

  replaced-named :
      (id' : String) (b : ℕ)
      → insert s.instances id r id' ≡ some b
      → (get_elem? (set s.items (s.heap a).index r) (write s.heap r item b).index ≡ some b)
        × ((write s.heap r item b).instance.id ≡ id')
        × (b < fresh)
  replaced-named id' b e = ground (
    arith,
    get_elem?-set s.items (s.heap a).index r (write s.heap r item b).index,
    d.named id a at_id,
    get_elem?-lt s.items (s.heap a).index (d.named id a at_id).0,
    get_elem?-set s.items (s.heap a).index r (s.heap b).index,
    d.named id' b,
    d.slot (s.heap b).index b,
    same_self id,
    same→eq id' id,
  )

  pub replaced-IsDense : IsDense (replaced s id a r item fresh)
  replaced-IsDense = record { slot = replaced-slot; named = replaced-named }

-- Every item of the slice is a live object.
pub slot_below :
    (s : ServiceState) → IsDense s → (k a : ℕ) → get_elem? s.items k ≡ some a → a < s.fresh
slot_below s d k a e = (d.named (s.heap a).instance.id a (d.slot k a e).1).2

-- The object r, which the slice does not list, is appended under a name that the map does not hold.
abbrev pub appended : ServiceState → String → ℕ → InstanceState → ℕ → ServiceState
appended s id r item fresh = record s {
  heap = write s.heap r item;
  fresh = fresh;
  instances = insert s.instances id r;
  items = s.items ++ r ∷ [];
}

module _ (s : ServiceState) (id : String) (r : ℕ) (item : InstanceState) (fresh : ℕ) (d : IsDense s)
    (absent : s.instances id ≡ none) (unlisted : (k : ℕ) → get_elem? s.items k ≢ some r)
    (same_id : item.instance.id ≡ id) (same_index : item.index ≡ length s.items) (above : r < fresh)
    (grown : s.fresh ≤ fresh) where
  appended-slot :
      (j b : ℕ)
      → get_elem? (s.items ++ r ∷ []) j ≡ some b
      → ((write s.heap r item b).index ≡ j)
        × (insert s.instances id r (write s.heap r item b).instance.id ≡ some b)
  appended-slot j b e = ground (
    arith,
    get_elem?-append_one s.items r j,
    unlisted j,
    d.slot j b,
    same_self id,
    same→eq (s.heap b).instance.id id,
  )

  appended-named :
      (id' : String) (b : ℕ)
      → insert s.instances id r id' ≡ some b
      → (get_elem? (s.items ++ r ∷ []) (write s.heap r item b).index ≡ some b)
        × ((write s.heap r item b).instance.id ≡ id')
        × (b < fresh)
  appended-named id' b e = ground (
    arith,
    get_elem?-append_one s.items r (s.heap b).index,
    get_elem?-append_one s.items r (length s.items),
    get_elem?-lt s.items (s.heap b).index {a = b},
    unlisted (s.heap b).index,
    d.named id' b,
    same→eq id' id,
  )

  pub appended-IsDense : IsDense (appended s id r item fresh)
  appended-IsDense = record { slot = appended-slot; named = appended-named }

module _ (s : ServiceState) (instance : Instance) (latency : ℤ) (d : IsDense s) where
  put_new-IsDense : s.instances instance.id ≡ none → IsDense (put_new s instance latency)
  put_new-IsDense absent =
      appended-IsDense s instance.id s.fresh
        (placed (new_instance_state instance latency) (length s.items)) (suc s.fresh) d absent
        (λ k e. absurd (omega (arith, slot_below s d k s.fresh e))) refl refl (omega arith)
        (omega arith)

  -- What `put_known` makes of the state.
  known : ℕ → ServiceState
  known a =
      replaced s instance.id a (refreshed s a instance latency).0
        (placed (refreshed s a instance latency).1 (s.heap a).index)
        (refreshed s a instance latency).2

  known-put :
      (a : ℕ) → s.instances instance.id ≡ some a → put_known s a instance latency ≡ some (known a)
  unfolding known
  known-put a found =
      ground (arith, get_elem?-lt s.items (s.heap a).index (d.named instance.id a found).0)

  known-IsDense : (a : ℕ) → s.instances instance.id ≡ some a → IsDense (known a)
  unfolding known
  known-IsDense a found =
      replaced-IsDense s instance.id a (refreshed s a instance latency).0
        (placed (refreshed s a instance latency).1 (s.heap a).index)
        (refreshed s a instance latency).2 d found (ground arith) (ground arith) refl
        (ground (arith, d.named instance.id a found)) (ground arith)

-- What clients see of the topology: the descriptor of each name.
unfoldable pub view : ServiceState → String → Option Instance
view s id = elim (s.instances id) [ none ↦ none | some a ↦ some (s.heap a).instance ]

module _ (s : ServiceState) (instance : Instance) (latency : ℤ) (d : IsDense s) where
  view-put_new :
      s.instances instance.id ≡ none
      → (id : String)
      → view (put_new s instance latency) id
        ≡ (if same id instance.id then some instance else view s id)
  unfolding view
  view-put_new absent id = elim (Option-cases (s.instances id)) [
    | inl e ↦ ground arith
    | inr (a, e) ↦ ground (arith, d.named id a e)
  ]

  view-known :
      (a : ℕ)
      → s.instances instance.id ≡ some a
      → (id : String)
      → view (known s instance latency d a) id
        ≡ (if same id instance.id then some instance else view s id)
  unfolding view known
  view-known a found id = elim (Option-cases (s.instances id)) [
    | inl e ↦ ground arith
    | inr (b, e) ↦ ground (arith, d.named id b e, d.named instance.id a found, same_self id)
  ]

  -- A put never leaves the slice. It gives the name its new descriptor and changes no other, and it
  -- keeps the map and the slice the same set.
  pub put_locked-refines :
      (s' : ServiceState) × (put_locked s instance latency ≡ some s')
      × IsDense s'
      × ((id : String) → view s' id ≡ (if same id instance.id then some instance else view s id))
  unfolding put_locked
  put_locked-refines = elim (Option-cases (s.instances instance.id)) [
    | inl absent ↦ (
      put_new s instance latency,
      ground arith,
      put_new-IsDense s instance latency d absent,
      view-put_new absent,
    )
    | inr (a, found) ↦ (
      known s instance latency d a,
      ground (arith, known-put s instance latency d a found),
      known-IsDense s instance latency d a found,
      view-known a found,
    )
  ]
