-- ===== src/Balancer/Topology/Snapshot.antt =====
-- The rebuild of the topology from a full snapshot in pkg/registry/etcd/balancer.go.
use kc.Prelude.{
  ℕ, ◌≤◌, ◌<◌, ◌≡◌, ◌≢◌, refl, ap, ◌∙◌, Option, some, none, List, [], ◌∷◌, if◌then◌else◌, length,
  inl, inr, get_elem?, arith, Option-cases,
}
use kc.Prelude.Names.{String, same, same→eq, same_self}
use kc.Prelude.Int.{ℤ}
use kc.Balancer.State.{Instance, ServiceState}
use kc.Balancer.Topology.{
  placed, Rebuild, built, reused, rebuild_one, rebuild, start, replace_locked,
}
use kc.Balancer.Topology.Dense.{IsDense, view, slot_below, appended-IsDense}

-- The last descriptor that a snapshot gives the name.
unfoldable pub described : List Instance → String → Option Instance
described [] id = none
described (i ∷ rest) id = if same id i.id then some i else described rest id

-- No two instances of the snapshot have one name, as the keys of etcd have it.
abbrev pub IsDistinct : List Instance → Type 0
IsDistinct [] = Unit
IsDistinct (i ∷ rest) = (described rest i.id ≡ none) × IsDistinct rest

-- What the loop keeps: the new index is dense, and a known object still has its own name.
record IsBuilt (s : ServiceState) (b : Rebuild) : Type 0 where
  dense : IsDense (built s b)
  kept : (id : String) (a : ℕ) → s.instances id ≡ some a → (b.heap a).instance.id ≡ id
  grown : s.fresh ≤ b.fresh

module _ (s : ServiceState) (latency : ℤ) (d : IsDense s) (b : Rebuild) (i : Instance)
    (h : IsBuilt s b) (absent : b.next_map i.id ≡ none) where
  reused-unlisted : (k : ℕ) → get_elem? b.next_items k ≢ some (reused s latency b i).0
  reused-unlisted k e = elim (Option-cases (s.instances i.id)) [
    | inl new ↦ ground (arith, slot_below (built s b) h.dense k b.fresh)
    | inr (a, found) ↦ ground (
      arith,
      d.named i.id a found,
      slot_below (built s b) h.dense k b.fresh,
      h.dense.slot k a,
      h.kept i.id a found,
    )
  ]

  reused-IsFit :
      ((reused s latency b i).1.instance ≡ i)
      × ((reused s latency b i).0 < (reused s latency b i).2)
      × (b.fresh ≤ (reused s latency b i).2)
  reused-IsFit = elim (Option-cases (s.instances i.id)) [
    | inl new ↦ ground arith
    | inr (a, found) ↦ ground (arith, d.named i.id a found, h.grown)
  ]

  rebuild_one-IsBuilt : IsBuilt s (rebuild_one s latency b i)
  rebuild_one-IsBuilt = record {
    dense =
        appended-IsDense (built s b) i.id (reused s latency b i).0
          (placed (reused s latency b i).1 (length b.next_items)) (reused s latency b i).2 h.dense
          absent reused-unlisted (ap (λ x. x.id) reused-IsFit.0) refl reused-IsFit.1 reused-IsFit.2;
    kept = kept;
    grown = omega (arith, reused-IsFit, h.grown);
  }
    where
      kept :
          (id : String) (a : ℕ)
          → s.instances id ≡ some a
          → ((rebuild_one s latency b i).heap a).instance.id ≡ id
      kept id a e = elim (Option-cases (s.instances i.id)) [
        | inl new ↦ ground (arith, reused-IsFit, h.kept id a e, d.named id a e, h.grown)
        | inr (c, found) ↦
            ground (arith, h.kept id a e, d.named id a e, d.named i.id c found, h.grown)
      ]

  view-rebuild_one :
      (id : String)
      → view (built s (rebuild_one s latency b i)) id
        ≡ (if same id i.id then some i else view (built s b) id)
  unfolding view
  view-rebuild_one id = elim (Option-cases (b.next_map id)) [
    | inl e ↦ ground (arith, reused-IsFit)
    | inr (c, e) ↦
        ground (arith, reused-IsFit, h.dense.named id c e, reused-unlisted (b.heap c).index)
  ]

-- The loop ends in b' from b over the instances xs.
abbrev Rebuilds : ServiceState → List Instance → Rebuild → Rebuild → Type 0
Rebuilds s xs b b' =
    IsBuilt s b'
    × ((id : String)
        → view (built s b') id
          ≡ elim (described xs id) [ none ↦ view (built s b) id | some i ↦ some i ])

rebuild-Rebuilds :
    (s : ServiceState) (latency : ℤ) (xs : List Instance)
    → IsDense s
    → IsDistinct xs
    → (b : Rebuild) → IsBuilt s b
    → ((id : String) (i : Instance) → described xs id ≡ some i → b.next_map id ≡ none)
    → Rebuilds s xs b (rebuild s latency b xs)
unfolding rebuild described
rebuild-Rebuilds s latency [] d distinct b h away = (h, λ id. refl)
rebuild-Rebuilds s latency (i ∷ rest) d (once, distinct) b h away = together (
    rebuild-Rebuilds s latency rest d distinct (rebuild_one s latency b i)
      (rebuild_one-IsBuilt s latency d b i h here)
      (λ id j e. ground (arith, e, away id j, same→eq id i.id, once)))
  where
    here : b.next_map i.id ≡ none
    here = away i.id i (ground (arith, same_self i.id))

    together :
        Rebuilds s rest
          (rebuild_one s latency b i)
          (rebuild s latency (rebuild_one s latency b i) rest)
        → Rebuilds s (i ∷ rest) b (rebuild s latency (rebuild_one s latency b i) rest)
    together (fine, seen) = (
      fine,
      λ id.
          ground
            (arith, seen id, view-rebuild_one s latency d b i h here id, same→eq id i.id, once),
    )

start-IsBuilt : (s : ServiceState) → IsDense s → IsBuilt s (start s)
start-IsBuilt s d = record {
  dense = record { slot = λ k a e. ground (arith, e); named = λ id a e. ground (arith, e) };
  kept = λ id a e. (d.named id a e).1;
  grown = omega arith;
}

view-start : (s : ServiceState) (id : String) → view (built s (start s)) id ≡ none
unfolding view
view-start s id = refl

-- A snapshot with distinct names replaces the whole topology: afterwards a name has the descriptor
-- that the snapshot gives it, and no other name is left; the map and the slice are the same set.
pub replace_locked-refines :
    (s : ServiceState) (instances : List Instance) (latency : ℤ)
    → IsDense s
    → IsDistinct instances
    → IsDense (replace_locked s instances latency)
      × ((id : String) → view (replace_locked s instances latency) id ≡ described instances id)
unfolding replace_locked
replace_locked-refines s instances latency d distinct = (all.0.dense, seen)
  where
    all : Rebuilds s instances (start s) (rebuild s latency (start s) instances)
    all =
        rebuild-Rebuilds s latency instances d distinct (start s) (start-IsBuilt s d)
          (λ id i e. refl)

    seen :
        (id : String)
        → view (built s (rebuild s latency (start s) instances)) id ≡ described instances id
    seen id = all.1 id ∙ nothing_before (described instances id)
      where
        nothing_before :
            (o : Option Instance)
            → elim o [ none ↦ view (built s (start s)) id | some i ↦ some i ] ≡ o
        nothing_before none = view-start s id
        nothing_before (some i) = refl
