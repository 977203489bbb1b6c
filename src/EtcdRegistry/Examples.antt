-- ===== src/EtcdRegistry/Examples.antt =====
-- A run of the watch of pkg/registry/etcd/registry.go on a small service.
use kc.Prelude.{◌≡◌, refl, Bool, true, some, none, List, [], ◌∷◌, Bool-cases, arith, inl, inr, All}
use kc.Prelude.Names.{String, same, empty}
use kc.Prelude.Int.{pos}
use kc.Balancer.State.{Instance, new_instance_state, ServiceState}
use kc.Balancer.Topology.Dense.{IsDense, view}
use kc.Balancer.Topology.Snapshot.{described}
use kc.EtcdRegistry.{stored, deleted}
use kc.EtcdRegistry.History.{History, replay, drop}
use kc.EtcdRegistry.Following.{
  Move, responds, refreshes, restarts, World, apply_all, IsKept, IsSnapshot, AreSound,
}
use kc.EtcdRegistry.Converging.{watch_converges}

abbrev instance_of : String → Instance
instance_of id = record {
  service = "orders";
  id = id;
  endpoint = "http://10.0.0.1:80";
  metadata = [];
}

abbrev no_state : ServiceState
no_state = record {
  heap = λ a. new_instance_state (instance_of "a") (pos 0);
  fresh = 0;
  instances = empty;
  items = [];
  revision = pos 0;
  last_used = 0;
  active = 0;
  rng = 1;
}

no_state-IsDense : IsDense no_state
no_state-IsDense = record { slot = λ k a e. ground (arith, e); named = λ id a e. ground (arith, e) }

-- An instance comes and goes, and another one comes.
abbrev history : History
history =
    some (stored "a" (some (instance_of "a")))
    ∷ some (deleted "a")
    ∷ some (stored "b" (some (instance_of "b")))
    ∷ []

abbrev any_key : String → Bool
any_key key = true

-- The watch delivers the first two changes, of which a refresh has already shown both, and starts
-- again with the third.
abbrev moves : List Move
moves =
    responds 1 1
    ∷ refreshes 2 (none ∷ [])
    ∷ responds 1 2
    ∷ restarts 3 (some (instance_of "b") ∷ none ∷ [])
    ∷ []

history-AreKept : All (IsKept "orders" any_key (pos 10) history) history
unfolding same
history-AreKept = ((refl, refl), (refl, ((refl, refl), tt)))

second-IsSnapshot : IsSnapshot "orders" any_key (pos 10) history 2 (none ∷ [])
unfolding described
second-IsSnapshot = (
  tt,
  λ id. elim (Bool-cases (same id "a")) [
    | inl own ↦ ground (arith, own)
    | inr other ↦ ground (arith, other)
  ],
)

third-IsSnapshot :
    IsSnapshot "orders" any_key (pos 10) history 3 (some (instance_of "b") ∷ none ∷ [])
unfolding described same
third-IsSnapshot = (
  (refl, tt),
  λ id. elim (Bool-cases (same id "a")) [
    | inl own ↦ ground (arith, own)
    | inr other ↦ ground (arith, other)
  ],
)

moves-AreSound : AreSound "orders" any_key (pos 10) history 0 0 moves
moves-AreSound = (
  omega arith,
  omega arith,
  (second-IsSnapshot, (omega arith, omega arith, (omega arith, third-IsSnapshot, tt))),
)

no_state-view : (id : String) → view no_state id ≡ none
unfolding view
no_state-view id = refl

watch_converges_example :
    (w' : World) × (apply_all "orders" any_key
        (pos 10)
        history
        (record { state = no_state; cursor = 0; header = 0 })
        moves
      ≡ some w')
    × ((id : String)
        → replay id (drop w'.cursor history) (view w'.state id) ≡ replay id history none)
watch_converges_example =
    watch_converges "orders" any_key (pos 10) history no_state moves
      (no_state-IsDense, no_state-view, refl) history-AreKept moves-AreSound
