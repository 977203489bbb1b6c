-- ===== src/EtcdRegistry.antt =====
-- The watch of pkg/registry/etcd/registry.go, which keeps the balancer of a service in step with
-- etcd: full loads, and the events of watch responses. etcd itself is what it answers. A value is
-- given as decodeInstance decodes it, if it does.
pub mod History
pub mod Following
mod Converging
mod Examples
use kc.Prelude.{
  ℕ, zero, suc, ◌+◌, ◌*◌, Bool, true, false, Option, none, some, List, [], ◌∷◌, if◌then◌else◌, ltb,
}
use kc.Prelude.Names.{String, same}
use kc.Prelude.Int.{ℤ, pos}
use kc.Balancer.State.{Instance, ServiceState}
use kc.Balancer.Topology.{put_at, remove_at, replace_at, advance_revision}

-- What load keeps of the values under the prefix: those that decode and are of the service.
abbrev pub decoded : String → List (Option Instance) → List Instance
decoded name [] = []
decoded name (none ∷ rest) = decoded name rest
decoded name (some instance ∷ rest) =
    let others = decoded name rest in
    if same instance.service name then instance ∷ others else others

-- A successful load at that revision.
unfoldable pub load : String → ℤ → ServiceState → List (Option Instance) → ℤ → Option ServiceState
load name latency s values revision = replace_at s (decoded name values) latency revision

-- An event of a watch response: a key without the prefix that has been deleted, or one with the value
-- that has been put under it. The code reads the value alone.
pub data WatchEvent : Type 0 where
  deleted : String → WatchEvent
  stored : String → Option Instance → WatchEvent

module _ (name : String) (is_plain : String → Bool) (latency : ℤ) where
  -- `is_plain` tells whether a key is not empty and has no slash.
  unfoldable pub apply_event : ServiceState → WatchEvent → ℤ → Option ServiceState
  apply_event s (deleted id) revision = if is_plain id then remove_at s id revision else some s
  apply_event s (stored key none) revision = some s
  apply_event s (stored key (some instance)) revision =
      if same instance.service name then put_at s instance latency revision else some s

  -- All events of a response have the revision of its header.
  abbrev pub apply_events : ServiceState → List WatchEvent → ℤ → Option ServiceState
  apply_events s [] revision = some s
  apply_events s (event ∷ rest) revision = elim (apply_event s event revision) [
    | none ↦ none
    | some s' ↦ apply_events s' rest revision
  ]

  unfoldable pub handle_response : ServiceState → List WatchEvent → ℤ → Option ServiceState
  handle_response s events revision = elim (apply_events s events revision) [
    | none ↦ none
    | some s' ↦ some (advance_revision s' revision)
  ]

abbrev pub watch_backoff_min : ℕ
watch_backoff_min = 100000000

abbrev pub watch_backoff_max : ℕ
watch_backoff_max = 5000000000

pub next_watch_backoff : ℕ → Bool → ℕ
next_watch_backoff current true = watch_backoff_min
next_watch_backoff current false =
    if ltb watch_backoff_max (current * 2) then watch_backoff_max else current * 2
