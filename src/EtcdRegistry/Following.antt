-- ===== src/EtcdRegistry/Following.antt =====
-- The balancer of a service follows etcd, as pkg/registry/etcd/registry.go loads and watches.
use kc.Prelude.{
  ℕ, ◌+◌, ◌≤◌, ◌<◌, ◌≡◌, refl, ap, ◌∙◌, Bool, true, Option, none, some, List, [], ◌∷◌, take, arith,
  All, if_elim, if◌then◌else◌, ◌⊎◌,
}
use kc.Prelude.Names.{String, same}
use kc.Prelude.Int.{ℤ, pos, ltb_ℤ}
use kc.Balancer.State.{Instance, ServiceState}
use kc.Balancer.Topology.{advance_revision}
use kc.Balancer.Topology.Dense.{view}
use kc.Balancer.Topology.Snapshot.{described, IsDistinct}
use kc.Balancer.Topology.Events.{
  Event, put_event, delete_event, snapshot_event, Represents, current-Represents, stale-apply,
}
use kc.Balancer.Topology.Events as Events
use kc.EtcdRegistry.{
  decoded, load, WatchEvent, deleted, stored, apply_event, apply_events, handle_response,
}
use kc.EtcdRegistry.History.{History, own_events, effect, replay, content, drop}

-- A successful load, a response of the watch with the changes up to the next cursor, or a new start
-- of the watch, which loads first. A load that fails changes nothing and is no move.
pub data Move : Type 0 where
  responds : (count header : ℕ) → Move
  refreshes : (revision : ℕ) → List (Option Instance) → Move
  restarts : (revision : ℕ) → List (Option Instance) → Move

-- The cache of the service; the revision up to which the watch has delivered; and the last revision
-- that an answer of the watch has shown.
pub record World : Type 0 where
  pub state : ServiceState
  pub cursor : ℕ
  pub header : ℕ

module _ (name : String) (is_plain : String → Bool) (latency : ℤ) (history : History) where
  abbrev pub moved : Option ServiceState → ℕ → ℕ → Option World
  moved none cursor header = none
  moved (some s) cursor header = some (record { state = s; cursor = cursor; header = header })

  unfoldable pub apply : World → Move → Option World
  apply w (responds count header) =
      moved
        (handle_response name is_plain latency w.state
          (own_events (take count (drop w.cursor history))) (pos header))
        (w.cursor + count) header
  apply w (refreshes revision values) =
      moved (load name latency w.state values (pos revision)) w.cursor w.header
  apply w (restarts revision values) =
      moved (load name latency w.state values (pos revision)) revision revision

  abbrev pub apply_all : World → List Move → Option World
  apply_all w [] = some w
  apply_all w (m ∷ rest) = elim (apply w m) [ none ↦ none | some w' ↦ apply_all w' rest ]

  -- A change of this service is one that the code takes in; a value is put under its own ID, as
  -- Register does.
  abbrev pub IsKept : Option WatchEvent → Type 0
  IsKept none = Unit
  IsKept (some (deleted id)) = is_plain id ≡ true
  IsKept (some (stored key none)) = ⊥
  IsKept (some (stored key (some instance))) =
      (same instance.service name ≡ true) × (instance.id ≡ key)

  -- The values are the content of etcd at the revision.
  abbrev pub IsSnapshot : ℕ → List (Option Instance) → Type 0
  IsSnapshot revision values =
      IsDistinct (decoded name values)
      × ((id : String) → described (decoded name values) id ≡ content history revision id)

  -- What etcd promises: a response has the revision of the store by then, no less than its changes
  -- and the responses before; a load reads one revision; and the load of a new watch reads one that
  -- is no older than what the last watch has shown.
  abbrev pub AreSound : ℕ → ℕ → List Move → Type 0
  AreSound cursor header [] = Unit
  AreSound cursor header (responds count next ∷ rest) =
      (cursor + count ≤ next) × (header ≤ next) × AreSound (cursor + count) next rest
  AreSound cursor header (refreshes revision values ∷ rest) =
      IsSnapshot revision values × AreSound cursor header rest
  AreSound cursor header (restarts revision values ∷ rest) =
      (header ≤ revision) × IsSnapshot revision values × AreSound revision revision rest

  pub record Inv (w : World) : Type 0 where
    pub listing : String → Option Instance
    pub at : ℕ
    pub stands : Represents w.state (listing, pos at)
    pub remaining :
        (id : String) → replay id (drop w.cursor history) (listing id) ≡ replay id history none
    pub shown : (at ≤ w.header) ⊎ ((id : String) → listing id ≡ content history at id)
    pub behind : w.cursor ≤ at

  accepted_event :
      (s : ServiceState) (listing : String → Option Instance) (at : ℕ) (event : WatchEvent)
      (revision : ℕ)
      → Represents s (listing, pos at)
      → IsKept (some event)
      → at ≤ revision
      → (s' : ServiceState) × (apply_event name is_plain latency s event (pos revision) ≡ some s')
        × Represents s' ((λ id. effect id (some event) (listing id)), pos revision)
  unfolding apply_event Events.apply
  accepted_event s listing at (deleted gone) revision (d, seen, stands) kept current =
      let c =
        current-Represents s latency (delete_event gone) (pos revision) listing d seen tt
          (ground (arith, stands, current)) in
      (c.0, ground (arith, kept, c.1), c.2)
  accepted_event s listing at (stored key none) revision h kept current = absurd kept
  accepted_event s listing at (stored key (some instance)) revision (d, seen, stands) (own, named)
        current =
      let c =
        current-Represents s latency (put_event instance) (pos revision) listing d seen tt
          (ground (arith, stands, current)) in
      (
        c.0,
        ground (arith, own, c.1),
        (
          c.2.0,
          (λ id. c.2.1 id ∙ ap (λ k. if same id k then some instance else listing id) named),
          c.2.2,
        ),
      )

  ignored_event :
      (s : ServiceState) (event : WatchEvent) (at revision : ℕ)
      → s.revision ≡ pos at
      → revision < at
      → apply_event name is_plain latency s event (pos revision) ≡ some s
  unfolding apply_event Events.apply
  ignored_event s (deleted gone) at revision stands stale = ground (
    arith,
    stale-apply s latency (delete_event gone) (pos revision) (ground (arith, stands, stale)),
  )
  ignored_event s (stored key none) at revision stands stale = refl
  ignored_event s (stored key (some instance)) at revision stands stale = ground (
    arith,
    stale-apply s latency (put_event instance) (pos revision) (ground (arith, stands, stale)),
  )

  accepted_events :
      (slice : History) (s : ServiceState) (listing : String → Option Instance) (at revision : ℕ)
      → Represents s (listing, pos at)
      → All IsKept slice
      → at ≤ revision
      → (s' : ServiceState) × (at' : ℕ) × (apply_events name is_plain latency s
            (own_events slice)
            (pos revision)
          ≡ some s')
        × Represents s' ((λ id. replay id slice (listing id)), pos at')
        × (at' ≤ revision)
  accepted_events [] s listing at revision h kept current = (s, at, refl, h, current)
  accepted_events (none ∷ rest) s listing at revision h (k, kept) current =
      accepted_events rest s listing at revision h kept current
  accepted_events (some event ∷ rest) s listing at revision h (k, kept) current =
      let one = accepted_event s listing at event revision h k current in
      let more =
        accepted_events rest one.0 (λ id. effect id (some event) (listing id)) revision revision
          one.2 kept (omega arith) in
      (more.0, more.1, ground (arith, one.1, more.2), more.3, more.4)

  ignored_events :
      (events : List WatchEvent) (s : ServiceState) (at revision : ℕ)
      → s.revision ≡ pos at
      → revision < at
      → apply_events name is_plain latency s events (pos revision) ≡ some s
  ignored_events [] s at revision stands stale = refl
  ignored_events (event ∷ rest) s at revision stands stale = ground (
    arith,
    ignored_event s event at revision stands stale,
    ignored_events rest s at revision stands stale,
  )

  stamped :
      (s : ServiceState) (listing : String → Option Instance) (at revision : ℕ)
      → Represents s (listing, pos at)
      → at ≤ revision
      → Represents (advance_revision s (pos revision)) (listing, pos revision)
  unfolding advance_revision view
  stamped s listing at revision (d, seen, stands) current =
      if_elim (λ (t : ServiceState). Represents t (listing, pos revision))
        (ltb_ℤ s.revision (pos revision))
        (λ e. (record { slot = d.slot; named = d.named }, seen, refl))
        (λ e. (d, seen, stands ∙ ap pos (ground (arith, e, stands, current))))

  pub accepted_response :
      (slice : History) (s : ServiceState) (listing : String → Option Instance) (at revision : ℕ)
      → Represents s (listing, pos at)
      → All IsKept slice
      → at ≤ revision
      → (s' : ServiceState) × (handle_response name is_plain latency s
            (own_events slice)
            (pos revision)
          ≡ some s')
        × Represents s' ((λ id. replay id slice (listing id)), pos revision)
  unfolding handle_response
  accepted_response slice s listing at revision h kept current =
      let a = accepted_events slice s listing at revision h kept current in
      (
        advance_revision a.0 (pos revision),
        ground (arith, a.2),
        stamped a.0 (λ id. replay id slice (listing id)) a.1 revision a.3 a.4,
      )

  pub ignored_response :
      (events : List WatchEvent) (s : ServiceState) (at revision : ℕ)
      → s.revision ≡ pos at
      → revision < at
      → handle_response name is_plain latency s events (pos revision) ≡ some s
  unfolding handle_response advance_revision
  ignored_response events s at revision stands stale =
      ground (arith, ignored_events events s at revision stands stale, stands, stale)

  pub accepted_load :
      (s : ServiceState) (listing : String → Option Instance) (at revision : ℕ)
      (values : List (Option Instance))
      → Represents s (listing, pos at)
      → IsSnapshot revision values
      → at ≤ revision
      → (s' : ServiceState) × (load name latency s values (pos revision) ≡ some s')
        × Represents s' (content history revision, pos revision)
  unfolding load Events.apply
  accepted_load s listing at revision values (d, seen, stands) (distinct, snapshot) current =
      let c =
        current-Represents s latency (snapshot_event (decoded name values)) (pos revision) listing d
          seen distinct (ground (arith, stands, current)) in
      (c.0, c.1, (c.2.0, (λ id. c.2.1 id ∙ snapshot id), c.2.2))

  pub ignored_load :
      (s : ServiceState) (at revision : ℕ) (values : List (Option Instance))
      → s.revision ≡ pos at
      → revision < at
      → load name latency s values (pos revision) ≡ some s
  unfolding load Events.apply
  ignored_load s at revision values stands stale =
      stale-apply s latency (snapshot_event (decoded name values)) (pos revision)
        (ground (arith, stands, stale))
