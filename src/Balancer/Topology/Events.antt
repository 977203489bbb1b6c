-- ===== src/Balancer/Topology/Events.antt =====
-- The watch events of pkg/registry/etcd/balancer.go with their etcd revisions: putAt, removeAt
-- and replaceAt, in the order in which they reach the balancer.
use kc.Prelude.{
  ◌≡◌, refl, sym, ap, ◌∙◌, subst, true, false, Option, some, none, List, [], ◌∷◌, if◌then◌else◌,
  inl, inr, arith, Bool-cases,
}
use kc.Prelude.Names.{String, same}
use kc.Prelude.Int.{ℤ, ltb_ℤ}
use kc.Balancer.State.{Instance, ServiceState}
use kc.Balancer.Topology.{
  put_locked, remove_locked, replace_locked, put_at, remove_at, replace_at, stamp,
}
use kc.Balancer.Topology.Dense.{IsDense, view, put_locked-refines}
use kc.Balancer.Topology.Removal.{remove_locked-refines}
use kc.Balancer.Topology.Snapshot.{described, IsDistinct, replace_locked-refines}

pub data Event : Type 0 where
  put_event : Instance → Event
  delete_event : String → Event
  snapshot_event : List Instance → Event

unfoldable pub apply : ServiceState → ℤ → Event → ℤ → Option ServiceState
apply s latency (put_event instance) revision = put_at s instance latency revision
apply s latency (delete_event id) revision = remove_at s id revision
apply s latency (snapshot_event instances) revision = replace_at s instances latency revision

abbrev pub apply_all : ServiceState → ℤ → List (Event × ℤ) → Option ServiceState
apply_all s latency [] = some s
apply_all s latency ((event, revision) ∷ rest) = elim (apply s latency event revision) [
  | none ↦ none
  | some s' ↦ apply_all s' latency rest
]

abbrev pub IsFit : Event → Type 0
IsFit (put_event instance) = Unit
IsFit (delete_event id) = Unit
IsFit (snapshot_event instances) = IsDistinct instances

abbrev pub AreFit : List (Event × ℤ) → Type 0
AreFit [] = Unit
AreFit ((event, revision) ∷ rest) = IsFit event × AreFit rest

-- The directory of a service: listing with their descriptors, and the revision it stands for.
abbrev pub Directory : Type 0
Directory = (String → Option Instance) × ℤ

-- What an event makes of the directory.
abbrev pub changed : (String → Option Instance) → Event → String → Option Instance
changed listing (put_event instance) id = if same id instance.id then some instance else listing id
changed listing (delete_event gone) id = if same id gone then none else listing id
changed listing (snapshot_event instances) id = described instances id

-- The directory ignores an event that is older than it.
abbrev pub advanced : Directory → Event → ℤ → Directory
advanced (listing, at) event revision =
    if ltb_ℤ revision at then (listing, at) else (changed listing event, revision)

abbrev pub advanced_all : Directory → List (Event × ℤ) → Directory
advanced_all directory [] = directory
advanced_all directory ((event, revision) ∷ rest) =
    advanced_all (advanced directory event revision) rest

abbrev pub Represents : ServiceState → Directory → Type 0
Represents s (listing, at) =
    IsDense s × ((id : String) → view s id ≡ listing id) × (s.revision ≡ at)

stamp-Represents :
    (revision : ℤ) (listing : String → Option Instance) (o : Option ServiceState)
    (s' : ServiceState)
    → o ≡ some s'
    → IsDense s'
    → ((id : String) → view s' id ≡ listing id)
    → (s'' : ServiceState) × (stamp revision o ≡ some s'') × Represents s'' (listing, revision)
unfolding view
stamp-Represents revision listing o s' e d seen = (
  record s' { revision = revision },
  ap (stamp revision) e,
  (record { slot = d.slot; named = d.named }, seen, refl),
)

pub current-Represents :
    (s : ServiceState) (latency : ℤ) (event : Event) (revision : ℤ)
    (listing : String → Option Instance)
    → IsDense s
    → ((id : String) → view s id ≡ listing id)
    → IsFit event
    → ltb_ℤ revision s.revision ≡ false
    → (s' : ServiceState) × (apply s latency event revision ≡ some s')
      × Represents s' (changed listing event, revision)
unfolding apply put_at remove_at replace_at
current-Represents s latency (put_event instance) revision listing d seen fit current =
    let p = put_locked-refines s instance latency d in
    let q =
      stamp-Represents revision (changed listing (put_event instance))
        (put_locked s instance latency) p.0 p.1 p.2
        (λ id. p.3 id ∙ ap (λ o. if same id instance.id then some instance else o) (seen id)) in
    (q.0, ground (arith, q.1), q.2)
current-Represents s latency (delete_event gone) revision listing d seen fit current =
    let p = remove_locked-refines s gone d in
    let q =
      stamp-Represents revision (changed listing (delete_event gone)) (remove_locked s gone) p.0 p.1
        p.2 (λ id. p.3 id ∙ ap (λ o. if same id gone then none else o) (seen id)) in
    (q.0, ground (arith, q.1), q.2)
current-Represents s latency (snapshot_event instances) revision listing d seen fit current =
    let p = replace_locked-refines s instances latency d fit in
    let q =
      stamp-Represents revision (described instances) (some (replace_locked s instances latency))
        (replace_locked s instances latency) refl p.0 p.1 in
    (q.0, ground (arith, q.1), q.2)

pub stale-apply :
    (s : ServiceState) (latency : ℤ) (event : Event) (revision : ℤ)
    → ltb_ℤ revision s.revision ≡ true
    → apply s latency event revision ≡ some s
unfolding apply put_at remove_at replace_at
stale-apply s latency (put_event instance) revision stale = ground arith
stale-apply s latency (delete_event gone) revision stale = ground arith
stale-apply s latency (snapshot_event instances) revision stale = ground arith

-- One step of the refinement, from the directory at the revision of the state.
Advances : ServiceState → ℤ → Event → ℤ → Directory → Type 0
Advances s latency event revision directory =
    (s' : ServiceState) × (apply s latency event revision ≡ some s')
    × Represents s' (advanced directory event revision)

apply-Advances :
    (s : ServiceState) (latency : ℤ) (event : Event) (revision : ℤ)
    (listing : String → Option Instance)
    → IsDense s
    → ((id : String) → view s id ≡ listing id)
    → IsFit event
    → Advances s latency event revision (listing, s.revision)
unfolding Advances
apply-Advances s latency event revision listing d seen fit =
    elim (Bool-cases (ltb_ℤ revision s.revision)) [
      | inl stale ↦ (
        s,
        stale-apply s latency event revision stale,
        subst (Represents s) (sym (kept stale)) (d, seen, refl),
      )
      | inr current ↦
          let c = current-Represents s latency event revision listing d seen fit current in
          (c.0, c.1, subst (Represents c.0) (sym (moved current)) c.2)
    ]
  where
    kept :
        ltb_ℤ revision s.revision ≡ true
        → advanced (listing, s.revision) event revision ≡ (listing, s.revision)
    kept stale = ground arith

    moved :
        ltb_ℤ revision s.revision ≡ false
        → advanced (listing, s.revision) event revision ≡ (changed listing event, revision)
    moved current = ground arith

-- Whatever events reach the balancer, in whatever order their revisions stand, no operation leaves
-- the slice, and the balancer holds what the directory holds: the events older than the state are
-- ignored, and each other one changes the names that it is about and no other. A snapshot is
-- supposed to have distinct names.
pub apply_all-refines :
    (s : ServiceState) (latency : ℤ) (events : List (Event × ℤ)) (directory : Directory)
    → Represents s directory
    → AreFit events
    → (s' : ServiceState) × (apply_all s latency events ≡ some s')
      × Represents s' (advanced_all directory events)
unfolding Advances
apply_all-refines s latency [] directory h fit = (s, refl, h)
apply_all-refines s latency ((event, revision) ∷ rest) (listing, at) (d, seen, stands) (fit, fits) =
    let first : Advances s latency event revision (listing, at) =
      subst (λ r. Advances s latency event revision (listing, r)) stands
        (apply-Advances s latency event revision listing d seen fit) in
    let r =
      apply_all-refines (first.0) latency rest (advanced (listing, at) event revision) first.2
        fits in
    (r.0, ground (arith, first.1, r.1), r.2)
