-- ===== src/EtcdRegistry/Converging.antt =====
-- What the cache of a service becomes under the loads and the watch of
-- pkg/registry/etcd/registry.go.
use kc.Prelude.{
  ℕ, zero, suc, ◌+◌, ◌≤◌, ◌<◌, ◌≡◌, refl, sym, ap, ◌∙◌, Bool, Option, none, some, List, [], ◌∷◌,
  leb, take, arith, All, Bool-cases, inl, inr, ◌⊎◌,
}
use kc.Prelude.Names.{String}
use kc.Prelude.Selecting.{All-take}
use kc.Prelude.Int.{ℤ, pos}
use kc.Balancer.State.{Instance, ServiceState}
use kc.Balancer.Topology.Dense.{view}
use kc.Balancer.Topology.Events.{Represents}
use kc.EtcdRegistry.{WatchEvent, load, handle_response}
use kc.EtcdRegistry.History.{
  History, own_events, replay, content, drop, replay-append, replay_behind, drop-drop,
  take-append-drop,
}
use kc.EtcdRegistry.Following.{
  Move, responds, refreshes, restarts, World, apply, apply_all, IsKept, IsSnapshot, AreSound, Inv,
  accepted_response, ignored_response, accepted_load, ignored_load,
}

All-drop {ℓ κ} : {A : Type ℓ} (P : A → Type κ) (n : ℕ) (xs : List A) → All P xs → All P (drop n xs)
All-drop P zero xs all = all
All-drop P (suc n) [] all = tt
All-drop P (suc n) (x ∷ xs) (h, all) = All-drop P n xs all

order_cases : (m n : ℕ) → (m ≤ n) ⊎ (n < m)
order_cases m n = elim (Bool-cases (leb m n)) [
  | inl within ↦ inl (ground (arith, within))
  | inr beyond ↦ inr (ground (arith, beyond))
]

-- Events delivered in order take the replay along.
replay_on :
    (id : String) (history : History) (cursor count : ℕ) (v : Option Instance)
    → replay id (drop (cursor + count) history) (replay id (take count (drop cursor history)) v)
      ≡ replay id (drop cursor history) v
replay_on id history cursor count v =
    ap (λ l. replay id l (replay id slice v)) (sym (drop-drop cursor count history))
    ∙ sym (replay-append id slice (drop count (drop cursor history)) v)
    ∙ ap (λ l. replay id l v) (take-append-drop count (drop cursor history))
  where
    slice : History
    slice = take count (drop cursor history)

module _ (name : String) (is_plain : String → Bool) (latency : ℤ) (history : History) where
  Following : ServiceState → ℕ → ℕ → Type 0
  Following s cursor header =
      Inv name is_plain latency history (record { state = s; cursor = cursor; header = header })

  -- A cache that shows the content of etcd at a revision.
  standing :
      (s : ServiceState) (listing : String → Option Instance) (at cursor header : ℕ)
      → Represents s (listing, pos at)
      → ((id : String) → listing id ≡ content history at id)
      → cursor ≤ at
      → Following s cursor header
  unfolding Following
  standing s listing at cursor header h shows behind = record {
    listing = listing;
    at = at;
    stands = h;
    remaining = λ id.
        ap (replay id (drop cursor history)) (shows id)
        ∙ replay_behind id history cursor at none behind;
    shown = inr shows;
    behind = behind;
  }

  response-Following :
      (s : ServiceState) (cursor header count next : ℕ)
      → All (IsKept name is_plain latency history) history
      → Following s cursor header
      → cursor + count ≤ next
      → header ≤ next
      → (s' : ServiceState) × (handle_response name is_plain latency s
            (own_events (take count (drop cursor history)))
            (pos next)
          ≡ some s')
        × Following s' (cursor + count) next
  unfolding Following
  response-Following s cursor header count next kept inv reached later =
      by_order (order_cases inv.at next) inv.shown
    where
      slice : History
      slice = take count (drop cursor history)

      IsOwn : Option WatchEvent → Type 0
      IsOwn = IsKept name is_plain latency history

      by_order :
          (inv.at ≤ next) ⊎ (next < inv.at)
          → (inv.at ≤ header) ⊎ ((id : String) → inv.listing id ≡ content history inv.at id)
          → (s' : ServiceState) × (handle_response name is_plain latency s
                (own_events slice)
                (pos next)
              ≡ some s')
            × Inv name is_plain latency history
                (record { state = s'; cursor = cursor + count; header = next })
      by_order (inl current) shown =
          let a =
            accepted_response name is_plain latency history slice s inv.listing inv.at next
              inv.stands
              (All-take IsOwn count (drop cursor history) (All-drop IsOwn cursor history kept))
              current in
          (
            a.0,
            a.1,
            record {
              listing = λ id. replay id slice (inv.listing id);
              at = next;
              stands = a.2;
              remaining =
                  λ id. replay_on id history cursor count (inv.listing id) ∙ inv.remaining id;
              shown = inl (omega arith);
              behind = reached;
            },
          )
      by_order (inr stale) (inl seen) = absurd (omega arith)
      by_order (inr stale) (inr shows) = (
        s,
        ignored_response name is_plain latency history (own_events slice) s inv.at next inv.stands.2
            stale,
        record {
          listing = inv.listing;
          at = inv.at;
          stands = inv.stands;
          remaining = λ id.
              ap (replay id (drop (cursor + count) history)) (shows id)
              ∙ replay_behind id history (cursor + count) inv.at none (omega arith);
          shown = inr shows;
          behind = omega arith;
        },
      )

  refresh-Following :
      (s : ServiceState) (cursor header revision : ℕ) (values : List (Option Instance))
      → Following s cursor header
      → IsSnapshot name is_plain latency history revision values
      → (s' : ServiceState) × (load name latency s values (pos revision) ≡ some s')
        × Following s' cursor header
  unfolding Following
  refresh-Following s cursor header revision values inv snapshot =
      elim (order_cases inv.at revision) [
        | inl current ↦
            let a =
              accepted_load name is_plain latency history s inv.listing inv.at revision values
                inv.stands snapshot current in
            (
              a.0,
              a.1,
              standing a.0 (content history revision) revision cursor header a.2 (λ id. refl)
                  (ground (arith, inv.behind, current)),
            )
        | inr stale ↦ (
          s,
          ignored_load name is_plain latency history s inv.at revision values inv.stands.2 stale,
          inv,
        )
      ]

  restart-Following :
      (s : ServiceState) (cursor header revision : ℕ) (values : List (Option Instance))
      → Following s cursor header
      → header ≤ revision
      → IsSnapshot name is_plain latency history revision values
      → (s' : ServiceState) × (load name latency s values (pos revision) ≡ some s')
        × Following s' revision revision
  unfolding Following
  restart-Following s cursor header revision values inv later snapshot =
      by_order (order_cases inv.at revision) inv.shown
    where
      by_order :
          (inv.at ≤ revision) ⊎ (revision < inv.at)
          → (inv.at ≤ header) ⊎ ((id : String) → inv.listing id ≡ content history inv.at id)
          → (s' : ServiceState) × (load name latency s values (pos revision) ≡ some s')
            × Following s' revision revision
      by_order (inl current) shown =
          let a =
            accepted_load name is_plain latency history s inv.listing inv.at revision values
              inv.stands snapshot current in
          (
            a.0,
            a.1,
            standing a.0 (content history revision) revision revision revision a.2 (λ id. refl)
                (omega arith),
          )
      by_order (inr stale) (inl seen) = absurd (omega arith)
      by_order (inr stale) (inr shows) = (
        s,
        ignored_load name is_plain latency history s inv.at revision values inv.stands.2 stale,
        standing s inv.listing inv.at revision revision inv.stands shows (omega arith),
      )

  runs-Following :
      (moves : List Move) (s : ServiceState) (cursor header : ℕ)
      → All (IsKept name is_plain latency history) history
      → Following s cursor header
      → AreSound name is_plain latency history cursor header moves
      → (w' : World) × (apply_all name is_plain latency history
            (record { state = s; cursor = cursor; header = header })
            moves
          ≡ some w')
        × Inv name is_plain latency history w'
  unfolding Following apply
  runs-Following [] s cursor header kept inv sound =
      (record { state = s; cursor = cursor; header = header }, refl, inv)
  runs-Following (responds count next ∷ rest) s cursor header kept inv (reached, later, sound) =
      let one = response-Following s cursor header count next kept inv reached later in
      let more = runs-Following rest one.0 (cursor + count) next kept one.2 sound in
      (more.0, ground (arith, one.1, more.1), more.2)
  runs-Following (refreshes revision values ∷ rest) s cursor header kept inv (snapshot, sound) =
      let one = refresh-Following s cursor header revision values inv snapshot in
      let more = runs-Following rest one.0 cursor header kept one.2 sound in
      (more.0, ground (arith, one.1, more.1), more.2)
  runs-Following (restarts revision values ∷ rest) s cursor header kept inv
        (later, snapshot, sound) =
      let one = restart-Following s cursor header revision values inv later snapshot in
      let more = runs-Following rest one.0 revision revision kept one.2 sound in
      (more.0, ground (arith, one.1, more.1), more.2)

  -- Let each change of a service in etcd be one that the code takes in: the deletion of a key without
  -- a slash, or a value that decodes, names the service, and is put under its own ID, as Register puts
  -- it (the code does not compare the key with the ID). Let its cache start empty, and etcd answer
  -- each load with the content of one revision, under distinct names, each response of the watch with
  -- the next changes and the revision of the store, and the load of a new watch with a revision that
  -- is no older than what the last watch has shown. Whatever the order of the watch, its new starts
  -- and the refreshes beside it, no step fails, and the changes that the watch has still to deliver
  -- lead from what the cache lists to what etcd lists under each name: no change is lost, and none is
  -- undone.
  pub watch_converges :
      (s : ServiceState) (moves : List Move)
      → Represents s ((λ id. none), pos 0)
      → All (IsKept name is_plain latency history) history
      → AreSound name is_plain latency history 0 0 moves
      → (w' : World) × (apply_all name is_plain latency history
            (record { state = s; cursor = 0; header = 0 })
            moves
          ≡ some w')
        × ((id : String)
            → replay id (drop w'.cursor history) (view w'.state id) ≡ replay id history none)
  unfolding Following
  watch_converges s moves empty kept sound =
      let run =
        runs-Following moves s 0 0 kept
          (standing s (λ id. none) 0 0 0 empty (λ id. refl) (omega arith)) sound in
      (
        run.0,
        run.1,
        λ id. ap (replay id (drop run.0.cursor history)) (run.2.stands.1 id) ∙ run.2.remaining id,
      )
