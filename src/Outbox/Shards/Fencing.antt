-- ===== src/Outbox/Shards/Fencing.antt =====
-- The leases on shards of pkg/outbox/storage.go exclude other nodes while they last, and nodes that
-- have lost them for good.
use kc.Prelude.{
  ℕ, suc, ◌+◌, ◌≤◌, ◌<◌, ◌≡◌, refl, sym, ◌∙◌, subst, some-injective, Bool, true, false, Option,
  some, List, [], ◌∷◌, if◌then◌else◌, ltb, leb, not, ◌&&◌, ok, err, arith, Option-cases, inl, inr,
  All,
}
use kc.Prelude.Names.{String, same, same_self}
use kc.Outbox.Store.{lease_lost, Settings, Table, holds}
use kc.Outbox.Shards.{
  Shard, ShardLease, Cluster, lock_shard, claim_shard, cleanup, update_shards, give_up, renew,
  take_over, coordinate_release, coordinate_acquire, release, free_shard, freed, assignment,
  upsert_node, live_nodes,
}

-- What a node can do to the shards, with the time at which it does it.
pub data Op : Type 0 where
  releases : String → ℕ → Op
  acquires : String → String → List ℕ → ℕ → Op
  leaves : String → ℕ → Op

unfoldable pub apply : ℕ → Cluster → Op → Cluster
apply shard_lease c (releases node now) = (coordinate_release shard_lease c node now).0
apply shard_lease c (acquires node token desired now) =
    (coordinate_acquire shard_lease c node token desired now).0
apply shard_lease c (leaves node now) = release c node

abbrev pub apply_all : ℕ → Cluster → List Op → Cluster
apply_all shard_lease c [] = c
apply_all shard_lease c (op ∷ rest) = apply_all shard_lease (apply shard_lease c op) rest

-- The shard has the owner and the token of the lease until that time.
abbrev pub Held : Cluster → ShardLease → ℕ → Type 0
Held c lease until =
    c.shards lease.shard_id
    ≡ some (record { owner = lease.owner_id; token = lease.token; until = until })

-- Another node acts, while the lease lasts.
abbrev pub IsForeign : ShardLease → ℕ → Op → Type 0
IsForeign lease until (releases node now) = (same lease.owner_id node ≡ false) × (now < until)
IsForeign lease until (acquires node token desired now) =
    (same lease.owner_id node ≡ false) × (now < until)
IsForeign lease until (leaves node now) = (same lease.owner_id node ≡ false) × (now < until)

pub update_at :
    (shards : ℕ → Option Shard) (f : ℕ → Shard → Shard) (id : ℕ) (before after : Shard)
    → shards id ≡ some before
    → f id before ≡ after
    → update_shards shards f id ≡ some after
update_at shards f id before after e h = ground (arith, e, h)

module _ (shard_lease : ℕ) (lease : ShardLease) where
  -- The shard as the lease has it.
  abbrev held_shard : ℕ → Shard
  held_shard until = record { owner = lease.owner_id; token = lease.token; until = until }

  abbrev desired_at : Cluster → String → ℕ → List ℕ
  desired_at c node now =
      assignment (live_nodes (upsert_node c.nodes node (now + shard_lease)) now) node

  apply-Held :
      (c : Cluster) (until : ℕ) (op : Op)
      → Held c lease until
      → IsForeign lease until op
      → Held (apply shard_lease c op) lease until
  unfolding apply coordinate_release coordinate_acquire release
  apply-Held c until (releases node now) h (other, early) =
      update_at c.shards (give_up node (desired_at c node now)) lease.shard_id (held_shard until)
        (held_shard until) h (simp other)
  apply-Held c until (acquires node token desired now) h (other, early) =
      update_at (update_shards c.shards (renew (now + shard_lease) node desired now))
        (take_over (now + shard_lease) node token desired now) lease.shard_id (held_shard until)
        (held_shard until)
        (update_at c.shards (renew (now + shard_lease) node desired now) lease.shard_id
          (held_shard until) (held_shard until) h (simp other))
        (simp late)
    where
      late : leb until now ≡ false
      late = ground arith
  apply-Held c until (leaves node now) h (other, early) =
      update_at c.shards (freed node) lease.shard_id (held_shard until) (held_shard until) h
        (simp other)

  -- While a lease on a shard lasts, whatever the other nodes do, its owner keeps the shard: it can
  -- lock the shard at every time before the end of the lease.
  pub apply_all-Held :
      (c : Cluster) (until : ℕ) (ops : List Op)
      → Held c lease until
      → All (IsForeign lease until) ops
      → (now : ℕ) → now < until
      → lock_shard (apply_all shard_lease c ops) lease now ≡ ok tt
  unfolding lock_shard
  apply_all-Held c until [] h foreign now early =
      ground (arith, h, same_self lease.owner_id, same_self lease.token)
  apply_all-Held c until (op ∷ rest) h (f, foreign) now early =
      apply_all-Held (apply shard_lease c op) until rest (apply-Held c until op h f) foreign now
        early

  -- The shard has another token than the lease, or is gone.
  Lost : Cluster → Type 0
  Lost c = (sh : Shard) → c.shards lease.shard_id ≡ some sh → same sh.token lease.token ≡ false

  -- No node draws the token of the lease again; free shards have none.
  abbrev pub IsFresh : Op → Type 0
  IsFresh (releases node now) = Unit
  IsFresh (acquires node token desired now) = same token lease.token ≡ false
  IsFresh (leaves node now) = Unit

  update-Lost :
      (shards : ℕ → Option Shard) (f : ℕ → Shard → Shard)
      → ((sh : Shard) → shards lease.shard_id ≡ some sh → same sh.token lease.token ≡ false)
      → ((sh : Shard)
          → same sh.token lease.token ≡ false
          → same (f lease.shard_id sh).token lease.token ≡ false)
      → (sh : Shard) → update_shards shards f lease.shard_id ≡ some sh
      → same sh.token lease.token ≡ false
  update-Lost shards f before keeps sh e = elim (Option-cases (shards lease.shard_id)) [
    | inl gone ↦ absurd (ground (arith, gone))
    | inr (old, at) ↦
        subst (λ x. same x.token lease.token ≡ false)
          (some-injective
            (sym (update_at shards f lease.shard_id old (f lease.shard_id old) at refl) ∙ e))
          (keeps old (before old at))
  ]

  either-Lost :
      (b : Bool) (x y : Shard)
      → same x.token lease.token ≡ false
      → same y.token lease.token ≡ false
      → same (if b then x else y).token lease.token ≡ false
  either-Lost true x y p q = p
  either-Lost false x y p q = q

  apply-Lost :
      (c : Cluster) (op : Op)
      → same "" lease.token ≡ false
      → Lost c
      → IsFresh op
      → Lost (apply shard_lease c op)
  unfolding Lost apply coordinate_release coordinate_acquire release
  apply-Lost c (releases node now) blank h fresh =
      update-Lost c.shards (give_up node (desired_at c node now)) h (λ sh k.
        either-Lost (same sh.owner node && not (holds (desired_at c node now) lease.shard_id))
          free_shard sh blank k)
  apply-Lost c (acquires node token desired now) blank h fresh =
      update-Lost (update_shards c.shards (renew (now + shard_lease) node desired now))
        (take_over (now + shard_lease) node token desired now)
        (update-Lost c.shards (renew (now + shard_lease) node desired now) h (λ sh k.
          either-Lost (same sh.owner node && ltb now sh.until && holds desired lease.shard_id)
            (record sh { until = now + shard_lease }) sh k k))
        (λ sh k.
          either-Lost (leb sh.until now && holds desired lease.shard_id)
            (record { owner = node; token = token; until = now + shard_lease }) sh fresh k)
  apply-Lost c (leaves node now) blank h fresh =
      update-Lost c.shards (freed node) h
        (λ sh k. either-Lost (same sh.owner node) free_shard sh blank k)

  apply_all-Lost :
      (c : Cluster) (ops : List Op)
      → same "" lease.token ≡ false
      → Lost c
      → All IsFresh ops
      → Lost (apply_all shard_lease c ops)
  apply_all-Lost c [] blank h fresh = h
  apply_all-Lost c (op ∷ rest) blank h (f, fresh) =
      apply_all-Lost (apply shard_lease c op) rest blank (apply-Lost c op blank h f) fresh

  lock_refused : (c : Cluster) (now : ℕ) → Lost c → lock_shard c lease now ≡ err lease_lost
  unfolding Lost lock_shard
  lock_refused c now h = elim (Option-cases (c.shards lease.shard_id)) [
    | inl gone ↦ ground (arith, gone)
    | inr (sh, at) ↦ ground (arith, at, h sh at)
  ]

  overtaken-Lost :
      (c : Cluster) (until : ℕ) (node token : String) (desired : List ℕ) (now : ℕ)
      → Held c lease until
      → same lease.owner_id node ≡ false
      → until ≤ now
      → holds desired lease.shard_id ≡ true
      → same token lease.token ≡ false
      → Lost (apply shard_lease c (acquires node token desired now))
  unfolding Lost apply coordinate_acquire
  overtaken-Lost c until node token desired now h other over wanted fresh sh e =
      subst (λ x. same x.token lease.token ≡ false) (some-injective (sym taken ∙ e)) fresh
    where
      kept :
          update_shards c.shards (renew (now + shard_lease) node desired now) lease.shard_id
          ≡ some (held_shard until)
      kept =
          update_at c.shards (renew (now + shard_lease) node desired now) lease.shard_id
            (held_shard until) (held_shard until) h (simp other)

      late : leb until now ≡ true
      late = ground arith

      taken :
          update_shards
            (update_shards c.shards (renew (now + shard_lease) node desired now))
            (take_over (now + shard_lease) node token desired now)
            lease.shard_id
          ≡ some (record { owner = node; token = token; until = now + shard_lease })
      taken =
          update_at (update_shards c.shards (renew (now + shard_lease) node desired now))
            (take_over (now + shard_lease) node token desired now) lease.shard_id (held_shard until)
            (record { owner = node; token = token; until = now + shard_lease }) kept
            (simp (late, wanted))

  -- When the lease is over and another node takes the shard, the old owner is shut out for good: as
  -- long as no node draws its token again, then, whatever the nodes do and at any time, its claim
  -- on the shard and its clean-up are refused and leave the messages as they are.
  pub overtaken_is_fenced :
      (c : Cluster) (until : ℕ) (node token : String) (desired : List ℕ) (now : ℕ)
      → Held c lease until
      → same lease.owner_id node ≡ false
      → until ≤ now
      → holds desired lease.shard_id ≡ true
      → same token lease.token ≡ false
      → same "" lease.token ≡ false
      → (ops : List Op) → All IsFresh ops
      → (settings : Settings) (t : Table) (locked : ℕ → Bool) (limit later : ℕ) (new_token : String)
      → let c' =
          apply_all shard_lease (apply shard_lease c (acquires node token desired now)) ops in
        (claim_shard settings c' t locked lease (suc limit) later new_token ≡ (t, err lease_lost))
        × (cleanup settings c' t locked lease later ≡ (t, err lease_lost))
  unfolding claim_shard cleanup
  overtaken_is_fenced c until node token desired now h other over wanted fresh blank ops all
        settings t locked limit later new_token =
      let shut =
        lock_refused
          (apply_all shard_lease (apply shard_lease c (acquires node token desired now)) ops) later
          (apply_all-Lost (apply shard_lease c (acquires node token desired now)) ops blank
            (overtaken-Lost c until node token desired now h other over wanted fresh) all) in
      (ground (arith, shut), ground (arith, shut))
