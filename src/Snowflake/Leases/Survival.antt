-- ===== src/Snowflake/Leases/Survival.antt =====
-- A worker ID of pkg/idgen/snowflake/storage.go with a lease that lasts, under the transactions of
-- other processes.
use kc.Prelude.{
  ℕ, ◌+◌, ◌≤◌, ◌≡◌, ◌≢◌, sym, ap, ◌∙◌, subst, some-injective, true, false, some, none, List, [],
  ◌∷◌, Result, ok, err, All, arith, Option-cases, inl, inr, ◌⊎◌,
}
use kc.Prelude.Names.{String, same, same_self}
use kc.Snowflake.Node.{max_worker_id}
use kc.Snowflake.Leases.{
  Error, Worker, Workers, Allocation, is_expired, owns, write_worker, larger, heartbeat, release,
  allocate_locked, allocate_worker_once, lock_coordinator, after_lock,
}
use kc.Snowflake.Leases.Allocating.{Allocates, allocate_locked-Allocates}
use kc.Snowflake.Leases.Barrier.{Op, allocates, beats, releases, apply, apply_all, owns_row}

-- The worker ID is leased under the token, and its last heartbeat was no earlier than u.
abbrev pub Held : Workers → ℕ → String → ℕ → Type 0
Held w id token u =
    (worker : Worker) × (w.rows id ≡ some worker)
    × (worker.lease_token ≡ token)
    × (u ≤ worker.updated_at)
    × (id ≤ max_worker_id)

-- Another process acts: it allocates while the lease lasts, or uses a lease of its own.
abbrev pub IsForeign : ℕ → String → ℕ → Op → Type 0
IsForeign id token u (allocates epoch new_token now) = now ≤ u + 30000
IsForeign id token u (beats other other_token timestamp now) =
    (other ≢ id) ⊎ (same token other_token ≡ false)
IsForeign id token u (releases other other_token timestamp now) =
    (other ≢ id) ⊎ (same token other_token ≡ false)

module _ (id : ℕ) (token : String) (u : ℕ) where
  allocated-Held :
      (w : Workers) (now : ℕ) (new_token : String) (w' : Workers) (r : Result Error Allocation)
      → now ≤ u + 30000
      → Held w id token u
      → Allocates w now new_token (w', r)
      → Held w' id token u
  allocated-Held w now new_token w' (ok a) early (worker, at, tok, fresh, in_range)
        (_, free, _, _, others, _, _) =
      (worker, others id apart ∙ at, tok, fresh, in_range)
    where
      apart : id ≢ a.worker_id
      apart same_id = taken free
        where
          taken :
              (w.rows a.worker_id ≡ none)
                ⊎ ((other : Worker) × (w.rows a.worker_id ≡ some other)
                    × (is_expired now other ≡ true))
              → ⊥
          taken (inl none_there) = absurd (ground (arith, sym at ∙ ap w.rows same_id ∙ none_there))
          taken (inr (other, there, over)) = absurd (
              ground (
                arith,
                over,
                ap (λ x. x.updated_at) (some-injective (sym at ∙ ap w.rows same_id ∙ there)),
              ))
  allocated-Held w now new_token w' (err e) early (worker, at, tok, fresh, in_range)
        (same_table, _, _) =
      (worker, ap (λ x. x.rows id) same_table ∙ at, tok, fresh, in_range)

  foreign_owns :
      (w : Workers) (other : ℕ) (other_token : String) (worker : Worker)
      → Held w id token u
      → (other ≢ id) ⊎ (same token other_token ≡ false)
      → owns w other other_token ≡ some worker
      → other ≢ id
  foreign_owns w other other_token worker held (inl apart) own same_id = apart same_id
  foreign_owns w other other_token worker (mine, at, tok, fresh, in_range) (inr foreign) own
        same_id =
      let o = owns_row w other other_token worker own in
      absurd (
        ground (
          arith,
          foreign,
          o.1,
          ap (λ x. same x other_token)
              (ap (λ x. x.lease_token) (some-injective (sym o.0 ∙ ap w.rows same_id ∙ at)) ∙ tok),
        ))

  written-Held :
      (w : Workers) (other : ℕ) (worker : Worker)
      → Held w id token u
      → other ≢ id
      → Held (write_worker w other worker) id token u
  written-Held w other worker (mine, at, tok, fresh, in_range) apart =
      (mine, ground (arith, at, apart), tok, fresh, in_range)

  apply-Held :
      (w : Workers) (op : Op)
      → Held w id token u
      → IsForeign id token u op
      → Held (apply w op) id token u
  unfolding apply allocate_worker_once heartbeat release
  apply-Held w (allocates epoch new_token now) held early = by_lock (lock_coordinator w epoch)
    where
      by_lock : (r : Result Error (Unit {0})) → Held (after_lock w now new_token r).0 id token u
      by_lock (err e) = held
      by_lock (ok locked) =
          allocated-Held w now new_token (allocate_locked w now new_token).0
            (allocate_locked w now new_token).1 early held
            (allocate_locked-Allocates w now new_token)
  apply-Held w (beats other other_token timestamp now) held foreign =
      elim (Option-cases (owns w other other_token)) [
        | inl none_there ↦
            subst (λ x. Held x id token u) {x = w}
              {y = (heartbeat w other other_token timestamp now).0} (ground (arith, none_there))
              held
        | inr (worker, own) ↦
            subst (λ x. Held x id token u)
              {x = write_worker w other (record worker {
                last_timestamp = larger (larger worker.last_timestamp timestamp) now;
                updated_at = now;
              })}
              {y = (heartbeat w other other_token timestamp now).0} (ground (arith, own))
              (written-Held w other
                (record worker {
                  last_timestamp = larger (larger worker.last_timestamp timestamp) now;
                  updated_at = now;
                })
                held (foreign_owns w other other_token worker held foreign own))
      ]
  apply-Held w (releases other other_token timestamp now) held foreign =
      elim (Option-cases (owns w other other_token)) [
        | inl none_there ↦
            subst (λ x. Held x id token u) {x = w} {y = release w other other_token timestamp now}
              (ground (arith, none_there)) held
        | inr (worker, own) ↦
            subst (λ x. Held x id token u)
              {x = write_worker w other (record worker {
                last_timestamp = larger (larger worker.last_timestamp timestamp) now;
                updated_at = 0;
              })}
              {y = release w other other_token timestamp now} (ground (arith, own))
              (written-Held w other
                (record worker {
                  last_timestamp = larger (larger worker.last_timestamp timestamp) now;
                  updated_at = 0;
                })
                held (foreign_owns w other other_token worker held foreign own))
      ]

  Held-heartbeat :
      (w : Workers) (timestamp now : ℕ)
      → Held w id token u
      → (heartbeat w id token timestamp now).1 ≡ ok tt
  unfolding heartbeat
  Held-heartbeat w timestamp now (mine, at, tok, fresh, in_range) =
      ground (arith, at, ap (λ x. same x token) tok, same_self token)

  -- As long as the others allocate no later than thirty seconds after a heartbeat, and use the
  -- tokens of their own leases, they leave the worker ID to its owner, whatever they do: its next
  -- heartbeat is accepted.
  pub live_lease_survives :
      (w : Workers) (ops : List Op)
      → Held w id token u
      → All (IsForeign id token u) ops
      → (timestamp now : ℕ) → (heartbeat (apply_all w ops) id token timestamp now).1 ≡ ok tt
  live_lease_survives w [] held all timestamp now = Held-heartbeat w timestamp now held
  live_lease_survives w (op ∷ rest) held (f, all) timestamp now =
      live_lease_survives (apply w op) rest (apply-Held w op held f) all timestamp now
