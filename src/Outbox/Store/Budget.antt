-- ===== src/Outbox/Store/Budget.antt =====
-- The delivery budget of pkg/outbox/storage.go: how often a message can be handed out.
use kc.Prelude.{
  ℕ, suc, ◌+◌, ◌-◌, some-injective, ◌≤◌, ◌<◌, ◌≡◌, ◌≢◌, refl, sym, ap, ◌∙◌, subst, Bool, true,
  Option, some, none, List, [], ◌∷◌, ◌==◌, length, take, not, ◌&&◌, ◌||◌, arith, Bool-cases,
  Option-cases, inl, inr, All,
}
use kc.Prelude.Names.{String}
use kc.Outbox.Store.{
  Settings, Row, Rows, Table, Task, Message, holds, ids_of, scan, claimed_tasks, mark_claimed,
  claim_ids, claim_shard_rows, shard_tasks, is_due, is_stale, is_exhausted, finish, retry, insert,
  cleanup_rows,
}
use kc.Prelude.Selecting.{All-take, All-map}
use kc.Outbox.Store.Selection.{
  count, IsRow, IsClaimable, scan-AllRows, shard_tasks-AllClaimable, count-shard_tasks,
  count_at_most_once, count-take, count-append,
}
use kc.Outbox.Store.Leases.{count-none, count-claimed}
use kc.Outbox.Store.Steps.{
  Step, inserts, claims_ids, claims_shard, finishes, retries, cleans, apply, apply_all,
}

-- How many attempts the message has had; a message that is gone has had none.
abbrev pub attempts_of : Table → ℕ → ℕ
attempts_of t id = elim (t.rows id) [ none ↦ 0 | some row ↦ row.attempts ]

-- The budget that the message has left: none if it is not there.
abbrev pub budget : Settings → Table → ℕ → ℕ
budget settings t id = elim (t.rows id) [
  | none ↦ 0
  | some row ↦ suc settings.retries - row.attempts
]

-- What a step spends: the deliveries come out of the budget.
abbrev Spends : Settings → Table → ℕ → Table × List Task → Type 0
Spends settings t id (t', tasks) =
    (count id tasks + budget settings t' id ≤ budget settings t id) × (t.next ≤ t'.next)

-- The selected rows are rows of the table.
abbrev IsListed : Rows → Task → Type 0
IsListed rows t = rows t.id ≡ some t.row

holds_counted : (tasks : List Task) (id : ℕ) → 1 ≤ count id tasks → holds (ids_of tasks) id ≡ true
holds_counted [] id h = absurd (omega arith)
holds_counted (t ∷ rest) id h = ground (arith, holds_counted rest id)

module _ (settings : Settings) (t : Table) (now : ℕ) (token : String) (id : ℕ) where
  -- A message whose budget is used up is not handed out.
  claimed_exhausted :
      (row : Row)
      → t.rows id ≡ some row
      → is_exhausted settings row ≡ true
      → (tasks : List Task) → All (IsListed t.rows) tasks
      → count id (claimed_tasks settings now token tasks) ≡ 0
  claimed_exhausted row e spent [] all = refl
  claimed_exhausted row e spent (u ∷ rest) (p, all) = elim (Bool-cases (id == u.id)) [
    | inl same_id ↦
        let u_is : u.row ≡ row =
          some-injective (sym p ∙ ap t.rows (sym (ground (arith, same_id))) ∙ e) in
        ground (arith, claimed_exhausted row e spent rest all, ap (is_exhausted settings) u_is)
    | inr other ↦ ground (arith, claimed_exhausted row e spent rest all)
  ]

  mark_claimed-Spends :
      (tasks : List Task)
      → All (IsListed t.rows) tasks
      → count id tasks ≤ 1
      → Spends settings t id (mark_claimed settings t tasks now token)
  unfolding mark_claimed
  mark_claimed-Spends tasks all once = (spent, omega arith)
    where
      claimed : List Task
      claimed = claimed_tasks settings now token tasks

      spent :
          count id claimed + budget settings (mark_claimed settings t tasks now token).0 id
          ≤ budget settings t id
      spent = elim (Option-cases (t.rows id)) [
        | inl gone ↦ ground (
          arith,
          gone,
          count-claimed settings now token tasks id,
          count-none (IsListed t.rows) id
              (λ u p same_id. absurd (ground (arith, p, ap t.rows same_id, gone))) tasks all,
        )
        | inr (row, e) ↦ elim (Bool-cases (holds (ids_of claimed) id)) [
          | inl taken ↦ ground (
            arith,
            e,
            taken,
            count-claimed settings now token tasks id,
            λ (k : is_exhausted settings row ≡ true). claimed_exhausted row e k tasks all,
          )
          | inr passed ↦ ground (
            arith,
            e,
            passed,
            holds_counted claimed id,
            count-claimed settings now token tasks id,
          )
        ]
      ]

-- Everything but a manual retry of the message.
abbrev pub IsNoRetry : ℕ → Step × ℕ → Type 0
IsNoRetry id (retries other, now) = other ≢ id
IsNoRetry id (step, now) = Unit

module _ (settings : Settings) (t : Table) (now id : ℕ) (known : id < t.next) where
  finish-Spends :
      (task : Task) (error : Option String) (delay : ℕ)
      → Spends settings t id (apply settings t (finishes task error delay) now)
  unfolding apply finish
  finish-Spends task none delay = (ground arith, ground arith)
  finish-Spends task (some message) delay = (ground arith, ground arith)

  retry-Spends :
      (other : ℕ) → other ≢ id → Spends settings t id (apply settings t (retries other) now)
  unfolding apply retry
  retry-Spends other apart = (ground arith, ground arith)

  cleanup-Spends :
      (locked : ℕ → Bool) (shard : ℕ)
      → Spends settings t id (apply settings t (cleans locked shard) now)
  unfolding apply cleanup_rows
  cleanup-Spends locked shard = (ground arith, omega arith)

  insert-Spends :
      (m : Message) (shard : ℕ) → Spends settings t id (apply settings t (inserts m shard) now)
  unfolding apply insert
  insert-Spends m shard = (ground arith, omega arith)

  claim_shard-Spends :
      (locked : ℕ → Bool) (shard limit : ℕ) (token : String)
      → Spends settings t id (apply settings t (claims_shard locked shard limit token) now)
  unfolding apply claim_shard_rows
  claim_shard-Spends locked shard limit token =
      mark_claimed-Spends settings t now token id (shard_tasks t locked shard limit now)
        (All-map (IsClaimable t.rows now) (IsListed t.rows) (λ u p. p.0)
          (shard_tasks t locked shard limit now)
          (shard_tasks-AllClaimable t locked shard now limit))
        (count-shard_tasks t locked shard now id limit)

  claim_ids-Spends :
      (locked : ℕ → Bool) (ids : List ℕ) (limit : ℕ) (token : String)
      → Spends settings t id (apply settings t (claims_ids locked ids limit token) now)
  unfolding apply claim_ids
  claim_ids-Spends locked ids limit token = elim (Bool-cases ((length ids == 0) || (limit == 0))) [
    | inl nothing ↦
        subst (Spends settings t id) {x = (t, [])}
          {y = claim_ids settings t locked ids limit now token} (simp nothing)
          (omega arith, omega arith)
    | inr something ↦
        subst (Spends settings t id) {x = mark_claimed settings t (take limit found) now token}
          {y = claim_ids settings t locked ids limit now token} (simp something)
          (mark_claimed-Spends settings t now token id (take limit found)
            (All-take (IsListed t.rows) limit found (
              All-map (IsRow t.rows fits) (IsListed t.rows) (λ u p. p.0) found
                (scan-AllRows t.rows fits t.next)))
            (omega (arith, count-take id limit found, count_at_most_once id t.rows fits t.next)))
  ]
    where
      fits : ℕ → Row → Bool
      fits id row = not (locked id) && holds ids id && (is_due now row || is_stale now row)

      found : List Task
      found =
          scan t.rows
            (λ id row. not (locked id) && holds ids id && (is_due now row || is_stale now row))
            t.next

  apply-Spends :
      (step : Step) → IsNoRetry id (step, now) → Spends settings t id (apply settings t step now)
  apply-Spends (inserts m shard) other = insert-Spends m shard
  apply-Spends (claims_ids locked ids limit token) other = claim_ids-Spends locked ids limit token
  apply-Spends (claims_shard locked shard limit token) other =
      claim_shard-Spends locked shard limit token
  apply-Spends (finishes task error delay) other = finish-Spends task error delay
  apply-Spends (retries other_id) other = retry-Spends other_id other
  apply-Spends (cleans locked shard) other = cleanup-Spends locked shard

-- Without a manual retry a message is handed out at most as often as its budget allows: in all, once
-- and then once for each retry of the settings. Whatever the nodes do, in whatever order and at
-- whatever times, the deliveries of a run and the budget left after it come out of the budget before.
pub deliveries_bounded :
    (settings : Settings) (t : Table) (id : ℕ) (steps : List (Step × ℕ))
    → id < t.next
    → All (IsNoRetry id) steps
    → count id (apply_all settings t steps).1 + budget settings (apply_all settings t steps).0 id
      ≤ budget settings t id
deliveries_bounded settings t id [] known all = omega arith
deliveries_bounded settings t id ((step, now) ∷ rest) known (other, all) =
    let first = apply-Spends settings t now id known step other in
    omega (
      arith,
      first.0,
      deliveries_bounded settings (apply settings t step now).0 id rest (omega (arith, first.1))
          all,
      count-append id (apply settings t step now).1
          (apply_all settings (apply settings t step now).0 rest).1,
    )
