-- ===== src/Outbox/Store/Leases.antt =====
-- The lease of a delivery in pkg/outbox/storage.go: while it lasts the message has one holder.
use kc.Prelude.{
  ℕ, ◌+◌, ◌≤◌, ◌<◌, ◌≡◌, ◌≢◌, refl, sym, ap, ◌∙◌, subst, some-injective, Bool, true, false, Option,
  some, List, [], ◌∷◌, ltb, ◌==◌, length, take, not, ◌&&◌, ◌||◌, ok, arith, Bool-cases,
  Option-cases, inl, inr, ◌⊎◌, All,
}
use kc.Prelude.Names.{String, same, same_self}
use kc.Outbox.Store.{
  Status, processing, is_pending, is_processing, is_succeeded, is_failed, Settings, Row, Rows,
  Table, Task, Message, holds, ids_of, scan, order_by, exhausted_ids, claimed_tasks, mark_claimed,
  claim_ids, claim_shard_rows, shard_tasks, is_due, is_stale, finish, finished, retry, insert,
  cleanup_rows, holds_lease,
}
use kc.Prelude.Selecting.{All-take, All-map}
use kc.Outbox.Store.Selection.{
  count, IsRow, IsClaimable, scan-AllRows, shard_tasks-AllClaimable, All-order_by, count-append,
}
use kc.Outbox.Store.Steps.{
  Step, inserts, claims_ids, claims_shard, finishes, retries, cleans, apply, apply_all,
}

pub holds-exhausted :
    (settings : Settings) (tasks : List Task) (id : ℕ)
    → count id tasks ≡ 0
    → holds (exhausted_ids settings tasks) id ≡ false
holds-exhausted settings [] id h = refl
holds-exhausted settings (t ∷ rest) id h = ground (arith, holds-exhausted settings rest id)

pub count-claimed :
    (settings : Settings) (now : ℕ) (token : String) (tasks : List Task) (id : ℕ)
    → count id (claimed_tasks settings now token tasks) ≤ count id tasks
count-claimed settings now token [] id = omega arith
count-claimed settings now token (t ∷ rest) id =
    ground (arith, count-claimed settings now token rest id)

pub holds-ids_of :
    (tasks : List Task) (id : ℕ) → count id tasks ≡ 0 → holds (ids_of tasks) id ≡ false
holds-ids_of [] id h = refl
holds-ids_of (t ∷ rest) id h = ground (arith, holds-ids_of rest id)

-- A claim of other rows leaves the row alone and does not hand it out.
pub mark_claimed_others :
    (settings : Settings) (t : Table) (tasks : List Task) (now : ℕ) (token : String) (id : ℕ)
    → count id tasks ≡ 0
    → ((mark_claimed settings t tasks now token).0.rows id ≡ t.rows id)
      × (count id (mark_claimed settings t tasks now token).1 ≡ 0)
unfolding mark_claimed
mark_claimed_others settings t tasks now token id h = (
  ground (
    arith,
    holds-exhausted settings tasks id h,
    count-claimed settings now token tasks id,
    holds-ids_of (claimed_tasks settings now token tasks) id,
  ),
  omega (arith, count-claimed settings now token tasks id),
)

-- The row of the message has that token and that lease, and its delivery is under way.
abbrev pub Held : Table → ℕ → String → ℕ → Type 0
Held t id token until =
    (row : Row) × (t.rows id ≡ some row)
    × (row.status ≡ processing)
    × (row.lease_token ≡ token)
    × (row.lease_until ≡ until)
    × (id < t.next)

pub count-none :
    (P : Task → Type 0) (id : ℕ)
    → ((t : Task) → P t → t.id ≢ id)
    → (tasks : List Task) → All P tasks
    → count id tasks ≡ 0
count-none P id apart [] all = refl
count-none P id apart (t ∷ rest) (p, all) =
    ground (arith, apart t p, count-none P id apart rest all)

-- The row of a task is the row of the table under its key.
same_row :
    (rows : Rows) (t : Task) (id : ℕ) (row : Row)
    → rows t.id ≡ some t.row
    → rows id ≡ some row
    → t.id ≡ id
    → t.row ≡ row
same_row rows t id row e h same_id = some-injective (sym e ∙ ap rows same_id ∙ h)

under_way :
    (now : ℕ) (row : Row)
    → row.status ≡ processing
    → now < row.lease_until
    → (is_due now row || is_stale now row) ≡ false
under_way now row s live = ground (arith, ap is_pending s, ap is_processing s)

module _ (t : Table) (id : ℕ) (token : String) (until now : ℕ) (h : Held t id token until)
    (live : now < until) where
  claimable_others : (tasks : List Task) → All (IsClaimable t.rows now) tasks → count id tasks ≡ 0
  claimable_others = count-none (IsClaimable t.rows now) id apart
    where
      apart : (u : Task) → IsClaimable t.rows now u → u.id ≢ id
      apart u (e, fit) same_id =
          let (row, at, s, tok, lease, below) = h in
          absurd (
            ground (
              arith,
              sym fit
                  ∙ subst (λ r. (is_due now r || is_stale now r) ≡ false)
                      (sym (same_row t.rows u id row e at same_id))
                      (under_way now row s (omega (arith, lease, live))),
            ))

  -- A selection of succeeded rows does not have the row.
  succeeded_others :
      (fits : ℕ → Row → Bool)
      → ((u : ℕ) (r : Row) → fits u r ≡ true → is_succeeded r.status ≡ true)
      → (tasks : List Task) → All (IsRow t.rows fits) tasks
      → count id tasks ≡ 0
  succeeded_others fits only = count-none (IsRow t.rows fits) id apart
    where
      apart : (u : Task) → IsRow t.rows fits u → u.id ≢ id
      apart u (e, fit) same_id =
          let (row, at, s, tok, lease, below) = h in
          absurd (
            ground (
              arith,
              only u.id u.row fit,
              ap (λ r. is_succeeded r.status) (same_row t.rows u id row e at same_id),
              ap is_succeeded s,
            ))

-- The step leaves the row alone and does not hand the message out.
abbrev Keeps : Table → ℕ → Table × List Task → Type 0
Keeps t id (t', tasks) = (t'.rows id ≡ t.rows id) × (t.next ≤ t'.next) × (count id tasks ≡ 0)

-- The step is not the holder's own report.
abbrev pub IsOther : ℕ → String → Step → Type 0
IsOther id token (finishes task error delay) =
    (task.id ≢ id) ⊎ (same token task.row.lease_token ≡ false)
IsOther id token step = Unit

mark_claimed-Keeps :
    (settings : Settings) (t : Table) (tasks : List Task) (now : ℕ) (token : String) (id : ℕ)
    → count id tasks ≡ 0
    → Keeps t id (mark_claimed settings t tasks now token)
unfolding mark_claimed
mark_claimed-Keeps settings t tasks now token id h =
    let kept = mark_claimed_others settings t tasks now token id h in (kept.0, omega arith, kept.1)

module _ (settings : Settings) (t : Table) (id : ℕ) (token : String) (until now : ℕ)
    (h : Held t id token until) (live : now < until) where
  insert-Keeps : (m : Message) (shard : ℕ) → Keeps t id (apply settings t (inserts m shard) now)
  unfolding apply insert
  insert-Keeps m shard =
      let (row, at, s, tok, lease, below) = h in (ground arith, omega arith, refl)

  -- The row that stands under the key is the held one.
  held_row :
      (other : ℕ) (r : Row)
      → t.rows other ≡ some r
      → other ≡ id
      → (r.status ≡ processing) × (r.lease_token ≡ token)
  held_row other r e same_id =
      let (row, at, s, tok, lease, below) = h in
      let r_is : r ≡ row = some-injective (sym e ∙ ap t.rows same_id ∙ at) in
      (ap (λ x. x.status) r_is ∙ s, ap (λ x. x.lease_token) r_is ∙ tok)

  finish_apart :
      (task : Task)
      → (task.id ≢ id) ⊎ (same token task.row.lease_token ≡ false)
      → (r : Row) → t.rows task.id ≡ some r
      → holds_lease task now r ≡ true
      → task.id ≢ id
  finish_apart task (inl apart) r e holds_it same_id = apart same_id
  finish_apart task (inr other) r e holds_it same_id =
      let k = held_row task.id r e same_id in
      absurd (ground (arith, holds_it, other, ap (λ x. same x task.row.lease_token) k.1))

  finish-Keeps :
      (task : Task) (error : Option String) (delay : ℕ)
      → IsOther id token (finishes task error delay)
      → Keeps t id (apply settings t (finishes task error delay) now)
  unfolding apply finish
  finish-Keeps task error delay other = elim (Option-cases (t.rows task.id)) [
    | inl gone ↦ (ground (arith, gone), ground (arith, gone), refl)
    | inr (r, e) ↦ elim (Bool-cases (holds_lease task now r)) [
      | inl own ↦
          (ground (arith, e, own, finish_apart task other r e own), ground (arith, e, own), refl)
      | inr not_own ↦ (ground (arith, e, not_own), ground (arith, e, not_own), refl)
    ]
  ]

  retry-Keeps : (other : ℕ) → Keeps t id (apply settings t (retries other) now)
  unfolding apply retry
  retry-Keeps other = elim (Option-cases (t.rows other)) [
    | inl gone ↦ (ground (arith, gone), ground (arith, gone), refl)
    | inr (r, e) ↦ elim (Bool-cases (is_failed r.status)) [
      | inl f ↦ (ground (arith, e, f, not_held r e f), ground (arith, e, f), refl)
      | inr k ↦ (ground (arith, e, k), ground (arith, e, k), refl)
    ]
  ]
    where
      not_held : (r : Row) → t.rows other ≡ some r → is_failed r.status ≡ true → other ≢ id
      not_held r e f same_id =
          absurd (ground (arith, f, ap is_failed (held_row other r e same_id).0))

  cleanup-Keeps :
      (locked : ℕ → Bool) (shard : ℕ) → Keeps t id (apply settings t (cleans locked shard) now)
  unfolding apply cleanup_rows
  cleanup-Keeps locked shard = (ground (arith, holds-ids_of old id count_old), omega arith, refl)
    where
      fits : ℕ → Row → Bool
      fits id row =
          not (locked id)
          && (row.shard_id == shard)
          && is_succeeded row.status
          && ltb (row.completed_at + settings.retention) now

      old : List Task
      old =
          take settings.cleanup_batch_size
            (order_by (λ row. row.completed_at) (scan t.rows fits t.next))

      count_old : count id old ≡ 0
      count_old =
          succeeded_others t id token until now h live fits (λ u r e. ground (arith, e)) old
            (All-take (IsRow t.rows fits) settings.cleanup_batch_size
              (order_by (λ row. row.completed_at) (scan t.rows fits t.next))
              (All-order_by (IsRow t.rows fits) (λ row. row.completed_at) (scan t.rows fits t.next)
                (scan-AllRows t.rows fits t.next)))

  claim_ids-Keeps :
      (locked : ℕ → Bool) (ids : List ℕ) (limit : ℕ) (new_token : String)
      → Keeps t id (apply settings t (claims_ids locked ids limit new_token) now)
  unfolding apply claim_ids
  claim_ids-Keeps locked ids limit new_token =
      elim (Bool-cases ((length ids == 0) || (limit == 0))) [
        | inl nothing ↦
            subst (Keeps t id) {x = (t, [])}
              {y = claim_ids settings t locked ids limit now new_token} (simp nothing)
              (refl, omega arith, refl)
        | inr something ↦
            subst (Keeps t id) {x = mark_claimed settings t chosen now new_token}
              {y = claim_ids settings t locked ids limit now new_token} (simp something)
              (mark_claimed-Keeps settings t chosen now new_token id (
                claimable_others t id token until now h live chosen (
                  All-take (IsClaimable t.rows now) limit (scan t.rows fits t.next) (
                    All-map (IsRow t.rows fits) (IsClaimable t.rows now)
                      (λ u k. (k.0, ground (arith, k.1))) (scan t.rows fits t.next)
                      (scan-AllRows t.rows fits t.next)))))
      ]
    where
      fits : ℕ → Row → Bool
      fits id row = not (locked id) && holds ids id && (is_due now row || is_stale now row)

      chosen : List Task
      chosen = take limit (
          scan t.rows
            (λ id row. not (locked id) && holds ids id && (is_due now row || is_stale now row))
            t.next)

  claim_shard-Keeps :
      (locked : ℕ → Bool) (shard limit : ℕ) (new_token : String)
      → Keeps t id (apply settings t (claims_shard locked shard limit new_token) now)
  unfolding apply claim_shard_rows
  claim_shard-Keeps locked shard limit new_token =
      mark_claimed-Keeps settings t (shard_tasks t locked shard limit now) now new_token id (
        claimable_others t id token until now h live (shard_tasks t locked shard limit now)
          (shard_tasks-AllClaimable t locked shard now limit))

  apply-Keeps : (step : Step) → IsOther id token step → Keeps t id (apply settings t step now)
  apply-Keeps (inserts m shard) other = insert-Keeps m shard
  apply-Keeps (claims_ids locked ids limit new_token) other =
      claim_ids-Keeps locked ids limit new_token
  apply-Keeps (claims_shard locked shard limit new_token) other =
      claim_shard-Keeps locked shard limit new_token
  apply-Keeps (finishes task error delay) other = finish-Keeps task error delay other
  apply-Keeps (retries other_id) other = retry-Keeps other_id
  apply-Keeps (cleans locked shard) other = cleanup-Keeps locked shard

Held-Keeps :
    (t : Table) (id : ℕ) (token : String) (until : ℕ) (t' : Table)
    → Held t id token until
    → t'.rows id ≡ t.rows id
    → t.next ≤ t'.next
    → Held t' id token until
Held-Keeps t id token until t' (row, at, s, tok, lease, below) same_rows grown =
    (row, same_rows ∙ at, s, tok, lease, omega arith)

-- A step of another caller, while the lease lasts.
abbrev pub IsForeign : ℕ → String → ℕ → Step × ℕ → Type 0
IsForeign id token until (step, now) = IsOther id token step × (now < until)

-- The holder's report is accepted.
finish_own :
    (settings : Settings) (t : Table) (task : Task) (until now : ℕ) (error : Option String)
    (delay : ℕ)
    → Held t task.id task.row.lease_token until
    → now < until
    → (status : Status) × ((finish settings t task error delay now).1 ≡ ok status)
unfolding finish
finish_own settings t task until now error delay (row, at, s, tok, lease, below) live = (
  (finished settings task error delay now row).status,
  ground (
    arith,
    at,
    ap is_processing s,
    ap (λ x. same x task.row.lease_token) tok,
    same_self task.row.lease_token,
    lease,
  ),
)

-- While a delivery's lease lasts, whatever the other callers do, in any order, the message is not
-- handed out a second time, and the report of the one that holds it is accepted, with or without an
-- error. A report with another token does not count as the holder's.
pub lease_exclusive :
    (settings : Settings) (t : Table) (task : Task) (until : ℕ) (steps : List (Step × ℕ))
    → Held t task.id task.row.lease_token until
    → All (IsForeign task.id task.row.lease_token until) steps
    → (count task.id (apply_all settings t steps).1 ≡ 0)
      × ((error : Option String) (delay now : ℕ)
          → now < until
          → (status : Status) × ((finish settings
                (apply_all settings t steps).0
                task
                error
                delay
                now).1
              ≡ ok status))
lease_exclusive settings t task until [] h all =
    (refl, λ error delay now live. finish_own settings t task until now error delay h live)
lease_exclusive settings t task until ((step, now) ∷ rest) h ((other, live), all) =
    let kept = apply-Keeps settings t task.id task.row.lease_token until now h live step other in
    let more =
      lease_exclusive settings (apply settings t step now).0 task until rest
        (Held-Keeps t task.id task.row.lease_token until (apply settings t step now).0 h kept.0
          kept.1)
        all in
    (
      ground (
        arith,
        kept.2,
        more.0,
        count-append task.id (apply settings t step now).1
            (apply_all settings (apply settings t step now).0 rest).1,
      ),
      more.1,
    )
