-- ===== src/Compensator/Store/Held.antt =====
-- A task of pkg/compensator/storage.go under its lease, while the other nodes use the table.
use kc.Prelude.{
  ℕ, ◌<◌, ◌≡◌, ◌≢◌, refl, sym, ap, ◌∙◌, Bool, true, false, List, [], ◌∷◌, ◌++◌, map, ◌==◌, ◌&&◌,
  not, take, Result, All, arith, if_elim, Bool-cases, inl, inr, ◌⊎◌,
}
use kc.Prelude.Names.{String}
use kc.Prelude.Selecting.{
  contains, filter, order_by, All-filter, All-filter_of_All, All-order_by, All-take, All-append,
}
use kc.Compensator.Store.{
  Error, Status, pending, running, succeeded, failed, is_running, is_open, is_failed, same_status,
  Task, Row, Claimed, Settings, Table, new_row, has_id, insert, update_rows, is_due, claim_row,
  claimed, ids_of, picked, claim, holds_lease, finish_row, finish, abandon_row, abandon, reset_row,
  is_failed_task, retry, is_old, old_ids, cleanup,
}
use kc.Compensator.Store.Steps.{
  Step, inserts, claims, finishes, abandons, retries, cleans, inserted, apply, apply_all,
}
use kc.Compensator.Store.WellFormed.{
  All-update_rows, has_id-update_rows, All-append_one, has_id-append, claim_row-id,
}

-- The row runs under the token of the claim, for its attempt and until that time.
abbrev pub IsLeased : Claimed → ℕ → Row → Type 0
IsLeased c until row =
    (is_running row.status ≡ true)
    × (row.lease_token ≡ c.token)
    × (row.attempts ≡ c.task.attempt)
    × (row.next_run_at ≡ until)

-- The table has the task of the claim, under its lease.
abbrev pub IsHeld : Claimed → ℕ → Table → Type 0
IsHeld c until t =
    All (λ row. row.id ≡ c.task.id → IsLeased c until row) t × (has_id t c.task.id ≡ true)

-- A step of another node while the lease lasts. Its claims have other tokens, what it reports it
-- holds under another token or is about another task, and it cleans up tasks that are done.
abbrev pub IsForeign : Claimed → ℕ → Step × ℕ → Type 0
IsForeign c until (inserts tasks, now) = Unit
IsForeign c until (claims locked limit token types, now) = (token ≢ c.token) × (now < until)
IsForeign c until (finishes d status last_error delay, now) =
    (d.task.id ≢ c.task.id) ⊎ (d.token ≢ c.token)
IsForeign c until (abandons d, now) = (d.task.id ≢ c.task.id) ⊎ (d.token ≢ c.token)
IsForeign c until (retries id, now) = Unit
IsForeign c until (cleans locked status older_than limit, now) = is_open status ≡ false

contains-ids_of : (id : ℕ) (t : Table) → All (λ row. row.id ≢ id) t → contains (ids_of t) id ≡ false
contains-ids_of id [] all = refl
contains-ids_of id (row ∷ rest) (h, all) = ground (arith, h, contains-ids_of id rest all)

running_not_failed : (r : Status) → is_running r ≡ true → is_failed r ≡ true → ⊥
running_not_failed pending e f = absurd (ground (arith, e))
running_not_failed running e f = absurd (ground (arith, f))
running_not_failed succeeded e f = absurd (ground (arith, e))
running_not_failed failed e f = absurd (ground (arith, e))

running_not_old :
    (s r : Status) → is_open s ≡ false → is_running r ≡ true → same_status s r ≡ true → ⊥
running_not_old pending r d e f = absurd (ground (arith, d))
running_not_old running r d e f = absurd (ground (arith, d))
running_not_old succeeded r d e f = absurd (ground (arith, e, f))
running_not_old failed r d e f = running_not_failed r e f

has_id-filter_of_kept :
    (p : Row → Bool) (id : ℕ)
    → ((row : Row) → row.id ≡ id → p row ≡ true)
    → (u : Table) → has_id u id ≡ true
    → has_id (filter p u) id ≡ true
has_id-filter_of_kept p id keeps [] h = h
has_id-filter_of_kept p id keeps (row ∷ rest) h = elim (Bool-cases (row.id == id)) [
  | inl own ↦ ground (arith, own, keeps row (ground (arith, own)))
  | inr other ↦ ground (arith, h, other, has_id-filter_of_kept p id keeps rest)
]

All-map-claimed :
    (id token : ℕ) (u : Table)
    → All (λ row. row.id ≢ id) u
    → All (λ (d : Claimed). d.task.id ≢ id) (map (claimed token) u)
All-map-claimed id token [] all = tt
All-map-claimed id token (row ∷ rest) (h, all) = (h, All-map-claimed id token rest all)

All-Unit : (u : Table) → All (λ row. Unit {0}) u
All-Unit [] = tt
All-Unit (row ∷ rest) = (tt, All-Unit rest)

module _ (c : Claimed) (until : ℕ) where
  abbrev Leased : Row → Type 0
  Leased row = row.id ≡ c.task.id → IsLeased c until row

  -- An update that leaves the leased row alone.
  update-IsHeld :
      (fits : Row → Bool) (f : Row → Row)
      → ((row : Row) → (f row).id ≡ row.id)
      → ((row : Row) → fits row ≡ true → row.id ≡ c.task.id → IsLeased c until row → ⊥)
      → (t : Table) → IsHeld c until t
      → IsHeld c until (update_rows fits f t)
  update-IsHeld fits f keeps apart t (all, there) = (
    All-update_rows Leased fits f
        (λ row e h own. absurd (apart row e (sym (keeps row) ∙ own) (h (sym (keeps row) ∙ own)))) t
        all,
    has_id-update_rows fits f keeps t c.task.id ∙ there,
  )

  not_held :
      (d : Claimed)
      → (d.task.id ≢ c.task.id) ⊎ (d.token ≢ c.token)
      → (row : Row) → holds_lease d row ≡ true
      → row.id ≡ c.task.id
      → IsLeased c until row
      → ⊥
  not_held d (inl other) row e own h = other (ground (arith, e, own))
  not_held d (inr other) row e own h = other (ground (arith, e, h.1))

  picked_apart :
      (t : Table) (locked : ℕ → Bool) (limit : ℕ) (types : String → Bool) (now : ℕ)
      → now < until
      → IsHeld c until t
      → contains (picked t locked limit types now) c.task.id ≡ false
  unfolding picked
  picked_apart t locked limit types now live (all, there) =
      contains-ids_of c.task.id (take limit (order_by (λ row. row.next_run_at) due)) (
        All-take Apart limit (order_by (λ row. row.next_run_at) due) (
          All-order_by Apart (λ row. row.next_run_at) due
            (All-filter Leased Apart (λ row. not (locked row.id) && is_due types now row)
              (λ row h e own. absurd (ground (arith, e, h own, live))) t all)))
    where
      Apart : Row → Type 0
      Apart row = row.id ≢ c.task.id

      due : Table
      due = filter (λ row. not (locked row.id) && is_due types now row) t

  old_apart :
      (t : Table) (locked : ℕ → Bool) (status : Status) (older_than limit now : ℕ)
      → is_open status ≡ false
      → IsHeld c until t
      → contains (old_ids t locked status older_than limit now) c.task.id ≡ false
  unfolding old_ids
  old_apart t locked status older_than limit now done (all, there) =
      contains-ids_of c.task.id (take limit old) (
        All-take Apart limit old (
          All-filter Leased Apart
            (λ row.
              not (locked row.id)
              && same_status status row.status
              && is_old older_than now row.completed_at)
            (λ row h e own. running_not_old status row.status done (h own).0 (ground (arith, e))) t
            all))
    where
      Apart : Row → Type 0
      Apart row = row.id ≢ c.task.id

      old : Table
      old =
          filter
            (λ row.
              not (locked row.id)
              && same_status status row.status
              && is_old older_than now row.completed_at)
            t

  insert-IsHeld :
      (t : Table) (tasks : List Task) (now : ℕ) (first : Table)
      → IsHeld c until t
      → IsHeld c until first
      → IsHeld c until (inserted first (insert t tasks now))
  unfolding insert
  insert-IsHeld t [] now first h was = h
  insert-IsHeld t (task ∷ rest) now first (all, there) was =
      if_elim (λ (r : Result Error Table). IsHeld c until (inserted first r)) (has_id t task.id)
        (λ e. was)
        (λ e.
          insert-IsHeld (t ++ new_row now task ∷ []) rest now first
            (
              All-append_one Leased t (new_row now task) all
                  (λ own. absurd (ground (arith, e, there, ap (has_id t) own))),
              ground (arith, has_id-append t (new_row now task ∷ []) c.task.id, there),
            )
            was)

  filter-IsHeld :
      (p : Row → Bool)
      → ((row : Row) → row.id ≡ c.task.id → p row ≡ true)
      → (t : Table) → IsHeld c until t
      → IsHeld c until (filter p t)
  filter-IsHeld p keeps t (all, there) = (All-filter_of_All Leased p t all, kept t there)
    where
      kept : (u : Table) → has_id u c.task.id ≡ true → has_id (filter p u) c.task.id ≡ true
      kept u h = has_id-filter_of_kept p c.task.id keeps u h

  apply-IsHeld :
      (settings : Settings) (t : Table) (step : Step) (now : ℕ)
      → IsForeign c until (step, now)
      → IsHeld c until t
      → IsHeld c until (apply settings t step now).0
  unfolding apply claim finish abandon retry cleanup
  apply-IsHeld settings t (inserts tasks) now foreign h = insert-IsHeld t tasks now t h h
  apply-IsHeld settings t (claims locked limit token types) now (fresh, live) h =
      update-IsHeld (λ row. contains (picked t locked limit types now) row.id)
        (claim_row settings token now) (claim_row-id settings token now)
        (λ row e own k. absurd (
          ground (
            arith,
            e,
            picked_apart t locked limit types now live h,
            ap (contains (picked t locked limit types now)) own,
          )))
        t h
  apply-IsHeld settings t (finishes d status last_error delay) now foreign h =
      update-IsHeld (holds_lease d) (finish_row status last_error delay now) (λ row. refl)
        (not_held d foreign) t h
  apply-IsHeld settings t (abandons d) now foreign h =
      update-IsHeld (holds_lease d) (abandon_row now) (λ row. refl) (not_held d foreign) t h
  apply-IsHeld settings t (retries id) now foreign h =
      update-IsHeld (is_failed_task id) (reset_row now) (λ row. refl)
        (λ row e own k. running_not_failed row.status k.0 (ground (arith, e))) t h
  apply-IsHeld settings t (cleans locked status older_than limit) now done h =
      filter-IsHeld (λ row. not (contains (old_ids t locked status older_than limit now) row.id))
        (λ row own. ground (
          arith,
          old_apart t locked status older_than limit now done h,
          ap (contains (old_ids t locked status older_than limit now)) own,
        ))
        t h

  -- The steps of the other nodes leave the task to its holder.
  pub apply_all-IsHeld :
      (settings : Settings) (t : Table) (steps : List (Step × ℕ))
      → All (IsForeign c until) steps
      → IsHeld c until t
      → IsHeld c until (apply_all settings t steps).0
  apply_all-IsHeld settings t [] foreign h = h
  apply_all-IsHeld settings t ((step, now) ∷ rest) (f, foreign) h =
      apply_all-IsHeld settings (apply settings t step now).0 rest foreign
        (apply-IsHeld settings t step now f h)

  -- The step hands out other tasks only.
  apply-AllOther :
      (settings : Settings) (t : Table) (step : Step) (now : ℕ)
      → IsForeign c until (step, now)
      → IsHeld c until t
      → All (λ (d : Claimed). d.task.id ≢ c.task.id) (apply settings t step now).1
  unfolding apply claim
  apply-AllOther settings t (inserts tasks) now foreign h = tt
  apply-AllOther settings t (claims locked limit token types) now (fresh, live) h =
      All-map-claimed c.task.id token
        (filter (λ row. contains (picked t locked limit types now) row.id)
          (update_rows (λ row. contains (picked t locked limit types now) row.id)
            (claim_row settings token now) t))
        (All-filter (λ row. Unit {0}) (λ row. row.id ≢ c.task.id)
          (λ row. contains (picked t locked limit types now) row.id)
          (λ row u e own. absurd (
            ground (
              arith,
              e,
              picked_apart t locked limit types now live h,
              ap (contains (picked t locked limit types now)) own,
            )))
          (update_rows (λ row. contains (picked t locked limit types now) row.id)
            (claim_row settings token now) t)
          (All-Unit (
            update_rows (λ row. contains (picked t locked limit types now) row.id)
              (claim_row settings token now) t)))
  apply-AllOther settings t (finishes d status last_error delay) now foreign h = tt
  apply-AllOther settings t (abandons d) now foreign h = tt
  apply-AllOther settings t (retries id) now foreign h = tt
  apply-AllOther settings t (cleans locked status older_than limit) now foreign h = tt

  pub apply_all-AllOther :
      (settings : Settings) (t : Table) (steps : List (Step × ℕ))
      → All (IsForeign c until) steps
      → IsHeld c until t
      → All (λ (d : Claimed). d.task.id ≢ c.task.id) (apply_all settings t steps).1
  apply_all-AllOther settings t [] foreign h = tt
  apply_all-AllOther settings t ((step, now) ∷ rest) (f, foreign) h =
      All-append (λ (d : Claimed). d.task.id ≢ c.task.id) (apply settings t step now).1
        (apply_all settings (apply settings t step now).0 rest).1
        (apply-AllOther settings t step now f h)
        (apply_all-AllOther settings (apply settings t step now).0 rest foreign
          (apply-IsHeld settings t step now f h))
