-- ===== src/Compensator/Worker/Delivery.antt =====
-- A task of pkg/compensator from its claim to the stored result, with the other nodes in between.
use kc.Prelude.{
  ℕ, suc, ◌+◌, ◌≤◌, ◌≡◌, ◌≢◌, refl, sym, ◌∙◌, subst, Bool, true, false, Option, none, some, List,
  [], ◌∷◌, if◌then◌else◌, leb, ◌==◌, ◌&&◌, Result, ok, All, arith, if_elim, Bool-cases, inl, inr,
}
use kc.Prelude.Names.{String}
use kc.Prelude.Selecting.{IsIn, IsIn-All}
use kc.Compensator.Store.{
  Error, Status, pending, succeeded, failed, Row, Claimed, Table, has_id, update_rows, claim,
  holds_lease, any_row, finish_row, finish, abandon_row, abandon, get,
}
use kc.Compensator.Store.Steps.{Step, apply_all}
use kc.Compensator.Store.WellFormed.{IsDistinct, has_id-update_rows}
use kc.Compensator.Store.Held.{IsLeased, IsHeld, IsForeign, apply_all-IsHeld, apply_all-AllOther}
use kc.Compensator.Worker.{
  Config, Failure, Course, invoke, outcome, milliseconds, backoff, is_interrupted, execute,
}
use kc.Compensator.Store.Claiming.{claim-AllHeld}

-- What a run leaves of its task. It is done; or it waits for the next attempt; or it has failed; or
-- the run was interrupted, and the task waits as if it had not been handed out.
abbrev pub IsRescheduled : Config → (ℕ → ℕ) → ℕ → ℕ → Failure → Bool → Bool → Row → Type 0
IsRescheduled config draw attempt now e true spent row =
    (row.status ≡ pending) × (row.attempts + 1 ≡ attempt) × (row.next_run_at ≡ now)
IsRescheduled config draw attempt now e false true row =
    (row.status ≡ failed)
    × (row.attempts ≡ attempt)
    × (row.completed_at ≡ some now)
    × (row.last_error ≡ e.text)
IsRescheduled config draw attempt now e false false row =
    (row.status ≡ pending)
    × (row.attempts ≡ attempt)
    × (row.next_run_at ≡ now + milliseconds (backoff config draw attempt))
    × (row.last_error ≡ e.text)

abbrev pub IsStored : Config → (ℕ → ℕ) → Bool → ℕ → ℕ → Option Failure → Row → Type 0
IsStored config draw closed attempt now none row =
    (row.status ≡ succeeded) × (row.attempts ≡ attempt) × (row.completed_at ≡ some now)
IsStored config draw closed attempt now (some e) row =
    IsRescheduled config draw attempt now e (e.is_canceled && closed)
      (leb (suc config.settings.retries) attempt) row

found :
    (P : Row → Type 0) (id : ℕ) (t : Table)
    → All (λ row. row.id ≡ id → P row) t
    → has_id t id ≡ true
    → (row : Row) × (get t id ≡ some row) × P row
unfolding get
found P id [] all h = absurd (ground (arith, h))
found P id (first ∷ rest) (p, all) h = elim (Bool-cases (first.id == id)) [
  | inl own ↦ (first, ground (arith, own), p (ground (arith, own)))
  | inr other ↦
      let f = found P id rest all (ground (arith, h, other)) in
      (f.0, ground (arith, other, f.1), f.2)
]

any_row-IsHeld :
    (c : Claimed) (until : ℕ) (t : Table) → IsHeld c until t → any_row (holds_lease c) t ≡ true
any_row-IsHeld c until [] (all, there) = absurd (ground (arith, there))
any_row-IsHeld c until (row ∷ rest) ((h, all), there) = elim (Bool-cases (row.id == c.task.id)) [
  | inl own ↦ let leased = h (ground (arith, own)) in ground (arith, own, leased.0, leased.1)
  | inr other ↦ ground (arith, any_row-IsHeld c until rest (all, ground (arith, there, other)))
]

All-updated_from {ℓ κ} :
    (Q : Row → Type ℓ) (P : Row → Type κ) (fits : Row → Bool) (f : Row → Row)
    → ((row : Row) → Q row → fits row ≡ true → P (f row))
    → ((row : Row) → Q row → fits row ≡ false → P row)
    → (t : Table) → All Q t
    → All P (update_rows fits f t)
All-updated_from Q P fits f new old [] all = tt
All-updated_from Q P fits f new old (row ∷ rest) (h, all) =
    (if_elim P (fits row) (new row h) (old row h), All-updated_from Q P fits f new old rest all)

-- The holder's statement reaches the row.
update-found :
    (c : Claimed) (until : ℕ) (f : Row → Row) (P : Row → Type 0)
    → ((row : Row) → (f row).id ≡ row.id)
    → ((row : Row) → IsLeased c until row → P (f row))
    → (t : Table) → IsHeld c until t
    → (row : Row) × (get (update_rows (holds_lease c) f t) c.task.id ≡ some row) × P row
update-found c until f P keeps effect t (all, there) =
    found P c.task.id (update_rows (holds_lease c) f t)
      (All-updated_from (λ row. row.id ≡ c.task.id → IsLeased c until row)
        (λ row. row.id ≡ c.task.id → P row) (holds_lease c) f
        (λ row h e own. effect row (h (sym (keeps row) ∙ own)))
        (λ row h e own. let leased = h own in absurd (ground (arith, e, own, leased.0, leased.1))) t
        all)
      (has_id-update_rows (holds_lease c) f keeps t c.task.id ∙ there)

module _ (config : Config) (draw : ℕ → ℕ) (closed : Bool) (c : Claimed) (until now : ℕ) (t : Table)
    (held : IsHeld c until t) (first : 1 ≤ c.task.attempt) where
  abbrev Reports : Option Failure → Table × Result Error (Unit {0}) → Type 0
  Reports e (t', r) =
      (row : Row) × (get t' c.task.id ≡ some row)
      × IsStored config draw closed c.task.attempt now e row
      × (r ≡ ok tt)

  finish-Reports :
      (e : Option Failure)
      → is_interrupted closed e ≡ false
      → Reports e (
          finish t c
            (outcome config draw c.task.attempt e).0
            (outcome config draw c.task.attempt e).1
            (milliseconds (outcome config draw c.task.attempt e).2)
            now)
  unfolding finish outcome
  finish-Reports none no_stop =
      let f =
        update-found c until (finish_row succeeded "" 0 now)
          (λ row.
            (row.status ≡ succeeded)
            × (row.attempts ≡ c.task.attempt)
            × (row.completed_at ≡ some now))
          (λ row. refl) (λ row leased. (refl, leased.2, refl)) t held in
      (f.0, f.1, f.2, ground (arith, any_row-IsHeld c until t held))
  finish-Reports (some e) no_stop =
      by_tests (e.is_canceled && closed) (leb (suc config.settings.retries) c.task.attempt) no_stop
    where
      by_tests :
          (stop spent : Bool)
          → stop ≡ false
          → let o : Status × String × ℕ =
              if spent
              then (failed, e.text, 0)
              else (pending, e.text, backoff config draw c.task.attempt) in
            (row : Row) × (get (finish t c o.0 o.1 (milliseconds o.2) now).0 c.task.id ≡ some row)
            × IsRescheduled config draw c.task.attempt now e stop spent row
            × ((finish t c o.0 o.1 (milliseconds o.2) now).1 ≡ ok tt)
      by_tests true spent h = absurd (ground (arith, h))
      by_tests false true h =
          let f =
            update-found c until (finish_row failed e.text 0 now)
              (IsRescheduled config draw c.task.attempt now e false true) (λ row. refl)
              (λ row leased. (refl, leased.2, refl, refl)) t held in
          (f.0, f.1, f.2, ground (arith, any_row-IsHeld c until t held))
      by_tests false false h =
          let f =
            update-found c until
              (finish_row pending e.text (milliseconds (backoff config draw c.task.attempt)) now)
              (IsRescheduled config draw c.task.attempt now e false false) (λ row. refl)
              (λ row leased. (refl, leased.2, refl, refl)) t held in
          (f.0, f.1, f.2, ground (arith, any_row-IsHeld c until t held))

  abandon-Reports :
      (e : Option Failure) → is_interrupted closed e ≡ true → Reports e (abandon t c now, ok tt)
  unfolding abandon
  abandon-Reports none stop = absurd (ground (arith, stop))
  abandon-Reports (some e) stop =
      let f =
        update-found c until (abandon_row now)
          (IsRescheduled config draw c.task.attempt now e true
            (leb (suc config.settings.retries) c.task.attempt))
          (λ row. refl) (λ row leased. (refl, omega (arith, leased.2, first), refl)) t held in
      (
        f.0,
        f.1,
        subst
            (λ b.
              IsRescheduled config draw c.task.attempt now e b
                (leb (suc config.settings.retries) c.task.attempt) f.0)
            (sym stop) f.2,
        refl,
      )

  execute-Reports :
      (course : Course) → Reports (invoke course) (execute config draw closed t c course now)
  unfolding execute
  execute-Reports course =
      if_elim (Reports (invoke course)) (is_interrupted closed (invoke course))
        (abandon-Reports (invoke course)) (finish-Reports (invoke course))

-- A claimed task has one holder. From its claim on and while its lease lasts, whatever the other
-- nodes do, in any order, the task is not handed out again; and whenever its holder's handler ends,
-- with success, an error, a panic or an interruption, the result is stored: the task has succeeded
-- or failed, or it waits for the next attempt, or it waits as if it had not been handed out. The
-- others have other tokens or other tasks and clean up done tasks, and their claims come before the
-- end of the lease.
pub claim_delivers :
    (config : Config) (t : Table) (locked : ℕ → Bool) (limit token : ℕ) (types : String → Bool)
    (start : ℕ)
    → IsDistinct t
    → (c : Claimed) → IsIn c (claim config.settings t locked limit token types start).1
    → c.exhausted ≡ false
    → (steps : List (Step × ℕ)) → All (IsForeign c (start + config.settings.lease_duration)) steps
    → (draw : ℕ → ℕ) (closed : Bool) (course : Course) (now : ℕ)
    → let after =
        apply_all config.settings
          (claim config.settings t locked limit token types start).0
          steps in
      let result = execute config draw closed after.0 c course now in
      All (λ (d : Claimed). d.task.id ≢ c.task.id) after.1
      × ((row : Row) × (get result.0 c.task.id ≡ some row)
          × IsStored config draw closed c.task.attempt now (invoke course) row
          × (result.1 ≡ ok tt))
claim_delivers config t locked limit token types start distinct c handed runs steps foreign draw
      closed course now =
    let claimed_one =
      IsIn-All
        (λ (d : Claimed).
          d.exhausted ≡ false
          → (1 ≤ d.task.attempt)
            × IsHeld d (start + config.settings.lease_duration)
                (claim config.settings t locked limit token types start).0)
        c (claim config.settings t locked limit token types start).1
        (claim-AllHeld config.settings t locked limit token types start distinct) handed runs in
    (
      apply_all-AllOther c (start + config.settings.lease_duration) config.settings
          (claim config.settings t locked limit token types start).0 steps foreign claimed_one.1,
      execute-Reports config draw closed c (start + config.settings.lease_duration) now
          (apply_all config.settings (claim config.settings t locked limit token types start).0
            steps).0
          (apply_all-IsHeld c (start + config.settings.lease_duration) config.settings
            (claim config.settings t locked limit token types start).0 steps foreign claimed_one.1)
          claimed_one.0 course,
    )
