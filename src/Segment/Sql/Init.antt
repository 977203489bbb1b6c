-- ===== src/Segment/Sql/Init.antt =====
-- `initTag` of pkg/idgen/segment/storage.go.
use kc.Prelude.{
  ℕ, zero, suc, ◌≡◌, Bool, true, false, Option, some, none, List, Result, ok, err, refl, sym, ap,
  ◌∙◌, subst, inl, inr, ◌⊎◌,
}
use kc.Prelude.Int.{ℤ}
use kc.Segment.Store.{Error}
use kc.Segment.Sql.{
  Row, Dialect, postgresql, mysql, deadlock, duplicate_key, other, Weather, done, fine, refused,
  lost, Failure, own, driver, Attempt, Db, init_postgresql, init_mysql_once, under, retry,
  after_attempt, init_tag, weather_now, weather_later, database_retries,
}

-- The row is the old or the new one, and after a success it is the new one.
abbrev pub Settles : Option Row → Option Row → Db × Result Error (Unit {0}) → Type 0
Settles old new (db, ok x) = db.row ≡ new
Settles old new (db, err e) = (db.row ≡ old) ⊎ (db.row ≡ new)

abbrev Either : Option Row → Option Row → Option Row × Result Failure (Unit {0}) → Type 0
Either old new (row, ok x) = row ≡ new
Either old new (row, err f) = (row ≡ old) ⊎ (row ≡ new)

module _ (op : Attempt (Unit {0})) (old new : Option Row) (first : op old ≡ (new, ok tt))
    (again : op new ≡ (new, ok tt)) where
  op-Either : (row : Option Row) → (row ≡ old) ⊎ (row ≡ new) → Either old new (op row)
  op-Either row (inl e) = subst (Either old new) (sym first ∙ ap op (sym e)) refl
  op-Either row (inr e) = subst (Either old new) (sym again ∙ ap op (sym e)) refl

  new_of :
      (out : Option Row × Result Failure (Unit {0}))
      → Either old new out
      → (out.0 ≡ old) ⊎ (out.0 ≡ new)
  new_of (row, ok x) e = inr e
  new_of (row, err f) e = e

  under-Either :
      (w : Weather) (row : Option Row) → (row ≡ old) ⊎ (row ≡ new) → Either old new (under w op row)
  unfolding under
  under-Either done row h = h
  under-Either fine row h = op-Either row h
  under-Either (refused f) row h = h
  under-Either (lost f) row h = new_of (op row) (op-Either row h)

  after_attempt-Settles :
      (rest : Db → Db × Result Error (Unit {0})) (dup : Bool) (ws : List Weather)
      (out : Option Row × Result Failure (Unit {0}))
      → ((db : Db) → (db.row ≡ old) ⊎ (db.row ≡ new) → Settles old new (rest db))
      → Either old new out
      → Settles old new (after_attempt rest dup (record { row = out.0; weather = ws }) out.1)
  unfolding after_attempt
  after_attempt-Settles rest dup ws (row, ok x) more e = e
  after_attempt-Settles rest dup ws (row, err (own x)) more e = e
  after_attempt-Settles rest dup ws (row, err (driver deadlock)) more e =
      more (record { row = row; weather = ws }) e
  after_attempt-Settles rest true ws (row, err (driver duplicate_key)) more e =
      more (record { row = row; weather = ws }) e
  after_attempt-Settles rest false ws (row, err (driver duplicate_key)) more e = e
  after_attempt-Settles rest dup ws (row, err (driver other)) more e = e

  retry-Settles :
      (n : ℕ) (dup : Bool) (db : Db)
      → (db.row ≡ old) ⊎ (db.row ≡ new)
      → Settles old new (retry n dup op db)
  unfolding retry
  retry-Settles zero dup db h = h
  retry-Settles (suc n) dup db h =
      after_attempt-Settles (retry n dup op) dup (weather_later db.weather)
        (under (weather_now db.weather) op db.row) (retry-Settles n dup)
        (under-Either (weather_now db.weather) db.row h)

-- The row that `initTag` means to leave.
abbrev pub initialised : ℕ → ℤ → Option Row → Option Row
initialised start_id step none = some (record { max_id = start_id; step = step })
initialised start_id step (some row) = some (record row { step = step })

-- A success leaves a new tag at its start and a known tag at its old `max_id`, with the new step;
-- a failure leaves that row or the old one. So initialising a tag again never takes back IDs.
pub init_tag-Settles :
    (d : Dialect) (start_id : ℕ) (step : ℤ) (row : Option Row) (weather : List Weather)
    → Settles row
        (initialised start_id step row)
        (init_tag d start_id step (record { row = row; weather = weather }))
unfolding init_tag
init_tag-Settles postgresql start_id step none ws =
    retry-Settles (init_postgresql start_id step) none (initialised start_id step none) refl refl
      database_retries false (record { row = none; weather = ws }) (inl refl)
init_tag-Settles postgresql start_id step (some row) ws =
    retry-Settles (init_postgresql start_id step) (some row) (initialised start_id step (some row))
      refl refl database_retries false (record { row = some row; weather = ws }) (inl refl)
init_tag-Settles mysql start_id step none ws =
    retry-Settles (init_mysql_once start_id step) none (initialised start_id step none) refl refl
      database_retries true (record { row = none; weather = ws }) (inl refl)
init_tag-Settles mysql start_id step (some row) ws =
    retry-Settles (init_mysql_once start_id step) (some row) (initialised start_id step (some row))
      refl refl database_retries true (record { row = some row; weather = ws }) (inl refl)
