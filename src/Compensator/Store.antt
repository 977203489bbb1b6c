-- ===== src/Compensator/Store.antt =====
-- The task table of pkg/compensator/storage.go, with the types of types.go. A statement is one step;
-- `now` is the clock of the database, in milliseconds. The rows stand in the order of their
-- insertion. A token is a number, and 0 is that of a task that nobody holds.
pub mod Steps
pub mod WellFormed
pub mod Held
pub mod Claiming
use kc.Prelude.{
  ℕ, suc, ◌+◌, ◌-◌, Bool, true, false, Option, none, some, List, [], ◌∷◌, ◌++◌, map, if◌then◌else◌,
  ltb, leb, ◌==◌, length, take, not, ◌&&◌, ◌||◌, Result, ok, err,
}
use kc.Prelude.Selecting.{contains, filter, order_by}
use kc.Prelude.Names.{String}

pub data Error : Type 0 where
  not_found not_failed lease_lost duplicate_id : Error

pub data Status : Type 0 where
  pending running succeeded failed : Status

abbrev pub is_pending : Status → Bool
is_pending pending = true
is_pending s = false

abbrev pub is_running : Status → Bool
is_running running = true
is_running s = false

abbrev pub is_failed : Status → Bool
is_failed failed = true
is_failed s = false

-- `status < 2`
abbrev pub is_open : Status → Bool
is_open s = is_pending s || is_running s

abbrev pub same_status : Status → Status → Bool
same_status pending s = is_pending s
same_status running s = is_running s
same_status succeeded s = not (is_open s) && not (is_failed s)
same_status failed s = is_failed s

pub record Task : Type 0 where
  pub id : ℕ
  pub task_type : String
  pub payload : String
  pub attempt : ℕ

pub record Row : Type 0 where
  pub id : ℕ
  pub task_type : String
  pub payload : String
  pub status : Status
  pub attempts : ℕ
  pub next_run_at : ℕ
  pub lease_token : ℕ
  pub last_error : String
  pub created_at : ℕ
  pub updated_at : ℕ
  pub completed_at : Option ℕ

-- A task with the token under which it is held, or one that the claim has given up.
pub record Claimed : Type 0 where
  pub task : Task
  pub token : ℕ
  pub exhausted : Bool

-- The settings that the storage reads, durations in milliseconds.
pub record Settings : Type 0 where
  pub retries : ℕ
  pub lease_duration : ℕ

abbrev pub Table : Type 0
Table = List Row

abbrev pub new_row : ℕ → Task → Row
new_row now task = record {
  id = task.id;
  task_type = task.task_type;
  payload = task.payload;
  status = pending;
  attempts = 0;
  next_run_at = now;
  lease_token = 0;
  last_error = "";
  created_at = now;
  updated_at = now;
  completed_at = none;
}

abbrev pub has_id : Table → ℕ → Bool
has_id [] id = false
has_id (row ∷ rest) id = (row.id == id) || has_id rest id

-- The insertion of all tasks, or of none: two rows cannot share an ID.
unfoldable pub insert : Table → List Task → ℕ → Result Error Table
insert t [] now = ok t
insert t (task ∷ rest) now =
    let further = insert (t ++ new_row now task ∷ []) rest now in
    if has_id t task.id then err duplicate_id else further

-- `UPDATE ... WHERE`
abbrev pub update_rows : (Row → Bool) → (Row → Row) → Table → Table
update_rows fits f [] = []
update_rows fits f (row ∷ rest) = (if fits row then f row else row) ∷ update_rows fits f rest

-- A row that a claim may take: it is not done, it is due, and its type is one that the node runs.
abbrev pub is_due : (String → Bool) → ℕ → Row → Bool
is_due types now row = is_open row.status && leb row.next_run_at now && types row.task_type

abbrev pub is_exhausted : Settings → Row → Bool
is_exhausted settings row = leb (suc settings.retries) row.attempts

abbrev pub exhaust : ℕ → Row → Row
exhaust now row = record row {
  status = failed;
  lease_token = 0;
  last_error = "retry budget exhausted after lease expiration";
  completed_at = some now;
  updated_at = now;
}

abbrev pub lease : Settings → ℕ → ℕ → Row → Row
lease settings token now row = record row {
  status = running;
  attempts = suc row.attempts;
  lease_token = token;
  next_run_at = now + settings.lease_duration;
  completed_at = none;
  updated_at = now;
}

abbrev pub claim_row : Settings → ℕ → ℕ → Row → Row
claim_row settings token now row =
    if is_exhausted settings row then exhaust now row else lease settings token now row

-- `RETURNING`
abbrev pub claimed : ℕ → Row → Claimed
claimed token row = record {
  task = record {
    id = row.id;
    task_type = row.task_type;
    payload = row.payload;
    attempt = row.attempts;
  };
  token = token;
  exhausted = not (is_running row.status);
}

abbrev pub ids_of : Table → List ℕ
ids_of [] = []
ids_of (row ∷ rest) = row.id ∷ ids_of rest

-- The rows that a claim takes; `locked` are those that other statements hold (SKIP LOCKED).
unfoldable pub picked : Table → (ℕ → Bool) → ℕ → (String → Bool) → ℕ → List ℕ
picked t locked limit types now = ids_of (
    take limit (
      order_by (λ row. row.next_run_at)
        (filter (λ row. not (locked row.id) && is_due types now row) t)))

unfoldable pub claim :
    Settings → Table → (ℕ → Bool) → ℕ → ℕ → (String → Bool) → ℕ → Table × List Claimed
claim settings t locked limit token types now =
    let ids = picked t locked limit types now in
    let t' = update_rows (λ row. contains ids row.id) (claim_row settings token now) t in
    (t', map (claimed token) (filter (λ row. contains ids row.id) t'))

-- The `WHERE` of finish and of abandon.
abbrev pub holds_lease : Claimed → Row → Bool
holds_lease c row = (row.id == c.task.id) && is_running row.status && (row.lease_token == c.token)

abbrev pub any_row : (Row → Bool) → Table → Bool
any_row fits [] = false
any_row fits (row ∷ rest) = fits row || any_row fits rest

abbrev pub finish_row : Status → String → ℕ → ℕ → Row → Row
finish_row status last_error delay now row = record row {
  status = status;
  lease_token = 0;
  last_error = last_error;
  updated_at = now;
  next_run_at = if is_pending status then now + delay else row.next_run_at;
  completed_at = if is_open status then none else some now;
}

unfoldable pub finish : Table → Claimed → Status → String → ℕ → ℕ → Table × Result Error (Unit {0})
finish t c status last_error delay now = (
  update_rows (holds_lease c) (finish_row status last_error delay now) t,
  if any_row (holds_lease c) t then ok tt else err lease_lost,
)

abbrev pub abandon_row : ℕ → Row → Row
abandon_row now row = record row {
  status = pending;
  attempts = row.attempts - 1;
  lease_token = 0;
  next_run_at = now;
  updated_at = now;
}

unfoldable pub abandon : Table → Claimed → ℕ → Table
abandon t c now = update_rows (holds_lease c) (abandon_row now) t

unfoldable pub get : Table → ℕ → Option Row
get [] id = none
get (row ∷ rest) id = if row.id == id then some row else get rest id

abbrev pub reset_row : ℕ → Row → Row
reset_row now row = record row {
  status = pending;
  attempts = 0;
  lease_token = 0;
  last_error = "";
  next_run_at = now;
  completed_at = none;
  updated_at = now;
}

abbrev pub is_failed_task : ℕ → Row → Bool
is_failed_task id row = (row.id == id) && is_failed row.status

unfoldable pub retry : Table → ℕ → ℕ → Table × Result Error (Unit {0})
unfolding get
retry t id now = (
  update_rows (is_failed_task id) (reset_row now) t,
  if any_row (is_failed_task id) t
      then ok tt
      else elim (get t id) [ none ↦ err not_found | some row ↦ err not_failed ],
)

abbrev pub is_old : ℕ → ℕ → Option ℕ → Bool
is_old older_than now none = false
is_old older_than now (some completed) = ltb (completed + older_than) now

-- The rows that a clean-up may delete. LIMIT without ORDER BY takes any of them: the model takes
-- those that were inserted first.
unfoldable pub old_ids : Table → (ℕ → Bool) → Status → ℕ → ℕ → ℕ → List ℕ
old_ids t locked status older_than limit now = ids_of (
    take limit (
      filter
        (λ row.
          not (locked row.id)
          && same_status status row.status
          && is_old older_than now row.completed_at)
        t))

unfoldable pub cleanup : Table → (ℕ → Bool) → Status → ℕ → ℕ → ℕ → Table × ℕ
cleanup t locked status older_than limit now =
    let old = old_ids t locked status older_than limit now in
    (filter (λ row. not (contains old row.id)) t, length old)

pub record Stats : Type 0 where
  pub pending : ℕ
  pub running : ℕ
  pub failed : ℕ
  pub oldest_due : Option ℕ

abbrev pub earliest_due : Option ℕ → ℕ → Option ℕ
earliest_due none t = some t
earliest_due (some s) t = some (if ltb t s then t else s)

abbrev pub tally : Row → Stats → Stats
tally row st = elim row.status [
  | pending ↦ record st {
    pending = suc st.pending;
    oldest_due = earliest_due st.oldest_due row.next_run_at;
  }
  | running ↦ record st { running = suc st.running }
  | succeeded ↦ st
  | failed ↦ record st { failed = suc st.failed }
]

unfoldable pub stats : Table → Stats
stats [] = record { pending = 0; running = 0; failed = 0; oldest_due = none }
stats (row ∷ rest) = tally row (stats rest)
