-- ===== src/Compensator/Transactions.antt =====
-- The calls of pkg/compensator/compensator.go: the registry of handlers, and tasks that are stored
-- with a business transaction. The business function is a program that may act on each answer.
pub mod Atomic
use kc.Prelude.{
  ℕ, Bool, true, false, Option, none, some, List, [], ◌∷◌, ◌++◌, if◌then◌else◌, ◌==◌, not, ◌||◌,
  Result, ok, err, ◌>>=◌, ◌>>◌, refuse,
}
use kc.Prelude.Names.{String, same}
use kc.Prelude.Selecting.{contains}
use kc.Compensator.Store as Store
use kc.Compensator.Store.{Task, Table}

-- `business` is an error of the business function, `database` one of the driver.
pub data Error : Type 0 where
  closed invalid_argument no_handler context_done no_id database insert_failed : Error
  commit_uncertain : Error
  business : ℕ → Error

abbrev pub has_name : List String → String → Bool
has_name [] name = false
has_name (x ∷ rest) name = same name x || has_name rest name

-- A handler to register: the name of its type, and whether the function is nil.
pub record Entry : Type 0 where
  pub name : String
  pub is_nil : Bool

-- A new snapshot of the registry, of which the types are kept. The entries come from a map, in any
-- order.
unfoldable pub with_handlers :
    (String → Bool) → List String → List Entry → Result Error (List String)
with_handlers valid types [] = ok types
with_handlers valid types (e ∷ rest) =
    let further = with_handlers valid (types ++ e.name ∷ []) rest in
    if not (valid e.name) || (e.is_nil || has_name types e.name)
    then err invalid_argument
    else further

-- What the calls read: whether the component is closed, the registered types, and the answer of
-- validateType.
pub record Compensator : Type 0 where
  pub is_closed : Bool
  pub types : List String
  pub valid : String → Bool

abbrev pub registered :
    Compensator → Result Error (List String) → Compensator × Result Error (Unit {0})
registered c (err e) = (c, err e)
registered c (ok types) = (record c { types = types }, ok tt)

abbrev pub is_empty : List Entry → Bool
is_empty [] = true
is_empty (e ∷ rest) = false

-- RegisterAll; the wake-up of the scan is left out.
unfoldable pub register_all : Compensator → List Entry → Compensator × Result Error (Unit {0})
register_all c entries =
    if is_empty entries
    then (c, err invalid_argument)
    else if c.is_closed
    then (c, err closed)
    else registered c (with_handlers c.valid c.types entries)

-- The ID that NewV7 gives, if it does; 0 is the nil ID.
abbrev pub with_id : Task → Option ℕ → Result Error Task
with_id task fresh =
    if task.id == 0
    then (elim fresh [ none ↦ err no_id | some id ↦ ok (record task { id = id }) ])
    else ok task

abbrev pub prepare : Compensator → Task → Option ℕ → Result Error Task
prepare c task fresh =
    refuse (not (c.valid task.task_type)) invalid_argument
    >> (refuse (not (has_name c.types task.task_type)) no_handler
        >> (refuse (not (task.attempt == 0)) invalid_argument >> with_id task fresh))

-- `Tx`; the IDs of its tasks are the keys of the map.
pub record Tx : Type 0 where
  pub tasks : List Task
  pub error : Option Error
  pub is_closed : Bool

abbrev pub ids : List Task → List ℕ
ids [] = []
ids (task ∷ rest) = task.id ∷ ids rest

-- The arguments of Add, and what NewV7 would give.
pub record Addition : Type 0 where
  pub context_is_nil : Bool
  pub context_is_done : Bool
  pub task : Task
  pub fresh : Option ℕ

abbrev pub checked : Compensator → Tx → Addition → Result Error Task
checked c tx a =
    refuse a.context_is_nil invalid_argument
    >> (prepare c a.task a.fresh >>= λ task.
        refuse a.context_is_done context_done
        >> (refuse (contains (ids tx.tasks) task.id) invalid_argument >> ok task))

-- The transaction keeps the task, or the error, for good.
abbrev pub noted : Tx → Result Error Task → Tx × Result Error ℕ
noted tx (err e) = (record tx { error = some e }, err e)
noted tx (ok task) = (record tx { tasks = tx.tasks ++ task ∷ [] }, ok task.id)

unfoldable pub add : Compensator → Tx → Addition → Tx × Result Error ℕ
add c tx a =
    if tx.is_closed
    then (tx, err invalid_argument)
    else (elim tx.error [ some e ↦ (tx, err e) | none ↦ noted tx (checked c tx a) ])

-- The business function: it returns, or it adds a task and goes on with the answer.
pub data Business : Type 0 where
  returns : Option ℕ → Business
  adds : Addition → (Result Error ℕ → Business) → Business

unfoldable pub run : Compensator → Business → Tx → Tx × Option Error
run c (returns none) tx = (tx, none)
run c (returns (some e)) tx = (tx, some (business e))
run c (adds a next) tx = let r = add c tx a in run c (next r.1) r.0

-- How the commit goes: it may fail with the transaction undone, or with its answer lost.
pub data Commit : Type 0 where
  commits undone answer_lost : Commit

-- What meets a call of Transaction from the database.
pub record Weather : Type 0 where
  pub begin_fails : Bool
  pub insert_fails : Bool
  pub commit : Commit

abbrev pub committed : Table → Table → Commit → Table × Result Error (Unit {0})
committed t t' commits = (t', ok tt)
committed t t' undone = (t, err commit_uncertain)
committed t t' answer_lost = (t', err commit_uncertain)

-- The insertion, which is left out if there are no tasks.
abbrev pub stored : Table → List Task → Bool → ℕ → Result Error Table
stored t [] fails now = ok t
stored t (task ∷ rest) fails now =
    if fails
    then err insert_failed
    else (elim (Store.insert t (task ∷ rest) now) [ err e ↦ err insert_failed | ok t' ↦ ok t' ])

abbrev pub concluded : Table → Result Error Table → Commit → Table × Result Error (Unit {0})
concluded t (err e) how = (t, err e)
concluded t (ok t') how = committed t t' how

-- The end of the transaction, with the error of the business function first.
abbrev pub ended : Table → Tx × Option Error → Weather → ℕ → Table × Result Error (Unit {0})
ended t (tx, some e) w now = (t, err e)
ended t (tx, none) w now = elim tx.error [
  | some e ↦ (t, err e)
  | none ↦ concluded t (stored t tx.tasks w.insert_fails now) w.commit
]

abbrev pub opened : Tx
opened = record { tasks = []; error = none; is_closed = false }

-- Without the wake-up of the scan after the commit.
unfoldable pub transaction :
    Compensator → Table → Option Business → Weather → ℕ → Table × Result Error (Unit {0})
transaction c t fn w now = if c.is_closed then (t, err closed) else (elim fn [
  | none ↦ (t, err invalid_argument)
  | some b ↦ if w.begin_fails then (t, err database) else ended t (run c b opened) w now
])

-- The task in a transaction of the caller.
unfoldable pub add_tx : Compensator → Table → Task → Option ℕ → Bool → ℕ → Table × Result Error ℕ
add_tx c t task fresh fails now = elim (refuse c.is_closed closed >> prepare c task fresh) [
  | err e ↦ (t, err e)
  | ok prepared ↦ (elim (stored t (prepared ∷ []) fails now) [
    | err e ↦ (t, err e)
    | ok t' ↦ (t', ok prepared.id)
  ])
]
