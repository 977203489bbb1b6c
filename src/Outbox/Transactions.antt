-- ===== src/Outbox/Transactions.antt =====
-- Messages within business transactions: Tx, Enqueue, EnqueueTx, validateMessage and Transaction of
-- pkg/outbox/outbox.go. The business handler is a program that may act on the result of each call.
pub mod Atomic
use kc.Prelude.{
  ℕ, suc, Bool, true, false, Option, some, none, List, [], ◌∷◌, ◌++◌, if◌then◌else◌, ltb, ◌==◌, not,
  ◌||◌, Result, ok, err, ◌>>=◌, ◌>>◌, refuse,
}
use kc.Prelude.Names.{String, same}
use kc.Outbox.Store.{Message, Table, insert}

-- `business` is an error of the handler, `database` one of the driver.
pub data Error : Type 0 where
  closed invalid_type already_stored empty_payload no_handler finished invalid_transaction : Error
  nil_handler database commit_uncertain : Error
  business : ℕ → Error

-- What a caller passes to Enqueue: a message with the fields that a new one must leave unset.
pub record Draft : Type 0 where
  pub message : Message
  pub id : ℕ
  pub attempts : ℕ

-- What the outbox knows: whether it is closed, which types have handlers, and the answers of the
-- string checks of validateType and TrimSpace.
pub record Outbox : Type 0 where
  pub is_closed : Bool
  pub has_handler : String → Bool
  pub valid_type : String → Bool
  pub blank : String → Bool

abbrev pub validate_message : Outbox → Draft → Result Error (Unit {0})
validate_message o d =
    refuse (not (o.valid_type d.message.message_type)) invalid_type
    >> (refuse (not (d.id == 0) || not (d.attempts == 0)) already_stored
        >> (refuse (o.blank d.message.payload) empty_payload
            >> refuse (not (o.has_handler d.message.message_type)) no_handler))

-- Whether the insert fails in the database, and the shard that is drawn.
pub record Luck : Type 0 where
  pub insert_fails : Bool
  pub shard : ℕ

-- The insert, if the checks let the message through.
abbrev pub stored : Table → Draft → ℕ → Luck → Result Error (Unit {0}) → Table × Result Error ℕ
stored t d now luck (err e) = (t, err e)
stored t d now luck (ok done) =
    let r = insert t d.message luck.shard now in
    if luck.insert_fails then (t, err database) else (r.0, ok r.1)

unfoldable pub enqueue_tx : Outbox → Table → Draft → ℕ → Luck → Table × Result Error ℕ
enqueue_tx o t d now luck = stored t d now luck (refuse o.is_closed closed >> validate_message o d)

-- `Tx`, with the tables as the transaction sees them.
pub record Tx : Type 0 where
  pub table : Table
  pub ids : List ℕ
  pub error : Option Error
  pub is_finished : Bool

-- The transaction keeps the key of the message, or else the error, for good.
abbrev pub noted : Tx → Table × Result Error ℕ → Tx × Result Error ℕ
noted tx (t, err e) = (record tx { table = t; error = some e }, err e)
noted tx (t, ok id) = (record tx { table = t; ids = tx.ids ++ id ∷ [] }, ok id)

unfoldable pub enqueue : Outbox → Tx → Draft → ℕ → Luck → Tx × Result Error ℕ
enqueue o tx d now luck = if tx.is_finished then (tx, err finished) else (elim tx.error [
  | some e ↦ (tx, err e)
  | none ↦ noted tx (enqueue_tx o tx.table d now luck)
])

abbrev pub opened : Table → Tx
opened t = record { table = t; ids = []; error = none; is_finished = false }

-- The business handler: it returns, or it enqueues and goes on with the answer.
pub data Handler : Type 0 where
  returns : Option Error → Handler
  enqueues : Draft → ℕ → Luck → (Result Error ℕ → Handler) → Handler

unfoldable pub run : Outbox → Handler → Tx → Tx × Option Error
run o (returns e) tx = (tx, e)
run o (enqueues d now luck next) tx = let r = enqueue o tx d now luck in run o (next r.1) r.0

-- How the commit goes: it may fail with the transaction undone, or with its answer lost.
pub data Commit : Type 0 where
  commits undone answer_lost : Commit

abbrev pub committed : Table → Tx → Commit → Table × Result Error (List ℕ)
committed t tx commits = (tx.table, ok tx.ids)
committed t tx undone = (t, err commit_uncertain)
committed t tx answer_lost = (tx.table, err commit_uncertain)

-- The transaction up to its commit. On an error the transaction is rolled back: the tables are as
-- they were. The list is what is dispatched after the commit.
unfoldable pub transaction :
    Outbox → Table → Option Handler → Bool → Commit → Table × Result Error (List ℕ)
transaction o t handler begin_fails ending =
    if o.is_closed then (t, err closed) else (elim handler [
      | none ↦ (t, err nil_handler)
      | some h ↦
          (let done = run o h (opened t) in
            if begin_fails then (t, err database) else (elim done.1 [
              | some e ↦ (t, err e)
              | none ↦ elim done.0.error [ some e ↦ (t, err e) | none ↦ committed t done.0 ending ]
            ]))
    ])
