-- ===== src/Idempotency.antt =====
-- pkg/idempotency: a call under a key, in one transaction with the record of the key (Execute of
-- idempotency.go, insert of storage.go). Two transactions that insert one key wait for each other
-- at its index, so a call is one step. The handler is supposed to leave the records and the end of
-- the transaction to Execute.
pub mod Verdicts
pub mod Once
mod Examples
use kc.Prelude.{
  ℕ, Bool, true, false, Option, none, some, if◌then◌else◌, ltb, not, ◌&&◌, ◌||◌, Result, ok, err,
  ◌>>=◌, ◌>>◌, refuse,
}
use kc.Prelude.Names.{String, same}

-- `database` stands for the failures of the statements, and `business` for the error that the
-- handler returns, whatever it wraps.
pub data Error : Type 0 where
  conflict invalid_argument context_done database commit_failed : Error
  business : ℕ → Error

abbrev pub max_namespace_length : ℕ
max_namespace_length = 128

abbrev pub max_idempotency_key_length : ℕ
max_idempotency_key_length = 256

-- The answers of ValidString and TrimSpace, and of RuneCountInString.
pub record Texts : Type 0 where
  pub blank_or_invalid : String → Bool
  pub rune_count : String → ℕ

abbrev pub validate_text : Texts → String → ℕ → Result Error (Unit {0})
validate_text texts value maximum =
    refuse (texts.blank_or_invalid value) invalid_argument
    >> refuse (ltb maximum (texts.rune_count value)) invalid_argument

-- The table of keys, and the rest of the database.
pub record Database (A : Type 0) : Type 0 where
  pub records : String → String → Bool
  pub rest : A

-- How a handler ends; `panics` is a panic, which goes on after the rollback.
pub data Ending : Type 0 where
  returns : Option ℕ → Ending
  panics : Ending

-- How the commit ends: it may fail with the transaction undone, or with its answer lost.
pub data CommitEnd : Type 0 where
  commits undone answer_lost : CommitEnd

-- A call of Execute, with the answers of the database to it.
pub record Call (A : Type 0) : Type 0 where
  pub context_is_nil : Bool
  pub context_is_done : Bool
  pub namespace : String
  pub idempotency_key : String
  pub handler : Option (A → A × Ending)
  pub begin_fails : Bool
  pub insert_fails : Bool
  pub ending : CommitEnd

pub data Outcome : Type 0 where
  succeeded panicked : Outcome
  failed : Error → Outcome

module _ {A : Type 0} where
  -- The checks of the arguments; what they let through has a handler.
  abbrev pub validate_execution_arguments : Texts → Call A → Result Error (A → A × Ending)
  validate_execution_arguments texts c =
      (refuse c.context_is_nil invalid_argument
        >> (refuse c.context_is_done context_done
            >> (validate_text texts c.namespace max_namespace_length
                >> validate_text texts c.idempotency_key max_idempotency_key_length)))
      >> (elim c.handler [ none ↦ err invalid_argument | some h ↦ ok h ])

  -- The record of the key in the transaction: a second one breaks the primary key.
  abbrev pub with_record : Database A → String → String → Database A
  with_record db namespace key = record db {
    records = λ n k. (same n namespace && same k key) || db.records n k;
  }

  abbrev pub insert : Database A → Call A → Result Error (Database A)
  insert db c =
      if c.insert_fails
      then err database
      else if db.records c.namespace c.idempotency_key
      then err conflict
      else ok (with_record db c.namespace c.idempotency_key)

  abbrev pub ended : Database A → Database A → CommitEnd → Database A × Outcome
  ended db tx commits = (tx, succeeded)
  ended db tx undone = (db, failed commit_failed)
  ended db tx answer_lost = (tx, failed commit_failed)

  -- The end of the transaction that the handler leaves as it stands in `tx`.
  abbrev pub handled : Database A → Database A → Ending → CommitEnd → Database A × Outcome
  handled db tx panics ending = (db, panicked)
  handled db tx (returns (some e)) ending = (db, failed (business e))
  handled db tx (returns none) ending = ended db tx ending

  abbrev pub in_transaction :
      Database A → Result Error (Database A) → (A → A × Ending) → CommitEnd → Database A × Outcome
  in_transaction db (err e) h ending = (db, failed e)
  in_transaction db (ok tx) h ending =
      let r = h tx.rest in handled db (record tx { rest = r.0 }) r.1 ending

  -- The transaction of a call whose arguments are sound.
  abbrev pub started : Database A → Call A → Result Error (A → A × Ending) → Database A × Outcome
  started db c (err e) = (db, failed e)
  started db c (ok h) =
      if c.begin_fails then (db, failed database) else in_transaction db (insert db c) h c.ending

  unfoldable pub execute : Texts → Database A → Call A → Database A × Outcome
  execute texts db c = started db c (validate_execution_arguments texts c)
