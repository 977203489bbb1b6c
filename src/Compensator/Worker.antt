-- ===== src/Compensator/Worker.antt =====
-- A worker of pkg/compensator/worker.go: it runs the handler of a claimed task and stores the
-- result. Durations of the settings are nanoseconds, the clock of the table counts milliseconds.
-- Texts of errors are as errorText cuts them.
pub mod Delivery
use kc.Prelude.{
  ℕ, suc, ◌+◌, ◌-◌, ◌/◌, Bool, true, false, Option, none, some, if◌then◌else◌, leb, ◌&&◌, Result,
  ok, err,
}
use kc.Prelude.Names.{String}
use kc.Outbox.Backoff.{grow, lower, jittered}
use kc.Compensator.Store.{
  Error, Status, pending, succeeded, failed, Claimed, Settings, Table, finish, abandon,
}

-- The settings that a worker reads.
pub record Config : Type 0 where
  pub settings : Settings
  pub retry_backoff_min : ℕ
  pub retry_backoff_max : ℕ

-- An error, and whether it is or wraps context.Canceled.
pub record Failure : Type 0 where
  pub text : String
  pub is_canceled : Bool

-- How a handler ends.
pub data Ending : Type 0 where
  returns : Option Failure → Ending
  panics : String → Ending

-- What a run of a task meets: whether its type has a handler, an error of the context before the
-- handler starts, the end of the handler, and whether its deadline has passed by then.
pub record Course : Type 0 where
  pub has_handler : Bool
  pub context_error : Option Failure
  pub ending : Ending
  pub is_late : Bool

abbrev pub no_handler : Failure
no_handler = record { text = "compensator: handler not registered"; is_canceled = false }

abbrev pub deadline_exceeded : Failure
deadline_exceeded = record { text = "context deadline exceeded"; is_canceled = false }

-- A handler that ends well after its deadline counts as one that has run out of time.
abbrev pub handled : Bool → Ending → Option Failure
handled is_late (panics value) = some (record { text = value; is_canceled = false })
handled is_late (returns (some e)) = some e
handled is_late (returns none) = if is_late then some deadline_exceeded else none

unfoldable pub invoke : Course → Option Failure
invoke course =
    if course.has_handler
    then (elim course.context_error [
      | some e ↦ some e
      | none ↦ handled course.is_late course.ending
    ])
    else some no_handler

-- The wait after that attempt; `draw n` is a random number below n.
unfoldable pub backoff : Config → (ℕ → ℕ) → ℕ → ℕ
backoff config draw attempt = jittered draw (
    lower (grow (attempt - 1) config.retry_backoff_min config.retry_backoff_max)
      config.retry_backoff_max)

-- What is stored of a run: the status, the text of the error, and the wait.
unfoldable pub outcome : Config → (ℕ → ℕ) → ℕ → Option Failure → Status × String × ℕ
outcome config draw attempt none = (succeeded, "", 0)
outcome config draw attempt (some e) =
    if leb (suc config.settings.retries) attempt
    then (failed, e.text, 0)
    else (pending, e.text, backoff config draw attempt)

abbrev pub milliseconds : ℕ → ℕ
milliseconds d = d / 1000000

abbrev pub is_interrupted : Bool → Option Failure → Bool
is_interrupted closed none = false
is_interrupted closed (some e) = e.is_canceled && closed

-- `closed` tells whether the component is closing when the handler has ended.
unfoldable pub execute :
    Config → (ℕ → ℕ) → Bool → Table → Claimed → Course → ℕ → Table × Result Error (Unit {0})
execute config draw closed t c course now =
    let e = invoke course in
    if is_interrupted closed e
    then (abandon t c now, ok tt)
    else (let o = outcome config draw c.task.attempt e in finish t c o.0 o.1 (milliseconds o.2) now)
