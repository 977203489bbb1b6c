-- ===== src/Compensator/Examples.antt =====
-- Runs of pkg/compensator on a table with one task.
use kc.Prelude.{
  ℕ, ◌≡◌, ◌≢◌, ◌≤◌, ◌<◌, refl, true, false, none, some, List, [], ◌∷◌, ok, err, All, arith, inl,
  inr,
}
use kc.Prelude.Names.{same}
use kc.Prelude.Selecting.{IsIn}
use kc.Compensator.Store.{
  succeeded, failed, Task, Row, Claimed, Settings, Table, new_row, claim, picked, get, insert,
}
use kc.Compensator.Store.Steps.{Step, inserts, claims, finishes, cleans, apply_all}
use kc.Compensator.Worker.{Config, Course, panics, invoke, execute}
use kc.Compensator.Worker.Delivery.{IsStored, claim_delivers}
use kc.Compensator.Transactions as Transactions
use kc.Compensator.Transactions.{
  Compensator, Addition, Business, adds, Weather, answer_lost, commits, transaction,
}
use kc.Compensator.Transactions.Atomic.{Verdict, transaction-Verdict}
use kc.Compensator.Pool as Pool
use kc.Compensator.Pool.{start, scans, Reach, here, next, reserving, reserved}
use kc.Compensator.Pool.Capacity.{scan_keeps_pace}

abbrev settings : Settings
settings = record { retries = 2; lease_duration = 40000 }

abbrev config : Config
config = record {
  settings = settings;
  retry_backoff_min = 1000000000;
  retry_backoff_max = 300000000000;
}

abbrev task : Task
task = record { id = 7; task_type = "mail"; payload = "{}"; attempt = 0 }

abbrev table : Table
table = new_row 100 task ∷ []

abbrev handed : Claimed
handed = record { task = record task { attempt = 1 }; token = 5; exhausted = false }

abbrev steps : List (Step × ℕ)
steps =
    (inserts (record task { id = 8 } ∷ []), 300)
    ∷ (claims (λ id. false) 10 6 (λ name. true), 400)
    ∷ (finishes (record handed { token = 6 }) failed "late" 0, 500)
    ∷ (cleans (λ id. false) succeeded 10 100, 600)
    ∷ []

abbrev course : Course
course = record {
  has_handler = true;
  context_error = none;
  ending = panics "out of paper";
  is_late = false;
}

claim_is_handed : (claim settings table (λ id. false) 10 5 (λ name. true) 200).1 ≡ handed ∷ []
unfolding claim picked
claim_is_handed = refl

handed_first : IsIn handed (claim settings table (λ id. false) 10 5 (λ name. true) 200).1
unfolding claim picked
handed_first = inl refl

claim_delivers_example :
    let after =
      apply_all settings (claim settings table (λ id. false) 10 5 (λ name. true) 200).0 steps in
    let result = execute config (λ n. 0) false after.0 handed course 900 in
    All (λ (d : Claimed). d.task.id ≢ 7) after.1
    × ((row : Row) × (get result.0 7 ≡ some row)
        × IsStored config (λ n. 0) false 1 900 (invoke course) row
        × (result.1 ≡ ok tt))
claim_delivers_example =
    claim_delivers config table (λ id. false) 10 5 (λ name. true) 200 (refl, tt) handed handed_first
      refl steps (tt, ((omega arith, omega arith), (inr (omega arith), (refl, tt)))) (λ n. 0) false
      course 900

abbrev mailer : Compensator
mailer = record { is_closed = false; types = "mail" ∷ []; valid = λ name. true }

abbrev addition : ℕ → Addition
addition id = record {
  context_is_nil = false;
  context_is_done = false;
  task = record task { id = id };
  fresh = none;
}

-- The function ignores that the second Add is refused.
abbrev business : Business
business = adds (addition 3) (λ answer. adds (addition 3) (λ answer. Transactions.returns none))

transaction-Verdict_example : Verdict mailer business 900 table (
    transaction mailer table
      (some business)
      (record { begin_fails = false; insert_fails = false; commit = answer_lost })
      900)
transaction-Verdict_example =
    transaction-Verdict mailer table business
      (record { begin_fails = false; insert_fails = false; commit = answer_lost }) 900

-- The commit succeeds at the server and its answer is lost: the call fails and the task is there.
uncertain_commit :
    transaction mailer []
      (some (adds (addition 3) (λ answer. Transactions.returns none)))
      (record { begin_fails = false; insert_fails = false; commit = answer_lost })
      900
    ≡ (new_row 900 (record task { id = 3 }) ∷ [], err Transactions.commit_uncertain)
unfolding transaction Transactions.run Transactions.add insert same
uncertain_commit = refl

-- Two workers, both of them reserved.
abbrev looking : Pool.Pool
looking = reserving 2 16 (record start { wake = false })

scan_keeps_pace_example : (looking.slots ≡ 2) × (2 ≤ 2) × (0 < 2)
scan_keeps_pace_example =
    scan_keeps_pace 2 16 (omega arith) (omega arith) (next here (scans start refl refl))
