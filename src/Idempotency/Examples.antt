-- ===== src/Idempotency/Examples.antt =====
-- Runs of pkg/idempotency on a database whose other tables are a counter.
use kc.Prelude.{ℕ, ◌+◌, ◌≤◌, ◌≡◌, refl, false, none, some, List, [], ◌∷◌}
use kc.Idempotency.{
  Texts, Database, Ending, returns, panics, commits, answer_lost, Call, succeeded, execute,
  with_record,
}
use kc.Idempotency.Verdicts.{Verdict, execute-Verdict}
use kc.Idempotency.Once.{successes, succeeds_once}

abbrev texts : Texts
texts = record { blank_or_invalid = λ text. false; rune_count = λ text. 5 }

abbrev counter : Database ℕ
counter = record { records = λ namespace key. false; rest = 7 }

abbrev counted : ℕ → ℕ × Ending
counted n = (n + 1, returns none)

abbrev call : Call ℕ
call = record {
  context_is_nil = false;
  context_is_done = false;
  namespace = "orders";
  idempotency_key = "first";
  handler = some counted;
  begin_fails = false;
  insert_fails = false;
  ending = commits;
}

abbrev broken : Call ℕ
broken = record call { idempotency_key = "second"; handler = some (λ n. (n + 1, panics)) }

abbrev calls : List (Call ℕ)
calls = broken ∷ record call { ending = answer_lost } ∷ call ∷ []

abbrev after : Database ℕ
after = record (with_record counter "orders" "first") { rest = 8 }

execute-Verdict_example : Verdict counter call (execute texts counter call)
execute-Verdict_example = execute-Verdict texts counter call

succeeds_once_example : successes texts counter (call ∷ calls) "orders" "first" ≤ 1
succeeds_once_example = succeeds_once texts counter (call ∷ calls) "orders" "first"

call_succeeds : execute texts counter call ≡ (after, succeeded)
unfolding execute
call_succeeds = refl
