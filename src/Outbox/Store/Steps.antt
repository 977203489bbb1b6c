-- ===== src/Outbox/Store/Steps.antt =====
-- The operations of pkg/outbox/storage.go on the message table, as the steps that the nodes take in
-- any order. The shard of a claim and of a clean-up is supposed to be held: see Shards.
use kc.Prelude.{ℕ, List, [], ◌∷◌, ◌++◌, Bool, Option}
use kc.Prelude.Names.{String}
use kc.Outbox.Store.{
  Message, Task, Table, Settings, insert, claim_ids, claim_shard_rows, finish, retry, cleanup_rows,
}

pub data Step : Type 0 where
  inserts : Message → ℕ → Step
  claims_ids : (ℕ → Bool) → List ℕ → ℕ → String → Step
  claims_shard : (ℕ → Bool) → ℕ → ℕ → String → Step
  finishes : Task → Option String → ℕ → Step
  retries : ℕ → Step
  cleans : (ℕ → Bool) → ℕ → Step

-- The table after a step at the time `now`, and the tasks that the step hands out.
unfoldable pub apply : Settings → Table → Step → ℕ → Table × List Task
apply settings t (inserts m shard) now = ((insert t m shard now).0, [])
apply settings t (claims_ids locked ids limit token) now =
    claim_ids settings t locked ids limit now token
apply settings t (claims_shard locked shard limit token) now =
    claim_shard_rows settings t locked shard limit now token
apply settings t (finishes task error delay) now = ((finish settings t task error delay now).0, [])
apply settings t (retries id) now = ((retry t id now).0, [])
apply settings t (cleans locked shard) now = ((cleanup_rows settings t locked shard now).0, [])

abbrev pub apply_all : Settings → Table → List (Step × ℕ) → Table × List Task
apply_all settings t [] = (t, [])
apply_all settings t ((step, now) ∷ rest) =
    let first = apply settings t step now in
    let further = apply_all settings first.0 rest in (further.0, first.1 ++ further.1)
