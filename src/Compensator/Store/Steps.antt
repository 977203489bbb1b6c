-- ===== src/Compensator/Store/Steps.antt =====
-- The statements of pkg/compensator/storage.go as the steps that the nodes take in any order.
use kc.Prelude.{ℕ, List, [], ◌∷◌, ◌++◌, Bool, Result, ok, err}
use kc.Prelude.Names.{String}
use kc.Compensator.Store.{
  Error, Status, Task, Claimed, Settings, Table, insert, claim, finish, abandon, retry, cleanup,
}

pub data Step : Type 0 where
  inserts : List Task → Step
  claims : (ℕ → Bool) → ℕ → ℕ → (String → Bool) → Step
  finishes : Claimed → Status → String → ℕ → Step
  abandons : Claimed → Step
  retries : ℕ → Step
  cleans : (ℕ → Bool) → Status → ℕ → ℕ → Step

-- A refused insertion rolls its transaction back.
abbrev pub inserted : Table → Result Error Table → Table
inserted t (ok t') = t'
inserted t (err e) = t

-- The table after a step at the time `now`, and the tasks that the step hands out.
unfoldable pub apply : Settings → Table → Step → ℕ → Table × List Claimed
apply settings t (inserts tasks) now = (inserted t (insert t tasks now), [])
apply settings t (claims locked limit token types) now =
    claim settings t locked limit token types now
apply settings t (finishes c status last_error delay) now =
    ((finish t c status last_error delay now).0, [])
apply settings t (abandons c) now = (abandon t c now, [])
apply settings t (retries id) now = ((retry t id now).0, [])
apply settings t (cleans locked status older_than limit) now =
    ((cleanup t locked status older_than limit now).0, [])

abbrev pub apply_all : Settings → Table → List (Step × ℕ) → Table × List Claimed
apply_all settings t [] = (t, [])
apply_all settings t ((step, now) ∷ rest) =
    let first = apply settings t step now in
    let further = apply_all settings first.0 rest in (further.0, first.1 ++ further.1)
