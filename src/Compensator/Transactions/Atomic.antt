-- ===== src/Compensator/Transactions/Atomic.antt =====
-- Transaction of pkg/compensator/compensator.go is all or nothing.
use kc.Prelude.{
  ℕ, ◌≡◌, refl, sym, ap, ◌∙◌, Bool, true, false, Option, none, some, List, [], ◌∷◌, ◌++◌, map, ◌&&◌,
  Result, ok, err, arith, if_elim, Bool-cases, inl, inr, ◌⊎◌,
}
use mathlib.Core.List.{append_assoc, append-nil}
use kc.Compensator.Store as Store
use kc.Compensator.Store.{Task, Table, Row, new_row, has_id, insert, duplicate_id}
use kc.Compensator.Transactions.{
  Error, closed, database, insert_failed, commit_uncertain, Compensator, Tx, ids, Addition, checked,
  noted, add, Business, returns, adds, run, Commit, commits, undone, answer_lost, Weather,
  committed, stored, concluded, ended, opened, transaction,
}

abbrev keep : Result Error ℕ → List ℕ → List ℕ
keep (ok id) rest = id ∷ rest
keep (err e) rest = rest

abbrev accepts : Result Error ℕ → Bool
accepts (ok id) = true
accepts (err e) = false

-- The IDs that Add has answered to the business function, in order.
unfoldable pub answers : Compensator → Business → Tx → List ℕ
answers c (returns e) tx = []
answers c (adds a next) tx =
    let r = add c tx a in let rest = answers c (next r.1) r.0 in keep r.1 rest

-- No call of Add has failed.
unfoldable pub all_accepted : Compensator → Business → Tx → Bool
all_accepted c (returns e) tx = true
all_accepted c (adds a next) tx =
    let r = add c tx a in let rest = all_accepted c (next r.1) r.0 in accepts r.1 && rest

abbrev is_uncertain : Error → Bool
is_uncertain commit_uncertain = true
is_uncertain e = false

-- The tasks that have been added stand in the table, as new rows at its end, and each Add of the
-- business function has succeeded.
abbrev pub IsAdded : Compensator → Business → ℕ → Table → Table → Type 0
IsAdded c b now t t' =
    (tasks : List Task) × (t' ≡ t ++ map (new_row now) tasks)
    × (ids tasks ≡ answers c b opened)
    × (all_accepted c b opened ≡ true)

abbrev pub IsUndone : Compensator → Business → ℕ → Table → Table → Bool → Type 0
IsUndone c b now t t' false = t' ≡ t
IsUndone c b now t t' true = (t' ≡ t) ⊎ IsAdded c b now t t'

abbrev pub Verdict : Compensator → Business → ℕ → Table → Table × Result Error (Unit {0}) → Type 0
Verdict c b now t (t', ok done) = IsAdded c b now t t'
Verdict c b now t (t', err e) = IsUndone c b now t t' (is_uncertain e)

insert-rows :
    (t : Table) (tasks : List Task) (now : ℕ) (t' : Table)
    → insert t tasks now ≡ ok t'
    → t' ≡ t ++ map (new_row now) tasks
unfolding insert
insert-rows t [] now t' e = ground (arith, e, append-nil t)
insert-rows t (task ∷ rest) now t' e = elim (Bool-cases (has_id t task.id)) [
  | inl taken ↦ absurd (ground (arith, e, taken))
  | inr free ↦
      insert-rows (t ++ new_row now task ∷ []) rest now t' (ground (arith, e, free))
      ∙ append_assoc t (new_row now task ∷ []) (map (new_row now) rest)
]

stored-rows :
    (t : Table) (tasks : List Task) (fails : Bool) (now : ℕ) (t' : Table)
    → stored t tasks fails now ≡ ok t'
    → t' ≡ t ++ map (new_row now) tasks
stored-rows t [] fails now t' e = ground (arith, e, append-nil t)
stored-rows t (task ∷ rest) true now t' e = absurd (ground (arith, e))
stored-rows t (task ∷ rest) false now t' e = by_insert (insert t (task ∷ rest) now) refl e
  where
    by_insert :
        (r : Result Store.Error Table)
        → insert t (task ∷ rest) now ≡ r
        → (elim r [ err e ↦ err insert_failed | ok u ↦ ok u ]) ≡ ok t'
        → t' ≡ t ++ map (new_row now) (task ∷ rest)
    by_insert (err x) how h = absurd (ground (arith, h))
    by_insert (ok u) how h = insert-rows t (task ∷ rest) now t' (ground (arith, how, h))

module _ (c : Compensator) where
  ids-append : (xs ys : List Task) → ids (xs ++ ys) ≡ ids xs ++ ids ys
  ids-append [] ys = refl
  ids-append (x ∷ xs) ys = ap (λ r. x.id ∷ r) (ids-append xs ys)

  -- An error stays.
  run-error :
      (b : Business) (tx : Tx) (e : Error) → tx.error ≡ some e → (run c b tx).0.error ≡ some e
  unfolding run add
  run-error (returns none) tx e h = h
  run-error (returns (some x)) tx e h = h
  run-error (adds a next) tx e h =
      run-error (next (add c tx a).1) (add c tx a).0 e (ground (arith, h))

  add-noted :
      (tx : Tx) (a : Addition)
      → tx.is_closed ≡ false
      → tx.error ≡ none
      → add c tx a ≡ noted tx (checked c tx a)
  unfolding add
  add-noted tx a still clean = ground (arith, still, clean)

  -- What a run says of the tasks that it leaves.
  abbrev Tells : Business → Tx → Type 0
  Tells b tx =
      (ids (run c b tx).0.tasks ≡ ids tx.tasks ++ answers c b tx) × (all_accepted c b tx ≡ true)

  run-Tells :
      (b : Business) (tx : Tx)
      → tx.is_closed ≡ false
      → tx.error ≡ none
      → (run c b tx).0.error ≡ none
      → Tells b tx
  unfolding run answers all_accepted
  run-Tells (returns none) tx still clean done = (sym (append-nil (ids tx.tasks)), refl)
  run-Tells (returns (some x)) tx still clean done = (sym (append-nil (ids tx.tasks)), refl)
  run-Tells (adds a next) tx still clean done =
      by_check (checked c tx a) (add-noted tx a still clean)
        (run-Tells (next (add c tx a).1) (add c tx a).0)
    where
      by_check :
          (k : Result Error Task)
          → add c tx a ≡ noted tx k
          → ((add c tx a).0.is_closed ≡ false
              → (add c tx a).0.error ≡ none
              → (run c (next (add c tx a).1) (add c tx a).0).0.error ≡ none
              → Tells (next (add c tx a).1) (add c tx a).0)
          → Tells (adds a next) tx
      by_check (err e) at further = absurd (
          ground (
            arith,
            done,
            run-error (next (add c tx a).1) (add c tx a).0 e (ap (λ r. r.0.error) at),
          ))
      by_check (ok task) at further =
          let f =
            further (ap (λ r. r.0.is_closed) at ∙ still) (ap (λ r. r.0.error) at ∙ clean) done in
          (
            f.0
                ∙ ap (λ r. ids r.0.tasks ++ answers c (next (add c tx a).1) (add c tx a).0) at
                ∙ ap (λ l. l ++ answers c (next (add c tx a).1) (add c tx a).0)
                    (ids-append tx.tasks (task ∷ []))
                ∙ append_assoc (ids tx.tasks) (task.id ∷ [])
                    (answers c (next (add c tx a).1) (add c tx a).0)
                ∙ ap
                    (λ r. ids tx.tasks ++ keep r.1 (answers c (next (add c tx a).1) (add c tx a).0))
                    (sym at),
            ground (arith, f.1, ap (λ r. accepts r.1) at),
          )

  untouched : (b : Business) (now : ℕ) (t : Table) (e : Error) → Verdict c b now t (t, err e)
  untouched b now t e = by_test (is_uncertain e)
    where
      by_test : (u : Bool) → IsUndone c b now t t u
      by_test true = inl refl
      by_test false = refl

  committed-Verdict :
      (b : Business) (now : ℕ) (t t' : Table) (how : Commit)
      → IsAdded c b now t t'
      → Verdict c b now t (committed t t' how)
  committed-Verdict b now t t' commits h = h
  committed-Verdict b now t t' undone h = inl refl
  committed-Verdict b now t t' answer_lost h = inr h

  ended-Verdict :
      (b : Business) (now : ℕ) (t : Table) (w : Weather) (tx : Tx) (e : Option Error)
      → run c b opened ≡ (tx, e)
      → Verdict c b now t (ended t (tx, e) w now)
  ended-Verdict b now t w tx (some e) at = untouched b now t e
  ended-Verdict b now t w tx none at = by_error tx.error refl
    where
      by_store :
          (r : Result Error Table)
          → stored t tx.tasks w.insert_fails now ≡ r
          → tx.error ≡ none
          → Verdict c b now t (concluded t r w.commit)
      by_store (err e) how clean = untouched b now t e
      by_store (ok t') how clean =
          let told = run-Tells b opened refl refl (ap (λ r. r.0.error) at ∙ clean) in
          committed-Verdict b now t t' w.commit (
            tx.tasks,
            stored-rows t tx.tasks w.insert_fails now t' how,
            ap (λ r. ids r.0.tasks) (sym at) ∙ told.0,
            told.1,
          )

      by_error :
          (o : Option Error)
          → tx.error ≡ o
          → Verdict c b now t (elim o [
            | some e ↦ (t, err e)
            | none ↦ concluded t (stored t tx.tasks w.insert_fails now) w.commit
          ])
      by_error (some e) how = untouched b now t e
      by_error none how = by_store (stored t tx.tasks w.insert_fails now) refl how

  -- A transaction is all or nothing, whatever the business function does with the answers it gets.
  -- If it succeeds, the table has gained exactly one waiting row for each Add, in their order, and
  -- no Add has failed, also none whose error the function has ignored. If it fails, the table is
  -- as before, unless the commit itself has failed: then it is as before or the rows are there.
  pub transaction-Verdict :
      (t : Table) (b : Business) (w : Weather) (now : ℕ)
      → Verdict c b now t (transaction c t (some b) w now)
  unfolding transaction
  transaction-Verdict t b w now =
      if_elim (Verdict c b now t) c.is_closed (λ e. untouched b now t closed)
        (λ e.
          if_elim (Verdict c b now t) w.begin_fails (λ f. untouched b now t database)
            (λ f. ended-Verdict b now t w (run c b opened).0 (run c b opened).1 refl))
