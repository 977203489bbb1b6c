-- ===== src/Idempotency/Once.antt =====
-- Runs of calls of pkg/idempotency.
use kc.Prelude.{
  ℕ, suc, ◌≤◌, ◌≡◌, refl, ap, ◌∙◌, subst, Bool, true, false, List, [], ◌∷◌, ◌&&◌, ◌||◌,
  if◌then◌else◌, ok, err, arith, Bool-cases, inl, inr,
}
use kc.Prelude.Names.{String, same, same→eq, same_self}
use kc.Idempotency.{
  conflict, invalid_argument, context_done, database, commit_failed, business, Texts, Database,
  Ending, Call, Outcome, succeeded, panicked, failed, validate_execution_arguments, with_record,
  in_transaction, started, execute,
}
use kc.Idempotency.Verdicts.{Applied, Verdict, execute-Verdict}

abbrev is_success : Outcome → Bool
is_success succeeded = true
is_success panicked = false
is_success (failed e) = false

module _ {A : Type 0} where
  -- The databases after the calls of a list, in that order.
  abbrev pub execute_all : Texts → Database A → List (Call A) → Database A
  execute_all texts db [] = db
  execute_all texts db (c ∷ rest) = execute_all texts (execute texts db c).0 rest

  -- How many calls of the list succeed under the key.
  abbrev pub successes : Texts → Database A → List (Call A) → String → String → ℕ
  successes texts db [] namespace key = 0
  successes texts db (c ∷ rest) namespace key =
      let r = execute texts db c in
      let later = successes texts r.0 rest namespace key in
      if (same namespace c.namespace && same key c.idempotency_key) && is_success r.1
      then suc later
      else later

  Applied-records :
      (db : Database A) (c : Call A) (db' : Database A) (namespace key : String)
      → Applied db c db'
      → db'.records namespace key
        ≡ ((same namespace c.namespace && same key c.idempotency_key) || db.records namespace key)
  Applied-records db c db' namespace key (h, at, free, how, result) =
      ap (λ x. x.records namespace key) result

  -- A record stays.
  kept :
      (db : Database A) (c : Call A) (r : Database A × Outcome) (namespace key : String)
      → Verdict db c r
      → db.records namespace key ≡ true
      → r.0.records namespace key ≡ true
  kept db c (db', succeeded) n k v there = ground (arith, there, Applied-records db c db' n k v)
  kept db c (db', panicked) n k v there = ap (λ x. x.records n k) v ∙ there
  kept db c (db', failed conflict) n k v there = ap (λ x. x.records n k) v.0 ∙ there
  kept db c (db', failed invalid_argument) n k v there = ap (λ x. x.records n k) v ∙ there
  kept db c (db', failed context_done) n k v there = ap (λ x. x.records n k) v ∙ there
  kept db c (db', failed database) n k v there = ap (λ x. x.records n k) v ∙ there
  kept db c (db', failed commit_failed) n k (inl v) there = ap (λ x. x.records n k) v ∙ there
  kept db c (db', failed commit_failed) n k (inr v) there =
      ground (arith, there, Applied-records db c db' n k v)
  kept db c (db', failed (business e)) n k v there = ap (λ x. x.records n k) v ∙ there

  -- A success is the first under its key.
  first_success :
      (db : Database A) (c : Call A) (r : Database A × Outcome) (namespace key : String)
      → Verdict db c r
      → ((same namespace c.namespace && same key c.idempotency_key) && is_success r.1) ≡ true
      → (db.records namespace key ≡ false) × (r.0.records namespace key ≡ true)
  first_success db c (db', succeeded) n k (h, at, free, how, result) own = (
    ap (λ x. db.records x k) (same→eq n c.namespace (ground (arith, own)))
        ∙ ap (λ x. db.records c.namespace x) (same→eq k c.idempotency_key (ground (arith, own)))
        ∙ free,
    ground (arith, own, Applied-records db c db' n k (h, at, free, how, result)),
  )
  first_success db c (db', panicked) n k v own = absurd (ground (arith, own))
  first_success db c (db', failed e) n k v own = absurd (ground (arith, own))

  kept_all :
      (texts : Texts) (db : Database A) (calls : List (Call A)) (namespace key : String)
      → db.records namespace key ≡ true
      → (execute_all texts db calls).records namespace key ≡ true
  kept_all texts db [] n k there = there
  kept_all texts db (c ∷ rest) n k there =
      kept_all texts (execute texts db c).0 rest n k
        (kept db c (execute texts db c) n k (execute-Verdict texts db c) there)

  none_succeeds :
      (texts : Texts) (db : Database A) (calls : List (Call A)) (namespace key : String)
      → db.records namespace key ≡ true
      → successes texts db calls namespace key ≡ 0
  none_succeeds texts db [] n k there = refl
  none_succeeds texts db (c ∷ rest) n k there =
      elim (Bool-cases
        ((same n c.namespace && same k c.idempotency_key) && is_success (execute texts db c).1)) [
          | inl own ↦ absurd (
              ground (
                arith,
                there,
                (first_success db c (execute texts db c) n k (execute-Verdict texts db c) own).0,
              ))
          | inr not_own ↦ ground (
            arith,
            not_own,
            none_succeeds texts (execute texts db c).0 rest n k
                (kept db c (execute texts db c) n k (execute-Verdict texts db c) there),
          )
        ]

  -- Whatever calls are made, with whatever handlers and failures, at most one of them succeeds
  -- under one key.
  pub succeeds_once :
      (texts : Texts) (db : Database A) (calls : List (Call A)) (namespace key : String)
      → successes texts db calls namespace key ≤ 1
  succeeds_once texts db [] n k = omega arith
  succeeds_once texts db (c ∷ rest) n k =
      elim (Bool-cases
        ((same n c.namespace && same k c.idempotency_key) && is_success (execute texts db c).1)) [
          | inl own ↦ ground (
            arith,
            own,
            none_succeeds texts (execute texts db c).0 rest n k
                (first_success db c (execute texts db c) n k (execute-Verdict texts db c) own).1,
          )
          | inr not_own ↦
              ground (arith, not_own, succeeds_once texts (execute texts db c).0 rest n k)
        ]

  -- Once a call has succeeded, then, whatever calls come between, each later call under its key
  -- whose arguments are sound, and which the database lets begin and insert, reports a conflict
  -- and leaves the database as it is.
  success_bars :
      (texts : Texts) (db : Database A) (c : Call A) (db' : Database A)
      → execute texts db c ≡ (db', succeeded)
      → (calls : List (Call A)) (again : Call A) → again.namespace ≡ c.namespace
      → again.idempotency_key ≡ c.idempotency_key
      → (h : A → A × Ending) → validate_execution_arguments texts again ≡ ok h
      → again.begin_fails ≡ false
      → again.insert_fails ≡ false
      → execute texts (execute_all texts db' calls) again
        ≡ (execute_all texts db' calls, failed conflict)
  unfolding execute
  success_bars texts db c db' e calls again same_namespace same_key h sound begun inserts =
      let there = kept_all texts db' calls c.namespace c.idempotency_key recorded in
      ap (started (execute_all texts db' calls) again) sound
      ∙ barred (execute_all texts db' calls) (
          ap (λ x. (execute_all texts db' calls).records x again.idempotency_key) same_namespace
          ∙ ap (λ x. (execute_all texts db' calls).records c.namespace x) same_key
          ∙ there)
    where
      recorded : db'.records c.namespace c.idempotency_key ≡ true
      recorded = ground (
        arith,
        same_self c.namespace,
        same_self c.idempotency_key,
        Applied-records db c db' c.namespace c.idempotency_key
            (subst (Verdict db c) e (execute-Verdict texts db c)),
      )

      barred :
          (now : Database A)
          → now.records again.namespace again.idempotency_key ≡ true
          → started now again (ok h) ≡ (now, failed conflict)
      barred now there = by_test again.begin_fails again.insert_fails begun inserts _ there
        where
          by_test :
              (b i : Bool)
              → b ≡ false
              → i ≡ false
              → (t : Bool) → t ≡ true
              → (if b
                  then (now, failed database)
                  else in_transaction now
                      (if i
                        then err database
                        else if t
                        then err conflict
                        else ok (with_record now again.namespace again.idempotency_key))
                      h
                      again.ending)
                ≡ (now, failed conflict)
          by_test false false hb hi true ht = refl
          by_test false false hb hi false ht = absurd (ground (arith, ht))
          by_test false true hb hi t ht = absurd (ground (arith, hi))
          by_test true i hb hi t ht = absurd (ground (arith, hb))
