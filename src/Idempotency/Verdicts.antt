-- ===== src/Idempotency/Verdicts.antt =====
-- The transaction of a call of pkg/idempotency.
use kc.Prelude.{
  ℕ, ◌≡◌, refl, sym, subst, Bool, true, false, Option, some, none, if◌then◌else◌, Result, ok, err,
  ◌>>◌, refuse, ltb, inl, inr, ◌⊎◌,
}
use kc.Prelude.Names.{String}
use kc.Idempotency.{
  Error, conflict, invalid_argument, context_done, database, commit_failed, business, Texts,
  Database, Ending, returns, panics, CommitEnd, commits, undone, answer_lost, Call, Outcome,
  succeeded, panicked, failed, max_namespace_length, max_idempotency_key_length, validate_text,
  validate_execution_arguments, with_record, insert, handled, in_transaction, started, execute,
}

abbrev IsRefusal : Error → Type 0
IsRefusal e = (e ≡ invalid_argument) ⊎ (e ≡ context_done)

abbrev Refuses : Result Error (Unit {0}) → Type 0
Refuses (ok done) = Unit {0}
Refuses (err e) = IsRefusal e

refuse-Refuses : (refused : Bool) (e : Error) → IsRefusal e → Refuses (refuse refused e)
refuse-Refuses true e known = known
refuse-Refuses false e known = tt

then-Refuses : (a b : Result Error (Unit {0})) → Refuses a → Refuses b → Refuses (a >> b)
then-Refuses (ok done) b ha hb = hb
then-Refuses (err e) b ha hb = ha

text-Refuses :
    (texts : Texts) (value : String) (maximum : ℕ) → Refuses (validate_text texts value maximum)
text-Refuses texts value maximum =
    then-Refuses (refuse (texts.blank_or_invalid value) invalid_argument)
      (refuse (ltb maximum (texts.rune_count value)) invalid_argument)
      (refuse-Refuses (texts.blank_or_invalid value) invalid_argument (inl refl))
      (refuse-Refuses (ltb maximum (texts.rune_count value)) invalid_argument (inl refl))

module _ {A : Type 0} where
  -- The handler has succeeded, its changes are there, and the key is recorded with them.
  abbrev pub Applied : Database A → Call A → Database A → Type 0
  Applied db c db' =
      (h : A → A × Ending) × (c.handler ≡ some h)
      × (db.records c.namespace c.idempotency_key ≡ false)
      × ((h db.rest).1 ≡ returns none)
      × (db' ≡ record (with_record db c.namespace c.idempotency_key) { rest = (h db.rest).0 })

  -- What the outcome of a call says of the database.
  abbrev pub Verdict : Database A → Call A → Database A × Outcome → Type 0
  Verdict db c (db', succeeded) = Applied db c db'
  Verdict db c (db', panicked) = db' ≡ db
  Verdict db c (db', failed conflict) =
      (db' ≡ db) × (db.records c.namespace c.idempotency_key ≡ true)
  Verdict db c (db', failed invalid_argument) = db' ≡ db
  Verdict db c (db', failed context_done) = db' ≡ db
  Verdict db c (db', failed database) = db' ≡ db
  Verdict db c (db', failed commit_failed) = (db' ≡ db) ⊎ Applied db c db'
  Verdict db c (db', failed (business e)) = db' ≡ db

  abbrev Checked : Call A → Result Error (A → A × Ending) → Type 0
  Checked c (ok h) = c.handler ≡ some h
  Checked c (err e) = IsRefusal e

  handler-Checked :
      (c : Call A) (a : Result Error (Unit {0})) (o : Option (A → A × Ending))
      → c.handler ≡ o
      → Refuses a
      → Checked c (a >> (elim o [ none ↦ err invalid_argument | some h ↦ ok h ]))
  handler-Checked c (err e) o at known = known
  handler-Checked c (ok done) none at known = inl refl
  handler-Checked c (ok done) (some h) at known = at

  validate-Checked : (texts : Texts) (c : Call A) → Checked c (validate_execution_arguments texts c)
  validate-Checked texts c = handler-Checked c _ c.handler refl (
      then-Refuses _ _ (refuse-Refuses c.context_is_nil invalid_argument (inl refl)) (
        then-Refuses _ _ (refuse-Refuses c.context_is_done context_done (inr refl)) (
          then-Refuses _ _ (text-Refuses texts c.namespace max_namespace_length)
            (text-Refuses texts c.idempotency_key max_idempotency_key_length))))

  refusal-Verdict :
      (db : Database A) (c : Call A) (e : Error) → IsRefusal e → Verdict db c (db, failed e)
  refusal-Verdict db c e (inl h) = subst (λ x. Verdict db c (db, failed x)) (sym h) refl
  refusal-Verdict db c e (inr h) = subst (λ x. Verdict db c (db, failed x)) (sym h) refl

  handled-Verdict :
      (db : Database A) (c : Call A) (h : A → A × Ending)
      → c.handler ≡ some h
      → db.records c.namespace c.idempotency_key ≡ false
      → (e : Ending) → (h db.rest).1 ≡ e
      → (ending : CommitEnd)
      → Verdict db c (
          handled db
            (record (with_record db c.namespace c.idempotency_key) { rest = (h db.rest).0 })
            e
            ending)
  handled-Verdict db c h at free panics how ending = refl
  handled-Verdict db c h at free (returns (some e)) how ending = refl
  handled-Verdict db c h at free (returns none) how commits = (h, at, free, how, refl)
  handled-Verdict db c h at free (returns none) how undone = inl refl
  handled-Verdict db c h at free (returns none) how answer_lost = inr (h, at, free, how, refl)

  insert-Verdict :
      (db : Database A) (c : Call A) (h : A → A × Ending)
      → c.handler ≡ some h
      → Verdict db c (in_transaction db (insert db c) h c.ending)
  insert-Verdict db c h at = by_test c.insert_fails _ refl
    where
      by_test :
          (fails taken : Bool)
          → db.records c.namespace c.idempotency_key ≡ taken
          → Verdict db c (
              in_transaction db
                (if fails
                  then err database
                  else if taken
                  then err conflict
                  else ok (with_record db c.namespace c.idempotency_key))
                h
                c.ending)
      by_test true taken known = refl
      by_test false true known = (refl, known)
      by_test false false known = handled-Verdict db c h at known _ refl c.ending

  started-Verdict :
      (db : Database A) (c : Call A) (r : Result Error (A → A × Ending))
      → Checked c r
      → Verdict db c (started db c r)
  started-Verdict db c (err e) known = refusal-Verdict db c e known
  started-Verdict db c (ok h) at = by_begin c.begin_fails
    where
      by_begin :
          (fails : Bool)
          → Verdict db c
              (if fails then (db, failed database) else in_transaction db (insert db c) h c.ending)
      by_begin true = refl
      by_begin false = insert-Verdict db c h at

  -- Execute is all or nothing. If it succeeds, the key was free, the handler has returned without
  -- an error, and its changes and the record of the key are there together. If the commit fails,
  -- they are there together or the database is as before. With every other error and after a
  -- panic it is as before, and a conflict is reported only if the key was recorded.
  pub execute-Verdict :
      (texts : Texts) (db : Database A) (c : Call A) → Verdict db c (execute texts db c)
  unfolding execute
  execute-Verdict texts db c =
      started-Verdict db c (validate_execution_arguments texts c) (validate-Checked texts c)
