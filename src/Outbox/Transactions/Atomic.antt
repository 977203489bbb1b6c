-- ===== src/Outbox/Transactions/Atomic.antt =====
-- A transaction of pkg/outbox/outbox.go stores all of its messages or none.
use kc.Prelude.{
  ℕ, ◌≤◌, ◌<◌, ◌≡◌, refl, sym, ap, subst, Bool, true, false, Option, some, none, List, [], ◌∷◌,
  ◌++◌, ◌∙◌, suc, map, ◌==◌, if_elim, not, ◌||◌, refuse, ◌>>◌, Result, ok, err, is_ok, arith,
  Bool-cases, Option-cases, inl, inr, ◌⊎◌,
}
use mathlib.Core.List.{append_assoc, append-nil}
use kc.Outbox.Store.{Message, Row, is_pending, Table, insert}
use kc.Outbox.Transactions.{
  Error, commit_uncertain, Draft, Outbox, Luck, Tx, closed, stored, database, Handler, returns,
  enqueues, enqueue, enqueue_tx, run, opened, Commit, commits, undone, answer_lost, committed,
  transaction, validate_message,
}

-- The message waits in the row for its first delivery.
abbrev pub Waits : Message → Option Row → Type 0
Waits m none = ⊥
Waits m (some row) = (row.message ≡ m) × (is_pending row.status ≡ true) × (row.attempts ≡ 0)

-- The rows from n on are those of the log, which has the key and the message of each, and no more.
abbrev pub Holds : Table → ℕ → List (ℕ × Message) → Type 0
Holds t n [] = t.next ≡ n
Holds t n ((id, m) ∷ rest) = (id ≡ n) × Waits m (t.rows n) × Holds t (suc n) rest

abbrev pub keys_of : List (ℕ × Message) → List ℕ
keys_of log = map (λ entry. entry.0) log

-- The table t' is t with the messages of the log.
pub record Appended (t : Table) (log : List (ℕ × Message)) (t' : Table) : Type 0 where
  pub kept : (id : ℕ) → id < t.next → t'.rows id ≡ t.rows id
  pub added : Holds t' t.next log

-- The table after an insert that succeeds.
abbrev inserted : Table → Draft → ℕ → Luck → Table × ℕ
inserted t d now luck = insert t d.message luck.shard now

stored_cases :
    (t : Table) (d : Draft) (now : ℕ) (luck : Luck) (r : Result Error (Unit {0}))
    → ((e : Error) × (stored t d now luck r ≡ (t, err e)))
      ⊎ (stored t d now luck r ≡ ((inserted t d now luck).0, ok (inserted t d now luck).1))
stored_cases t d now luck (err e) = inl (e, refl)
stored_cases t d now luck (ok done) = elim (Bool-cases luck.insert_fails) [
  | inl fails ↦ inl (database, simp fails)
  | inr works ↦ inr (simp works)
]

enqueue_cases :
    (o : Outbox) (tx : Tx) (d : Draft) (now : ℕ) (luck : Luck)
    → tx.is_finished ≡ false
    → ((e : Error) × (enqueue o tx d now luck ≡ (record tx { error = some e }, err e)))
      ⊎ ((tx.error ≡ none)
          × (enqueue o tx d now luck ≡ (
            record tx {
              table = (inserted tx.table d now luck).0;
              ids = tx.ids ++ (inserted tx.table d now luck).1 ∷ [];
            },
            ok (inserted tx.table d now luck).1,
          )))
unfolding enqueue enqueue_tx
enqueue_cases o tx d now luck live = elim (Option-cases tx.error) [
  | inr (e, h) ↦ inl (e, ground (arith, live, h))
  | inl h ↦
      elim (stored_cases tx.table d now luck (refuse o.is_closed closed >> validate_message o d)) [
        | inl (e, k) ↦ inl (e, ground (arith, live, h, k))
        | inr k ↦ inr (h, ground (arith, live, h, k))
      ]
]

-- An Enqueue of the handler, in the course of the transaction, has failed.
abbrev pub any_failed : Outbox → Handler → Tx → Bool
any_failed o (returns e) tx = false
any_failed o (enqueues d now luck next) tx =
    let r = enqueue o tx d now luck in
    let later = any_failed o (next r.1) r.0 in not (is_ok r.1) || later

abbrev noted_in : Message → Result Error ℕ → List (ℕ × Message) → List (ℕ × Message)
noted_in m (err e) log = log
noted_in m (ok id) log = (id, m) ∷ log

-- The Enqueues that succeed: the key that each has answered, and the message that it was given.
abbrev pub accepted : Outbox → Handler → Tx → List (ℕ × Message)
accepted o (returns e) tx = []
accepted o (enqueues d now luck next) tx =
    let r = enqueue o tx d now luck in
    let later = accepted o (next r.1) r.0 in noted_in d.message r.1 later

-- What a run makes of a transaction.
record Adds (tx : Tx) (log : List (ℕ × Message)) (tx' : Tx) : Type 0 where
  grown : tx.table.next ≤ tx'.table.next
  appended : Appended tx.table log tx'.table
  keys : tx'.ids ≡ tx.ids ++ keys_of log

insert-Waits :
    (t : Table) (m : Message) (shard now : ℕ) → Waits m ((insert t m shard now).0.rows t.next)
unfolding insert
insert-Waits t m shard now =
    if_elim (Waits m) (t.next == t.next) (λ e. (refl, refl, refl)) (λ e. absurd (ground (arith, e)))

one_more :
    (tx : Tx) (d : Draft) (now : ℕ) (luck : Luck) (log : List (ℕ × Message)) (tx' : Tx)
    → let r = inserted tx.table d now luck in
      Adds (record tx { table = r.0; ids = tx.ids ++ r.1 ∷ [] }) log tx'
      → Adds tx (noted_in d.message (ok r.1) log) tx'
unfolding insert
one_more tx d now luck log tx' a = record {
  grown = ground (arith, a.grown);
  appended = record {
    kept = λ id h. ground (arith, a.appended.kept id, h);
    added = (
      refl,
      subst (Waits d.message) (sym here) (insert-Waits tx.table d.message luck.shard now),
      a.appended.added,
    );
  };
  keys = a.keys ∙ append_assoc tx.ids (tx.table.next ∷ []) (keys_of log);
}
  where
    here :
        tx'.table.rows tx.table.next
        ≡ (insert tx.table d.message luck.shard now).0.rows tx.table.next
    here = a.appended.kept tx.table.next (omega arith)

after_enqueue-live :
    (o : Outbox) (tx : Tx) (d : Draft) (now : ℕ) (luck : Luck)
    → tx.is_finished ≡ false
    → (enqueue o tx d now luck).0.is_finished ≡ false
after_enqueue-live o tx d now luck live = elim (enqueue_cases o tx d now luck live) [
  | inl (e, h) ↦ ap (λ r. r.0.is_finished) h ∙ live
  | inr (none_yet, h) ↦ ap (λ r. r.0.is_finished) h ∙ live
]

after_enqueue-Adds :
    (o : Outbox) (tx : Tx) (d : Draft) (now : ℕ) (luck : Luck) (next : Result Error ℕ → Handler)
    → tx.is_finished ≡ false
    → let r = enqueue o tx d now luck in
      Adds r.0 (accepted o (next r.1) r.0) (run o (next r.1) r.0).0
      → Adds tx (noted_in d.message r.1 (accepted o (next r.1) r.0)) (run o (next r.1) r.0).0
after_enqueue-Adds o tx d now luck next live = elim (enqueue_cases o tx d now luck live) [
  | inl (e, h) ↦
      subst Continues (sym h)
        (λ a. record { grown = a.grown; appended = a.appended; keys = a.keys })
  | inr (none_yet, h) ↦ subst Continues (sym h) (one_more tx d now luck _ _)
]
  where
    Continues : Tx × Result Error ℕ → Type 0
    Continues r =
        Adds r.0 (accepted o (next r.1) r.0) (run o (next r.1) r.0).0
        → Adds tx (noted_in d.message r.1 (accepted o (next r.1) r.0)) (run o (next r.1) r.0).0

run-Adds :
    (o : Outbox) (h : Handler) (tx : Tx)
    → tx.is_finished ≡ false
    → Adds tx (accepted o h tx) (run o h tx).0
unfolding run
run-Adds o (returns e) tx live = record {
  grown = omega arith;
  appended = record { kept = λ id h. refl; added = refl };
  keys = sym (append-nil tx.ids);
}
run-Adds o (enqueues d now luck next) tx live = after_enqueue-Adds o tx d now luck next live (
    run-Adds o (next (enqueue o tx d now luck).1) (enqueue o tx d now luck).0
      (after_enqueue-live o tx d now luck live))

is_some : Option Error → Bool
is_some none = false
is_some (some e) = true

kept_error :
    (o : Outbox) (tx : Tx) (d : Draft) (now : ℕ) (luck : Luck)
    → tx.is_finished ≡ false
    → (is_some tx.error || not (is_ok (enqueue o tx d now luck).1)) ≡ true
    → is_some (enqueue o tx d now luck).0.error ≡ true
unfolding is_some
kept_error o tx d now luck live h = elim (enqueue_cases o tx d now luck live) [
  | inl (e, k) ↦ ground (arith, k)
  | inr (none_yet, k) ↦ absurd (ground (arith, h, none_yet, k))
]

run_failed :
    (o : Outbox) (h : Handler) (tx : Tx)
    → tx.is_finished ≡ false
    → (is_some tx.error || any_failed o h tx) ≡ true
    → is_some (run o h tx).0.error ≡ true
unfolding run is_some
run_failed o (returns e) tx live f = ground (arith, f)
run_failed o (enqueues d now luck next) tx live f =
    run_failed o (next (enqueue o tx d now luck).1) (enqueue o tx d now luck).0
      (after_enqueue-live o tx d now luck live) (ground (arith, f, kept_error o tx d now luck live))

-- The table with the messages of all Enqueues of the handler, none of which has failed.
abbrev pub IsStored : Outbox → Table → Handler → Table → Type 0
IsStored o t h t' = Appended t (accepted o h (opened t)) t' × (any_failed o h (opened t) ≡ false)

-- The answer of a transaction and the table after it.
abbrev pub IsAtomic : Outbox → Table → Option Handler → Table × Result Error (List ℕ) → Type 0
IsAtomic o t none r = (r.0 ≡ t) × (is_ok r.1 ≡ false)
IsAtomic o t (some h) (t', ok ids) = (ids ≡ keys_of (accepted o h (opened t))) × IsStored o t h t'
IsAtomic o t (some h) (t', err e) = (t' ≡ t) ⊎ ((e ≡ commit_uncertain) × IsStored o t h t')

module _ (o : Outbox) (t : Table) (h : Handler) where
  done-Adds : Adds (opened t) (accepted o h (opened t)) (run o h (opened t)).0
  done-Adds = run-Adds o h (opened t) refl

  none_failed : (run o h (opened t)).0.error ≡ none → any_failed o h (opened t) ≡ false
  unfolding is_some
  none_failed e = elim (Bool-cases (any_failed o h (opened t))) [
    | inl f ↦ absurd (ground (arith, run_failed o h (opened t) refl f, ap is_some e))
    | inr k ↦ k
  ]

  committed-IsAtomic :
      (ending : Commit)
      → (run o h (opened t)).0.error ≡ none
      → IsAtomic o t (some h) (committed t (run o h (opened t)).0 ending)
  committed-IsAtomic commits e = (done-Adds.keys, (done-Adds.appended, none_failed e))
  committed-IsAtomic undone e = inl refl
  committed-IsAtomic answer_lost e = inr (refl, (done-Adds.appended, none_failed e))

  commit-IsAtomic :
      (begin_fails : Bool) (ending : Commit)
      → o.is_closed ≡ false
      → IsAtomic o t (some h) (transaction o t (some h) begin_fails ending)
  unfolding transaction
  commit-IsAtomic true ending live =
      subst (IsAtomic o t (some h)) {x = (t, err database)}
        {y = transaction o t (some h) true ending} (simp live) (inl refl)
  commit-IsAtomic false ending live = elim (Option-cases (run o h (opened t)).1) [
    | inr (e, own) ↦
        subst (IsAtomic o t (some h)) {x = (t, err e)} {y = transaction o t (some h) false ending}
          (simp (live, own)) (inl refl)
    | inl fine ↦ elim (Option-cases (run o h (opened t)).0.error) [
      | inr (e, met) ↦
          subst (IsAtomic o t (some h)) {x = (t, err e)} {y = transaction o t (some h) false ending}
            (simp (live, fine, met)) (inl refl)
      | inl none_met ↦
          subst (IsAtomic o t (some h)) {x = committed t (run o h (opened t)).0 ending}
            {y = transaction o t (some h) false ending} (simp (live, fine, none_met))
            (committed-IsAtomic ending none_met)
    ]
  ]

-- A transaction is all or nothing, whatever its handler does with the answers it gets. If it returns
-- keys, they are those that the handler's Enqueues have answered, each has under its key the message
-- that it was given, waiting for its first delivery, nothing else has been added or changed, and no
-- Enqueue has failed, so that an error that the handler ignores stops the commit all the same. If it
-- returns an error, the messages are as before, unless the commit itself has failed with its answer
-- lost: then they are as before, or all of these messages are there, under these keys.
pub transaction-IsAtomic :
    (o : Outbox) (t : Table) (handler : Option Handler) (begin_fails : Bool) (ending : Commit)
    → IsAtomic o t handler (transaction o t handler begin_fails ending)
unfolding transaction
transaction-IsAtomic o t none begin_fails ending = (ground arith, ground arith)
transaction-IsAtomic o t (some h) begin_fails ending = elim (Bool-cases o.is_closed) [
  | inl shut ↦
      subst (IsAtomic o t (some h)) {x = (t, err closed)}
        {y = transaction o t (some h) begin_fails ending} (simp shut) (inl refl)
  | inr live ↦ commit-IsAtomic o t h begin_fails ending live
]
