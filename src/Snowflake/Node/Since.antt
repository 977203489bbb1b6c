-- ===== src/Snowflake/Node/Since.antt =====
-- The times of the IDs that a node composes from a moment of its clock on (node.go).
use kc.Prelude.{
  ℕ, ◌+◌, ◌≤◌, ◌<◌, ◌≡◌, refl, sym, inl, inr, Option, some, none, List, [], false, ◌∷◌, All, Result,
  err, ok, arith, subst, if_elim, if◌then◌else◌, Bool-cases, Option-cases, ltb, leb, ◌==◌,
}
use kc.Prelude.Int.{ℤ, pos, negsuc, pos_part, wrap64, ◌-ℤ◌, two63, ◌≤ℤ◌}
use kc.Snowflake.Node.{
  Node, Error, generate, run, issue, wait_next, after_wait, at_reading, new_node, get_time_from_id,
  max_timestamp, timestamp_overflow, invalid_config, pack, max_sequence, max_worker_id,
  default_epoch, is_zero,
}
use kc.Snowflake.Node.Layout.{IsValid}
use kc.Snowflake.Node.Draws.{IsInt64, generate-Draws}
use kc.Snowflake.Node.Order.{Draws-IsValid}
use kc.Snowflake.Node.Decoding.{Decodes, Draws-Decodes}
use kc.Snowflake.Node.Retired.{Draws-Later, get_time-epoch}

-- A reading of the clock no earlier than b.
abbrev pub IsFrom : ℕ → ℤ → Type 0
IsFrom b (pos c) = b ≤ c
IsFrom b (negsuc m) = ⊥

-- The IDs among the results carry times from b on, read by the node n.
abbrev pub Since : Node → ℕ → List (Result Error ℕ) → Type 0
Since n b [] = Unit {0}
Since n b (ok id ∷ rs) = (pos b ≤ℤ get_time_from_id n (pos id)) × Since n b rs
Since n b (err e ∷ rs) = Since n b rs

-- An ID leaves the node at a time from b on.
abbrev Stamped : ℕ → Option (Node × Result Error ℕ) → Type 0
Stamped b none = Unit {0}
Stamped b (some (n, err e)) = Unit {0}
Stamped b (some (n, ok id)) = b ≤ n.timestamp

abbrev Waited : ℕ → Option (Result Error ℕ) → Type 0
Waited b none = Unit {0}
Waited b (some (err e)) = Unit {0}
Waited b (some (ok c)) = b ≤ c

issue-Stamped : (b : ℕ) (n : Node) (s c : ℕ) → b ≤ c → Stamped b (some (issue n s c))
unfolding issue
issue-Stamped b n s c h = by_elapsed (wrap64 (pos c -ℤ n.epoch))
  where
    by_elapsed :
        (e : ℤ)
        → Stamped b (
            some (elim e [
              | negsuc _ ↦ (record n { sequence = s }, err invalid_config)
              | pos elapsed ↦
                  if ltb max_timestamp elapsed
                  then (record n { sequence = s }, err timestamp_overflow)
                  else (record n { sequence = s; timestamp = c }, ok (pack elapsed n.worker_id s))
            ]))
    by_elapsed (negsuc m) = tt
    by_elapsed (pos elapsed) =
        if_elim (λ (r : Node × Result Error ℕ). Stamped b (some r)) (ltb max_timestamp elapsed)
          (λ e. tt) (λ e. h)

wait_next-Waited :
    (b t : ℕ) (readings : List ℤ) → All (IsFrom b) readings → Waited b (wait_next t readings)
unfolding wait_next
wait_next-Waited b t [] all = tt
wait_next-Waited b t (negsuc m ∷ later) (h, all) = absurd h
wait_next-Waited b t (pos c ∷ later) (h, all) =
    if_elim (Waited b) (ltb c t) (λ e. tt)
      (λ e. if_elim (Waited b) (leb c t) (λ k. wait_next-Waited b t later all) (λ k. h))

after_wait-Stamped :
    (b : ℕ) (n : Node) (w : Option (Result Error ℕ)) → Waited b w → Stamped b (after_wait n w)
unfolding after_wait
after_wait-Stamped b n none h = tt
after_wait-Stamped b n (some (err e)) h = tt
after_wait-Stamped b n (some (ok c)) h = issue-Stamped b n 0 c h

generate-Stamped :
    (b : ℕ) (n : Node) (readings : List ℤ)
    → All (IsFrom b) readings
    → Stamped b (generate n readings)
unfolding generate at_reading
generate-Stamped b n [] all = if_elim (Stamped b) n.retired (λ e. tt) (λ e. tt)
generate-Stamped b n (negsuc m ∷ later) (h, all) = absurd h
generate-Stamped b n (pos c ∷ later) (h, all) =
    if_elim (Stamped b) n.retired (λ e. tt)
      (λ e.
        if_elim (Stamped b) (ltb c n.timestamp) (λ k. tt)
          (λ k.
            if_elim (Stamped b) (c == n.timestamp)
              (λ same.
                if_elim (Stamped b) (n.sequence == max_sequence)
                  (λ full.
                    after_wait-Stamped b n (wait_next n.timestamp later)
                      (wait_next-Waited b n.timestamp later all))
                  (λ room. issue-Stamped b n (n.sequence + 1) c h))
              (λ new. issue-Stamped b n 0 c h)))

Since-epoch :
    (n m : Node) (b : ℕ) (rs : List (Result Error ℕ))
    → m.epoch ≡ n.epoch
    → Since m b rs
    → Since n b rs
Since-epoch n m b [] e u = tt
Since-epoch n m b (ok id ∷ rs) e u =
    (subst (λ x. pos b ≤ℤ x) (get_time-epoch n m (pos id) e) u.0, Since-epoch n m b rs e u.1)
Since-epoch n m b (err x ∷ rs) e u = Since-epoch n m b rs e u

Since-cons :
    (n n' : Node) (b : ℕ) (r : Result Error ℕ) (rs : List (Result Error ℕ))
    → Decodes n (n', r)
    → Stamped b (some (n', r))
    → Since n b rs
    → Since n b (r ∷ rs)
Since-cons n n' b (err e) rs d h u = u
Since-cons n n' b (ok id) rs d h u = (subst (λ x. pos b ≤ℤ x) (sym d.0) (omega (arith, h)), u)

-- A node whose clock does not go back behind b composes no ID of an earlier time.
pub run-Since :
    (n : Node) (b : ℕ) (calls : List (List ℤ))
    → IsValid n
    → All (All IsInt64) calls
    → All (All (IsFrom b)) calls
    → Since n b (run n calls).1
unfolding run
run-Since n b [] v a from = tt
run-Since n b (readings ∷ calls) v a from = elim (Option-cases (generate n readings)) [
  | inl stuck ↦ rw (stuck, run) tt
  | inr ((n', r), e) ↦
      let d = generate-Draws n readings v a.0 e in
      rw (e, run)
        (Since-cons n n' b r (run n' calls).1 (Draws-Decodes v d)
          (subst (Stamped b) e (generate-Stamped b n readings from.0))
          (Since-epoch n n' b (run n' calls).1 (Draws-Later d).1
            (run-Since n' b calls (Draws-IsValid v d) a.1 from.1)))
]

pub new_node-IsValid :
    (worker epoch : ℕ) (n : Node)
    → new_node (pos worker) (pos epoch) ≡ ok n
    → epoch < two63
    → IsValid n
unfolding new_node is_zero
new_node-IsValid worker epoch n e fits = elim (Bool-cases (ltb max_worker_id worker)) [
  | inl large ↦ absurd (ground (arith, e, large))
  | inr small ↦ subst IsValid {x = made} (ground (arith, e, small)) (record {
    epoch = if_elim (λ x. x ≡ pos (pos_part x)) (epoch == 0) (λ h. refl) (λ h. refl);
    epoch_fits = if_elim (λ x. pos_part x < two63) (epoch == 0) (λ h. omega arith) (λ h. fits);
    worker = ground (arith, small);
    sequence = omega arith;
  })
]
  where
    made : Node
    made = record {
      timestamp = 0;
      worker_id = worker;
      sequence = 0;
      epoch = if epoch == 0 then pos default_epoch else pos epoch;
      retired = false;
    }
