-- ===== src/Snowflake/Node/Retired.antt =====
-- A node that is taken out of use (node.go, `retire`), and one that ran past its 41 bits of time.
use kc.Prelude.{
  ℕ, ◌+◌, ◌≤◌, ◌<◌, ◌≡◌, refl, ◌∙◌, inl, inr, false, some, List, [], ◌∷◌, All, Result, err, ok,
  arith, subst, Option-cases,
}
use kc.Prelude.Int.{ℤ, pos, two63, ◌≤ℤ◌}
use kc.Snowflake.Node.{
  Node, Error, lease_lost, generate, run, retire, get_time_from_id, timestamp_overflow,
  max_timestamp,
}
use kc.Snowflake.Node.Layout.{IsValid, start, id_at, issue_cases}
use kc.Snowflake.Node.Draws.{Draws, refused, behind, early, late, drawn, IsInt64, generate-Draws}
use kc.Snowflake.Node.Order.{Draws-IsValid}
use kc.Snowflake.Node.Decoding.{Decodes, Draws-Decodes}

-- The IDs among the results carry times up to `t`, read by the node `n`.
abbrev pub UpTo : Node → ℕ → List (Result Error ℕ) → Type 0
UpTo n t [] = Unit {0}
UpTo n t (ok id ∷ rs) = (get_time_from_id n (pos id) ≤ℤ pos t) × UpTo n t rs
UpTo n t (err e ∷ rs) = UpTo n t rs

abbrev pub Later : Node → Node → Type 0
Later n m = (n.timestamp ≤ m.timestamp) × (m.epoch ≡ n.epoch)

pub Draws-Later : {n : Node} {out : Node × Result Error ℕ} → Draws n out → Later n out.0
Draws-Later (refused r) = (omega arith, refl)
Draws-Later (behind r) = (omega arith, refl)
Draws-Later (early c s r f h) = (omega arith, refl)
Draws-Later (late c s r f h) = (omega arith, refl)
Draws-Later (drawn c s r f h k i) = (omega arith, refl)

pub get_time-epoch :
    (n m : Node) (id : ℤ) → m.epoch ≡ n.epoch → get_time_from_id m id ≡ get_time_from_id n id
unfolding get_time_from_id
get_time-epoch n m id e = rw e

UpTo-epoch :
    (n m : Node) (t : ℕ) (rs : List (Result Error ℕ))
    → m.epoch ≡ n.epoch
    → UpTo m t rs
    → UpTo n t rs
UpTo-epoch n m t [] e u = tt
UpTo-epoch n m t (ok id ∷ rs) e u =
    (subst (λ x. x ≤ℤ pos t) (get_time-epoch n m (pos id) e) u.0, UpTo-epoch n m t rs e u.1)
UpTo-epoch n m t (err x ∷ rs) e u = UpTo-epoch n m t rs e u

run-Later :
    (n : Node) (calls : List (List ℤ))
    → IsValid n
    → All (All IsInt64) calls
    → Later n (run n calls).0
unfolding run
run-Later n [] v a = (omega arith, refl)
run-Later n (readings ∷ calls) v a = elim (Option-cases (generate n readings)) [
  | inl stuck ↦ rw (stuck, run) (omega arith, refl)
  | inr ((n', r), e) ↦
      let d = generate-Draws n readings v a.0 e in
      let one : Later n n' = Draws-Later d in
      let more = run-Later n' calls (Draws-IsValid v d) a.1 in
      rw (e, run) (omega arith, more.1 ∙ one.1)
]

UpTo-cons :
    (n n' : Node) (t : ℕ) (r : Result Error ℕ) (rs : List (Result Error ℕ))
    → Decodes n (n', r)
    → n'.timestamp ≤ t
    → UpTo n t rs
    → UpTo n t (r ∷ rs)
UpTo-cons n n' t (err e) rs d h u = u
UpTo-cons n n' t (ok id) rs d h u = (rw d.0 (omega arith), u)

run-UpTo :
    (n : Node) (calls : List (List ℤ))
    → IsValid n
    → All (All IsInt64) calls
    → UpTo n (run n calls).0.timestamp (run n calls).1
unfolding run
run-UpTo n [] v a = tt
run-UpTo n (readings ∷ calls) v a = elim (Option-cases (generate n readings)) [
  | inl stuck ↦ rw (stuck, run) tt
  | inr ((n', r), e) ↦
      let d = generate-Draws n readings v a.0 e in
      let v' = Draws-IsValid v d in
      let t = (run n' calls).0.timestamp in
      rw (e, run)
        (UpTo-cons n n' t r (run n' calls).1 (Draws-Decodes v d) (run-Later n' calls v' a.1).0
          (UpTo-epoch n n' t (run n' calls).1 (Draws-Later d).1 (run-UpTo n' calls v' a.1)))
]

-- `retire` returns a time that no ID issued before it exceeds, and every later call of `generate`
-- reports a lost lease and changes nothing.
retire_bars :
    (n : Node) (calls : List (List ℤ)) (readings : List ℤ)
    → IsValid n
    → All (All IsInt64) calls
    → UpTo n (retire (run n calls).0).1 (run n calls).1
      × (generate (retire (run n calls).0).0 readings
          ≡ some ((retire (run n calls).0).0, err lease_lost))
unfolding retire generate
retire_bars n calls readings v a = (run-UpTo n calls v a, refl)

-- Let a node compose two IDs in a new millisecond, then read a time past the 41 bits, and then the
-- old millisecond again. The third call fails, but it has restarted the sequence, and the fourth
-- composes the ID that the second one has composed.
pub generate_overflow_reissues :
    (n : Node) (t c : ℕ)
    → IsValid n
    → n.retired ≡ false
    → n.timestamp < t
    → start n ≤ t
    → t ≤ start n + max_timestamp
    → start n + max_timestamp < c
    → c < two63
    → (run n ((pos t ∷ []) ∷ (pos t ∷ []) ∷ (pos c ∷ []) ∷ (pos t ∷ []) ∷ [])).1
      ≡ ok (id_at n t 0) ∷ ok (id_at n t 1) ∷ err timestamp_overflow ∷ ok (id_at n t 1) ∷ []
unfolding generate run
generate_overflow_reissues n t c v live new h k far fits =
    ground (arith, first, second, third, fourth)
  where
    at : ℕ → Node
    at s = record n { timestamp = t; sequence = s }

    valid : (s : ℕ) → s ≤ 1 → IsValid (at s)
    valid s small = record {
      epoch = v.epoch;
      epoch_fits = v.epoch_fits;
      worker = v.worker;
      sequence = omega arith;
    }

    first : generate n (pos t ∷ []) ≡ some (at 0, ok (id_at n t 0))
    first = ground (arith, issue_cases n 0 t v (omega arith) (omega arith))

    second : generate (at 0) (pos t ∷ []) ≡ some (at 1, ok (id_at n t 1))
    second =
        ground (arith, issue_cases (at 0) 1 t (valid 0 (omega arith)) (omega arith) (omega arith))

    third : generate (at 1) (pos c ∷ []) ≡ some (at 0, err timestamp_overflow)
    third = ground (arith, issue_cases (at 1) 0 c (valid 1 (omega arith)) fits (omega arith))

    fourth : generate (at 0) (pos t ∷ []) ≡ some (at 1, ok (id_at n t 1))
    fourth = second
