-- ===== src/Snowflake/Node/Order.antt =====
-- The order of the IDs that one node composes (node.go).
use kc.Prelude.{
  ℕ, suc, ◌≤◌, ◌≡◌, refl, inl, inr, List, [], ◌∷◌, All, subst, Option-cases, Result, err, ok, arith,
  ltb, if◌then◌else◌,
}
use kc.Prelude.Int.{ℤ}
use kc.Snowflake.Node.{Node, Error, invalid_config, timestamp_overflow, generate, run}
use kc.Snowflake.Node.Layout.{IsValid, start, id_at}
use kc.Snowflake.Node.Draws.{Draws, refused, behind, early, late, drawn, IsInt64, generate-Draws}

-- No ID below this number is composed from here on.
abbrev pub lower : Node → ℕ
lower n = if ltb n.timestamp (start n) then 0 else suc (id_at n n.timestamp n.sequence)

-- IDs ascend from `b` on. After an overflow of the timestamp nothing is said.
abbrev pub Ascending : ℕ → List (Result Error ℕ) → Type 0
Ascending b [] = Unit {0}
Ascending b (ok id ∷ rs) = (b ≤ id) × Ascending (suc id) rs
Ascending b (err timestamp_overflow ∷ rs) = Unit {0}
Ascending b (err _ ∷ rs) = Ascending b rs

abbrev Grows : Node → Node × Result Error ℕ → Type 0
Grows n (n', ok id) = (lower n ≤ id) × (lower n' ≡ suc id)
Grows n (n', err timestamp_overflow) = Unit {0}
Grows n (n', err e) = lower n' ≡ lower n

Draws-Grows : {n : Node} {out : Node × Result Error ℕ} → IsValid n → Draws n out → Grows n out
Draws-Grows v (refused r) = refl
Draws-Grows v (behind r) = refl
Draws-Grows v (early c s r f h) = ground arith
Draws-Grows v (late c s r f h) = tt
Draws-Grows v (drawn c s r f h k i) = ground arith

pub Draws-IsValid :
    {n : Node} {out : Node × Result Error ℕ} → IsValid n → Draws n out → IsValid out.0
Draws-IsValid v (refused r) = v
Draws-IsValid v (behind r) = v
Draws-IsValid v (early c s r f h) = ground arith
Draws-IsValid v (late c s r f h) = ground arith
Draws-IsValid v (drawn c s r f h k i) = ground arith

Ascending-cons :
    (n n' : Node) (r : Result Error ℕ) (rs : List (Result Error ℕ))
    → Grows n (n', r)
    → Ascending (lower n') rs
    → Ascending (lower n) (r ∷ rs)
Ascending-cons n n' (ok id) rs g a = (g.0, subst (λ b. Ascending b rs) g.1 a)
Ascending-cons n n' (err timestamp_overflow) rs g a = tt
Ascending-cons n n' (err invalid_config) rs g a = subst (λ b. Ascending b rs) g a
Ascending-cons n n' (err _) rs g a = subst (λ b. Ascending b rs) g a

-- The IDs that a node composes, in any series of calls and whatever its clock reads, strictly
-- ascend, as far as no call reports an overflow of the timestamp.
pub run-Ascending :
    (n : Node) (calls : List (List ℤ))
    → IsValid n
    → All (All IsInt64) calls
    → Ascending (lower n) (run n calls).1
unfolding run
run-Ascending n [] v a = tt
run-Ascending n (readings ∷ calls) v a = elim (Option-cases (generate n readings)) [
  | inl stuck ↦ rw (stuck, run) tt
  | inr ((n', r), e) ↦
      let d = generate-Draws n readings v a.0 e in
      rw (e, run)
        (Ascending-cons n n' r (run n' calls).1 (Draws-Grows v d)
          (run-Ascending n' calls (Draws-IsValid v d) a.1))
]
