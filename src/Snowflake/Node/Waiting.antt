-- ===== src/Snowflake/Node/Waiting.antt =====
-- When a call of `generate` returns (node.go), and the wait at a full millisecond.
use kc.Prelude.{
  ℕ, ◌≡◌, ◌≢◌, refl, inl, inr, Option, some, none, List, [], ◌∷◌, ◌++◌, Result, err, ok, arith,
  Option-cases,
}
use kc.Prelude.Int.{ℤ, pos, negsuc}
use kc.Snowflake.Node.{Node, Error, wait_next, after_wait, generate}

-- The wait ends at the first reading that differs from the timestamp, at the latest.
wait_next-ne-none :
    (t : ℕ) (before : List ℤ) (c : ℤ) (after : List ℤ)
    → c ≢ pos t
    → wait_next t (before ++ (c ∷ after)) ≢ none
unfolding wait_next
wait_next-ne-none t [] (negsuc m) after h = λ e. cc
wait_next-ne-none t [] (pos c) after h = λ e. ground (arith, h)
wait_next-ne-none t (negsuc m ∷ before) c after h = λ e. cc
wait_next-ne-none t (pos b ∷ before) c after h =
    λ e. let ih = wait_next-ne-none t before c after h in ground (arith, ih)

after_wait-ne-none : (n : Node) (w : Option (Result Error ℕ)) → w ≢ none → after_wait n w ≢ none
unfolding after_wait
after_wait-ne-none n none h = λ e. h refl
after_wait-ne-none n (some (err x)) h = λ e. cc
after_wait-ne-none n (some (ok c)) h = λ e. cc

generate-ne-none :
    (n : Node) (before : List ℤ) (c : ℤ) (after : List ℤ)
    → c ≢ pos n.timestamp
    → generate n (before ++ (c ∷ after)) ≢ none
unfolding generate
generate-ne-none n [] (negsuc m) after h = λ e. ground arith
generate-ne-none n [] (pos c) after h = λ e. ground (arith, h)
generate-ne-none n (negsuc m ∷ before) c after h = λ e. ground arith
generate-ne-none n (pos b ∷ before) c after h = λ e. ground (
  arith,
  after_wait-ne-none n (wait_next n.timestamp (before ++ (c ∷ after))),
  wait_next-ne-none n.timestamp before c after h,
)

-- `generate` returns as soon as one of its readings differs from the timestamp of the last ID: it
-- never waits longer than the clock stands still.
generate_returns :
    (n : Node) (before : List ℤ) (c : ℤ) (after : List ℤ)
    → c ≢ pos n.timestamp
    → (out : Node × Result Error ℕ) × (generate n (before ++ (c ∷ after)) ≡ some out)
generate_returns n before c after h = elim (Option-cases (generate n (before ++ (c ∷ after)))) [
  | inl e ↦ absurd (generate-ne-none n before c after h e)
  | inr found ↦ found
]
