-- ===== src/Snowflake/Node/Draws.antt =====
-- What one call of `generate` may do (node.go), as a relation on the node and its outcome.
use kc.Prelude.{
  ℕ, ◌+◌, ◌≤◌, ◌<◌, ◌≡◌, refl, ◌⊎◌, inl, inr, true, false, Option, some, none, List, [], ◌∷◌, All,
  Result, err, ok, arith, subst, Bool-cases, ltb, leb, ◌==◌,
}
use kc.Prelude.Int.{ℤ, pos, negsuc, two63}
use kc.Snowflake.Node.{
  Node, Error, invalid_config, lease_lost, clock_backwards, timestamp_overflow, max_sequence,
  max_timestamp, issue, wait_next, after_wait, at_reading, generate,
}
use kc.Snowflake.Node.Layout.{IsValid, start, id_at, issue_cases}

-- A later millisecond restarts the sequence, the same one goes on with it.
abbrev pub Fresh : Node → ℕ → ℕ → Type 0
Fresh n c s =
    ((n.timestamp < c) × (s ≡ 0))
    ⊎ ((c ≡ n.timestamp) × (s ≡ n.sequence + 1) × (n.sequence < max_sequence))

pub data Draws (n : Node) : Node × Result Error ℕ → Type 0 where
  refused : n.retired ≡ true → Draws n (n, err lease_lost)
  behind : n.retired ≡ false → Draws n (n, err clock_backwards)
  early :
      (c s : ℕ)
      → n.retired ≡ false
      → Fresh n c s
      → c < start n
      → Draws n (record n { sequence = s }, err invalid_config)
  late :
      (c s : ℕ)
      → n.retired ≡ false
      → Fresh n c s
      → start n + max_timestamp < c
      → Draws n (record n { sequence = s }, err timestamp_overflow)
  drawn :
      (c s : ℕ)
      → n.retired ≡ false
      → Fresh n c s
      → start n ≤ c
      → c ≤ start n + max_timestamp
      → c < two63
      → Draws n (record n { timestamp = c; sequence = s }, ok (id_at n c s))

-- The clock returns an int64.
abbrev pub IsInt64 : ℤ → Type 0
IsInt64 (pos n) = n < two63
IsInt64 (negsuc n) = n < two63

issue-Draws :
    (n : Node) (s c : ℕ)
    → IsValid n
    → c < two63
    → n.retired ≡ false
    → Fresh n c s
    → Draws n (issue n s c)
issue-Draws n s c v hc live fresh = elim (issue_cases n s c v hc (ground arith)) [
  | inl (h, e) ↦ rw e (early c s live fresh h)
  | inr (inl (h, e)) ↦ rw e (late c s live fresh h)
  | inr (inr (h, k, e)) ↦ rw e (drawn c s live fresh h k hc)
]

-- Where the wait ends it ends behind the timestamp, or past it.
wait_next_cases :
    (t : ℕ) (later : List ℤ) (r : Result Error ℕ)
    → All IsInt64 later
    → wait_next t later ≡ some r
    → (r ≡ err clock_backwards) ⊎ ((c : ℕ) × (r ≡ ok c) × (t < c) × (c < two63))
unfolding wait_next
wait_next_cases t [] r a h = cc
wait_next_cases t (negsuc m ∷ later) r a h = inl (cc)
wait_next_cases t (pos c ∷ later) r a h = elim (Bool-cases (ltb c t)) [
  | inl back ↦ inl (ground arith)
  | inr forth ↦ elim (Bool-cases (leb c t)) [
    | inl same ↦ wait_next_cases t later r a.1 (rw (forth, same) at h)
    | inr past ↦ inr (c, ground arith, ground arith, a.0)
  ]
]

to_out : {n : Node} {x out : Node × Result Error ℕ} → Draws n x → x ≡ out → Draws n out
to_out {n} d e = subst (Draws n) e d

after_wait-Draws :
    (n : Node) (later : List ℤ) {out : Node × Result Error ℕ}
    → IsValid n
    → n.retired ≡ false
    → All IsInt64 later
    → (w : Option (Result Error ℕ)) → wait_next n.timestamp later ≡ w
    → after_wait n w ≡ some out
    → Draws n out
unfolding after_wait
after_wait-Draws n later v live a none e h = cc
after_wait-Draws n later v live a (some r) e h = elim (wait_next_cases n.timestamp later r a e) [
  | inl back ↦ to_out (behind live) (ground arith)
  | inr (c, ends, past, fits) ↦
      to_out (issue-Draws n 0 c v fits live (inl (past, refl))) (ground arith)
]

at_reading-Draws :
    (n : Node) (r : ℤ) (later : List ℤ) {out : Node × Result Error ℕ}
    → IsValid n
    → n.retired ≡ false
    → IsInt64 r
    → All IsInt64 later
    → at_reading n r later ≡ some out
    → Draws n out
unfolding at_reading
at_reading-Draws n (negsuc m) later v live i a h = to_out (behind live) (ground arith)
at_reading-Draws n (pos c) later v live i a h = elim (Bool-cases (ltb c n.timestamp)) [
  | inl back ↦ to_out (behind live) (ground arith)
  | inr forth ↦ elim (Bool-cases (c == n.timestamp)) [
    | inr later_ms ↦ to_out (issue-Draws n 0 c v i live (inl (ground arith, refl))) (ground arith)
    | inl same ↦ elim (Bool-cases (n.sequence == max_sequence)) [
      | inl full ↦
          after_wait-Draws n later v live a (wait_next n.timestamp later) refl (ground arith)
      | inr free ↦
          let below : n.sequence < max_sequence = ground (arith, v.sequence) in
          let at : c ≡ n.timestamp = ground arith in
          to_out (issue-Draws n (n.sequence + 1) c v i live (inr (at, refl, below))) (ground arith)
    ]
  ]
]

-- Every call that returns makes one of these moves.
pub generate-Draws :
    (n : Node) (readings : List ℤ) {out : Node × Result Error ℕ}
    → IsValid n
    → All IsInt64 readings
    → generate n readings ≡ some out
    → Draws n out
unfolding generate
generate-Draws n [] v a h = elim (Bool-cases n.retired) [
  | inl out_of_use ↦ to_out (refused out_of_use) (ground arith)
  | inr live ↦ ground arith
]
generate-Draws n (r ∷ later) v a h = elim (Bool-cases n.retired) [
  | inl out_of_use ↦ to_out (refused out_of_use) (ground arith)
  | inr live ↦ at_reading-Draws n r later v live a.0 a.1 (ground arith)
]
