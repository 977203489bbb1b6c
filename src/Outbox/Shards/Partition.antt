-- ===== src/Outbox/Shards/Partition.antt =====
-- The assignment of shards to nodes of pkg/outbox/storage.go gives each shard to one live node.
use kc.Prelude.{
  ℕ, zero, suc, ◌+◌, ◌≤◌, ◌<◌, ◌≡◌, refl, sym, ap, ◌∙◌, subst, some-injective, true, some, List, [],
  ◌∷◌, ltb, ◌==◌, length, arith, Bool-cases, Option-cases, inl, inr, get_elem?, get_elem?-lt,
  get_elem?-some,
}
use kc.Prelude.Names.{String, same, same→eq, same_self}
use kc.Outbox.Store.{holds}
use kc.Outbox.Shards.{sort_names, search_names, stride, assignment, shard_count}
use kc.Outbox.Shards.Sorting.{
  has, IsDistinct, sort_names-IsAscending, has-sort_names, length-sort_names, search_names_found,
  get_elem-has,
}

-- n added q times.
abbrev times : ℕ → ℕ → ℕ
times zero n = 0
times (suc q) n = n + times q n

divided : (k n : ℕ) → 0 < n → (q : ℕ) × (j : ℕ) × (j < n) × (k ≡ j + times q n)
divided zero n h = (0, 0, h, refl)
divided (suc k) n h = next (divided k n h)
  where
    next :
        (q : ℕ) × (j : ℕ) × (j < n) × (k ≡ j + times q n)
        → (q : ℕ) × (j : ℕ) × (j < n) × (suc k ≡ j + times q n)
    next (q, j, below, e) = elim (Bool-cases (ltb (suc j) n)) [
      | inl inside ↦ (q, suc j, ground (arith, inside), omega (arith, e))
      | inr full ↦ (suc q, 0, h, ground (arith, e, full, below))
    ]

same_remainder : (q r j i n : ℕ) → j < n → i < n → j + times q n ≡ i + times r n → j ≡ i
same_remainder zero zero j i n h k e = omega arith
same_remainder zero (suc r) j i n h k e = absurd (omega arith)
same_remainder (suc q) zero j i n h k e = absurd (omega arith)
same_remainder (suc q) (suc r) j i n h k e = same_remainder q r j i n h k (omega (arith, e))

times_least : (q n : ℕ) → 0 < n → q ≤ times q n
times_least zero n h = omega arith
times_least (suc q) n h = omega (arith, times_least q n h)

stride_has :
    (fuel q s n : ℕ)
    → q < fuel
    → s + times q n < shard_count
    → holds (stride fuel s n) (s + times q n) ≡ true
unfolding stride
stride_has zero q s n h k = absurd (omega arith)
stride_has (suc fuel) zero s n h k = ground arith
stride_has (suc fuel) (suc q) s n h k = ground (
  arith,
  subst (λ x. holds (stride fuel (s + n) n) x ≡ true) {x = s + n + times q n}
      {y = s + times (suc q) n} (omega arith)
      (stride_has fuel q (s + n) n (omega arith) (omega (arith, k))),
)

stride_only : (fuel s n k : ℕ) → holds (stride fuel s n) k ≡ true → (q : ℕ) × (k ≡ s + times q n)
unfolding stride
stride_only zero s n k h = absurd (ground (arith, h))
stride_only (suc fuel) s n k h = elim (Bool-cases (k == s)) [
  | inl here ↦ (0, ground (arith, here))
  | inr further ↦
      let r = stride_only fuel (s + n) n k (ground (arith, h, further)) in
      (suc r.0, omega (arith, r.1))
]

get_elem-place :
    (xs : List String) (x : String) → has xs x ≡ true → (j : ℕ) × (get_elem? xs j ≡ some x)
get_elem-place [] x h = absurd (ground (arith, h))
get_elem-place (y ∷ ys) x h = elim (Bool-cases (same x y)) [
  | inl here ↦ (0, ap some (sym (same→eq x y here)))
  | inr further ↦ let r = get_elem-place ys x (ground (arith, h, further)) in (suc r.0, r.1)
]

module _ (nodes : List String) (d : IsDistinct nodes) where
  -- The node at a place of the sorted list has the shards that leave that remainder.
  assignment_at :
      (j : ℕ) (node : String)
      → get_elem? (sort_names nodes) j ≡ some node
      → assignment nodes node ≡ stride shard_count j (length (sort_names nodes))
  unfolding assignment
  assignment_at j node e =
      let place = search_names_found (sort_names nodes) j node (sort_names-IsAscending nodes d) e in
      let here : get_elem? (sort_names nodes) (search_names (sort_names nodes) node) ≡ some node =
        ap (get_elem? (sort_names nodes)) place ∙ e in
      ground (
        arith,
        here,
        same_self node,
        ap (λ i. stride shard_count i (length (sort_names nodes))) place,
      )

  assignment_only :
      (node : String) (shard : ℕ)
      → holds (assignment nodes node) shard ≡ true
      → (j : ℕ) × (q : ℕ) × (get_elem? (sort_names nodes) j ≡ some node)
        × (shard ≡ j + times q (length (sort_names nodes)))
  unfolding assignment
  assignment_only node shard h =
      elim (Option-cases (get_elem? (sort_names nodes) (search_names (sort_names nodes) node))) [
        | inl nowhere ↦ absurd (ground (arith, h, nowhere))
        | inr (found, e) ↦ elim (Bool-cases (same found node)) [
          | inl own ↦
              let r =
                stride_only shard_count (search_names (sort_names nodes) node)
                  (length (sort_names nodes)) shard (ground (arith, h, e, own)) in
              (search_names (sort_names nodes) node, r.0, e ∙ ap some (same→eq found node own), r.1)
          | inr foreign ↦ absurd (ground (arith, h, e, foreign))
        ]
      ]

  -- Each shard belongs to exactly one of the nodes: it is assigned to a node of the list, and to no
  -- other node, of the list or not. The list has at least one node, and none twice.
  pub assignment_partition :
      (shard : ℕ)
      → 0 < length nodes
      → shard < shard_count
      → (node : String) × (has nodes node ≡ true)
        × (holds (assignment nodes node) shard ≡ true)
        × ((other : String) → holds (assignment nodes other) shard ≡ true → other ≡ node)
  assignment_partition shard some_node below = (
    place.0,
    sym (has-sort_names nodes place.0) ∙ get_elem-has (sort_names nodes) part.1 place.0 place.1,
    mine,
    alone,
  )
    where
      positive : 0 < length (sort_names nodes)
      positive = omega (arith, length-sort_names nodes)

      part :
          (q : ℕ) × (j : ℕ) × (j < length (sort_names nodes))
          × (shard ≡ j + times q (length (sort_names nodes)))
      part = divided shard (length (sort_names nodes)) positive

      place : (node : String) × (get_elem? (sort_names nodes) part.1 ≡ some node)
      place = get_elem?-some (sort_names nodes) part.1 part.2

      mine : holds (assignment nodes place.0) shard ≡ true
      mine =
          subst (λ xs. holds xs shard ≡ true) (sym (assignment_at part.1 place.0 place.1))
            (subst (λ k. holds (stride shard_count part.1 (length (sort_names nodes))) k ≡ true)
              (sym part.3)
              (stride_has shard_count part.0 part.1 (length (sort_names nodes))
                (omega (arith, times_least part.0 (length (sort_names nodes)) positive, part.3))
                (omega (arith, part.3))))

      alone : (other : String) → holds (assignment nodes other) shard ≡ true → other ≡ place.0
      alone other h =
          let r = assignment_only other shard h in
          let same_place =
            same_remainder r.1 part.0 r.0 part.1 (length (sort_names nodes))
              (get_elem?-lt (sort_names nodes) r.0 r.2) part.2 (sym r.3 ∙ part.3) in
          some-injective (sym r.2 ∙ ap (get_elem? (sort_names nodes)) same_place ∙ place.1)
