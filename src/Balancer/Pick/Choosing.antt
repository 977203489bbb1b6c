-- ===== src/Balancer/Pick/Choosing.antt =====
-- What the draws and the scans of pick in pkg/registry/etcd/balancer.go can choose.
use kc.Prelude.{
  ℕ, zero, suc, ◌≤◌, ◌<◌, ◌≡◌, refl, sym, ap, subst, ◌⊎◌, inl, inr, Bool, true, false, Option, some,
  none, List, [], ◌∷◌, if◌then◌else◌, ◌==◌, length, get_elem?, get_elem?-some, ◌&&◌, ◌||◌, arith,
  Option-cases, Bool-cases,
}
use kc.Balancer.State.{Heap}
use kc.Balancer.Pick.{
  Candidates, eligible, none_eligible, next_seed, random_n, wanting, consider, attempt, sample,
  scan, earliest,
}

abbrev pub lists : List ℕ → ℕ → Bool
lists [] a = false
lists (x ∷ xs) a = (a == x) || lists xs a

pub get_elem?-lists : (xs : List ℕ) (k a : ℕ) → get_elem? xs k ≡ some a → lists xs a ≡ true
get_elem?-lists [] k a e = ground arith
get_elem?-lists (x ∷ xs) zero a e = ground arith
get_elem?-lists (x ∷ xs) (suc k) a e = ground (arith, get_elem?-lists xs k a e)

-- A draw is an index of the slice.
random_n_below : (seed n : ℕ) → 0 < n → random_n seed n < n
unfolding random_n
random_n_below seed n h = omega arith

module _ (heap : Heap) (now : ℕ) where
  pub listed_eligible :
      (xs : List ℕ) (a : ℕ)
      → lists xs a ≡ true
      → eligible (heap a) now ≡ true
      → none_eligible heap now xs ≡ false
  listed_eligible [] a l e = ground arith
  listed_eligible (x ∷ xs) a l e = elim (Bool-cases (a == x)) [
    | inl same ↦ ground arith
    | inr other ↦ ground (arith, listed_eligible xs a (ground arith) e)
  ]

  -- A candidate, if there is one, is an eligible item of the slice; the second comes after a first.
  pub record IsGood (items : List ℕ) (c : Candidates) : Type 0 where
    pub first_good :
        (a : ℕ) → c.first ≡ some a → (lists items a ≡ true) × (eligible (heap a) now ≡ true)
    pub second_good :
        (a : ℕ) → c.second ≡ some a → (lists items a ≡ true) × (eligible (heap a) now ≡ true)
    pub in_order : c.first ≡ none → c.second ≡ none

  consider-IsGood :
      (items : List ℕ) (a : ℕ) (c : Candidates)
      → lists items a ≡ true
      → eligible (heap a) now ≡ true
      → IsGood items c
      → IsGood items (consider a c)
  consider-IsGood items a c l e g = record {
    first_good = λ b h. ground (arith, g.first_good b);
    second_good = λ b h. ground (arith, g.second_good b);
    in_order = λ h. ground (arith, g.in_order);
  }

  drawn-IsGood :
      (items : List ℕ) (c : Candidates) (seed k a : ℕ)
      → get_elem? items k ≡ some a
      → IsGood items c
      → IsGood items (
          if eligible (heap a) now
          then consider a (record c { rng = seed })
          else record c { rng = seed })
  drawn-IsGood items c seed k a e g = elim (Bool-cases (eligible (heap a) now)) [
    | inl fit ↦
        subst (IsGood items) (sym (taken fit))
          (consider-IsGood items a (record c { rng = seed }) (get_elem?-lists items k a e) fit same)
    | inr unfit ↦ subst (IsGood items) (sym (passed unfit)) same
  ]
    where
      same : IsGood items (record c { rng = seed })
      same = record {
        first_good = g.first_good;
        second_good = g.second_good;
        in_order = g.in_order;
      }

      taken :
          eligible (heap a) now ≡ true
          → (if eligible (heap a) now
              then consider a (record c { rng = seed })
              else record c { rng = seed })
            ≡ consider a (record c { rng = seed })
      taken fit =
          ap (λ t. if t then consider a (record c { rng = seed }) else record c { rng = seed }) fit

      passed :
          eligible (heap a) now ≡ false
          → (if eligible (heap a) now
              then consider a (record c { rng = seed })
              else record c { rng = seed })
            ≡ record c { rng = seed }
      passed unfit =
          ap (λ t. if t then consider a (record c { rng = seed }) else record c { rng = seed })
            unfit

  -- What a step of the draws leaves.
  abbrev pub Draws : List ℕ → Option Candidates → Type 0
  Draws items o = (c : Candidates) × (o ≡ some c) × IsGood items c

  attempt-Draws :
      (items : List ℕ) (c : Candidates)
      → 0 < length items
      → IsGood items c
      → Draws items (attempt heap items now c)
  attempt-Draws items c h g =
      let k = random_n (next_seed c.rng) (length items) in
      let found = get_elem?-some items k (random_n_below (next_seed c.rng) (length items) h) in
      (_, ground (arith, found.1), drawn-IsGood items c (next_seed c.rng) k found.0 found.1 g)

  pub sample-Draws :
      (attempts : ℕ) (items : List ℕ) (c : Candidates)
      → 0 < length items
      → IsGood items c
      → Draws items (sample attempts heap items now c)
  sample-Draws zero items c h g = (c, refl, g)
  sample-Draws (suc attempts) items c h g = elim (Bool-cases (wanting c (length items))) [
    | inl wants ↦
        let step = attempt-Draws items c h g in
        let rest = sample-Draws attempts items step.0 h step.2 in
        (rest.0, ground (arith, step.1, rest.1), rest.2)
    | inr settled ↦
        let rest = sample-Draws attempts items c h g in (rest.0, ground (arith, rest.1), rest.2)
  ]

  pub scan-IsGood :
      (items xs : List ℕ) (c : Candidates)
      → ((a : ℕ) → lists xs a ≡ true → lists items a ≡ true)
      → IsGood items c
      → IsGood items (scan heap now xs c)
  scan-IsGood items [] c inside g = g
  scan-IsGood items (x ∷ xs) c inside g = elim (Bool-cases (eligible (heap x) now)) [
    | inl fit ↦ elim (Option-cases c.first) [
      | inl fresh ↦
          subst (IsGood items) {x = scan heap now xs (record c { first = some x })} (ground arith)
            (scan-IsGood items xs (record c { first = some x }) rest (first_x fit fresh))
      | inr (f, taken) ↦ elim (Bool-cases (x == f)) [
        | inl again ↦
            subst (IsGood items) {x = scan heap now xs c} (ground arith)
              (scan-IsGood items xs c rest g)
        | inr other ↦
            subst (IsGood items) {x = record c { second = some x }} (ground arith)
              (second_x fit f taken)
      ]
    ]
    | inr unfit ↦
        subst (IsGood items) {x = scan heap now xs c} (ground arith) (scan-IsGood items xs c rest g)
  ]
    where
      rest : (a : ℕ) → lists xs a ≡ true → lists items a ≡ true
      rest a l = inside a (ground arith)

      first_x :
          eligible (heap x) now ≡ true → c.first ≡ none → IsGood items (record c { first = some x })
      first_x fit fresh = record {
        first_good = λ a e. ground (arith, inside x (ground arith));
        second_good = g.second_good;
        in_order = λ e. ground (arith, g.in_order);
      }

      second_x :
          eligible (heap x) now ≡ true
          → (f : ℕ) → c.first ≡ some f
          → IsGood items (record c { second = some x })
      second_x fit f taken = record {
        first_good = g.first_good;
        second_good = λ a e. ground (arith, inside x (ground arith));
        in_order = λ e. ground arith;
      }

  pub scan_first_none :
      (xs : List ℕ) (c : Candidates)
      → (scan heap now xs c).first ≡ none
      → (c.first ≡ none) × (none_eligible heap now xs ≡ true)
  scan_first_none [] c e = (e, refl)
  scan_first_none (x ∷ xs) c e =
      ground (arith, scan_first_none xs c, scan_first_none xs (record c { first = some x }))

-- Every item has a probe in flight.
abbrev pub all_probed : Heap → List ℕ → Bool
all_probed heap [] = true
all_probed heap (a ∷ rest) = (heap a).half_open && all_probed heap rest

module _ (heap : Heap) where
  pub earliest_nothing :
      (xs : List ℕ) (first : Option ℕ)
      → earliest heap xs first ≡ none
      → (first ≡ none) × (all_probed heap xs ≡ true)
  earliest_nothing [] first e = (e, refl)
  earliest_nothing (x ∷ xs) first e =
      ground (arith, earliest_nothing xs first, earliest_nothing xs (some x))

  pub earliest_listed :
      (xs : List ℕ) (first : Option ℕ) (a : ℕ)
      → earliest heap xs first ≡ some a
      → (first ≡ some a) ⊎ ((lists xs a ≡ true) × ((heap a).half_open ≡ false))
  earliest_listed [] first a e = inl e
  earliest_listed (x ∷ xs) first a e =
      ground (arith, earliest_listed xs first a, earliest_listed xs (some x) a)

  earliest_before :
      (xs : List ℕ) (first : Option ℕ) (a : ℕ)
      → earliest heap xs first ≡ some a
      → (f : ℕ) → first ≡ some f
      → (heap a).ejected_until ≤ (heap f).ejected_until
  earliest_before [] first a e f h = ground arith
  earliest_before (x ∷ xs) first a e f h = ground (
    arith,
    λ (h : earliest heap xs first ≡ some a). earliest_before xs first a h f,
    λ (h : earliest heap xs (some x) ≡ some a). earliest_before xs (some x) a h x refl,
  )

  pub earliest_least :
      (xs : List ℕ) (first : Option ℕ) (a : ℕ)
      → earliest heap xs first ≡ some a
      → (b : ℕ) → lists xs b ≡ true
      → (heap b).half_open ≡ false
      → (heap a).ejected_until ≤ (heap b).ejected_until
  earliest_least [] first a e b l h = ground arith
  earliest_least (x ∷ xs) first a e b l h = elim (Bool-cases (b == x)) [
    | inl here ↦ elim (Option-cases first) [
      | inl nothing ↦ ground (
        arith,
        λ (h : earliest heap xs (some x) ≡ some a). earliest_before xs (some x) a h x refl,
      )
      | inr (f, something) ↦ ground (
        arith,
        λ (h : earliest heap xs (some x) ≡ some a). earliest_before xs (some x) a h x refl,
        λ (h : earliest heap xs first ≡ some a). earliest_before xs first a h f something,
      )
    ]
    | inr later ↦ ground (
      arith,
      λ (h : earliest heap xs first ≡ some a). earliest_least xs first a h b,
      λ (h : earliest heap xs (some x) ≡ some a). earliest_least xs (some x) a h b,
    )
  ]
