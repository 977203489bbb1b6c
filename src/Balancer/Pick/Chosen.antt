-- ===== src/Balancer/Pick/Chosen.antt =====
-- What pick in pkg/registry/etcd/balancer.go promises its caller.
use kc.Prelude.{
  ℕ, ◌≤◌, ◌<◌, ◌≡◌, refl, sym, ap, subst, inl, inr, Bool, true, false, Option, some, none, List, [],
  ◌∷◌, ◌⊎◌, if◌then◌else◌, ◌==◌, length, arith, Option-cases, Bool-cases,
}
use kc.Balancer.State.{InstanceState, Heap, write, ServiceState}
use kc.Balancer.Pick.{
  Floats, Candidates, reserve, eligible, none_eligible, all_ejected, admitted, probe_refused, claim,
  finish, completed, draws, no_candidates, pick, better, wanting, scan, earliest,
}
use kc.Balancer.Pick.Choosing.{
  lists, IsGood, listed_eligible, Draws, sample-Draws, scan-IsGood, scan_first_none, all_probed,
  earliest_nothing, earliest_listed, earliest_least,
}

-- The state when the item a has been handed out at the time `now`, with the items as they were at the
-- swap in h: its counter is one higher, an ejection that is over has its probe, and nothing else of
-- any item changes.
abbrev pub HandsOut : ServiceState → Heap → ℕ → ℕ → ServiceState → Type 0
HandsOut s h now a s' =
    (s'.heap ≡ write h a (admitted (h a) now))
    × (s'.items ≡ s.items)
    × (s'.instances ≡ s.instances)
    × (s'.fresh ≡ s.fresh)
    × (s'.last_used ≡ now)

-- What the caller may choose: while some instance is eligible, one that is; otherwise, of the
-- instances without a probe in flight, one whose ejection ends first.
abbrev pub IsChoice : ServiceState → ℕ → Bool → ℕ → Type 0
IsChoice s now ejected a =
    (lists s.items a ≡ true)
    × (probe_refused (s.heap a) now ≡ false)
    × (if ejected
        then ((s.heap a).half_open ≡ false)
          × ((b : ℕ)
              → lists s.items b ≡ true
              → (s.heap b).half_open ≡ false
              → (s.heap a).ejected_until ≤ (s.heap b).ejected_until)
        else eligible (s.heap a) now ≡ true)

-- The second candidate of the draws and the scan.
abbrev pub second_of : ServiceState → ℕ → Option ℕ
second_of s now = elim (draws s now) [ none ↦ none | some drawn ↦ (completed s now drawn).second ]

-- The probe of the candidate, if there is one, has been taken at the swap.
abbrev pub IsTaken : Heap → ℕ → Option ℕ → Type 0
IsTaken h now none = Unit
IsTaken h now (some b) = probe_refused (h b) now ≡ true

-- The answer of pick, with the items as they were at the swap in h.
abbrev pub Answers : ServiceState → Heap → ℕ → ServiceState × Option ℕ × Bool → Type 0
Answers s h now (s', none, ejected) =
    (all_ejected s now ≡ ejected)
    × (((s'.heap ≡ s.heap) × (if ejected then all_probed s.heap s.items ≡ true else s.items ≡ []))
        ⊎ ((s'.heap ≡ h)
            × ((a : ℕ) × IsChoice s now ejected a × IsTaken h now (some a))
            × IsTaken h now (second_of s now)))
Answers s h now (s', some a, ejected) =
    (all_ejected s now ≡ ejected)
    × HandsOut s h now a s'
    × IsChoice s now ejected a
    × (probe_refused (h a) now ≡ false)

-- A candidate without a probe in flight is handed out.
abbrev pub given : ServiceState → ℕ → ℕ → ServiceState
given s a now = record s { heap = write s.heap a (admitted (s.heap a) now); last_used = now }

-- What claim does: the first candidate whose swap succeeds gets the request.
abbrev pub Claims : ServiceState → ℕ → Option ℕ → ℕ → ServiceState × Option ℕ → Type 0
Claims s a second now (s', some b) =
    (s' ≡ given s b now) × (probe_refused (s.heap b) now ≡ false) × ((b ≡ a) ⊎ (second ≡ some b))
Claims s a second now (s', none) =
    (s' ≡ s) × IsTaken s.heap now (some a) × IsTaken s.heap now second

pub claim-Claims :
    (fl : Floats) (s : ServiceState) (a : ℕ) (second : Option ℕ) (now : ℕ)
    → Claims s a second now (claim fl s a second now)
unfolding claim reserve
claim-Claims fl s a second now = elim (Bool-cases (probe_refused (s.heap a) now)) [
  | inr free ↦
      subst (Claims s a second now) {x = (given s a now, some a)} (ground (arith, free))
        (refl, free, inl refl)
  | inl lost ↦ by_second lost second
]
  where
    by_second :
        probe_refused (s.heap a) now ≡ true → (o : Option ℕ) → Claims s a o now (claim fl s a o now)
    by_second lost none =
        subst (Claims s a none now) {x = (s, none)} (ground (arith, lost)) (refl, lost, tt)
    by_second lost (some b) = elim (Bool-cases (probe_refused (s.heap b) now)) [
      | inr free ↦
          subst (Claims s a (some b) now) {x = (given s b now, some b)} (ground (arith, lost, free))
            (refl, free, inr refl)
      | inl gone ↦
          subst (Claims s a (some b) now) {x = (s, none)} (ground (arith, lost, gone))
            (refl, lost, gone)
    ]

eligible_is_free :
    (item : InstanceState) (now : ℕ) → eligible item now ≡ true → probe_refused item now ≡ false
eligible_is_free item now h = ground arith

no_items : (xs : List ℕ) → length xs ≡ 0 → xs ≡ []
no_items [] h = refl
no_items (x ∷ xs) h = absurd (ground arith)

module _ (fl : Floats) (s : ServiceState) (meanwhile : Heap → Heap) (now : ℕ) where
  -- The candidates of the draws and the scan; there is no first one only if no item is eligible.
  IsFound : Candidates → Type 0
  IsFound c =
      IsGood s.heap now s.items c × (c.first ≡ none → none_eligible s.heap now s.items ≡ true)

  -- The state at the swap.
  at_swap : Candidates → ServiceState
  at_swap c = record s { rng = c.rng; heap = meanwhile s.heap }

  -- The choice and the second candidate are sound, so the answer is.
  claimed-Answers :
      (c : Candidates) (a : ℕ) (ejected : Bool) (r : ServiceState × Option ℕ)
      → Claims (at_swap c) a c.second now r
      → all_ejected s now ≡ ejected
      → second_of s now ≡ c.second
      → IsChoice s now ejected a
      → ((b : ℕ) → c.second ≡ some b → IsChoice s now ejected b)
      → Answers s (meanwhile s.heap) now (r.0, r.1, ejected)
  unfolding at_swap
  claimed-Answers c a ejected (s', none) (e, lost, gone) sign same choice other = (
    sign,
    inr (
      ap (λ t. t.heap) e,
      (a, choice, lost),
      subst (IsTaken (meanwhile s.heap) now) (sym same) gone,
    ),
  )
  claimed-Answers c a ejected (s', some b) (e, free, inl own) sign same choice other = (
    sign,
    subst (HandsOut s (meanwhile s.heap) now b) (sym e) (refl, refl, refl, refl, refl),
    subst (IsChoice s now ejected) (sym own) choice,
    free,
  )
  claimed-Answers c a ejected (s', some b) (e, free, inr second) sign same choice other = (
    sign,
    subst (HandsOut s (meanwhile s.heap) now b) (sym e) (refl, refl, refl, refl, refl),
    other b second,
    free,
  )

  eligible-IsChoice :
      (a : ℕ) → lists s.items a ≡ true → eligible (s.heap a) now ≡ true → IsChoice s now false a
  eligible-IsChoice a listed fit = (listed, eligible_is_free (s.heap a) now fit, fit)

  better_good :
      (c : Candidates) (f : ℕ)
      → IsFound c
      → c.first ≡ some f
      → (lists s.items (better fl s.heap f c.second) ≡ true)
        × (eligible (s.heap (better fl s.heap f c.second)) now ≡ true)
  unfolding IsFound
  better_good c f (g, h) e = elim (Option-cases c.second) [
    | inl alone ↦ ground (arith, g.first_good f e)
    | inr (b, other) ↦ ground (arith, g.first_good f e, g.second_good b other)
  ]

  finish_with :
      (c : Candidates) (f : ℕ)
      → 0 < length s.items
      → IsFound c
      → second_of s now ≡ c.second
      → c.first ≡ some f
      → Answers s (meanwhile s.heap) now (finish fl s meanwhile now c)
  unfolding IsFound all_ejected at_swap
  finish_with c f some_item found same e =
      let good = better_good c f found e in
      let chosen = better fl s.heap f c.second in
      let r = claim fl (at_swap c) chosen c.second now in
      subst (Answers s (meanwhile s.heap) now) {x = (r.0, r.1, false)}
        {y = finish fl s meanwhile now c} (ground (arith, e))
        (claimed-Answers c chosen false r (claim-Claims fl (at_swap c) chosen c.second now)
          (ground (arith, some_item, listed_eligible s.heap now s.items chosen good.0 good.1)) same
          (eligible-IsChoice chosen good.0 good.1)
          (λ b other.
            let second = found.0.second_good b other in
            eligible-IsChoice b (ground (arith, second)) (ground (arith, second))))

  finish_without :
      (c : Candidates)
      → 0 < length s.items
      → IsFound c
      → second_of s now ≡ c.second
      → c.first ≡ none
      → Answers s (meanwhile s.heap) now (finish fl s meanwhile now c)
  unfolding IsFound all_ejected at_swap
  finish_without c some_item (g, h) same e = elim (Option-cases (earliest s.heap s.items none)) [
    | inl all_busy ↦
        subst (Answers s (meanwhile s.heap) now) {x = (record s { rng = c.rng }, none, true)}
          {y = finish fl s meanwhile now c} (ground (arith, e, all_busy))
          (
            ground (arith, some_item, h e),
            inl (refl, (earliest_nothing s.heap s.items none all_busy).1),
          )
    | inr (a, free) ↦
        let r = claim fl (at_swap c) a c.second now in
        subst (Answers s (meanwhile s.heap) now) {x = (r.0, r.1, true)}
          {y = finish fl s meanwhile now c} (ground (arith, e, free, g.in_order e))
          (claimed-Answers c a true r (claim-Claims fl (at_swap c) a c.second now)
            (ground (arith, some_item, h e)) same (choice a free)
            (λ b other. absurd (ground (arith, other, g.in_order e))))
  ]
    where
      listed : (a : ℕ) → earliest s.heap s.items none ≡ some a → lists s.items a ≡ true
      listed a free = ground (arith, earliest_listed s.heap s.items none a free)

      idle : (a : ℕ) → earliest s.heap s.items none ≡ some a → (s.heap a).half_open ≡ false
      idle a free = ground (arith, earliest_listed s.heap s.items none a free)

      choice : (a : ℕ) → earliest s.heap s.items none ≡ some a → IsChoice s now true a
      choice a free = (
        listed a free,
        ground (arith, idle a free),
        (idle a free, earliest_least s.heap s.items none a free),
      )

  draws-Draws : 0 < length s.items → Draws s.heap now s.items (draws s now)
  unfolding draws
  draws-Draws h = sample-Draws s.heap now 8 s.items (no_candidates s) h (record {
    first_good = λ a e. ground (arith, e);
    second_good = λ a e. ground (arith, e);
    in_order = λ e. refl;
  })

  completed-IsFound : (c : Candidates) → IsGood s.heap now s.items c → IsFound (completed s now c)
  unfolding IsFound
  completed-IsFound c g = elim (Bool-cases (wanting c (length s.items))) [
    | inl wants ↦
        subst IsFound {x = scan s.heap now s.items c} {y = completed s now c} (ground arith) (
          scan-IsGood s.heap now s.items s.items c (λ a l. l) g,
          λ e. (scan_first_none s.heap now s.items c e).1,
        )
    | inr settled ↦
        subst IsFound {x = c} {y = completed s now c} (ground arith) (g, λ e. ground arith)
  ]

  finish-Answers :
      (c : Candidates)
      → 0 < length s.items
      → IsFound c
      → second_of s now ≡ c.second
      → Answers s (meanwhile s.heap) now (finish fl s meanwhile now c)
  finish-Answers c h found same = elim (Option-cases c.first) [
    | inl e ↦ finish_without c h found same e
    | inr (f, e) ↦ finish_with c f h found same e
  ]

  picked :
      (length s.items == 0) ≡ false
      → (drawn : Candidates) → draws s now ≡ some drawn
      → pick fl s meanwhile now ≡ some (finish fl s meanwhile now (completed s now drawn))
  unfolding pick
  picked h drawn e = simp (e, h)

  -- pick never leaves the slice and always answers, whatever other callers and reports do to the
  -- items between its choice and its swap. While some instance is eligible it chooses one of them;
  -- otherwise, of the instances without a probe in flight, one whose ejection ends first, with the
  -- sign that all are ejected, which is that of allEjected. It hands out such a choice, whose swap has
  -- succeeded: the item has one more request in flight, and its probe if its ejection is over, and no
  -- other item changes. It hands out none only if the slice is empty, if each instance has its probe
  -- in flight, or if another caller has taken the probe of its choice since then, and that of its
  -- second candidate if there is one.
  pub pick-Answers :
      (r : ServiceState × Option ℕ × Bool) × (pick fl s meanwhile now ≡ some r)
      × Answers s (meanwhile s.heap) now r
  unfolding pick all_ejected
  pick-Answers = elim (Bool-cases (length s.items == 0)) [
    | inl empty ↦ (
      (s, none, false),
      ground arith,
      (ground arith, inl (refl, no_items s.items (ground arith))),
    )
    | inr some_item ↦
        let d = draws-Draws (ground (arith, some_item)) in
        let c = completed s now d.0 in
        (
          finish fl s meanwhile now c,
          picked some_item d.0 d.1,
          finish-Answers c (ground arith) (completed-IsFound d.0 d.2) (ground (arith, d.1)),
        )
  ]
