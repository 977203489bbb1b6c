-- ===== src/Balancer/Report/Health.antt =====
-- What the reports of pkg/registry/etcd/balancer.go do to the health of an instance.
use kc.Prelude.{
  some-injective, ℕ, suc, ◌+◌, ◌-◌, ◌≤◌, ◌<◌, ◌≡◌, ◌≢◌, refl, sym, ◌∙◌, subst, Bool, true, false,
  Option, some, none, List, [], ◌∷◌, leb, ◌||◌, ok, err, length, arith, Bool-cases, Option-cases,
  inl, inr,
}
use kc.Prelude.Int.{ℤ}
use kc.Balancer.State.{InstanceState, Heap, ServiceState}
use kc.Balancer.Pick.{Floats, pick}
use kc.Balancer.Pick.Chosen.{Answers, pick-Answers}
use kc.Balancer.Report.{
  already_reported, Outcome, success, failure, unknown_outcome, Feedback, validate, Resolution,
  still_valid, complete, report, judged, released,
}

module _ (fl : Floats) where
  judged_keeps :
      (item : InstanceState) (r : Resolution fl) (f : Option Feedback) (now : ℕ)
      → ((judged fl item r f now).inflight ≡ item.inflight)
        × ((judged fl item r f now).instance ≡ item.instance)
  judged_keeps item r none now = elim (Bool-cases item.half_open) [
    | inl probed ↦ (ground arith, simp probed)
    | inr idle ↦ (ground arith, simp idle)
  ]
  judged_keeps item r (some f) now = by_outcome f.outcome
    where
      by_outcome :
          (o : Outcome)
          → let next = judged fl item r (some (record { outcome = o; latency = f.latency })) now in
            (next.inflight ≡ item.inflight) × (next.instance ≡ item.instance)
      by_outcome success = (refl, refl)
      by_outcome failure =
          elim (Bool-cases (item.half_open || leb r.failure_threshold (suc item.failures))) [
            | inl out ↦ (ground arith, simp out)
            | inr stays ↦ (ground arith, simp stays)
          ]
      by_outcome (unknown_outcome n) =
          elim (Bool-cases (item.half_open || leb r.failure_threshold (suc item.failures))) [
            | inl out ↦ (ground arith, simp out)
            | inr stays ↦ (ground arith, simp stays)
          ]

  complete_inflight :
      (s : ServiceState) (r : Resolution fl) (f : Option Feedback) (now : ℕ)
      → ((complete fl s r f now).heap r.selected).inflight ≡ (s.heap r.selected).inflight - 1
  unfolding complete
  complete_inflight s r f now = ground (arith, judged_keeps (released (s.heap r.selected)) r f now)

  complete_others :
      (s : ServiceState) (r : Resolution fl) (f : Option Feedback) (now : ℕ) (b : ℕ)
      → b ≢ r.selected
      → (complete fl s r f now).heap b ≡ s.heap b
  unfolding complete
  complete_others s r f now b other = ground arith

  accepted :
      (s : ServiceState) (r : Resolution fl) (f : Feedback) (now : ℕ)
      → validate f ≡ ok tt
      → r.reported ≡ false
      → report fl s r f now ≡ (complete fl s r (some f) now, record r { reported = true }, ok tt)
  unfolding report
  accepted s r f now sound unreported = ground arith

  refused :
      (s : ServiceState) (r : Resolution fl) (f : Feedback) (now : ℕ)
      → validate f ≡ ok tt
      → r.reported ≡ true
      → report fl s r f now ≡ (s, r, err already_reported)
  unfolding report
  refused s r f now sound reported = ground arith

  -- Of the sound reports of a resolution exactly the first is accepted. It takes the request out of
  -- flight and changes the health of the selected instance only; each later one is refused without
  -- effect, whatever it says and whatever the state is by then.
  pub report_once :
      (s : ServiceState) (r : Resolution fl) (f : Feedback) (now : ℕ)
      → validate f ≡ ok tt
      → r.reported ≡ false
      → (s' : ServiceState) × (r' : Resolution fl) × (report fl s r f now ≡ (s', r', ok tt))
        × ((s'.heap r.selected).inflight ≡ (s.heap r.selected).inflight - 1)
        × ((b : ℕ) → b ≢ r.selected → s'.heap b ≡ s.heap b)
        × ((later_state : ServiceState) (g : Feedback) (later : ℕ)
            → validate g ≡ ok tt
            → report fl later_state r' g later ≡ (later_state, r', err already_reported))
  report_once s r f now sound unreported = (
    complete fl s r (some f) now,
    record r { reported = true },
    accepted s r f now sound unreported,
    complete_inflight s r (some f) now,
    complete_others s r (some f) now,
    λ later_state g later k. refused later_state (record r { reported = true }) g later k refl,
  )

  -- A request that pick hands out and that is reported, or given up, leaves the counters of all
  -- instances as they were, which is as the others have left them at the swap of pick.
  pub pick_then_complete :
      (s : ServiceState) (meanwhile : Heap → Heap) (now : ℕ) (s' : ServiceState) (a : ℕ)
      (ejected : Bool)
      → pick fl s meanwhile now ≡ some (s', some a, ejected)
      → (r : Resolution fl) → r.selected ≡ a
      → (f : Option Feedback) (later b : ℕ)
      → ((complete fl s' r f later).heap b).inflight ≡ (meanwhile s.heap b).inflight
  unfolding complete
  pick_then_complete s meanwhile now s' a ejected e r chosen f later b =
      ground (arith, answer.1.0, judged_keeps (released (s'.heap r.selected)) r f later)
    where
      answer : Answers s (meanwhile s.heap) now (s', some a, ejected)
      answer =
          let p = pick-Answers fl s meanwhile now in
          subst (Answers s (meanwhile s.heap) now) (some-injective (sym p.1 ∙ e)) p.2

  -- A failed request of a healthy instance.
  abbrev pub failures_of : ServiceState → Resolution fl → List (ℤ × ℕ) → ServiceState
  failures_of s r [] = s
  failures_of s r ((latency, now) ∷ rest) =
      failures_of (complete fl s r (some (record { outcome = failure; latency = latency })) now) r
        rest

  -- The resolution stands for the instance that its name has now.
  abbrev pub IsCurrent : ServiceState → Resolution fl → Type 0
  IsCurrent s r = still_valid fl s r ≡ true

  complete-IsCurrent :
      (s : ServiceState) (r : Resolution fl) (f : Option Feedback) (now : ℕ)
      → IsCurrent s r
      → IsCurrent (complete fl s r f now) r
  unfolding complete
  complete-IsCurrent s r f now h = elim (Option-cases (s.instances r.instance.id)) [
    | inl e ↦ ground arith
    | inr (c, e) ↦ ground (arith, (judged_keeps (released (s.heap r.selected)) r f now).1)
  ]

  fails_once :
      (s : ServiceState) (r : Resolution fl) (latency : ℤ) (now : ℕ)
      → IsCurrent s r
      → (s.heap r.selected).half_open ≡ false
      → suc (s.heap r.selected).failures < r.failure_threshold
      → let s' = complete fl s r (some (record { outcome = failure; latency = latency })) now in
        ((s'.heap r.selected).failures ≡ suc (s.heap r.selected).failures)
        × ((s'.heap r.selected).ejected_until ≡ (s.heap r.selected).ejected_until)
        × ((s'.heap r.selected).half_open ≡ false)
  unfolding complete
  fails_once s r latency now current closed below = ground arith

  ejects :
      (s : ServiceState) (r : Resolution fl) (latency : ℤ) (now : ℕ)
      → IsCurrent s r
      → r.failure_threshold ≤ suc (s.heap r.selected).failures
      → let s' = complete fl s r (some (record { outcome = failure; latency = latency })) now in
        ((s'.heap r.selected).failures ≡ 0)
        × ((s'.heap r.selected).ejected_until ≡ now + r.ejection_duration)
        × ((s'.heap r.selected).half_open ≡ false)
  unfolding complete
  ejects s r latency now current reached = ground arith

  -- Failures of a current instance in a row, with no probe in flight: below the threshold they are
  -- counted and the ejection time stays as it was; the one that reaches the threshold ejects the
  -- instance until the ejection duration after it, and the count starts again.
  pub failures_eject :
      (s : ServiceState) (r : Resolution fl) (fs : List (ℤ × ℕ))
      → IsCurrent s r
      → (s.heap r.selected).half_open ≡ false
      → (s.heap r.selected).failures + length fs < r.failure_threshold
      → (((failures_of s r fs).heap r.selected).failures ≡ (s.heap r.selected).failures + length fs)
        × (((failures_of s r fs).heap r.selected).ejected_until ≡ (s.heap r.selected).ejected_until)
        × ((latency : ℤ) (now : ℕ)
            → suc ((s.heap r.selected).failures + length fs) ≡ r.failure_threshold
            → let s' =
                complete fl
                  (failures_of s r fs)
                  r
                  (some (record { outcome = failure; latency = latency }))
                  now in
              ((s'.heap r.selected).failures ≡ 0)
              × ((s'.heap r.selected).ejected_until ≡ now + r.ejection_duration)
              × ((s'.heap r.selected).half_open ≡ false))
  failures_eject s r [] current closed below =
      (omega arith, refl, λ latency now reached. ejects s r latency now current (omega arith))
  failures_eject s r ((latency, now) ∷ rest) current closed below =
      let s' = complete fl s r (some (record { outcome = failure; latency = latency })) now in
      let once = fails_once s r latency now current closed (omega arith) in
      let more =
        failures_eject s' r rest
          (complete-IsCurrent s r (some (record { outcome = failure; latency = latency })) now
            current)
          once.2 (omega (arith, once.0)) in
      (
        omega (arith, once.0, more.0),
        more.1 ∙ once.1,
        λ l t reached. more.2 l t (omega (arith, once.0)),
      )
