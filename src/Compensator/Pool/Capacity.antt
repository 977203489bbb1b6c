-- ===== src/Compensator/Pool/Capacity.antt =====
-- What is claimed in pkg/compensator/worker.go has a worker, and a scan that finds none is repeated.
use kc.Prelude.{
  ℕ, ◌+◌, ◌-◌, ◌≤◌, ◌<◌, ◌≡◌, refl, subst, true, false, ltb, ◌||◌, arith, Bool-cases, inl, inr, ◌⊎◌,
  if_elim,
}
use kc.Compensator.Pool.{
  Phase, idle, busy, reserved, sending, Pool, reserve_slots, after_reserve, reserving, Step,
  notifies, scans, gives_up, claim_fails, claims, sends, ends_short, goes_on, takes, finishes,
  Reach, here, next,
}

-- The capacity that the loop itself holds.
abbrev pub held : Phase → ℕ
held idle = 0
held busy = 0
held (reserved free) = free
held (sending left short) = left

-- A worker is at work, or the loop is woken already.
abbrev pub IsWoken : Pool → Type 0
IsWoken p = (p.backlog ≡ true) × ((p.wake ≡ true) ⊎ (0 < p.queued + p.executing))

-- What the loop can count on where it stands.
abbrev pub Expects : ℕ → Phase → Pool → Type 0
Expects workers idle p = (p.backlog ≡ true) ⊎ (p.slots < workers)
Expects workers busy p = IsWoken p
Expects workers (reserved free) p = 0 < free
Expects workers (sending left short) p = (short ≡ false) ⊎ (p.slots < workers)

pub record IsBalanced (workers : ℕ) (p : Pool) : Type 0 where
  pub accounted : p.slots ≡ held p.phase + p.queued + p.executing
  pub bounded : p.slots ≤ workers
  pub expected : Expects workers p.phase p

held-after_reserve : (free : ℕ) → held (after_reserve free) ≡ free
held-after_reserve free = ground arith

-- After a look for free workers the loop has some, or all are at work.
reserving-IsBalanced :
    {workers : ℕ} (batch : ℕ) (p : Pool)
    → 0 < workers
    → 0 < batch
    → p.slots ≡ p.queued + p.executing
    → p.slots ≤ workers
    → (p.backlog ≡ true) ⊎ (p.slots < workers)
    → IsBalanced workers (reserving workers batch p)
reserving-IsBalanced {workers} batch p some_workers some_batch accounted bounded free = record {
  accounted = ground (arith, accounted, held-after_reserve (reserve_slots workers batch p.slots));
  bounded = ground (arith, bounded);
  expected =
      if_elim (λ f. Expects workers f (reserving workers batch p))
        (ltb 0 (reserve_slots workers batch p.slots)) (λ e. ground (arith, e)) (λ e. full e free);
}
  where
    full :
        ltb 0 (reserve_slots workers batch p.slots) ≡ false
        → (p.backlog ≡ true) ⊎ (p.slots < workers)
        → IsWoken (reserving workers batch p)
    full e (inl late) = (late, inr (ground (arith, e, accounted)))
    full e (inr below) = absurd (ground (arith, e))

notifies-Expects :
    (workers : ℕ) (f : Phase) (p : Pool)
    → Expects workers f p
    → Expects workers f (record p { wake = true })
notifies-Expects workers idle p h = h
notifies-Expects workers busy p (late, h) = (late, inl refl)
notifies-Expects workers (reserved free) p h = h
notifies-Expects workers (sending left short) p h = h

takes-Expects :
    (workers : ℕ) (f : Phase) (p : Pool)
    → 0 < p.queued
    → Expects workers f p
    → Expects workers f (record p { queued = p.queued - 1; executing = p.executing + 1 })
takes-Expects workers idle p some_queued h = h
takes-Expects workers busy p some_queued (late, h) = (late, inr (omega arith))
takes-Expects workers (reserved free) p some_queued h = h
takes-Expects workers (sending left short) p some_queued h = h

fewer : {A : Type 0} (slots workers : ℕ) → A ⊎ (slots < workers) → A ⊎ (slots - 1 < workers)
fewer slots workers (inl a) = inl a
fewer slots workers (inr h) = inr (omega arith)

finished : Pool → Pool
finished p = record p {
  slots = p.slots - 1;
  executing = p.executing - 1;
  wake = p.backlog || p.wake;
}

finishes-Expects :
    (workers : ℕ) (f : Phase) (p : Pool) → Expects workers f p → Expects workers f (finished p)
unfolding finished
finishes-Expects workers idle p h = fewer p.slots workers h
finishes-Expects workers busy p (late, h) = (late, inl (ground (arith, late)))
finishes-Expects workers (reserved free) p h = h
finishes-Expects workers (sending left short) p h = fewer p.slots workers h

module _ (workers batch : ℕ) (some_workers : 0 < workers) (some_batch : 0 < batch) where
  Step-IsBalanced :
      {p q : Pool} → Step workers batch p q → IsBalanced workers p → IsBalanced workers q
  unfolding finished
  Step-IsBalanced (notifies p) b = record {
    accounted = b.accounted;
    bounded = b.bounded;
    expected = notifies-Expects workers p.phase p b.expected;
  }
  Step-IsBalanced (scans p at woken) b =
      reserving-IsBalanced batch (record p { wake = false }) some_workers some_batch
        (ground (arith, at, b.accounted)) b.bounded (subst (λ f. Expects workers f p) at b.expected)
  Step-IsBalanced (gives_up p at) b = record {
    accounted = ground (arith, at, b.accounted);
    bounded = b.bounded;
    expected = inl refl;
  }
  Step-IsBalanced (claim_fails p free at) b = record {
    accounted = ground (arith, at, b.accounted);
    bounded = ground (arith, b.bounded);
    expected = inr (
        let some_free = subst (λ f. Expects workers f p) at b.expected in
        ground (arith, at, b.accounted, b.bounded, some_free));
  }
  Step-IsBalanced (claims p free rows runnable at some_rows some_run) b = record {
    accounted = ground (arith, at, b.accounted);
    bounded = ground (arith, b.bounded);
    expected = by_test (Bool-cases (ltb rows free));
  }
    where
      by_test :
          (ltb rows free ≡ true) ⊎ (ltb rows free ≡ false)
          → (ltb rows free ≡ false) ⊎ (p.slots - (free - runnable) < workers)
      by_test (inl e) = inr (ground (arith, e, at, b.accounted, b.bounded))
      by_test (inr e) = inl e
  Step-IsBalanced (sends p left short at room) b = record {
    accounted = ground (arith, at, b.accounted);
    bounded = b.bounded;
    expected = subst (λ f. Expects workers f p) at b.expected;
  }
  Step-IsBalanced (ends_short p at) b = record {
    accounted = ground (arith, at, b.accounted);
    bounded = b.bounded;
    expected = below (subst (λ f. Expects workers f p) at b.expected);
  }
    where
      below : (true ≡ false) ⊎ (p.slots < workers) → (false ≡ true) ⊎ (p.slots < workers)
      below (inl e) = absurd (ground (arith, e))
      below (inr h) = inr h
  Step-IsBalanced (goes_on p at) b =
      reserving-IsBalanced batch (record p { backlog = true }) some_workers some_batch
        (ground (arith, at, b.accounted)) b.bounded (inl refl)
  Step-IsBalanced (takes p some_queued free_worker) b = record {
    accounted = ground (arith, b.accounted);
    bounded = b.bounded;
    expected = takes-Expects workers p.phase p some_queued b.expected;
  }
  Step-IsBalanced (finishes p some_run) b = record {
    accounted = ground (arith, b.accounted);
    bounded = ground (arith, b.bounded);
    expected = finishes-Expects workers p.phase p b.expected;
  }

  Reach-IsBalanced : {p : Pool} → Reach workers batch p → IsBalanced workers p
  Reach-IsBalanced here = record {
    accounted = refl;
    bounded = omega arith;
    expected = inr some_workers;
  }
  Reach-IsBalanced (next r s) = Step-IsBalanced s (Reach-IsBalanced r)

  -- Each task that a node has claimed is with a worker or on its way to one that is free: the slots
  -- count the capacity that the loop holds, what is queued and what is executed, and are never more
  -- than the workers, so that the loop never blocks when it hands a task over. And where the loop
  -- stops for lack of workers, a worker is at work whose end wakes it, or it is woken already. There
  -- is a worker, and a batch has a task at least.
  pub scan_keeps_pace :
      {p : Pool}
      → Reach workers batch p
      → (p.slots ≡ held p.phase + p.queued + p.executing)
        × (held p.phase + p.queued + p.executing ≤ workers)
        × Expects workers p.phase p
  scan_keeps_pace r =
      let b = Reach-IsBalanced r in (b.accounted, omega (arith, b.accounted, b.bounded), b.expected)
