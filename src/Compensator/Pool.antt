-- ===== src/Compensator/Pool.antt =====
-- The workers of a node in pkg/compensator/worker.go: the scan loop reserves capacity in `slots`,
-- claims so many tasks, and hands them over in the channel `jobs`, which holds as many as there are
-- workers. The goroutines interleave in any order.
pub mod Capacity
use kc.Prelude.{ℕ, suc, ◌+◌, ◌-◌, ◌≤◌, ◌<◌, ◌≡◌, Bool, true, false, if◌then◌else◌, ltb, ◌||◌}

-- Where the scan loop stands: it waits; it has found no free worker; it has reserved capacity and
-- claims; it has tasks left to hand over, and has found less than it asked for or not.
pub data Phase : Type 0 where
  idle busy : Phase
  reserved : (free : ℕ) → Phase
  sending : (left : ℕ) → (short : Bool) → Phase

-- The channels by the number of what they hold; `executing` are the workers that run a task.
pub record Pool : Type 0 where
  pub slots : ℕ
  pub queued : ℕ
  pub executing : ℕ
  pub wake : Bool
  pub backlog : Bool
  pub phase : Phase

abbrev pub start : Pool
start = record { slots = 0; queued = 0; executing = 0; wake = true; backlog = false; phase = idle }

-- `reserve`: as much as is free, up to the size of a batch.
abbrev pub reserve_slots : ℕ → ℕ → ℕ → ℕ
reserve_slots workers batch slots = if ltb batch (workers - slots) then batch else workers - slots

abbrev pub after_reserve : ℕ → Phase
after_reserve free = if ltb 0 free then reserved free else busy

abbrev pub reserving : ℕ → ℕ → Pool → Pool
reserving workers batch p = record p {
  slots = p.slots + reserve_slots workers batch p.slots;
  phase = after_reserve (reserve_slots workers batch p.slots);
}

-- The steps of the loop and of the workers. A wake-up may also be a tick of the clock or a call of
-- Register, Retry or Transaction.
pub data Step (workers batch : ℕ) : Pool → Pool → Type 0 where
  notifies : (p : Pool) → Step workers batch p (record p { wake = true })
  scans :
      (p : Pool)
      → p.phase ≡ idle
      → p.wake ≡ true
      → Step workers batch p (reserving workers batch (record p { wake = false }))
  gives_up :
      (p : Pool) → p.phase ≡ busy → Step workers batch p (record p { backlog = true; phase = idle })
  claim_fails :
      (p : Pool) (free : ℕ)
      → p.phase ≡ reserved free
      → Step workers batch p (record p { slots = p.slots - free; phase = idle })
  claims :
      (p : Pool) (free rows runnable : ℕ)
      → p.phase ≡ reserved free
      → rows ≤ free
      → runnable ≤ rows
      → Step workers batch p (record p {
        slots = p.slots - (free - runnable);
        phase = sending runnable (ltb rows free);
      })
  sends :
      (p : Pool) (left : ℕ) (short : Bool)
      → p.phase ≡ sending (suc left) short
      → p.queued < workers
      → Step workers batch p (record p { queued = p.queued + 1; phase = sending left short })
  ends_short :
      (p : Pool)
      → p.phase ≡ sending 0 true
      → Step workers batch p (record p { backlog = false; phase = idle })
  goes_on :
      (p : Pool)
      → p.phase ≡ sending 0 false
      → Step workers batch p (reserving workers batch (record p { backlog = true }))
  takes :
      (p : Pool)
      → 0 < p.queued
      → p.executing < workers
      → Step workers batch p (record p { queued = p.queued - 1; executing = p.executing + 1 })
  finishes :
      (p : Pool)
      → 0 < p.executing
      → Step workers batch p (record p {
        slots = p.slots - 1;
        executing = p.executing - 1;
        wake = p.backlog || p.wake;
      })

pub data Reach (workers batch : ℕ) : Pool → Type 0 where
  here : Reach workers batch start
  next : {p q : Pool} → Reach workers batch p → Step workers batch p q → Reach workers batch q
