-- ===== src/Snowflake/Generator/Guarded.antt =====
-- When the generator of pkg/idgen/snowflake/snowflake.go issues an ID.
use kc.Prelude.{
  ℕ, ◌+◌, ◌≤◌, ◌≡◌, refl, sym, ◌∙◌, some-injective, ap, false, Option, some, none, List, Result, ok,
  arith, Bool-cases, inl, inr,
}
use kc.Prelude.Int.{ℤ}
use kc.Snowflake.Node.{Node, closed, lease_lost}
use kc.Snowflake.Node as Node
use kc.Snowflake.Leases.{Worker, Workers, is_expired}
use kc.Snowflake.Leases.Survival.{Held}
use kc.Snowflake.Generator.{
  State, active, stopped, lost, Generator, generate, generate_in, heartbeat_expired, issue_from,
}

issue_from-worker :
    (g g' : Generator) (id : ℕ) (o : Option (Node × Result Node.Error ℕ))
    → issue_from g o ≡ some (g', ok id)
    → g'.worker_id ≡ g.worker_id
issue_from-worker g g' id none e = absurd (ground (arith, e))
issue_from-worker g g' id (some (n, r)) e = sym (ap (λ h. h.0.worker_id) (some-injective e))

-- An ID comes from a generator that its checks have found active, with a fresh heartbeat.
guarded_in :
    (s : State) (g g' : Generator) (now id : ℕ) (meanwhile : Generator → Generator)
    (readings : List ℤ)
    → generate_in s g now meanwhile readings ≡ some (g', ok id)
    → (s ≡ active) × (heartbeat_expired g now ≡ false) × (g'.worker_id ≡ (meanwhile g).worker_id)
guarded_in stopped g g' now id meanwhile readings h = absurd (ground (arith, h))
guarded_in lost g g' now id meanwhile readings h = absurd (ground (arith, h))
guarded_in active g g' now id meanwhile readings h = elim (Bool-cases g.context_done) [
  | inl done ↦ absurd (ground (arith, h, done))
  | inr going ↦ elim (Bool-cases (heartbeat_expired g now)) [
    | inl late ↦ absurd (ground (arith, h, going, late))
    | inr fresh ↦ (
      refl,
      fresh,
      issue_from-worker (meanwhile g) g' id (Node.generate (meanwhile g).node readings)
          (sym (asked going fresh) ∙ h),
    )
  ]
]
  where
    asked :
        g.context_done ≡ false
        → heartbeat_expired g now ≡ false
        → generate_in active g now meanwhile readings
          ≡ issue_from (meanwhile g) (Node.generate (meanwhile g).node readings)
    asked going fresh = simp (going, fresh)

-- Let a generator issue an ID, and keep its worker ID between the check of the heartbeat and the call
-- of the node, whatever else is done to it there. If its last heartbeat reached the table at the time
-- u of the database, the time that the ID carries is at most `pause` after that check, and from the
-- heartbeat to that time the clock of the database has run at most `drift` more than the local clock,
-- the two at most ten seconds together, then the check has found the generator active, and at that
-- time of the database the lease of the worker ID is not over for any process that allocates. Nothing
-- bounds the pause in the code, since no lock spans the check and the node.
pub generate_excludes_reclaim :
    (g g' : Generator) (now id : ℕ) (meanwhile : Generator → Generator) (readings : List ℤ)
    → generate g now meanwhile readings ≡ some (g', ok id)
    → (meanwhile g).worker_id ≡ g.worker_id
    → (w : Workers) (u database_now pause drift : ℕ) → Held w g.worker_id g.token u
    → g'.node.timestamp ≤ now + pause
    → database_now + g.last_heartbeat ≤ u + g'.node.timestamp + drift
    → pause + drift ≤ 10000
    → (g.state ≡ active)
      × ((worker : Worker) × (w.rows g'.worker_id ≡ some worker)
          × (is_expired database_now worker ≡ false))
unfolding generate
generate_excludes_reclaim g g' now id meanwhile readings e kept w u database_now pause drift
      (worker, at, tok, beat, in_range) paused drifted short =
    let k = guarded_in g.state g g' now id meanwhile readings e in
    (k.0, (worker, ap w.rows (k.2 ∙ kept) ∙ at, ground (arith, k.1)))
