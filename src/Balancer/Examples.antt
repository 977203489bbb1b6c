-- ===== src/Balancer/Examples.antt =====
-- Runs of the balancer of pkg/registry/etcd/balancer.go on a small service.
use kc.Prelude.{
  ℕ, ◌+◌, ◌-◌, ◌*◌, ◌≡◌, ◌≢◌, refl, Bool, false, Option, some, none, List, [], ◌∷◌, if◌then◌else◌,
  ltb, ok, err, arith, All,
}
use kc.Prelude.Names.{String, same, empty}
use kc.Prelude.Int.{ℤ, pos, pos_part}
use kc.Balancer.State.{Instance, Heap, write, new_instance_state, ServiceState}
use kc.Balancer.Topology.{replace_locked}
use kc.Balancer.Topology.Dense.{IsDense, view}
use kc.Balancer.Topology.Snapshot.{described, IsDistinct, replace_locked-refines}
use kc.Balancer.Topology.Events.{
  Event, put_event, delete_event, apply_all, advanced_all, Represents, apply_all-refines,
}
use kc.Balancer.Pick.{Floats, admitted, pick, claim, draws, random_n}
use kc.Balancer.Pick.Chosen.{Answers, pick-Answers}
use kc.Balancer.Pick.Probing.{claim_all, probe_exclusive}
use kc.Balancer.Report.{
  Feedback, failure, validate, Resolution, new_resolution, complete, report, already_reported,
}
use kc.Balancer.Report.Health.{
  report_once, pick_then_complete, failures_eject, failures_of, IsCurrent,
}

-- Floats that count in whole numbers, as the smallest model of the interface.
abbrev whole_floats : Floats
whole_floats = record {
  F = ℕ;
  float64 = pos_part;
  mul = λ a b. a * b;
  add = λ a b. a + b;
  sub = λ a b. a - b;
  lt = ltb;
  int64 = pos;
}

abbrev instance_at : String → String → Instance
instance_at id endpoint = record { service = "orders"; id = id; endpoint = endpoint; metadata = [] }

abbrev first_instance : Instance
first_instance = instance_at "a" "http://10.0.0.1:80"

abbrev second_instance : Instance
second_instance = instance_at "b" "http://10.0.0.2:80"

abbrev empty_state : ServiceState
empty_state = record {
  heap = λ a. new_instance_state first_instance (pos 0);
  fresh = 0;
  instances = empty;
  items = [];
  revision = pos 0;
  last_used = 0;
  active = 0;
  rng = 1;
}

empty_state-IsDense : IsDense empty_state
empty_state-IsDense = record {
  slot = λ k a e. ground (arith, e);
  named = λ id a e. ground (arith, e);
}

-- The service with its two instances.
abbrev two_instances : ServiceState
two_instances = replace_locked empty_state (first_instance ∷ second_instance ∷ []) (pos 10)

both : List Instance
both = first_instance ∷ second_instance ∷ []

both-IsDistinct : IsDistinct both
unfolding described same both
both-IsDistinct = (refl, (refl, tt))

two_instances-IsDense : IsDense two_instances
unfolding both
two_instances-IsDense =
    (replace_locked-refines empty_state both (pos 10) empty_state-IsDense both-IsDistinct).0

abbrev watch : List (Event × ℤ)
watch =
    (put_event first_instance, pos 7)
    ∷ (put_event second_instance, pos 9)
    ∷ (delete_event "b", pos 8)
    ∷ []

apply_all-refines_example :
    (s' : ServiceState) × (apply_all empty_state (pos 10) watch ≡ some s')
    × Represents s' (advanced_all (view empty_state, pos 0) watch)
apply_all-refines_example =
    apply_all-refines empty_state (pos 10) watch (view empty_state, pos 0)
      (empty_state-IsDense, (λ id. refl), refl) (tt, (tt, (tt, tt)))

-- The first instance, ejected until the time 3.
abbrev ejected : ServiceState
ejected = record empty_state {
  heap = λ a. record (new_instance_state first_instance (pos 0)) { ejected_until = 3 };
  fresh = 1;
  instances = λ id. if same id "a" then some 0 else none;
  items = 0 ∷ [];
}

-- Another caller takes the probe of the first instance.
abbrev taken : Heap → Heap
taken heap = write heap 0 (admitted (heap 0) 4)

pick_loses :
    pick whole_floats ejected taken 4
    ≡ some (record ejected { heap = taken ejected.heap; rng = 11400714819323198486 }, none, false)
unfolding pick draws random_n claim
pick_loses = refl

pick-Answers_example :
    (r : ServiceState × Option ℕ × Bool) × (pick whole_floats ejected taken 4 ≡ some r)
    × Answers ejected (taken ejected.heap) 4 r
pick-Answers_example = pick-Answers whole_floats ejected taken 4

-- Other callers claim the instance, and one that is not there.
abbrev claims : List (ℕ × Option ℕ × ℕ)
claims = (0, none, 4) ∷ (7, some 0, 3) ∷ (0, some 7, 9) ∷ []

probe_exclusive_example :
    ((claim whole_floats ejected 0 none 4).1 ≡ some 0)
    × All (λ o. o ≢ some 0) (claim_all whole_floats (claim whole_floats ejected 0 none 4).0 claims)
probe_exclusive_example =
    probe_exclusive whole_floats ejected 0 none 4 claims (λ e. ground (arith, e)) (omega arith) refl
      (omega arith, (omega arith, (omega arith, tt)))

abbrev resolved : Resolution whole_floats
resolved = new_resolution whole_floats ejected 0 30 2 0

abbrev slow : Feedback
slow = record { outcome = failure; latency = pos 8 }

report_once_example :
    (s' : ServiceState) × (r' : Resolution whole_floats) × (report whole_floats ejected resolved
        slow 4
      ≡ (s', r', ok tt))
    × ((s'.heap 0).inflight ≡ (ejected.heap 0).inflight - 1)
    × ((b : ℕ) → b ≢ 0 → s'.heap b ≡ ejected.heap b)
    × ((later_state : ServiceState) (g : Feedback) (later : ℕ)
        → validate g ≡ ok tt
        → report whole_floats later_state r' g later ≡ (later_state, r', err already_reported))
unfolding validate
report_once_example = report_once whole_floats ejected resolved slow 4 refl refl

abbrev after_pick : ServiceState
after_pick = (claim whole_floats (record ejected { rng = 11400714819323198486 }) 0 none 4).0

picked : pick whole_floats ejected (λ heap. heap) 4 ≡ some (after_pick, some 0, false)
unfolding pick draws random_n claim
picked = refl

pick_then_complete_example :
    ((complete whole_floats after_pick resolved (some slow) 6).heap 0).inflight ≡ 0
pick_then_complete_example =
    pick_then_complete whole_floats ejected (λ heap. heap) 4 after_pick 0 false picked resolved refl
      (some slow) 6 0

resolved-IsCurrent : IsCurrent whole_floats ejected resolved
unfolding same
resolved-IsCurrent = refl

failures_eject_example :
    (((failures_of whole_floats ejected resolved ((pos 8, 4) ∷ [])).heap 0).failures ≡ 1)
    × (((failures_of whole_floats ejected resolved ((pos 8, 4) ∷ [])).heap 0).ejected_until ≡ 3)
    × ((latency : ℤ) (now : ℕ)
        → resolved.failure_threshold ≡ 2
        → let s' =
            complete whole_floats
              (failures_of whole_floats ejected resolved ((pos 8, 4) ∷ []))
              resolved
              (some (record { outcome = failure; latency = latency }))
              now in
          ((s'.heap 0).failures ≡ 0)
          × ((s'.heap 0).ejected_until ≡ now + 30)
          × ((s'.heap 0).half_open ≡ false))
failures_eject_example =
    failures_eject whole_floats ejected resolved ((pos 8, 4) ∷ []) resolved-IsCurrent refl
      (omega arith)
