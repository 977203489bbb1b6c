-- ===== src/Balancer/Report.antt =====
-- The result reports of pkg/registry/etcd/balancer.go: resolution, Report, complete, updateEWMA;
-- and the results of pkg/registry/registry.go.
pub mod Health
use kc.Prelude.{
  ℕ, zero, suc, ◌+◌, ◌-◌, Bool, true, false, Option, some, none, List, [], ◌∷◌, if◌then◌else◌, ltb,
  leb, ◌==◌, not, ◌&&◌, ◌||◌, Result, ok, err,
}
use kc.Prelude.Names.{String, same}
use kc.Prelude.Int.{ℤ, pos, ltb_ℤ}
use kc.Balancer.State.{Instance, InstanceState, Heap, write, ServiceState}
use kc.Balancer.Pick.{Floats}

pub data Error : Type 0 where
  invalid_result already_reported : Error

-- An outcome is a byte, of which two values have a meaning.
pub data Outcome : Type 0 where
  success failure : Outcome
  unknown_outcome : ℕ → Outcome

pub record Feedback : Type 0 where
  pub outcome : Outcome
  pub latency : ℤ

unfoldable pub validate : Feedback → Result Error (Unit {0})
validate f = elim f.outcome [
  | unknown_outcome n ↦ err invalid_result
  | _ ↦ (if ltb_ℤ (pos 0) f.latency then ok tt else err invalid_result)
]

-- A result that is given up: the probe ends and the ejection starts again.
abbrev pub abandoned : InstanceState → ℕ → InstanceState
abandoned item until =
    if item.half_open then record item { half_open = false; ejected_until = until } else item

abbrev pub succeeded : InstanceState → InstanceState
succeeded item = record item { failures = 0; ejected_until = 0; half_open = false }

abbrev pub failed : InstanceState → ℕ → ℕ → InstanceState
failed item threshold until =
    if item.half_open || leb threshold (suc item.failures)
    then record item { failures = 0; half_open = false; ejected_until = until }
    else record item { failures = suc item.failures }

-- One request less in flight; the count never goes below zero.
abbrev pub released : InstanceState → InstanceState
released item = record item { inflight = item.inflight - 1 }

module _ (fl : Floats) where
  pub record Resolution : Type 0 where
    pub selected : ℕ
    pub instance : Instance
    pub ejection_duration : ℕ
    pub failure_threshold : ℕ
    pub alpha : fl.F
    pub reported : Bool

  abbrev pub new_resolution : ServiceState → ℕ → ℕ → ℕ → fl.F → Resolution
  new_resolution s selected ejection_duration failure_threshold alpha = record {
    selected = selected;
    instance = (s.heap selected).instance;
    ejection_duration = ejection_duration;
    failure_threshold = failure_threshold;
    alpha = alpha;
    reported = false;
  }

  abbrev pub update_ewma : InstanceState → ℤ → fl.F → InstanceState
  update_ewma item latency alpha = record item {
    ewma = fl.int64 (
        fl.add (fl.mul (fl.sub (fl.float64 (pos 1)) alpha) (fl.float64 item.ewma))
          (fl.mul alpha (fl.float64 latency)));
  }

  -- The selected item is still the one that the name stands for, at the same endpoint.
  abbrev pub still_valid : ServiceState → Resolution → Bool
  still_valid s r = elim (s.instances r.instance.id) [
    | none ↦ false
    | some current ↦
        (current == r.selected) && same (s.heap current).instance.endpoint r.instance.endpoint
  ]

  abbrev pub judged : InstanceState → Resolution → Option Feedback → ℕ → InstanceState
  judged item r none now = abandoned item (now + r.ejection_duration)
  judged item r (some f) now = elim f.outcome [
    | success ↦ succeeded (update_ewma item f.latency r.alpha)
    | _ ↦
        failed (update_ewma item f.latency r.alpha) r.failure_threshold (now + r.ejection_duration)
  ]

  unfoldable pub complete : ServiceState → Resolution → Option Feedback → ℕ → ServiceState
  complete s r feedback now =
      let item = released (s.heap r.selected) in
      record s {
        heap =
            write s.heap r.selected (if still_valid s r then judged item r feedback now else item);
      }

  unfoldable pub report :
      ServiceState → Resolution → Feedback → ℕ → ServiceState × Resolution × Result Error (Unit {0})
  report s r feedback now = elim (validate feedback) [
    | err e ↦ (s, r, err e)
    | ok done ↦
        (if r.reported
          then (s, r, err already_reported)
          else (complete s r (some feedback) now, record r { reported = true }, ok tt))
  ]
