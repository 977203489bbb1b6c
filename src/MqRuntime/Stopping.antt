-- ===== src/MqRuntime/Stopping.antt =====
-- Stop of internal/mqruntime/mqruntime.go keeps the invariant.
use kc.Prelude.{ℕ, refl, some, none, if_elim}
use kc.MqRuntime.{
  Error, err_closed, StopPhase, idle, expecting, expired, forcing, forced, finished, World, update,
  stop_poll, cancel_work,
}
use kc.MqRuntime.Steps.{stop_from, start_stop, lapse_from}
use kc.MqRuntime.Invariant.{Inv}
use kc.MqRuntime.Keeping.{updated-Inv, stop_to-Inv}

pub stop_from-Inv : (w : World) (i : ℕ) (phase : StopPhase) → Inv w → Inv (stop_from w i phase)
stop_from-Inv w i idle inv = inv
stop_from-Inv w i (expecting a) inv =
    if_elim Inv (w.heap a).done (λ e. stop_to-Inv w i (finished a none) inv) (λ e. inv)
stop_from-Inv w i (expired a e) inv =
    if_elim Inv (w.heap a).done (λ d. stop_to-Inv w i (finished a none) inv)
      (λ d. stop_to-Inv w i (forcing a e) inv)
stop_from-Inv w i (forcing a e) inv =
    stop_to-Inv (record w { heap = update (cancel_work err_closed) a w.heap }) i (forced a e)
      (updated-Inv w (cancel_work err_closed) a (λ s. refl) (λ s. refl) inv)
stop_from-Inv w i (forced a e) inv =
    if_elim Inv (w.heap a).done (λ d. stop_to-Inv w i (finished a (some e)) inv) (λ d. inv)
stop_from-Inv w i (finished a r) inv = inv

pub start_stop-Inv :
    (w : World) (i a : ℕ) (phase : StopPhase) → Inv w → Inv (start_stop w i a phase)
start_stop-Inv w i a idle inv =
    stop_to-Inv (record w { heap = update stop_poll a w.heap }) i (expecting a)
      (updated-Inv w stop_poll a (λ s. refl) (λ s. refl) inv)
start_stop-Inv w i a (expecting b) inv = inv
start_stop-Inv w i a (expired b e) inv = inv
start_stop-Inv w i a (forcing b e) inv = inv
start_stop-Inv w i a (forced b e) inv = inv
start_stop-Inv w i a (finished b r) inv = inv

pub lapse_from-Inv :
    (w : World) (i : ℕ) (phase : StopPhase) (e : Error) → Inv w → Inv (lapse_from w i phase e)
lapse_from-Inv w i (expecting a) e inv = stop_to-Inv w i (expired a e) inv
lapse_from-Inv w i idle e inv = inv
lapse_from-Inv w i (expired b r) e inv = inv
lapse_from-Inv w i (forcing b r) e inv = inv
lapse_from-Inv w i (forced b r) e inv = inv
lapse_from-Inv w i (finished b r) e inv = inv
