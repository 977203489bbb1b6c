-- ===== src/MqRuntime/Steps.antt =====
-- The steps of a message queue client, internal/mqruntime/mqruntime.go.
use kc.Prelude.{ℕ, ◌+◌, true, false, Option, some, none, List, [], ◌∷◌, if◌then◌else◌, ◌==◌}
use kc.MqRuntime.{
  Error, err_closed, canceled, state_closing, state_closed, Subscription, stop_poll, cancel_work,
  abort, Lifecycle, is_open, begin, end_operation, track, untrack, Drain, counting, awaiting,
  stopped, ClosePhase, outside, blocked, draining, releasing, recording, returned, given_up,
  StopPhase, idle, expecting, expired, forcing, forced, finished, World, update, update_all,
  close_to, stop_to,
}

abbrev pub drained : Lifecycle → (ℕ → Subscription) → List ℕ → Drain → Drain
drained l heap subscriptions counting =
    if l.operations == 0 then awaiting subscriptions else counting
drained l heap subscriptions (awaiting []) = stopped
drained l heap subscriptions (awaiting (a ∷ rest)) =
    if (heap a).done then awaiting rest else awaiting (a ∷ rest)
drained l heap subscriptions stopped = stopped

-- The first call stops all polling.
abbrev pub enter_close : World → ℕ → World
enter_close w i =
    if is_open w.lifecycle.state
    then close_to
        (record w {
          lifecycle = record w.lifecycle { state = state_closing };
          heap = update_all stop_poll w.lifecycle.subscriptions w.heap;
        })
        i (draining w.lifecycle.subscriptions counting false)
    else close_to w i blocked

-- A channel that is closed twice panics.
abbrev pub record_close : World → ℕ → Option Error → Option World
record_close w i e =
    if w.lifecycle.close_done
    then none
    else some (
        close_to
          (record w {
            lifecycle = record w.lifecycle {
              state = state_closed;
              close_done = true;
              close_err = e;
            };
          })
          i (returned e))

-- The next step of a call of Close; `r` is what the release of the client returns if this step runs
-- it, and no error if there is none to run.
abbrev pub close_from : World → ℕ → ClosePhase → Option Error → Option World
close_from w i outside r = some (enter_close w i)
close_from w i blocked r =
    some (if w.lifecycle.close_done then close_to w i (returned w.lifecycle.close_err) else w)
close_from w i (draining subscriptions stopped is_forced) r = some (close_to w i releasing)
close_from w i (draining subscriptions counting is_forced) r = some (
    close_to w i
      (draining subscriptions (drained w.lifecycle w.heap subscriptions counting) is_forced))
close_from w i (draining subscriptions (awaiting rest) is_forced) r = some (
    close_to w i
      (draining subscriptions (drained w.lifecycle w.heap subscriptions (awaiting rest)) is_forced))
close_from w i releasing r =
    some (close_to (record w { releases = w.releases + 1 }) i (recording r))
close_from w i (recording e) r = record_close w i e
close_from w i (returned e) r = some w
close_from w i (given_up e) r = some w

-- The context of a call of Close ends, and its select takes that branch.
abbrev pub expire_from : World → ℕ → ClosePhase → Error → World
expire_from w i blocked e = close_to w i (given_up e)
expire_from w i (draining subscriptions drain false) e =
    close_to (record w { heap = update_all (cancel_work err_closed) subscriptions w.heap }) i
      (draining subscriptions drain true)
expire_from w i (draining subscriptions drain true) e = w
expire_from w i outside e = w
expire_from w i releasing e = w
expire_from w i (recording r) e = w
expire_from w i (returned r) e = w
expire_from w i (given_up r) e = w

-- The next step of a call of Stop.
abbrev pub stop_from : World → ℕ → StopPhase → World
stop_from w i idle = w
stop_from w i (expecting a) = if (w.heap a).done then stop_to w i (finished a none) else w
stop_from w i (expired a e) =
    if (w.heap a).done then stop_to w i (finished a none) else stop_to w i (forcing a e)
stop_from w i (forcing a e) =
    stop_to (record w { heap = update (cancel_work err_closed) a w.heap }) i (forced a e)
stop_from w i (forced a e) = if (w.heap a).done then stop_to w i (finished a (some e)) else w
stop_from w i (finished a r) = w

abbrev pub start_stop : World → ℕ → ℕ → StopPhase → World
start_stop w i a idle = stop_to (record w { heap = update stop_poll a w.heap }) i (expecting a)
start_stop w i a phase = w

-- The context of a call of Stop ends.
abbrev pub lapse_from : World → ℕ → StopPhase → Error → World
lapse_from w i (expecting a) e = stop_to w i (expired a e)
lapse_from w i phase e = w

abbrev pub track_in : World → ℕ → World
track_in w a =
    if (track w.lifecycle a).1
    then record w { lifecycle = (track w.lifecycle a).0; accepted = a ∷ w.accepted }
    else w

-- Finish, up to its lock and after it. Only the first call of it does anything.
abbrev pub start_finish : World → ℕ → World
start_finish w a = if (w.heap a).finishing then w else record w {
  lifecycle = untrack w.lifecycle a;
  heap = update (λ s. record (abort canceled s) { finishing = true }) a w.heap;
}

abbrev pub end_finish : World → ℕ → World
end_finish w a =
    if (w.heap a).finishing
    then record w { heap = update (λ s. record s { done = true }) a w.heap }
    else w

pub data Move : Type 0 where
  begins ends : Move
  tracks finishes announces : ℕ → Move
  aborts : ℕ → Error → Move
  closes : ℕ → Option Error → Move
  expires : ℕ → Error → Move
  stops : (i a : ℕ) → Move
  goes_on : ℕ → Move
  lapses : ℕ → Error → Move

unfoldable pub apply : World → Move → Option World
apply w begins = some (record w { lifecycle = (begin w.lifecycle).0 })
apply w ends = elim (end_operation w.lifecycle) [
  | none ↦ none
  | some l ↦ some (record w { lifecycle = l })
]
apply w (tracks a) = some (track_in w a)
apply w (finishes a) = some (start_finish w a)
apply w (announces a) = some (end_finish w a)
apply w (aborts a e) = some (record w { heap = update (abort e) a w.heap })
apply w (closes i r) = close_from w i (w.closers i) r
apply w (expires i e) = some (expire_from w i (w.closers i) e)
apply w (stops i a) = some (start_stop w i a (w.stoppers i))
apply w (goes_on i) = some (stop_from w i (w.stoppers i))
apply w (lapses i e) = some (lapse_from w i (w.stoppers i) e)

abbrev pub apply_all : World → List Move → Option World
apply_all w [] = some w
apply_all w (m ∷ rest) = elim (apply w m) [ none ↦ none | some w' ↦ apply_all w' rest ]
