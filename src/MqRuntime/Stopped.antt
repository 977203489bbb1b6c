-- ===== src/MqRuntime/Stopped.antt =====
-- Stop of internal/mqruntime/mqruntime.go waits for its subscription.
use kc.Prelude.{
  ℕ, ◌≡◌, refl, sym, ◌∙◌, subst, true, false, Option, some, none, List, [], ◌∷◌, ◌==◌, arith,
  Bool-cases, inl, inr, if_elim, some-injective,
}
use kc.MqRuntime.{
  Error, err_closed, canceled, state_closed, Subscription, Lifecycle, is_open, counting, awaiting,
  stopped, ClosePhase, outside, blocked, draining, releasing, recording, returned, given_up,
  StopPhase, idle, expecting, expired, forcing, forced, finished, new_world, World, update,
  update_all, close_to, stop_to, stop_poll, cancel_work, abort, end_operation, track,
}
use kc.MqRuntime.Steps.{
  record_close, close_from, expire_from, stop_from, start_stop, lapse_from, end_finish, Move,
  begins, ends, tracks, finishes, announces, aborts, closes, expires, stops, goes_on, lapses, apply,
  apply_all,
}
use kc.MqRuntime.Keeping.{update_same, update_all_same}
use kc.MqRuntime.Closing.{first_step, reached-Inv}

-- A call of Stop that is over has seen the end of its subscription.
abbrev Settled : World → Type 0
Settled w = (i a : ℕ) (r : Option Error) → w.stoppers i ≡ finished a r → (w.heap a).done ≡ true

updated-Settled :
    (w : World) (f : Subscription → Subscription) (a : ℕ)
    → ((s : Subscription) → (f s).done ≡ s.done)
    → Settled w
    → Settled (record w { heap = update f a w.heap })
updated-Settled w f a same h i b r at = update_same (λ s. s.done) f same a w.heap b ∙ h i b r at

updated_all-Settled :
    (w : World) (f : Subscription → Subscription) (list : List ℕ)
    → ((s : Subscription) → (f s).done ≡ s.done)
    → Settled w
    → Settled (record w { heap = update_all f list w.heap })
updated_all-Settled w f list same h i b r at =
    update_all_same (λ s. s.done) f same list w.heap b ∙ h i b r at

stop_to-Settled :
    (w : World) (i : ℕ) (phase : StopPhase)
    → ((a : ℕ) (r : Option Error) → phase ≡ finished a r → (w.heap a).done ≡ true)
    → Settled w
    → Settled (stop_to w i phase)
stop_to-Settled w i phase new h j a r =
    if_elim (λ p. p ≡ finished a r → (w.heap a).done ≡ true) (j == i) (λ e at. new a r at)
      (λ e at. h j a r at)

-- The phase is the end of a call on a subscription that is done.
ends_on :
    (w : World) (a : ℕ) (r : Option Error)
    → (w.heap a).done ≡ true
    → (b : ℕ) (r' : Option Error) → finished a r ≡ finished b r'
    → (w.heap b).done ≡ true
ends_on w a r d b r' e = subst (λ c. (w.heap c).done ≡ true) {x = a} {y = b} (ground (arith, e)) d

end_finish-Settled : (w : World) (a : ℕ) → Settled w → Settled (end_finish w a)
end_finish-Settled w a h =
    if_elim Settled (w.heap a).finishing
      (λ e i b r at.
        if_elim (λ (s : Subscription). s.done ≡ true) (b == a) (λ own. refl) (λ other. h i b r at))
      (λ e. h)

close_from-Settled :
    (w : World) (i : ℕ) (phase : ClosePhase) (r : Option Error) (w' : World)
    → close_from w i phase r ≡ some w'
    → Settled w
    → Settled w'
close_from-Settled w i outside r w' e h = subst Settled (some-injective e) (
    if_elim Settled (is_open w.lifecycle.state)
      (λ opened. updated_all-Settled w stop_poll w.lifecycle.subscriptions (λ s. refl) h)
      (λ shut. h))
close_from-Settled w i blocked r w' e h =
    subst Settled (some-injective e) (if_elim Settled w.lifecycle.close_done (λ d. h) (λ d. h))
close_from-Settled w i (draining subscriptions counting is_forced) r w' e h =
    subst Settled (some-injective e) h
close_from-Settled w i (draining subscriptions (awaiting rest) is_forced) r w' e h =
    subst Settled (some-injective e) h
close_from-Settled w i (draining subscriptions stopped is_forced) r w' e h =
    subst Settled (some-injective e) h
close_from-Settled w i releasing r w' e h = subst Settled (some-injective e) h
close_from-Settled w i (recording r') r w' e h = elim (Bool-cases w.lifecycle.close_done) [
  | inl twice ↦ absurd (ground (arith, e, twice))
  | inr once ↦
      let after =
        close_to
          (record w {
            lifecycle = record w.lifecycle {
              state = state_closed;
              close_done = true;
              close_err = r';
            };
          })
          i (returned r') in
      let step : record_close w i r' ≡ some after = ground (arith, once) in
      subst Settled (some-injective (sym step ∙ e)) h
]
close_from-Settled w i (returned r') r w' e h = subst Settled (some-injective e) h
close_from-Settled w i (given_up r') r w' e h = subst Settled (some-injective e) h

expire_from-Settled :
    (w : World) (i : ℕ) (phase : ClosePhase) (e : Error)
    → Settled w
    → Settled (expire_from w i phase e)
expire_from-Settled w i (draining subscriptions drain false) e h =
    updated_all-Settled w (cancel_work err_closed) subscriptions (λ s. refl) h
expire_from-Settled w i (draining subscriptions drain true) e h = h
expire_from-Settled w i blocked e h = h
expire_from-Settled w i outside e h = h
expire_from-Settled w i releasing e h = h
expire_from-Settled w i (recording r) e h = h
expire_from-Settled w i (returned r) e h = h
expire_from-Settled w i (given_up r) e h = h

stop_from-Settled :
    (w : World) (i : ℕ) (phase : StopPhase) → Settled w → Settled (stop_from w i phase)
stop_from-Settled w i idle h = h
stop_from-Settled w i (expecting a) h =
    if_elim Settled (w.heap a).done
      (λ d. stop_to-Settled w i (finished a none) (ends_on w a none d) h) (λ d. h)
stop_from-Settled w i (expired a e) h =
    if_elim Settled (w.heap a).done
      (λ d. stop_to-Settled w i (finished a none) (ends_on w a none d) h)
      (λ d. stop_to-Settled w i (forcing a e) (λ b r at. absurd (ground (arith, at))) h)
stop_from-Settled w i (forcing a e) h =
    stop_to-Settled (record w { heap = update (cancel_work err_closed) a w.heap }) i (forced a e)
      (λ b r at. absurd (ground (arith, at)))
      (updated-Settled w (cancel_work err_closed) a (λ s. refl) h)
stop_from-Settled w i (forced a e) h =
    if_elim Settled (w.heap a).done
      (λ d. stop_to-Settled w i (finished a (some e)) (ends_on w a (some e) d) h) (λ d. h)
stop_from-Settled w i (finished a r) h = h

start_stop-Settled :
    (w : World) (i a : ℕ) (phase : StopPhase) → Settled w → Settled (start_stop w i a phase)
start_stop-Settled w i a idle h =
    stop_to-Settled (record w { heap = update stop_poll a w.heap }) i (expecting a)
      (λ b r at. absurd (ground (arith, at))) (updated-Settled w stop_poll a (λ s. refl) h)
start_stop-Settled w i a (expecting b) h = h
start_stop-Settled w i a (expired b e) h = h
start_stop-Settled w i a (forcing b e) h = h
start_stop-Settled w i a (forced b e) h = h
start_stop-Settled w i a (finished b r) h = h

lapse_from-Settled :
    (w : World) (i : ℕ) (phase : StopPhase) (e : Error)
    → Settled w
    → Settled (lapse_from w i phase e)
lapse_from-Settled w i (expecting a) e h =
    stop_to-Settled w i (expired a e) (λ b r at. absurd (ground (arith, at))) h
lapse_from-Settled w i idle e h = h
lapse_from-Settled w i (expired b r) e h = h
lapse_from-Settled w i (forcing b r) e h = h
lapse_from-Settled w i (forced b r) e h = h
lapse_from-Settled w i (finished b r) e h = h

end-Settled :
    (w : World) (l : Option Lifecycle) (w' : World)
    → elim l [ none ↦ none | some l' ↦ some (record w { lifecycle = l' }) ] ≡ some w'
    → Settled w
    → Settled w'
end-Settled w none w' e h = absurd (ground (arith, e))
end-Settled w (some l) w' e h = subst Settled (some-injective e) h

apply-Settled : (w : World) (m : Move) (w' : World) → apply w m ≡ some w' → Settled w → Settled w'
unfolding apply
apply-Settled w begins w' e h = subst Settled (some-injective e) h
apply-Settled w ends w' e h = end-Settled w (end_operation w.lifecycle) w' e h
apply-Settled w (tracks a) w' e h =
    subst Settled (some-injective e) (if_elim Settled (track w.lifecycle a).1 (λ t. h) (λ t. h))
apply-Settled w (finishes a) w' e h = subst Settled (some-injective e) (
    if_elim Settled (w.heap a).finishing (λ t. h)
      (λ t.
        updated-Settled w (λ s. record (abort canceled s) { finishing = true }) a (λ s. refl) h))
apply-Settled w (announces a) w' e h = subst Settled (some-injective e) (end_finish-Settled w a h)
apply-Settled w (aborts a cause) w' e h =
    subst Settled (some-injective e) (updated-Settled w (abort cause) a (λ s. refl) h)
apply-Settled w (closes i r) w' e h = close_from-Settled w i (w.closers i) r w' e h
apply-Settled w (expires i cause) w' e h =
    subst Settled (some-injective e) (expire_from-Settled w i (w.closers i) cause h)
apply-Settled w (stops i a) w' e h =
    subst Settled (some-injective e) (start_stop-Settled w i a (w.stoppers i) h)
apply-Settled w (goes_on i) w' e h =
    subst Settled (some-injective e) (stop_from-Settled w i (w.stoppers i) h)
apply-Settled w (lapses i cause) w' e h =
    subst Settled (some-injective e) (lapse_from-Settled w i (w.stoppers i) cause h)

apply_all-Settled :
    (moves : List Move) (w w' : World) → apply_all w moves ≡ some w' → Settled w → Settled w'
apply_all-Settled [] w w' e h = subst Settled (some-injective e) h
apply_all-Settled (m ∷ rest) w w' e h =
    let first = first_step m rest w w' e in
    apply_all-Settled rest first.0 w' first.2 (apply-Settled w m first.0 first.1 h)

-- Take any run of a new client. When a call of Stop has returned, also by the end of its context, the
-- tasks of its subscription have exited and its `done` is closed.
pub stop_waits :
    (moves : List Move) (w : World) (i a : ℕ) (r : Option Error)
    → apply_all new_world moves ≡ some w
    → w.stoppers i ≡ finished a r
    → ((w.heap a).done ≡ true) × ((w.heap a).finishing ≡ true)
stop_waits moves w i a r run at =
    let d =
      apply_all-Settled moves new_world w run (λ j b r' e. absurd (ground (arith, e))) i a r at in
    (d, (reached-Inv moves w run).sound.exited a d)
