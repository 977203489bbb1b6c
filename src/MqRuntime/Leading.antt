-- ===== src/MqRuntime/Leading.antt =====
-- The first call of Close of internal/mqruntime/mqruntime.go keeps the invariant.
use kc.Prelude.{
  ℕ, ◌+◌, ◌≡◌, refl, sym, ap, ◌∙◌, subst, true, false, Option, some, List, [], ◌∷◌, ◌==◌, arith,
  Bool-cases, inl, inr, if_elim,
}
use kc.MqRuntime.{
  Error, err_closed, state_closing, state_closed, Subscription, is_open, Drain, counting, awaiting,
  stopped, ClosePhase, outside, blocked, draining, releasing, recording, returned, given_up, World,
  set_at, update_all, close_to, stop_poll, cancel_work,
}
use kc.MqRuntime.Steps.{drained, enter_close, record_close}
use kc.MqRuntime.Invariant.{leads, Remaining, Quiet, FitsDrain, IsClosing, Fits, Sound, Inv}
use kc.MqRuntime.Keeping.{same_heap, moved, led_before, update_all_same}

-- The first call of Close.
pub enter_close-Inv : (w : World) (i : ℕ) → Inv w → Inv (enter_close w i)
enter_close-Inv w i inv =
    if_elim Inv (is_open w.lifecycle.state) enters
      (λ shut. moved w i blocked shut shut (λ e. absurd (ground (arith, e))) inv)
  where
    heap : ℕ → Subscription
    heap = update_all stop_poll w.lifecycle.subscriptions w.heap

    first : ClosePhase
    first = draining w.lifecycle.subscriptions counting false

    entered : World
    entered =
        close_to
          (record w { lifecycle = record w.lifecycle { state = state_closing }; heap = heap }) i
          first

    same_finishing : (a : ℕ) → (heap a).finishing ≡ (w.heap a).finishing
    same_finishing =
        update_all_same (λ s. s.finishing) stop_poll (λ s. refl) w.lifecycle.subscriptions w.heap

    same_done : (a : ℕ) → (heap a).done ≡ (w.heap a).done
    same_done = update_all_same (λ s. s.done) stop_poll (λ s. refl) w.lifecycle.subscriptions w.heap

    tracked : Remaining entered w.lifecycle.subscriptions
    tracked a e = ground (arith, same_finishing a, inv.sound.tracked a e)

    enters : is_open w.lifecycle.state ≡ true → Inv entered
    enters opened = record {
      sound = record {
        tracked = tracked;
        exited = λ a e. same_finishing a ∙ inv.sound.exited a (sym (same_done a) ∙ e);
      };
      untouched = λ still. absurd (ground (arith, still));
      fits = λ j.
          if_elim (Fits entered) (j == i) (λ e. ((refl, before.0, before.1), tracked))
            (λ e. subst (Fits entered) (sym (before.2 j)) tt);
      single = λ j k leads_j leads_k. only j leads_j ∙ sym (only k leads_k);
    }
      where
        before :
            (w.lifecycle.close_done ≡ false) × (w.releases ≡ 0) × ((i : ℕ) → w.closers i ≡ outside)
        before = inv.untouched opened

        only : (j : ℕ) → leads (set_at w.closers i first j) ≡ true → j ≡ i
        only j =
            if_elim (λ p. leads p ≡ true → j ≡ i) (j == i) (λ e h. ground (arith, e))
              (λ e h. absurd (ground (arith, h, before.2 j)))

-- The goroutine of the first call.
pub drained-FitsDrain :
    (w : World) (subscriptions : List ℕ) (drain : Drain)
    → Sound w
    → FitsDrain w subscriptions drain
    → FitsDrain w subscriptions (drained w.lifecycle w.heap subscriptions drain)
drained-FitsDrain w subscriptions counting sound h =
    if_elim (FitsDrain w subscriptions) (w.lifecycle.operations == 0) (λ e. (ground (arith, e), h))
      (λ e. h)
drained-FitsDrain w subscriptions (awaiting []) sound (calm, h) =
    (calm, λ a e. ground (arith, h a e))
drained-FitsDrain w subscriptions (awaiting (a ∷ rest)) sound (calm, h) =
    if_elim (FitsDrain w subscriptions) (w.heap a).done
      (λ d. (
        calm,
        λ b e. elim (Bool-cases (b == a)) [
          | inl own ↦
              let exited =
                subst (λ c. (w.heap c).finishing ≡ true) {x = a} {y = b} (ground (arith, own))
                  (sound.exited a d) in
              ground (arith, exited)
          | inr other ↦ ground (arith, other, h b e)
        ],
      ))
      (λ d. (calm, h))
drained-FitsDrain w subscriptions stopped sound h = h

-- The others when the call that leads moves on.
bystander :
    (w : World) (i j : ℕ)
    → Inv w
    → leads (w.closers i) ≡ true
    → (j == i) ≡ false
    → leads (w.closers j) ≡ false
bystander w i j inv lead apart = elim (Bool-cases (leads (w.closers j))) [
  | inr aside ↦ aside
  | inl also ↦ let same = inv.single j i also lead in absurd (ground (arith, same, apart))
]

module _ (w : World) (i : ℕ) where
  pub releasing-Inv :
      (r : Option Error)
      → w.closers i ≡ releasing
      → Inv w
      → Inv (close_to (record w { releases = w.releases + 1 }) i (recording r))
  releasing-Inv r at inv = record {
    sound = record { tracked = inv.sound.tracked; exited = inv.sound.exited };
    untouched = λ opened. absurd (ground (arith, opened, here.0.0));
    fits = λ j.
        if_elim (Fits after) (j == i)
          (λ e. ((here.0.0, here.0.1, ground (arith, here.0.2)), here.1))
          (λ e. others (w.closers j) (bystander w i j inv (ap leads at) e) (inv.fits j));
    single = λ j k leads_j leads_k.
        inv.single j k (led_before w i (recording r) (λ e. ap leads at) j leads_j)
          (led_before w i (recording r) (λ e. ap leads at) k leads_k);
  }
    where
      after : World
      after = close_to (record w { releases = w.releases + 1 }) i (recording r)

      here : IsClosing w 0 × Quiet w
      here = subst (Fits w) at (inv.fits i)

      others : (phase : ClosePhase) → leads phase ≡ false → Fits w phase → Fits after phase
      others outside away h = tt
      others blocked away h = h
      others (draining subscriptions drain is_forced) away h = absurd (ground (arith, away))
      others releasing away h = absurd (ground (arith, away))
      others (recording e) away h = absurd (ground (arith, away))
      others (returned e) away h = h
      others (given_up e) away h = h

  pub recording-Inv :
      (e : Option Error)
      → w.closers i ≡ recording e
      → Inv w
      → let w' =
          close_to
            (record w {
              lifecycle = record w.lifecycle {
                state = state_closed;
                close_done = true;
                close_err = e;
              };
            })
            i
            (returned e) in
        (record_close w i e ≡ some w') × Inv w'
  recording-Inv e at inv = (
    ground (arith, here.0.1),
    record {
      sound = record { tracked = inv.sound.tracked; exited = inv.sound.exited };
      untouched = λ opened. absurd (ground (arith, opened));
      fits = λ j.
          if_elim (Fits after) (j == i) (λ same. (refl, refl, refl))
            (λ apart. others (w.closers j) (bystander w i j inv (ap leads at) apart) (inv.fits j));
      single = λ j k leads_j leads_k.
          inv.single j k (led_before w i (returned e) (λ h. ap leads at) j leads_j)
            (led_before w i (returned e) (λ h. ap leads at) k leads_k);
    },
  )
    where
      after : World
      after =
          close_to
            (record w {
              lifecycle = record w.lifecycle {
                state = state_closed;
                close_done = true;
                close_err = e;
              };
            })
            i (returned e)

      here : IsClosing w 1 × Quiet w
      here = subst (Fits w) at (inv.fits i)

      others : (phase : ClosePhase) → leads phase ≡ false → Fits w phase → Fits after phase
      others outside away h = tt
      others blocked away h = refl
      others (draining subscriptions drain is_forced) away h = absurd (ground (arith, away))
      others releasing away h = absurd (ground (arith, away))
      others (recording r) away h = absurd (ground (arith, away))
      others (returned r) away h = absurd (ground (arith, h.0, here.0.1))
      others (given_up r) away h = refl

  pub forced-Inv :
      (subscriptions : List ℕ) (drain : Drain)
      → w.closers i ≡ draining subscriptions drain false
      → Inv w
      → Inv (
          close_to
            (record w { heap = update_all (cancel_work err_closed) subscriptions w.heap })
            i
            (draining subscriptions drain true))
  forced-Inv subscriptions drain at inv =
      let fit =
        subst (Fits (record w { heap = update_all (cancel_work err_closed) subscriptions w.heap }))
          at (cancels.fits i) in
      moved (record w { heap = update_all (cancel_work err_closed) subscriptions w.heap }) i
        (draining subscriptions drain true) (ap is_open fit.0.0) fit (λ e. ap leads at) cancels
    where
      cancels : Inv (record w { heap = update_all (cancel_work err_closed) subscriptions w.heap })
      cancels =
          same_heap w (update_all (cancel_work err_closed) subscriptions w.heap)
            (update_all_same (λ s. s.finishing) (cancel_work err_closed) (λ s. refl) subscriptions
              w.heap)
            (update_all_same (λ s. s.done) (cancel_work err_closed) (λ s. refl) subscriptions
              w.heap)
            inv
