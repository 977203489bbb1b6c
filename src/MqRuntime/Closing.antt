-- ===== src/MqRuntime/Closing.antt =====
-- Close of internal/mqruntime/mqruntime.go, with calls of it, of Stop and of the client's operations
-- in any order.
use kc.Prelude.{
  ℕ, ◌≡◌, refl, sym, ap, ◌∙◌, subst, Bool, true, false, Option, some, none, List, [], ◌∷◌, arith,
  if_elim, some-injective, All,
}
use kc.Prelude.Selecting.{contains}
use kc.MqRuntime.{
  Error, Lifecycle, is_open, begin, Drain, counting, awaiting, stopped, ClosePhase, outside,
  blocked, draining, releasing, recording, returned, given_up, new_world, World, close_to, abort,
  end_operation,
}
use kc.MqRuntime.Steps.{
  drained, close_from, expire_from, Move, begins, ends, tracks, finishes, announces, aborts, closes,
  expires, stops, goes_on, lapses, apply, apply_all,
}
use kc.MqRuntime.Invariant.{leads, Fits, Inv}
use kc.MqRuntime.Keeping.{
  moved, begin-Inv, track-Inv, end-Inv, start_finish-Inv, end_finish-Inv, updated-Inv,
}
use kc.MqRuntime.Stopping.{stop_from-Inv, start_stop-Inv, lapse_from-Inv}
use kc.MqRuntime.Leading.{
  enter_close-Inv, drained-FitsDrain, releasing-Inv, recording-Inv, forced-Inv,
}

drains :
    (w : World) (i : ℕ) (subscriptions : List ℕ) (drain : Drain) (is_forced : Bool)
    → w.closers i ≡ draining subscriptions drain is_forced
    → Inv w
    → Inv (
        close_to w i
          (draining subscriptions (drained w.lifecycle w.heap subscriptions drain) is_forced))
drains w i subscriptions drain is_forced at inv =
    let fit = subst (Fits w) at (inv.fits i) in
    moved w i (draining subscriptions (drained w.lifecycle w.heap subscriptions drain) is_forced)
      (ap is_open fit.0.0) (fit.0, drained-FitsDrain w subscriptions drain inv.sound fit.1)
      (λ h. ap leads at) inv

pub close_from-Inv :
    (w : World) (i : ℕ) (phase : ClosePhase) (r : Option Error) (w' : World)
    → w.closers i ≡ phase
    → close_from w i phase r ≡ some w'
    → Inv w
    → Inv w'
close_from-Inv w i outside r w' at e inv = subst Inv (some-injective e) (enter_close-Inv w i inv)
close_from-Inv w i blocked r w' at e inv = subst Inv (some-injective e) (
    if_elim Inv w.lifecycle.close_done
      (λ ended.
        moved w i (returned w.lifecycle.close_err) shut (ended, refl, shut)
          (λ h. absurd (ground (arith, h))) inv)
      (λ open_still. inv))
  where
    shut : is_open w.lifecycle.state ≡ false
    shut = subst (Fits w) at (inv.fits i)
close_from-Inv w i (draining subscriptions counting is_forced) r w' at e inv =
    subst Inv (some-injective e) (drains w i subscriptions counting is_forced at inv)
close_from-Inv w i (draining subscriptions (awaiting rest) is_forced) r w' at e inv =
    subst Inv (some-injective e) (drains w i subscriptions (awaiting rest) is_forced at inv)
close_from-Inv w i (draining subscriptions stopped is_forced) r w' at e inv =
    let fit = subst (Fits w) at (inv.fits i) in
    subst Inv (some-injective e)
      (moved w i releasing (ap is_open fit.0.0) fit (λ h. ap leads at) inv)
close_from-Inv w i releasing r w' at e inv =
    subst Inv (some-injective e) (releasing-Inv w i r at inv)
close_from-Inv w i (recording r') r w' at e inv =
    let recorded = recording-Inv w i r' at inv in
    subst Inv (some-injective (sym recorded.0 ∙ e)) recorded.1
close_from-Inv w i (returned r') r w' at e inv = subst Inv (some-injective e) inv
close_from-Inv w i (given_up r') r w' at e inv = subst Inv (some-injective e) inv

expire_from-Inv :
    (w : World) (i : ℕ) (phase : ClosePhase) (e : Error)
    → w.closers i ≡ phase
    → Inv w
    → Inv (expire_from w i phase e)
expire_from-Inv w i blocked e at inv =
    let shut = subst (Fits w) at (inv.fits i) in
    moved w i (given_up e) shut shut (λ h. absurd (ground (arith, h))) inv
expire_from-Inv w i (draining subscriptions drain false) e at inv =
    forced-Inv w i subscriptions drain at inv
expire_from-Inv w i (draining subscriptions drain true) e at inv = inv
expire_from-Inv w i outside e at inv = inv
expire_from-Inv w i releasing e at inv = inv
expire_from-Inv w i (recording r) e at inv = inv
expire_from-Inv w i (returned r) e at inv = inv
expire_from-Inv w i (given_up r) e at inv = inv

apply-Inv : (w : World) (m : Move) (w' : World) → apply w m ≡ some w' → Inv w → Inv w'
unfolding apply
apply-Inv w begins w' e inv = subst Inv (some-injective e) (begin-Inv w inv)
apply-Inv w ends w' e inv = ended (end_operation w.lifecycle) refl e
  where
    ended :
        (l : Option Lifecycle)
        → end_operation w.lifecycle ≡ l
        → elim l [ none ↦ none | some l' ↦ some (record w { lifecycle = l' }) ] ≡ some w'
        → Inv w'
    ended none at h = absurd (ground (arith, h))
    ended (some l) at h = subst Inv (some-injective h) (end-Inv w l at inv)
apply-Inv w (tracks a) w' e inv = subst Inv (some-injective e) (track-Inv w a inv)
apply-Inv w (finishes a) w' e inv = subst Inv (some-injective e) (start_finish-Inv w a inv)
apply-Inv w (announces a) w' e inv = subst Inv (some-injective e) (end_finish-Inv w a inv)
apply-Inv w (aborts a cause) w' e inv =
    subst Inv (some-injective e) (updated-Inv w (abort cause) a (λ s. refl) (λ s. refl) inv)
apply-Inv w (closes i r) w' e inv = close_from-Inv w i (w.closers i) r w' refl e inv
apply-Inv w (expires i cause) w' e inv =
    subst Inv (some-injective e) (expire_from-Inv w i (w.closers i) cause refl inv)
apply-Inv w (stops i a) w' e inv =
    subst Inv (some-injective e) (start_stop-Inv w i a (w.stoppers i) inv)
apply-Inv w (goes_on i) w' e inv =
    subst Inv (some-injective e) (stop_from-Inv w i (w.stoppers i) inv)
apply-Inv w (lapses i cause) w' e inv =
    subst Inv (some-injective e) (lapse_from-Inv w i (w.stoppers i) cause inv)

pub first_step :
    (m : Move) (rest : List Move) (w w' : World)
    → apply_all w (m ∷ rest) ≡ some w'
    → (w1 : World) × (apply w m ≡ some w1) × (apply_all w1 rest ≡ some w')
first_step m rest w w' e = applied (apply w m) refl e
  where
    applied :
        (o : Option World)
        → apply w m ≡ o
        → elim o [ none ↦ none | some w1 ↦ apply_all w1 rest ] ≡ some w'
        → (w1 : World) × (apply w m ≡ some w1) × (apply_all w1 rest ≡ some w')
    applied none at h = absurd (ground (arith, h))
    applied (some w1) at h = (w1, at, h)

apply_all-Inv : (moves : List Move) (w w' : World) → apply_all w moves ≡ some w' → Inv w → Inv w'
apply_all-Inv [] w w' e inv = subst Inv (some-injective e) inv
apply_all-Inv (m ∷ rest) w w' e inv =
    let first = first_step m rest w w' e in
    apply_all-Inv rest first.0 w' first.2 (apply-Inv w m first.0 first.1 inv)

new_world-Inv : Inv new_world
new_world-Inv = record {
  sound = record {
    tracked = λ a e. absurd (ground (arith, e));
    exited = λ a e. absurd (ground (arith, e));
  };
  untouched = λ opened. (refl, refl, λ i. refl);
  fits = λ i. tt;
  single = λ i j e. absurd (ground (arith, e));
}

pub reached-Inv : (moves : List Move) (w : World) → apply_all new_world moves ≡ some w → Inv w
reached-Inv moves w e = apply_all-Inv moves new_world w e new_world-Inv

All-contained {ℓ} :
    (P : ℕ → Type ℓ) (xs : List ℕ) → ((a : ℕ) → contains xs a ≡ true → P a) → All P xs
All-contained P [] h = tt
All-contained P (x ∷ xs) h =
    (h x (ground arith), All-contained P xs (λ a e. h a (ground (arith, e))))

-- Take any run of a new client. When a call of Close releases it, this is the first release; no
-- operation is in progress and none can begin; and every subscription that Track has accepted is at
-- its end.
pub release_alone :
    (moves : List Move) (w w' : World) (i : ℕ) (r : Option Error)
    → apply_all new_world moves ≡ some w
    → w.closers i ≡ releasing
    → apply w (closes i r) ≡ some w'
    → (w'.releases ≡ 1)
      × (w.lifecycle.operations ≡ 0)
      × ((begin w.lifecycle).1 ≡ false)
      × All (λ a. (w.heap a).finishing ≡ true) w.accepted
unfolding apply begin
release_alone moves w w' i r run at step =
    let inv = reached-Inv moves w run in
    let fit = subst (Fits w) at (inv.fits i) in
    let phase = ap (λ p. close_from w i p r) at in
    (
      ground (arith, sym (some-injective (sym phase ∙ step)), fit.0.2),
      fit.1.0,
      ground (arith, fit.0.0),
      All-contained (λ a. (w.heap a).finishing ≡ true) w.accepted fit.1.1,
    )

-- Take any run of a new client. Calls of Close that have returned, other than by the end of their
-- own context, have returned the same result.
closers-Agree :
    (moves : List Move) (w : World) (i j : ℕ) (r r' : Option Error)
    → apply_all new_world moves ≡ some w
    → w.closers i ≡ returned r
    → w.closers j ≡ returned r'
    → r ≡ r'
closers-Agree moves w i j r r' run at_i at_j =
    let inv = reached-Inv moves w run in
    let fit_i = subst (Fits w) at_i (inv.fits i) in
    let fit_j = subst (Fits w) at_j (inv.fits j) in sym fit_i.1 ∙ fit_j.1
