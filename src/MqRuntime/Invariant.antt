-- ===== src/MqRuntime/Invariant.antt =====
-- What holds of a message queue client, internal/mqruntime/mqruntime.go, at every moment.
use kc.Prelude.{
  ℕ, ◌≡◌, refl, sym, ap, ◌∙◌, subst, Bool, true, false, ◌||◌, List, arith, Bool-cases, inl, inr,
}
use kc.Prelude.Selecting.{contains}
use kc.MqRuntime.{
  state_closing, Subscription, is_open, Drain, counting, awaiting, stopped, ClosePhase, outside,
  blocked, draining, releasing, recording, returned, given_up, StopPhase, World,
}

-- A call that has found the client open.
abbrev pub leads : ClosePhase → Bool
leads outside = false
leads blocked = false
leads (draining subscriptions drain is_forced) = true
leads releasing = true
leads (recording e) = true
leads (returned e) = false
leads (given_up e) = false

-- Every subscription that Track has accepted is in the list, or its tasks have exited.
abbrev pub Remaining : World → List ℕ → Type 0
Remaining w list =
    (a : ℕ) → contains w.accepted a ≡ true → (contains list a || (w.heap a).finishing) ≡ true

-- No operation is in progress, and the tasks of all accepted subscriptions have exited.
abbrev pub Quiet : World → Type 0
Quiet w =
    (w.lifecycle.operations ≡ 0)
    × ((a : ℕ) → contains w.accepted a ≡ true → (w.heap a).finishing ≡ true)

abbrev pub FitsDrain : World → List ℕ → Drain → Type 0
FitsDrain w subscriptions counting = Remaining w subscriptions
FitsDrain w subscriptions (awaiting rest) = (w.lifecycle.operations ≡ 0) × Remaining w rest
FitsDrain w subscriptions stopped = Quiet w

abbrev pub IsClosing : World → ℕ → Type 0
IsClosing w releases =
    (w.lifecycle.state ≡ state_closing) × (w.lifecycle.close_done ≡ false) × (w.releases ≡ releases)

abbrev pub Fits : World → ClosePhase → Type 0
Fits w outside = Unit
Fits w blocked = is_open w.lifecycle.state ≡ false
Fits w (draining subscriptions drain is_forced) = IsClosing w 0 × FitsDrain w subscriptions drain
Fits w releasing = IsClosing w 0 × Quiet w
Fits w (recording e) = IsClosing w 1 × Quiet w
Fits w (returned e) =
    (w.lifecycle.close_done ≡ true)
    × (w.lifecycle.close_err ≡ e)
    × (is_open w.lifecycle.state ≡ false)
Fits w (given_up e) = is_open w.lifecycle.state ≡ false

-- What holds of the subscriptions.
pub record Sound (w : World) : Type 0 where
  pub tracked : Remaining w w.lifecycle.subscriptions
  pub exited : (a : ℕ) → (w.heap a).done ≡ true → (w.heap a).finishing ≡ true

pub record Inv (w : World) : Type 0 where
  pub sound : Sound w
  pub untouched :
      is_open w.lifecycle.state ≡ true
      → (w.lifecycle.close_done ≡ false) × (w.releases ≡ 0) × ((i : ℕ) → w.closers i ≡ outside)
  pub fits : (i : ℕ) → Fits w (w.closers i)
  pub single : (i j : ℕ) → leads (w.closers i) ≡ true → leads (w.closers j) ≡ true → i ≡ j

-- What the steps of others leave to the calls of Close.
pub record Frame (w w' : World) : Type 0 where
  pub same_state : w'.lifecycle.state ≡ w.lifecycle.state
  pub same_done : w'.lifecycle.close_done ≡ w.lifecycle.close_done
  pub same_err : w'.lifecycle.close_err ≡ w.lifecycle.close_err
  pub same_releases : w'.releases ≡ w.releases
  pub calm :
      is_open w.lifecycle.state ≡ false → w.lifecycle.operations ≡ 0 → w'.lifecycle.operations ≡ 0
  pub settled :
      is_open w.lifecycle.state ≡ false
      → (a : ℕ) → contains w'.accepted a ≡ true
      → contains w.accepted a ≡ true
  pub growing : (a : ℕ) → (w.heap a).finishing ≡ true → (w'.heap a).finishing ≡ true

module _ (w w' : World) (f : Frame w w') where
  Remaining-Frame :
      (list : List ℕ) → is_open w.lifecycle.state ≡ false → Remaining w list → Remaining w' list
  Remaining-Frame list shut h a e =
      let before = h a (f.settled shut a e) in
      elim (Bool-cases (contains list a)) [
        | inl listed ↦ ground (arith, listed)
        | inr gone ↦
            let exited = f.growing a (ground (arith, before, gone)) in ground (arith, exited, gone)
      ]

  Quiet-Frame : is_open w.lifecycle.state ≡ false → Quiet w → Quiet w'
  Quiet-Frame shut (calm, all) = (f.calm shut calm, λ a e. f.growing a (all a (f.settled shut a e)))

  FitsDrain-Frame :
      (subscriptions : List ℕ) (drain : Drain)
      → is_open w.lifecycle.state ≡ false
      → FitsDrain w subscriptions drain
      → FitsDrain w' subscriptions drain
  FitsDrain-Frame subscriptions counting shut h = Remaining-Frame subscriptions shut h
  FitsDrain-Frame subscriptions (awaiting rest) shut (calm, h) =
      (f.calm shut calm, Remaining-Frame rest shut h)
  FitsDrain-Frame subscriptions stopped shut h = Quiet-Frame shut h

  IsClosing-Frame : (n : ℕ) → IsClosing w n → IsClosing w' n
  IsClosing-Frame n (closing, none_done, count) =
      (f.same_state ∙ closing, f.same_done ∙ none_done, f.same_releases ∙ count)

  pub Fits-Frame : (phase : ClosePhase) → Fits w phase → Fits w' phase
  Fits-Frame outside h = tt
  Fits-Frame blocked h = ap is_open f.same_state ∙ h
  Fits-Frame (draining subscriptions drain is_forced) (closing, h) =
      (IsClosing-Frame 0 closing, FitsDrain-Frame subscriptions drain (ap is_open closing.0) h)
  Fits-Frame releasing (closing, h) =
      (IsClosing-Frame 0 closing, Quiet-Frame (ap is_open closing.0) h)
  Fits-Frame (recording e) (closing, h) =
      (IsClosing-Frame 1 closing, Quiet-Frame (ap is_open closing.0) h)
  Fits-Frame (returned e) (ended, error, shut) =
      (f.same_done ∙ ended, f.same_err ∙ error, ap is_open f.same_state ∙ shut)
  Fits-Frame (given_up e) h = ap is_open f.same_state ∙ h

  pub Inv-Frame : Inv w → Sound w' → ((i : ℕ) → w'.closers i ≡ w.closers i) → Inv w'
  Inv-Frame inv sound same_closers = record {
    sound = sound;
    untouched = λ opened.
        let before = inv.untouched (sym (ap is_open f.same_state) ∙ opened) in
        (f.same_done ∙ before.0, f.same_releases ∙ before.1, λ i. same_closers i ∙ before.2 i);
    fits = λ i. subst (Fits w') (sym (same_closers i)) (Fits-Frame (w.closers i) (inv.fits i));
    single = λ i j leads_i leads_j.
        inv.single i j (sym (ap leads (same_closers i)) ∙ leads_i)
          (sym (ap leads (same_closers j)) ∙ leads_j);
  }

-- A step that leaves the state of the client, its result, and the calls of Close.
pub aside :
    (w : World) (subscriptions : List ℕ) (operations : ℕ) (heap : ℕ → Subscription)
    (stoppers : ℕ → StopPhase) (accepted : List ℕ)
    → (is_open w.lifecycle.state ≡ false → w.lifecycle.operations ≡ 0 → operations ≡ 0)
    → (is_open w.lifecycle.state ≡ false
        → (a : ℕ) → contains accepted a ≡ true
        → contains w.accepted a ≡ true)
    → ((a : ℕ) → (w.heap a).finishing ≡ true → (heap a).finishing ≡ true)
    → Inv w
    → let w' = record w {
      lifecycle = record w.lifecycle { subscriptions = subscriptions; operations = operations };
      heap = heap;
      stoppers = stoppers;
      accepted = accepted;
    } in
      Sound w' → Inv w'
aside w subscriptions operations heap stoppers accepted calm settled growing inv sound =
    Inv-Frame w _
      (record {
        same_state = refl;
        same_done = refl;
        same_err = refl;
        same_releases = refl;
        calm = calm;
        settled = settled;
        growing = growing;
      })
      inv sound (λ i. refl)
