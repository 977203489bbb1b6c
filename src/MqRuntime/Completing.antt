-- ===== src/MqRuntime/Completing.antt =====
-- Close of internal/mqruntime/mqruntime.go comes to its end.
use kc.Prelude.{
  ℕ, zero, suc, ◌+◌, ◌≡◌, refl, ap, ◌∙◌, Bool, true, Option, some, List, [], ◌∷◌, arith, All,
}
use kc.MqRuntime.{
  Error, state_closed, Drain, counting, awaiting, stopped, draining, releasing, recording, returned,
  new_world, World, set_at, close_to,
}
use kc.MqRuntime.Steps.{close_from, Move, closes, apply, apply_all}
use kc.MqRuntime.Invariant.{Inv}
use kc.MqRuntime.Leading.{releasing-Inv, recording-Inv}
use kc.MqRuntime.Closing.{close_from-Inv, reached-Inv}

-- What the goroutine of the call still waits for.
abbrev pub awaited : List ℕ → Drain → List ℕ
awaited subscriptions counting = subscriptions
awaited subscriptions (awaiting rest) = rest
awaited subscriptions stopped = []

-- So many steps of one call of Close.
abbrev pub closing_steps : ℕ → ℕ → Option Error → List Move
closing_steps zero i r = []
closing_steps (suc n) i r = closes i r ∷ closing_steps n i r

-- A call of Close comes to its end by its own steps.
abbrev Ends : World → ℕ → Option Error → Type 0
Ends w i r =
    (n : ℕ) × (w' : World) × (apply_all w (closing_steps n i r) ≡ some w')
    × (w'.closers i ≡ returned r)
    × (w'.lifecycle.state ≡ state_closed)

set_here {ℓ} : {A : Type ℓ} (f : ℕ → A) (i : ℕ) (v : A) → set_at f i v i ≡ v
set_here f i v = ground arith

step-Ends :
    (w w1 : World) (i : ℕ) (r : Option Error)
    → close_from w i (w.closers i) r ≡ some w1
    → Ends w1 i r
    → Ends w i r
unfolding apply
step-Ends w w1 i r e (n, w', run, at, closed) = (suc n, w', ground (arith, e, run), at, closed)

module _ (i : ℕ) (r : Option Error) where
  recording-Ends : (w : World) → w.closers i ≡ recording r → Inv w → Ends w i r
  recording-Ends w at inv =
      let last = recording-Inv w i r at inv in
      step-Ends w _ i r (ap (λ p. close_from w i p r) at ∙ last.0)
        (0, _, refl, set_here w.closers i (returned r), refl)

  releasing-Ends : (w : World) → w.closers i ≡ releasing → Inv w → Ends w i r
  releasing-Ends w at inv =
      let w1 = close_to (record w { releases = w.releases + 1 }) i (recording r) in
      step-Ends w w1 i r (ap (λ p. close_from w i p r) at)
        (recording-Ends w1 (set_here w.closers i (recording r)) (releasing-Inv w i r at inv))

  stopped-Ends :
      (w : World) (subscriptions : List ℕ) (is_forced : Bool)
      → w.closers i ≡ draining subscriptions stopped is_forced
      → Inv w
      → Ends w i r
  stopped-Ends w subscriptions is_forced at inv =
      let w1 = close_to w i releasing in
      let e = ap (λ p. close_from w i p r) at in
      step-Ends w w1 i r e (
        releasing-Ends w1 (set_here w.closers i releasing)
          (close_from-Inv w i (w.closers i) r w1 refl e inv))

  awaiting-Ends :
      (rest : List ℕ) (w : World) (subscriptions : List ℕ) (is_forced : Bool)
      → w.closers i ≡ draining subscriptions (awaiting rest) is_forced
      → All (λ a. (w.heap a).done ≡ true) rest
      → Inv w
      → Ends w i r
  awaiting-Ends [] w subscriptions is_forced at all inv =
      let phase = draining subscriptions stopped is_forced in
      let e = ap (λ p. close_from w i p r) at in
      step-Ends w (close_to w i phase) i r e (
        stopped-Ends (close_to w i phase) subscriptions is_forced (set_here w.closers i phase)
          (close_from-Inv w i (w.closers i) r (close_to w i phase) refl e inv))
  awaiting-Ends (a ∷ rest) w subscriptions is_forced at (d, all) inv =
      let phase = draining subscriptions (awaiting rest) is_forced in
      let e : close_from w i (w.closers i) r ≡ some (close_to w i phase) =
        ap (λ p. close_from w i p r) at ∙ ground (arith, d) in
      step-Ends w (close_to w i phase) i r e (
        awaiting-Ends rest (close_to w i phase) subscriptions is_forced (set_here w.closers i phase)
          all (close_from-Inv w i (w.closers i) r (close_to w i phase) refl e inv))

  counting-Ends :
      (w : World) (subscriptions : List ℕ) (is_forced : Bool)
      → w.closers i ≡ draining subscriptions counting is_forced
      → w.lifecycle.operations ≡ 0
      → All (λ a. (w.heap a).done ≡ true) subscriptions
      → Inv w
      → Ends w i r
  counting-Ends w subscriptions is_forced at calm all inv =
      let phase = draining subscriptions (awaiting subscriptions) is_forced in
      let e : close_from w i (w.closers i) r ≡ some (close_to w i phase) =
        ap (λ p. close_from w i p r) at ∙ ground (arith, calm) in
      step-Ends w (close_to w i phase) i r e (
        awaiting-Ends subscriptions (close_to w i phase) subscriptions is_forced
          (set_here w.closers i phase) all
          (close_from-Inv w i (w.closers i) r (close_to w i phase) refl e inv))

-- Take any run of a new client in which a call of Close waits. Once no operation is in progress and
-- the subscriptions that it still waits for are done, its own steps take it to its end: it returns
-- what the release of the client returns, and the client is closed.
pub close_completes :
    (moves : List Move) (w : World) (i : ℕ) (subscriptions : List ℕ) (drain : Drain)
    (is_forced : Bool) (r : Option Error)
    → apply_all new_world moves ≡ some w
    → w.closers i ≡ draining subscriptions drain is_forced
    → w.lifecycle.operations ≡ 0
    → All (λ a. (w.heap a).done ≡ true) (awaited subscriptions drain)
    → Ends w i r
close_completes moves w i subscriptions counting is_forced r run at calm all =
    counting-Ends i r w subscriptions is_forced at calm all (reached-Inv moves w run)
close_completes moves w i subscriptions (awaiting rest) is_forced r run at calm all =
    awaiting-Ends i r rest w subscriptions is_forced at all (reached-Inv moves w run)
close_completes moves w i subscriptions stopped is_forced r run at calm all =
    stopped-Ends i r w subscriptions is_forced at (reached-Inv moves w run)
