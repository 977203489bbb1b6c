-- ===== src/MqRuntime/Keeping.antt =====
-- The steps of internal/mqruntime/mqruntime.go keep the invariant.
use kc.Prelude.{
  ℕ, ◌+◌, ◌-◌, ◌≡◌, refl, sym, ap, ◌∙◌, subst, Bool, true, false, not, ◌||◌, some, List, [], ◌∷◌,
  if◌then◌else◌, ◌==◌, arith, Bool-cases, inl, inr, ◌⊎◌, if_elim,
}
use kc.Prelude.Selecting.{contains, filter}
use kc.MqRuntime.{
  canceled, Subscription, Lifecycle, is_open, begin, ClosePhase, StopPhase, World, set_at, update,
  update_all, close_to, stop_to, abort, end_operation, untrack,
}
use kc.MqRuntime.Steps.{track_in, start_finish, end_finish}
use kc.MqRuntime.Invariant.{leads, Fits, Inv, Fits-Frame, aside}

module _ (w : World) where
  -- A change of the subscriptions that ends none.
  pub same_heap :
      (heap : ℕ → Subscription)
      → ((a : ℕ) → (heap a).finishing ≡ (w.heap a).finishing)
      → ((a : ℕ) → (heap a).done ≡ (w.heap a).done)
      → Inv w
      → Inv (record w { heap = heap })
  same_heap heap finishing done inv =
      aside w w.lifecycle.subscriptions w.lifecycle.operations heap w.stoppers w.accepted
        (λ shut h. h) (λ shut a h. h) (λ a h. finishing a ∙ h) inv
        (record {
          tracked = λ a e. ground (arith, finishing a, inv.sound.tracked a e);
          exited = λ a e. finishing a ∙ inv.sound.exited a (sym (done a) ∙ e);
        })

  pub led_before :
      (i : ℕ) (phase : ClosePhase)
      → (leads phase ≡ true → leads (w.closers i) ≡ true)
      → (j : ℕ) → leads (set_at w.closers i phase j) ≡ true
      → leads (w.closers j) ≡ true
  led_before i phase led j =
      if_elim (λ p. leads p ≡ true → leads (w.closers j) ≡ true) (j == i)
        (λ e h. subst (λ k. leads (w.closers k) ≡ true) (ground (arith, e)) (led h)) (λ e h. h)

  -- A call of Close moves on.
  pub moved :
      (i : ℕ) (phase : ClosePhase)
      → is_open w.lifecycle.state ≡ false
      → Fits w phase
      → (leads phase ≡ true → leads (w.closers i) ≡ true)
      → Inv w
      → Inv (close_to w i phase)
  moved i phase shut fit led inv = record {
    sound = record { tracked = inv.sound.tracked; exited = inv.sound.exited };
    untouched = λ opened. absurd (ground (arith, opened, shut));
    fits = λ j.
        Fits-Frame w (close_to w i phase)
          (record {
            same_state = refl;
            same_done = refl;
            same_err = refl;
            same_releases = refl;
            calm = λ shut h. h;
            settled = λ shut a h. h;
            growing = λ a h. h;
          })
          (set_at w.closers i phase j) (if_elim (Fits w) (j == i) (λ e. fit) (λ e. inv.fits j));
    single = λ j k leads_j leads_k.
        inv.single j k (led_before i phase led j leads_j) (led_before i phase led k leads_k);
  }

pub update_same :
    (field : Subscription → Bool) (f : Subscription → Subscription)
    → ((s : Subscription) → field (f s) ≡ field s)
    → (a : ℕ) (heap : ℕ → Subscription) (b : ℕ) → field (update f a heap b) ≡ field (heap b)
update_same field f same a heap b =
    if_elim (λ s. field s ≡ field (heap b)) (b == a)
      (λ e. same (heap a) ∙ ap (λ c. field (heap c)) (ground (arith, e))) (λ e. refl)

pub update_all_same :
    (field : Subscription → Bool) (f : Subscription → Subscription)
    → ((s : Subscription) → field (f s) ≡ field s)
    → (list : List ℕ) (heap : ℕ → Subscription) (b : ℕ)
    → field (update_all f list heap b) ≡ field (heap b)
update_all_same field f same [] heap b = refl
update_all_same field f same (a ∷ rest) heap b =
    update_all_same field f same rest (update f a heap) b ∙ update_same field f same a heap b

filter_others :
    (a b : ℕ)
    → (b == a) ≡ false
    → (list : List ℕ) → contains (filter (λ c. not (c == a)) list) b ≡ contains list b
filter_others a b other [] = refl
filter_others a b other (c ∷ rest) =
    let more = filter_others a b other rest in
    elim (Bool-cases (c == a)) [
      | inl same ↦ ground (arith, same, more, other)
      | inr apart ↦ ground (arith, apart, more)
    ]

pub begin-Inv : (w : World) → Inv w → Inv (record w { lifecycle = (begin w.lifecycle).0 })
unfolding begin
begin-Inv w inv =
    if_elim (λ (r : Lifecycle × Bool). Inv (record w { lifecycle = r.0 }))
      (is_open w.lifecycle.state)
      (λ opened.
        aside w w.lifecycle.subscriptions (w.lifecycle.operations + 1) w.heap w.stoppers w.accepted
          (λ shut h. absurd (ground (arith, opened, shut))) (λ shut a h. h) (λ a h. h) inv
          (record { tracked = inv.sound.tracked; exited = inv.sound.exited }))
      (λ shut. inv)

pub track-Inv : (w : World) (a : ℕ) → Inv w → Inv (track_in w a)
track-Inv w a inv = by_state (Bool-cases (is_open w.lifecycle.state))
  where
    listed : List ℕ
    listed =
        if contains w.lifecycle.subscriptions a
        then w.lifecycle.subscriptions
        else a ∷ w.lifecycle.subscriptions

    tracks : World
    tracks = record w {
      lifecycle = record w.lifecycle { subscriptions = listed };
      accepted = a ∷ w.accepted;
    }

    still :
        (b : ℕ)
        → contains (a ∷ w.accepted) b ≡ true
        → (contains listed b || (w.heap b).finishing) ≡ true
    still b e = elim (Bool-cases (b == a)) [
      | inl own ↦
          let same =
            subst (λ c. contains w.lifecycle.subscriptions c ≡ contains w.lifecycle.subscriptions a)
              {x = a} {y = b} (ground (arith, own)) refl in
          ground (arith, own, same)
      | inr other ↦ ground (arith, other, inv.sound.tracked b (ground (arith, e, other)))
    ]

    by_state :
        (is_open w.lifecycle.state ≡ true) ⊎ (is_open w.lifecycle.state ≡ false)
        → Inv (track_in w a)
    by_state (inr shut) = subst Inv {x = w} (ground (arith, shut)) inv
    by_state (inl opened) = subst Inv {x = tracks} (ground (arith, opened)) (
        aside w listed w.lifecycle.operations w.heap w.stoppers (a ∷ w.accepted) (λ shut h. h)
          (λ shut b h. absurd (ground (arith, opened, shut))) (λ b h. h) inv
          (record { tracked = still; exited = inv.sound.exited }))

pub end-Inv :
    (w : World) (l : Lifecycle)
    → end_operation w.lifecycle ≡ some l
    → Inv w
    → Inv (record w { lifecycle = l })
end-Inv w l e inv =
    subst (λ k. Inv (record w { lifecycle = k }))
      {x = record w.lifecycle { operations = w.lifecycle.operations - 1 }} (ground (arith, e))
      (aside w w.lifecycle.subscriptions (w.lifecycle.operations - 1) w.heap w.stoppers w.accepted
        (λ shut h. omega arith) (λ shut a h. h) (λ a h. h) inv
        (record { tracked = inv.sound.tracked; exited = inv.sound.exited }))

pub start_finish-Inv : (w : World) (a : ℕ) → Inv w → Inv (start_finish w a)
start_finish-Inv w a inv = if_elim Inv (w.heap a).finishing (λ e. inv) (λ e. finishes)
  where
    heap : ℕ → Subscription
    heap = update (λ s. record (abort canceled s) { finishing = true }) a w.heap

    finishing_now : (b : ℕ) → (b == a) ≡ true → (heap b).finishing ≡ true
    finishing_now b e = ground (arith, e)

    heap_others : (b : ℕ) → (b == a) ≡ false → heap b ≡ w.heap b
    heap_others b e = ground (arith, e)

    still :
        (b : ℕ)
        → contains w.accepted b ≡ true
        → (contains (untrack w.lifecycle a).subscriptions b || (heap b).finishing) ≡ true
    still b e = elim (Bool-cases (b == a)) [
      | inl own ↦ ground (arith, finishing_now b own)
      | inr other ↦
          let kept = filter_others a b other w.lifecycle.subscriptions in
          let same = ap (λ s. s.finishing) (heap_others b other) in
          ground (arith, kept, same, inv.sound.tracked b e)
    ]

    grows : (b : ℕ) → (w.heap b).finishing ≡ true → (heap b).finishing ≡ true
    grows b e = elim (Bool-cases (b == a)) [
      | inl own ↦ finishing_now b own
      | inr other ↦ ap (λ s. s.finishing) (heap_others b other) ∙ e
    ]

    exits : (b : ℕ) → (heap b).done ≡ true → (heap b).finishing ≡ true
    exits b e = elim (Bool-cases (b == a)) [
      | inl own ↦ finishing_now b own
      | inr other ↦ grows b (inv.sound.exited b (sym (ap (λ s. s.done) (heap_others b other)) ∙ e))
    ]

    finishes : Inv (record w { lifecycle = untrack w.lifecycle a; heap = heap })
    finishes =
        aside w (untrack w.lifecycle a).subscriptions w.lifecycle.operations heap w.stoppers
          w.accepted (λ shut h. h) (λ shut b h. h) grows inv
          (record { tracked = still; exited = exits })

pub end_finish-Inv : (w : World) (a : ℕ) → Inv w → Inv (end_finish w a)
end_finish-Inv w a inv = by_test (Bool-cases (w.heap a).finishing)
  where
    heap : ℕ → Subscription
    heap = update (λ s. record s { done = true }) a w.heap

    same_finishing : (b : ℕ) → (heap b).finishing ≡ (w.heap b).finishing
    same_finishing b =
        update_same (λ s. s.finishing) (λ s. record s { done = true }) (λ s. refl) a w.heap b

    exits : (w.heap a).finishing ≡ true → (b : ℕ) → (heap b).done ≡ true → (heap b).finishing ≡ true
    exits begun b e = elim (Bool-cases (b == a)) [
      | inl own ↦
          same_finishing b
          ∙ subst (λ c. (w.heap c).finishing ≡ true) {x = a} {y = b} (ground (arith, own)) begun
      | inr other ↦ same_finishing b ∙ inv.sound.exited b (ground (arith, other, e))
    ]

    by_test : ((w.heap a).finishing ≡ true) ⊎ ((w.heap a).finishing ≡ false) → Inv (end_finish w a)
    by_test (inr unbegun) = subst Inv {x = w} (ground (arith, unbegun)) inv
    by_test (inl begun) = subst Inv {x = record w { heap = heap }} (ground (arith, begun)) (
        aside w w.lifecycle.subscriptions w.lifecycle.operations heap w.stoppers w.accepted
          (λ shut h. h) (λ shut b h. h) (λ b h. same_finishing b ∙ h) inv
          (record {
            tracked = λ b e. ground (arith, same_finishing b, inv.sound.tracked b e);
            exited = exits begun;
          }))

-- Stop and Abort cancel contexts, which ends no subscription.
pub updated-Inv :
    (w : World) (f : Subscription → Subscription) (a : ℕ)
    → ((s : Subscription) → (f s).finishing ≡ s.finishing)
    → ((s : Subscription) → (f s).done ≡ s.done)
    → Inv w
    → Inv (record w { heap = update f a w.heap })
updated-Inv w f a finishing done =
    same_heap w (update f a w.heap) (update_same (λ s. s.finishing) f finishing a w.heap)
      (update_same (λ s. s.done) f done a w.heap)

pub stop_to-Inv : (w : World) (i : ℕ) (phase : StopPhase) → Inv w → Inv (stop_to w i phase)
stop_to-Inv w i phase inv =
    aside w w.lifecycle.subscriptions w.lifecycle.operations w.heap (set_at w.stoppers i phase)
      w.accepted (λ shut h. h) (λ shut a h. h) (λ a h. h) inv
      (record { tracked = inv.sound.tracked; exited = inv.sound.exited })
