-- ===== src/Resource/Flight.antt =====
-- GetOrCreate of pkg/resource/resource.go over any series of steps of its callers.
use kc.Prelude.{
  ℕ, ◌≡◌, ◌≢◌, refl, sym, ap, ◌∙◌, subst, Bool, true, false, Option, some, none, List, [], ◌∷◌,
  ◌==◌, if◌then◌else◌, arith, Bool-cases, inl, inr, ◌⊎◌, some-injective,
}
use kc.Prelude.Names.{same}
use kc.Resource.{
  ResourceKey, Created, Answer, got, refused, empty_name, nil_factory, answer_of, Phase, probing,
  missed, making, waiting, answered, Request, World, update, set_resource, shutdown, set_phase,
  probe, enter, wake, advance, Move, moves, sets, shuts_down, get_or_create, apply, apply_all,
}
use kc.Resource.Invariant.{
  Settled, key, Invariant, IsFree, set_phase-Invariant, open_call-Invariant, settle-Invariant,
}

-- No call has begun, and no factory runs.
abbrev pub IsStart : World → Type 0
IsStart w = ((i : ℕ) → w.phases i ≡ probing) × ((k : ResourceKey) → w.creating k ≡ none)

module _ (requests : ℕ → Request) where
  answered-Invariant :
      (w : World) (i : ℕ) (a : Answer)
      → IsFree requests w i
      → Invariant requests w
      → Invariant requests (set_phase w i (answered a))
  answered-Invariant w i a free inv =
      set_phase-Invariant requests w i (answered a) free
        ((λ e. ground (arith, e)), λ c e. absurd (ground (arith, e))) inv

  probe-Invariant :
      (w : World) (i : ℕ)
      → IsFree requests w i
      → Invariant requests w
      → Invariant requests (probe w (requests i) i)
  probe-Invariant w i free inv =
      by_tests (same (key requests i).name "") (requests i).has_factory (w.values (key requests i))
    where
      by_tests :
          (nameless has_factory : Bool) (value : Option ℕ)
          → Invariant requests (
              if nameless
              then set_phase w i (answered (refused empty_name))
              else if has_factory
              then elim value [
                | some v ↦ set_phase w i (answered (got v))
                | none ↦ set_phase w i missed
              ]
              else set_phase w i (answered (refused nil_factory)))
      by_tests true h v = answered-Invariant w i (refused empty_name) free inv
      by_tests false false v = answered-Invariant w i (refused nil_factory) free inv
      by_tests false true (some v) = answered-Invariant w i (got v) free inv
      by_tests false true none =
          set_phase-Invariant requests w i missed free
            ((λ e. ground (arith, e)), λ c e. absurd (ground (arith, e))) inv

  enter-Invariant :
      (w : World) (i : ℕ) (value opened : Option ℕ)
      → w.creating (key requests i) ≡ opened
      → IsFree requests w i
      → Invariant requests w
      → Invariant requests (enter w (key requests i) i value opened)
  enter-Invariant w i (some v) opened known free inv = answered-Invariant w i (got v) free inv
  enter-Invariant w i none none known free inv = open_call-Invariant requests w i free known inv
  enter-Invariant w i none (some c) known free (registers, follows, creates) =
      set_phase-Invariant requests w i (waiting c) free ((λ e. ground (arith, e)), by_target)
        (registers, follows, creates)
    where
      by_target :
          (d : ℕ)
          → waiting c ≡ waiting d
          → (key requests d ≡ key requests i) × (w.phases d ≡ making)
      by_target d e = creates (key requests i) d (known ∙ ap some (ground (arith, e)))

  advance-Invariant :
      (w : World) (i : ℕ) (r : Created) (phase : Phase)
      → w.phases i ≡ phase
      → Invariant requests w
      → Invariant requests (advance w (requests i) i phase r)
  advance-Invariant w i r probing at inv =
      probe-Invariant w i ((λ m. ground (arith, at, m)), λ a m. ground (arith, at, m)) inv
  advance-Invariant w i r missed at inv =
      enter-Invariant w i (w.values (key requests i)) (w.creating (key requests i)) refl
        ((λ m. ground (arith, at, m)), λ a m. ground (arith, at, m)) inv
  advance-Invariant w i r making at inv = settle-Invariant requests w i r at inv
  advance-Invariant w i r (answered a) at inv = inv
  advance-Invariant w i r (waiting c) at inv = by_call (w.calls c)
    where
      by_call : (call : Option Created) → Invariant requests (wake w i call)
      by_call none = inv
      by_call (some done) =
          answered-Invariant w i (answer_of done)
            ((λ m. ground (arith, at, m)), λ a m. ground (arith, at, m)) inv

  apply-Invariant :
      (w : World) (m : Move) → Invariant requests w → Invariant requests (apply requests w m)
  unfolding get_or_create set_resource shutdown
  apply-Invariant w (moves i r) inv = advance-Invariant w i r (w.phases i) refl inv
  apply-Invariant w shuts_down inv = inv
  apply-Invariant w (sets k v) inv = elim (Bool-cases (same k.name "")) [
    | inl nameless ↦
        subst (Invariant requests) {x = w} {y = (set_resource w k v).0} (ground (arith, nameless))
          inv
    | inr named ↦
        subst (Invariant requests) {x = record w { values = update w.values k (some v) }}
          {y = (set_resource w k v).0} (ground (arith, named)) inv
  ]

  apply_all-Invariant :
      (w : World) (ms : List Move)
      → Invariant requests w
      → Invariant requests (apply_all requests w ms)
  apply_all-Invariant w [] inv = inv
  apply_all-Invariant w (m ∷ rest) inv =
      apply_all-Invariant (apply requests w m) rest (apply-Invariant w m inv)

  IsStart-Invariant : (w : World) → IsStart w → Invariant requests w
  IsStart-Invariant w (phases, creating) = (
    λ i e. absurd (ground (arith, phases i, e)),
    (λ i c e. absurd (ground (arith, phases i, e))),
    (λ k c e. absurd (ground (arith, creating k, e))),
  )

  -- Whatever the callers of GetOrCreate, of Set and of Shutdown do, in whatever order: while a
  -- call runs its factory, no other call under its key runs one.
  pub single_flight :
      (w : World)
      → IsStart w
      → (ms : List Move) (i j : ℕ) → i ≢ j
      → key requests i ≡ key requests j
      → (apply_all requests w ms).phases i ≡ making
      → (apply_all requests w ms).phases j ≢ making
  single_flight w start ms i j apart alike at_i at_j =
      let registers = (apply_all-Invariant w ms (IsStart-Invariant w start)).0 in
      apart (
        some-injective
          (sym (registers i at_i) ∙ ap (apply_all requests w ms).creating alike ∙ registers j at_j))

  -- The factory ends.
  lands :
      (w : World) (c : ℕ) (r : Created)
      → w.phases c ≡ making
      → ((get_or_create requests w c r).calls c ≡ some r)
        × ((get_or_create requests w c r).phases c ≡ answered (answer_of r))
  unfolding get_or_create
  lands w c r m =
      subst
        (λ p.
          ((advance w (requests c) c p r).calls c ≡ some r)
          × ((advance w (requests c) c p r).phases c ≡ answered (answer_of r)))
        (sym m) (ground arith, ground arith)

  wakes :
      (w : World) (i c : ℕ) (r done : Created)
      → w.phases i ≡ waiting c
      → w.calls c ≡ some done
      → (get_or_create requests w i r).phases i ≡ answered (answer_of done)
  unfolding get_or_create
  wakes w i c r done at over =
      subst (λ p. (advance w (requests i) i p r).phases i ≡ answered (answer_of done)) (sym at)
        (subst (λ o. (wake w i o).phases i ≡ answered (answer_of done)) (sym over) (ground arith))

  keeps_waiting :
      (w : World) (i c : ℕ) (r : Created)
      → w.phases i ≡ waiting c
      → w.phases c ≡ making
      → (get_or_create requests w c r).phases i ≡ waiting c
  unfolding get_or_create
  keeps_waiting w i c r at m =
      subst (λ p. (advance w (requests c) c p r).phases i ≡ waiting c) (sym m)
        (elim (Bool-cases (i == c)) [
          | inl own ↦
              absurd (ground (arith, ap w.phases {x = i} {y = c} (ground (arith, own)), at, m))
          | inr other ↦ ground (arith, other, at)
        ])

  -- What a call that waits for the call c can count on: c ends with an answer, or has ended with
  -- one, and the next step of the waiting call gives the same answer.
  abbrev pub IsServed : World → ℕ → ℕ → Type 0
  IsServed w i c =
      ((w.phases c ≡ making)
        × ((r r' : Created)
            → ((get_or_create requests w c r).phases c ≡ answered (answer_of r))
              × ((get_or_create requests (get_or_create requests w c r) i r').phases i
                  ≡ answered (answer_of r))))
      ⊎ ((a : Answer) × (w.phases c ≡ answered a)
          × ((r : Created) → (get_or_create requests w i r).phases i ≡ answered a))

  -- No call of GetOrCreate waits in vain. It waits for a call under its own key that runs its
  -- factory, and then both end with what the factory ends with, an error and a panic included, or
  -- for one that has ended, and then its next step gives that one's answer.
  pub waiters-IsServed :
      (w : World)
      → IsStart w
      → (ms : List Move) (i c : ℕ) → (apply_all requests w ms).phases i ≡ waiting c
      → (key requests c ≡ key requests i) × IsServed (apply_all requests w ms) i c
  waiters-IsServed w start ms i c at =
      let f = (apply_all-Invariant w ms (IsStart-Invariant w start)).1 i c at in (f.0, served f.1)
    where
      served :
          ((apply_all requests w ms).phases c ≡ making) ⊎ Settled (apply_all requests w ms) c
          → IsServed (apply_all requests w ms) i c
      served (inl m) = inl (
        m,
        λ r r'. (
          (lands (apply_all requests w ms) c r m).1,
          wakes (get_or_create requests (apply_all requests w ms) c r) i c r' r
              (keeps_waiting (apply_all requests w ms) i c r at m)
              (lands (apply_all requests w ms) c r m).0,
        ),
      )
      served (inr (r, over, ended)) =
          inr (answer_of r, ended, λ r'. wakes (apply_all requests w ms) i c r' r at over)
