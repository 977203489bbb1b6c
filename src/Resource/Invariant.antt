-- ===== src/Resource/Invariant.antt =====
-- What holds of the maps and the calls of pkg/resource/resource.go at every moment.
use kc.Prelude.{
  ℕ, ◌≡◌, ◌≢◌, sym, ap, ◌∙◌, true, false, some, none, ◌==◌, arith, Bool-cases, inl, inr, ◌⊎◌,
}
use kc.Prelude.Names.{same→eq, same_self}
use kc.Resource.{
  ResourceKey, same_key, Created, Answer, answer_of, Phase, making, waiting, answered, Request,
  World, set_phase, open_call, settle,
}

same_key→eq : (k l : ResourceKey) → same_key k l ≡ true → k ≡ l
unfolding same_key
same_key→eq k l h =
    let names = same→eq k.name l.name (ground (arith, h)) in
    let types = typ_eq (ground (arith, h)) in λ i. record { name = names i; typ = types i }
  where
    typ_eq : (k.typ == l.typ) ≡ true → k.typ ≡ l.typ
    typ_eq e = ground (arith, e)

same_key_self : (k : ResourceKey) → same_key k k ≡ true
unfolding same_key
same_key_self k = ground (arith, same_self k.name)

-- The call c is over, and its factory has ended as its record says.
abbrev pub Settled : World → ℕ → Type 0
Settled w c = (r : Created) × (w.calls c ≡ some r) × (w.phases c ≡ answered (answer_of r))

module _ (requests : ℕ → Request) where
  abbrev pub key : ℕ → ResourceKey
  key i = (requests i).key

  -- A call that runs its factory is the one that `creating` names.
  abbrev pub Registers : World → Type 0
  Registers w = (i : ℕ) → w.phases i ≡ making → w.creating (key i) ≡ some i

  -- A call waits for one of its own key that runs its factory or is over.
  abbrev pub Follows : World → Type 0
  Follows w =
      (i c : ℕ) → w.phases i ≡ waiting c → (key c ≡ key i) × ((w.phases c ≡ making) ⊎ Settled w c)

  -- What `creating` names runs its factory, under that key.
  abbrev pub Creates : World → Type 0
  Creates w =
      (k : ResourceKey) (c : ℕ) → w.creating k ≡ some c → (key c ≡ k) × (w.phases c ≡ making)

  abbrev pub Invariant : World → Type 0
  Invariant w = Registers w × Follows w × Creates w

  -- The call i is in a phase in which none waits for it.
  abbrev pub IsFree : World → ℕ → Type 0
  IsFree w i = (w.phases i ≢ making) × ((a : Answer) → w.phases i ≢ answered a)

  -- What a call that begins to wait has to know.
  abbrev pub May : World → ℕ → Phase → Type 0
  May w i phase =
      (phase ≢ making) × ((c : ℕ) → phase ≡ waiting c → (key c ≡ key i) × (w.phases c ≡ making))

  pub set_phase-Invariant :
      (w : World) (i : ℕ) (phase : Phase)
      → IsFree w i
      → May w i phase
      → Invariant w
      → Invariant (set_phase w i phase)
  set_phase-Invariant w i phase (idle, not_over) (quiet, waits) (registers, follows, creates) =
      (registers', follows', creates')
    where
      registers' : Registers (set_phase w i phase)
      registers' j e = elim (Bool-cases (j == i)) [
        | inl own ↦ absurd (quiet (ground (arith, own, e)))
        | inr other ↦ registers j (ground (arith, other, e))
      ]

      apart : (c : ℕ) → w.phases c ≡ making → (c == i) ≡ false
      apart c m = elim (Bool-cases (c == i)) [
        | inl own ↦ absurd (idle (ap w.phases (ground (arith, own)) ∙ m))
        | inr other ↦ other
      ]

      settled : (c : ℕ) → Settled w c → Settled (set_phase w i phase) c
      settled c (r, at, over) = elim (Bool-cases (c == i)) [
        | inl own ↦ absurd (not_over (answer_of r) (ap w.phases (ground (arith, own)) ∙ over))
        | inr other ↦ (r, at, ground (arith, other, over))
      ]

      still :
          (c : ℕ)
          → (w.phases c ≡ making) ⊎ Settled w c
          → ((set_phase w i phase).phases c ≡ making) ⊎ Settled (set_phase w i phase) c
      still c (inl m) = inl (ground (arith, m, apart c m))
      still c (inr s) = inr (settled c s)

      follows' : Follows (set_phase w i phase)
      follows' j c e = elim (Bool-cases (j == i)) [
        | inl own ↦
            let f = waits c (ground (arith, own, e)) in
            (f.0 ∙ ap key (ground (arith, own)), still c (inl f.1))
        | inr other ↦ let f = follows j c (ground (arith, other, e)) in (f.0, still c f.1)
      ]

      creates' : Creates (set_phase w i phase)
      creates' k c e = let f = creates k c e in (f.0, ground (arith, f.1, apart c f.1))

  pub open_call-Invariant :
      (w : World) (i : ℕ)
      → IsFree w i
      → w.creating (key i) ≡ none
      → Invariant w
      → Invariant (open_call w (key i) i)
  open_call-Invariant w i (idle, not_over) none_yet (registers, follows, creates) =
      (registers', follows', creates')
    where
      apart : (c : ℕ) → w.phases c ≡ making → (c == i) ≡ false
      apart c m = elim (Bool-cases (c == i)) [
        | inl own ↦ absurd (idle (ap w.phases (ground (arith, own)) ∙ m))
        | inr other ↦ other
      ]

      registers' : Registers (open_call w (key i) i)
      registers' j e = elim (Bool-cases (j == i)) [
        | inl own ↦ ground (
          arith,
          own,
          same_key_self (key i),
          ap (λ x. same_key (key x) (key i)) {x = j} {y = i} (ground (arith, own)),
        )
        | inr other ↦ elim (Bool-cases (same_key (key j) (key i))) [
          | inl mine ↦ absurd (
              ground (
                arith,
                none_yet,
                registers j (ground (arith, other, e)),
                ap w.creating (same_key→eq (key j) (key i) mine),
              ))
          | inr apart_key ↦ ground (arith, apart_key, registers j (ground (arith, other, e)))
        ]
      ]

      settled : (c : ℕ) → Settled w c → Settled (open_call w (key i) i) c
      settled c (r, at, over) = elim (Bool-cases (c == i)) [
        | inl own ↦ absurd (not_over (answer_of r) (ap w.phases (ground (arith, own)) ∙ over))
        | inr other ↦ (r, ground (arith, other, at), ground (arith, other, over))
      ]

      still :
          (c : ℕ)
          → (w.phases c ≡ making) ⊎ Settled w c
          → ((open_call w (key i) i).phases c ≡ making) ⊎ Settled (open_call w (key i) i) c
      still c (inl m) = inl (ground (arith, m, apart c m))
      still c (inr s) = inr (settled c s)

      follows' : Follows (open_call w (key i) i)
      follows' j c e = elim (Bool-cases (j == i)) [
        | inl own ↦ absurd (ground (arith, own, e))
        | inr other ↦ let f = follows j c (ground (arith, other, e)) in (f.0, still c f.1)
      ]

      creates' : Creates (open_call w (key i) i)
      creates' k c e = elim (Bool-cases (same_key k (key i))) [
        | inl mine ↦
            let at : c ≡ i = ground (arith, mine, e) in
            (ap key at ∙ sym (same_key→eq k (key i) mine), ground (arith, at))
        | inr other ↦
            let f = creates k c (ground (arith, other, e)) in
            (f.0, ground (arith, f.1, apart c f.1))
      ]

  pub settle-Invariant :
      (w : World) (i : ℕ) (r : Created)
      → w.phases i ≡ making
      → Invariant w
      → Invariant (settle w (key i) i r)
  settle-Invariant w i r mine (registers, follows, creates) = (registers', follows', creates')
    where
      registers' : Registers (settle w (key i) i r)
      registers' j e = elim (Bool-cases (j == i)) [
        | inl own ↦ absurd (ground (arith, own, e))
        | inr other ↦ elim (Bool-cases (same_key (key j) (key i))) [
          | inl alike ↦ absurd (
              ground (
                arith,
                other,
                registers i mine,
                registers j (ground (arith, other, e)),
                ap w.creating (same_key→eq (key j) (key i) alike),
              ))
          | inr apart ↦ ground (arith, apart, registers j (ground (arith, other, e)))
        ]
      ]

      still :
          (c : ℕ)
          → (w.phases c ≡ making) ⊎ Settled w c
          → ((settle w (key i) i r).phases c ≡ making) ⊎ Settled (settle w (key i) i r) c
      still c (inl m) = elim (Bool-cases (c == i)) [
        | inl own ↦ inr (r, ground (arith, own), ground (arith, own))
        | inr other ↦ inl (ground (arith, other, m))
      ]
      still c (inr (was, at, over)) = elim (Bool-cases (c == i)) [
        | inl own ↦ inr (r, ground (arith, own), ground (arith, own))
        | inr other ↦ inr (was, ground (arith, other, at), ground (arith, other, over))
      ]

      follows' : Follows (settle w (key i) i r)
      follows' j c e = elim (Bool-cases (j == i)) [
        | inl own ↦ absurd (ground (arith, own, e))
        | inr other ↦ let f = follows j c (ground (arith, other, e)) in (f.0, still c f.1)
      ]

      creates' : Creates (settle w (key i) i r)
      creates' k c e = elim (Bool-cases (same_key k (key i))) [
        | inl alike ↦ absurd (ground (arith, alike, e))
        | inr other ↦
            let f = creates k c (ground (arith, other, e)) in
            (
              f.0,
              elim (Bool-cases (c == i)) [
                | inl own ↦ absurd (
                    ground (
                      arith,
                      other,
                      same_key_self (key i),
                      ap (λ x. same_key x (key i)) (sym f.0),
                      ap (λ x. same_key (key x) (key i)) {x = c} {y = i} (ground (arith, own)),
                    ))
                | inr apart ↦ ground (arith, apart, f.1)
              ],
            )
      ]
