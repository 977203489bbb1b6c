-- ===== src/Balancer/Pick/Probing.antt =====
-- The probe of an ejected instance in pkg/registry/etcd/balancer.go goes to one caller.
use kc.Prelude.{
  ℕ, ◌≤◌, ◌≡◌, ◌≢◌, sym, ap, subst, true, false, Option, some, none, List, [], ◌∷◌, All, ◌==◌,
  arith, if_elim,
}
use kc.Balancer.State.{InstanceState, ServiceState}
use kc.Balancer.Pick.{Floats, probe_refused, claim}
use kc.Balancer.Pick.Chosen.{given, Claims, claim-Claims}

claim_free :
    (fl : Floats) (s : ServiceState) (a : ℕ) (second : Option ℕ) (now : ℕ)
    → probe_refused (s.heap a) now ≡ false
    → claim fl s a second now ≡ (given s a now, some a)
unfolding claim
claim_free fl s a second now free = ground (arith, free)

-- The swaps of other callers, each with its choice, its second candidate and its time, and what they
-- get.
abbrev pub claim_all : (fl : Floats) → ServiceState → List (ℕ × Option ℕ × ℕ) → List (Option ℕ)
claim_all fl s [] = []
claim_all fl s ((chosen, second, at) ∷ rest) =
    let r = claim fl s chosen second at in r.1 ∷ claim_all fl r.0 rest

-- The item is ejected until that time, with its probe in flight.
abbrev IsProbed : ServiceState → ℕ → ℕ → Type 0
IsProbed s a until = ((s.heap a).ejected_until ≡ until) × ((s.heap a).half_open ≡ true)

module _ (fl : Floats) (a until : ℕ) (ejected : until ≢ 0) where
  claimed_apart :
      (s : ServiceState) (chosen : ℕ) (second : Option ℕ) (at : ℕ) (r : ServiceState × Option ℕ)
      → until ≤ at
      → IsProbed s a until
      → Claims s chosen second at r
      → (r.1 ≢ some a) × IsProbed r.0 a until
  claimed_apart s chosen second at (s', none) over (since, probed) (e, lost, gone) = (
    λ same. absurd (ground (arith, same)),
    subst (λ t. IsProbed t a until) (sym e) (since, probed),
  )
  claimed_apart s chosen second at (s', some b) over (since, probed) (e, free, how) = (
    λ same. apart (ground (arith, same)),
    subst (λ t. IsProbed t a until) (sym e)
        (if_elim (λ (item : InstanceState). (item.ejected_until ≡ until) × (item.half_open ≡ true))
          (a == b) (λ own. absurd (apart (ground (arith, own)))) (λ other. (since, probed))),
  )
    where
      apart : b ≡ a → ⊥
      apart same =
          let refused = subst (λ k. probe_refused (s.heap k) at ≡ false) same free in
          ground (arith, since, probed, refused, ejected, over)

  claim_all_apart :
      (claims : List (ℕ × Option ℕ × ℕ)) (s : ServiceState)
      → All (λ c. until ≤ c.2) claims
      → IsProbed s a until
      → All (λ o. o ≢ some a) (claim_all fl s claims)
  claim_all_apart [] s all h = tt
  claim_all_apart ((chosen, second, at) ∷ rest) s (over, all) h =
      let one =
        claimed_apart s chosen second at (claim fl s chosen second at) over h
          (claim-Claims fl s chosen second at) in
      (one.0, claim_all_apart rest (claim fl s chosen second at).0 all one.1)

-- An instance whose ejection is over, and whose probe is not in flight, goes to the first caller that
-- claims it, and then to no other: whatever other callers claim after that, of any instances, as
-- first or as second candidate, at any times from the end of the ejection on, and in any number, none
-- of them gets it, as long as no report comes between.
pub probe_exclusive :
    (fl : Floats) (s : ServiceState) (a : ℕ) (second : Option ℕ) (now : ℕ)
    (claims : List (ℕ × Option ℕ × ℕ))
    → (s.heap a).ejected_until ≢ 0
    → (s.heap a).ejected_until ≤ now
    → (s.heap a).half_open ≡ false
    → All (λ c. (s.heap a).ejected_until ≤ c.2) claims
    → ((claim fl s a second now).1 ≡ some a)
      × All (λ o. o ≢ some a) (claim_all fl (claim fl s a second now).0 claims)
probe_exclusive fl s a second now claims ejected over free all = (
  ap (λ r. r.1) wins,
  claim_all_apart fl a (s.heap a).ejected_until ejected claims (claim fl s a second now).0 all (
      subst (λ r. IsProbed r.0 a (s.heap a).ejected_until) (sym wins)
        (ground arith, ground (arith, ejected, over))),
)
  where
    wins : claim fl s a second now ≡ (given s a now, some a)
    wins = claim_free fl s a second now (ground (arith, free))
