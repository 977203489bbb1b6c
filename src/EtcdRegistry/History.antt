-- ===== src/EtcdRegistry/History.antt =====
-- The history of a service in etcd, as a watch of pkg/registry/etcd/registry.go delivers it.
use kc.Prelude.{
  ℕ, zero, suc, ◌+◌, ◌≤◌, ◌≡◌, refl, sym, ap, ◌∙◌, Option, none, some, List, [], ◌∷◌, ◌++◌,
  if◌then◌else◌, take, arith, Bool-cases, inl, inr, ◌⊎◌,
}
use kc.Prelude.Names.{String, same}
use kc.Balancer.State.{Instance}
use kc.EtcdRegistry.{WatchEvent, deleted, stored}

abbrev pub drop {ℓ} : {A : Type ℓ} → ℕ → List A → List A
drop zero xs = xs
drop (suc n) [] = []
drop (suc n) (x ∷ xs) = drop n xs

-- The changes of etcd, one for each revision, since each registration is a single key with its own
-- lease; `none` is one of another service.
abbrev pub History : Type 0
History = List (Option WatchEvent)

-- What the watch delivers of them.
abbrev pub own_events : History → List WatchEvent
own_events [] = []
own_events (none ∷ rest) = own_events rest
own_events (some event ∷ rest) = event ∷ own_events rest

-- What a change makes of the value under a key.
abbrev pub effect : String → Option WatchEvent → Option Instance → Option Instance
effect id none v = v
effect id (some (deleted gone)) v = if same id gone then none else v
effect id (some (stored key none)) v = if same id key then none else v
effect id (some (stored key (some instance))) v = if same id key then some instance else v

abbrev pub replay : String → History → Option Instance → Option Instance
replay id [] v = v
replay id (event ∷ rest) v = replay id rest (effect id event v)

-- The content of etcd at a revision.
abbrev pub content : History → ℕ → String → Option Instance
content history revision id = replay id (take revision history) none

pub replay-append :
    (id : String) (xs ys : History) (v : Option Instance)
    → replay id (xs ++ ys) v ≡ replay id ys (replay id xs v)
replay-append id [] ys v = refl
replay-append id (x ∷ xs) ys v = replay-append id xs ys (effect id x v)

pub take-append-drop {ℓ} : {A : Type ℓ} (n : ℕ) (xs : List A) → take n xs ++ drop n xs ≡ xs
take-append-drop zero xs = refl
take-append-drop (suc n) [] = refl
take-append-drop (suc n) (x ∷ xs) = ap (λ l. x ∷ l) (take-append-drop n xs)

drop-nil {ℓ} : {A : Type ℓ} (n : ℕ) → drop {A = A} n [] ≡ []
drop-nil zero = refl
drop-nil (suc n) = refl

pub drop-drop {ℓ} : {A : Type ℓ} (m n : ℕ) (xs : List A) → drop n (drop m xs) ≡ drop (m + n) xs
drop-drop zero n xs = ap (λ k. drop k xs) (omega arith)
drop-drop (suc m) n [] = drop-nil n ∙ sym (drop-nil (suc m + n))
drop-drop (suc m) n (x ∷ xs) =
    drop-drop m n xs ∙ ap (λ k. drop k (x ∷ xs)) {x = suc (m + n)} {y = suc m + n} (omega arith)

-- Events either decide the value under a name, or leave it.
Decides : String → History → Type 0
Decides id xs =
    ((v w : Option Instance) → replay id xs v ≡ replay id xs w)
    ⊎ ((v : Option Instance) → replay id xs v ≡ v)

effect_decides :
    (id : String) (event : Option WatchEvent)
    → ((v w : Option Instance) → effect id event v ≡ effect id event w)
      ⊎ ((v : Option Instance) → effect id event v ≡ v)
effect_decides id none = inr (λ v. refl)
effect_decides id (some (stored key none)) = elim (Bool-cases (same id key)) [
  | inl own ↦ inl (λ v w. ground (arith, own))
  | inr other ↦ inr (λ v. ground (arith, other))
]
effect_decides id (some (deleted gone)) = elim (Bool-cases (same id gone)) [
  | inl own ↦ inl (λ v w. ground (arith, own))
  | inr other ↦ inr (λ v. ground (arith, other))
]
effect_decides id (some (stored key (some instance))) = elim (Bool-cases (same id key)) [
  | inl own ↦ inl (λ v w. ground (arith, own))
  | inr other ↦ inr (λ v. ground (arith, other))
]

decides : (id : String) (xs : History) → Decides id xs
unfolding Decides
decides id [] = inr (λ v. refl)
decides id (x ∷ xs) = by_cases (effect_decides id x) (decides id xs)
  where
    by_cases :
        ((v w : Option Instance) → effect id x v ≡ effect id x w)
          ⊎ ((v : Option Instance) → effect id x v ≡ v)
        → Decides id xs
        → Decides id (x ∷ xs)
    by_cases first (inl rest) = inl (λ v w. rest (effect id x v) (effect id x w))
    by_cases (inl first) (inr rest) = inl (λ v w. ap (replay id xs) (first v w))
    by_cases (inr first) (inr rest) = inr (λ v. rest (effect id x v) ∙ first v)

-- Events that are replayed change nothing.
replay_twice :
    (id : String) (xs : History) (v : Option Instance)
    → replay id xs (replay id xs v) ≡ replay id xs v
unfolding Decides
replay_twice id xs v = by_cases (decides id xs)
  where
    by_cases : Decides id xs → replay id xs (replay id xs v) ≡ replay id xs v
    by_cases (inl constant) = constant (replay id xs v) v
    by_cases (inr same_value) = same_value (replay id xs v)

-- The events from an earlier moment on, replayed on a later content, lead to the last content.
pub replay_behind :
    (id : String) (history : History) (cursor revision : ℕ) (v : Option Instance)
    → cursor ≤ revision
    → replay id (drop cursor history) (replay id (take revision history) v) ≡ replay id history v
replay_behind id [] zero zero v h = refl
replay_behind id [] zero (suc r) v h = refl
replay_behind id [] (suc c) zero v h = refl
replay_behind id [] (suc c) (suc r) v h = refl
replay_behind id (x ∷ xs) (suc c) zero v h = absurd (omega arith)
replay_behind id (x ∷ xs) (suc c) (suc r) v h =
    replay_behind id xs c r (effect id x v) (omega arith)
replay_behind id (x ∷ xs) zero r v h =
    sym (ap (λ l. replay id l (replay id first v)) (take-append-drop r (x ∷ xs)))
    ∙ replay-append id first last (replay id first v)
    ∙ ap (replay id last) (replay_twice id first v)
    ∙ sym (replay-append id first last v)
    ∙ ap (λ l. replay id l v) (take-append-drop r (x ∷ xs))
  where
    first : History
    first = take r (x ∷ xs)

    last : History
    last = drop r (x ∷ xs)
