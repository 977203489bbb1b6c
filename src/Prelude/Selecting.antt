-- ===== src/Prelude/Selecting.antt =====
-- What a query selects from a list of rows: those that fit, by a key, at most so many.
use Prim.Native.Nat.{ℕ, zero, suc, ◌≤◌}
use mathlib.Core.Path.{◌≡◌, sym, subst}
use mathlib.Core.Logic.{◌⊎◌, inl, inr}
use mathlib.Core.Bool.{Bool, true, false, ◌||◌}
use mathlib.Core.List.{List, [], ◌∷◌, ◌++◌}
use native.Mathlib.Omega.{arith}
use package.kc.Prelude.Tests.{ltb, ◌==◌, if◌then◌else◌, if_elim}
use package.kc.Prelude.Lists.{All, take, length}

abbrev pub contains : List ℕ → ℕ → Bool
contains [] a = false
contains (x ∷ xs) a = (a == x) || contains xs a

module _ {ℓ} {A : Type ℓ} where
  abbrev pub filter : (A → Bool) → List A → List A
  filter p [] = []
  filter p (x ∷ xs) = let rest = filter p xs in if p x then x ∷ rest else rest

  pub length-filter : (p : A → Bool) (xs : List A) → length (filter p xs) ≤ length xs
  length-filter p [] = omega arith
  length-filter p (x ∷ xs) = ground (arith, length-filter p xs)

  -- `ORDER BY key`
  abbrev pub insert_by : (A → ℕ) → A → List A → List A
  insert_by key x [] = x ∷ []
  insert_by key x (y ∷ ys) =
      let later = insert_by key x ys in if ltb (key y) (key x) then y ∷ later else x ∷ y ∷ ys

  abbrev pub order_by : (A → ℕ) → List A → List A
  order_by key [] = []
  order_by key (x ∷ xs) = insert_by key x (order_by key xs)

  pub length-take_le : (n : ℕ) (xs : List A) → length (take n xs) ≤ n
  length-take_le zero xs = omega arith
  length-take_le (suc n) [] = omega arith
  length-take_le (suc n) (x ∷ xs) = omega (arith, length-take_le n xs)

module _ {ℓ κ} {A : Type ℓ} (P : A → Type κ) where
  pub All-filter_of_All : (p : A → Bool) (xs : List A) → All P xs → All P (filter p xs)
  All-filter_of_All p [] all = tt
  All-filter_of_All p (x ∷ xs) (h, all) =
      if_elim (All P) (p x) (λ e. (h, All-filter_of_All p xs all)) (λ e. All-filter_of_All p xs all)

  All-insert_by : (key : A → ℕ) (x : A) (ys : List A) → P x → All P ys → All P (insert_by key x ys)
  All-insert_by key x [] h all = (h, tt)
  All-insert_by key x (y ∷ ys) h (k, all) =
      if_elim (All P) (ltb (key y) (key x)) (λ e. (k, All-insert_by key x ys h all))
        (λ e. (h, (k, all)))

  pub All-order_by : (key : A → ℕ) (xs : List A) → All P xs → All P (order_by key xs)
  All-order_by key [] all = tt
  All-order_by key (x ∷ xs) (h, all) =
      All-insert_by key x (order_by key xs) h (All-order_by key xs all)

  pub All-append : (xs ys : List A) → All P xs → All P ys → All P (xs ++ ys)
  All-append [] ys hx hy = hy
  All-append (x ∷ xs) ys (h, hx) hy = (h, All-append xs ys hx hy)

  pub All-take : (n : ℕ) (xs : List A) → All P xs → All P (take n xs)
  All-take zero xs all = tt
  All-take (suc n) [] all = tt
  All-take (suc n) (x ∷ xs) (h, all) = (h, All-take n xs all)

module _ {ℓ κ μ} {A : Type ℓ} (P : A → Type κ) (Q : A → Type μ) where
  pub All-map : ((x : A) → P x → Q x) → (xs : List A) → All P xs → All Q xs
  All-map f [] all = tt
  All-map f (x ∷ xs) (h, all) = (f x h, All-map f xs all)

  pub All-filter :
      (p : A → Bool)
      → ((x : A) → P x → p x ≡ true → Q x)
      → (xs : List A) → All P xs
      → All Q (filter p xs)
  All-filter p f [] all = tt
  All-filter p f (x ∷ xs) (h, all) =
      if_elim (All Q) (p x) (λ e. (f x h e, All-filter p f xs all)) (λ e. All-filter p f xs all)

-- Membership, with its place.
abbrev pub IsIn : {A : Type 0} → A → List A → Type 0
IsIn x [] = ⊥
IsIn x (y ∷ ys) = (x ≡ y) ⊎ IsIn x ys

pub IsIn-All {κ} : {A : Type 0} (P : A → Type κ) (x : A) (ys : List A) → All P ys → IsIn x ys → P x
IsIn-All P x [] all h = elim h [ ]
IsIn-All P x (y ∷ ys) (h, all) (inl e) = subst P (sym e) h
IsIn-All P x (y ∷ ys) (h, all) (inr i) = IsIn-All P x ys all i
