-- ===== src/Outbox/Shards/Sorting.antt =====
-- The sorted node names of assignment in pkg/outbox/storage.go.
use kc.Prelude.{
  ℕ, zero, suc, ◌≡◌, refl, ap, ◌∙◌, subst, some-injective, Bool, true, false, some, List, [], ◌∷◌,
  length, ◌||◌, arith, Bool-cases, inl, inr, All, get_elem?,
}
use kc.Prelude.Names.{String, same, same_self}
use kc.Outbox.Names.{before, before_itself, before_trans, before_total}
use kc.Outbox.Shards.{insert_name, sort_names, search_names}

abbrev pub has : List String → String → Bool
has [] x = false
has (y ∷ ys) x = same x y || has ys x

abbrev pub IsDistinct : List String → Type 0
IsDistinct [] = Unit
IsDistinct (x ∷ xs) = (has xs x ≡ false) × IsDistinct xs

-- Each name comes before all that follow it.
abbrev pub IsAscending : List String → Type 0
IsAscending [] = Unit
IsAscending (x ∷ xs) = All (λ y. before x y ≡ true) xs × IsAscending xs

All-insert_name :
    (P : String → Type 0) (x : String) (ys : List String)
    → P x
    → All P ys
    → All P (insert_name x ys)
All-insert_name P x [] p all = (p, tt)
All-insert_name P x (y ∷ ys) p (q, all) = elim (Bool-cases (before y x)) [
  | inl first ↦
      subst (All P) {x = y ∷ insert_name x ys} {y = insert_name x (y ∷ ys)} (simp first)
        (q, All-insert_name P x ys p all)
  | inr later ↦
      subst (All P) {x = x ∷ y ∷ ys} {y = insert_name x (y ∷ ys)} (simp later) (p, (q, all))
]

has-insert_name :
    (x z : String) (ys : List String) → has (insert_name x ys) z ≡ (same z x || has ys z)
has-insert_name x z [] = refl
has-insert_name x z (y ∷ ys) = ground (arith, has-insert_name x z ys)

All-before :
    (x y : String) (ys : List String)
    → before x y ≡ true
    → All (λ z. before y z ≡ true) ys
    → All (λ z. before x z ≡ true) ys
All-before x y [] h all = tt
All-before x y (z ∷ zs) h (p, all) = (before_trans x y z h p, All-before x y zs h all)

insert_name-IsAscending :
    (x : String) (ys : List String)
    → has ys x ≡ false
    → IsAscending ys
    → IsAscending (insert_name x ys)
insert_name-IsAscending x [] new all = (tt, tt)
insert_name-IsAscending x (y ∷ ys) new (all, rest) = elim (Bool-cases (before y x)) [
  | inl first ↦
      subst IsAscending {x = y ∷ insert_name x ys} {y = insert_name x (y ∷ ys)} (simp first) (
        All-insert_name (λ z. before y z ≡ true) x ys first all,
        insert_name-IsAscending x ys (ground (arith, new)) rest,
      )
  | inr later ↦
      let x_first : before x y ≡ true =
        ground (arith, new, later, before_total x y, same_self x, ap (same x) {x = x} {y = y}) in
      subst IsAscending {x = x ∷ y ∷ ys} {y = insert_name x (y ∷ ys)} (simp later)
        ((x_first, All-before x y ys x_first all), (all, rest))
]

pub has-sort_names : (xs : List String) (z : String) → has (sort_names xs) z ≡ has xs z
unfolding sort_names
has-sort_names [] z = refl
has-sort_names (x ∷ xs) z = ground (arith, has-insert_name x z (sort_names xs), has-sort_names xs z)

pub sort_names-IsAscending : (xs : List String) → IsDistinct xs → IsAscending (sort_names xs)
unfolding sort_names
sort_names-IsAscending [] d = tt
sort_names-IsAscending (x ∷ xs) (new, d) =
    insert_name-IsAscending x (sort_names xs) (has-sort_names xs x ∙ new)
      (sort_names-IsAscending xs d)

length-insert_name : (x : String) (ys : List String) → length (insert_name x ys) ≡ suc (length ys)
length-insert_name x [] = refl
length-insert_name x (y ∷ ys) = ground (arith, length-insert_name x ys)

pub length-sort_names : (xs : List String) → length (sort_names xs) ≡ length xs
unfolding sort_names
length-sort_names [] = refl
length-sort_names (x ∷ xs) =
    omega (arith, length-insert_name x (sort_names xs), length-sort_names xs)

All-get_elem :
    (P : String → Type 0) (xs : List String) (j : ℕ) (x : String)
    → All P xs
    → get_elem? xs j ≡ some x
    → P x
All-get_elem P [] j x all e = absurd (ground (arith, e))
All-get_elem P (y ∷ ys) zero x (p, all) e = subst P (some-injective e) p
All-get_elem P (y ∷ ys) (suc j) x (p, all) e = All-get_elem P ys j x all e

-- The search finds the place of a name.
pub search_names_found :
    (xs : List String) (j : ℕ) (x : String)
    → IsAscending xs
    → get_elem? xs j ≡ some x
    → search_names xs x ≡ j
unfolding search_names
search_names_found [] j x all e = absurd (ground (arith, e))
search_names_found (y ∷ ys) zero x (all, rest) e =
    ground (arith, before_itself x, ap (λ z. before z x) (some-injective e))
search_names_found (y ∷ ys) (suc j) x (all, rest) e =
    ground
      (arith, All-get_elem (λ z. before y z ≡ true) ys j x all e, search_names_found ys j x rest e)

pub get_elem-has :
    (xs : List String) (j : ℕ) (x : String) → get_elem? xs j ≡ some x → has xs x ≡ true
get_elem-has [] j x e = absurd (ground (arith, e))
get_elem-has (y ∷ ys) zero x e = ground (arith, ap (same x) (some-injective e), same_self x)
get_elem-has (y ∷ ys) (suc j) x e = ground (arith, get_elem-has ys j x e)
