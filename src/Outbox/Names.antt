-- ===== src/Outbox/Names.antt =====
-- The order of node names in pkg/outbox/storage.go: Go compares strings by their bytes, which for
-- texts in UTF-8 is the order of the code points.
use Prim.Native.String.{[], ◌∷◌}
use Prim.Native.Char.{code}
use Prim.Native.Nat.{compare, Ordering}
use text.Mathlib.TextEquality.{codes_equal}
use kc.Prelude.{◌≡◌, refl, ap, ◌∙◌, Bool, true, false, ltb, ◌==◌, ◌&&◌, ◌||◌, arith}
use kc.Prelude.Names.{String}

unfoldable pub before : String → String → Bool
before [] [] = false
before [] (d ∷ t) = true
before (c ∷ s) [] = false
before (c ∷ s) (d ∷ t) =
    let rest = before s t in ltb (code c) (code d) || ((code c == code d) && rest)

pub before_itself : (s : String) → before s s ≡ false
unfolding before
before_itself [] = refl
before_itself (c ∷ s) = ground (arith, before_itself s)

pub before_trans : (s t u : String) → before s t ≡ true → before t u ≡ true → before s u ≡ true
unfolding before
before_trans [] [] u h k = absurd (ground (arith, h))
before_trans [] (d ∷ t) [] h k = absurd (ground (arith, k))
before_trans [] (d ∷ t) (e ∷ u) h k = refl
before_trans (c ∷ s) [] u h k = absurd (ground (arith, h))
before_trans (c ∷ s) (d ∷ t) [] h k = absurd (ground (arith, k))
before_trans (c ∷ s) (d ∷ t) (e ∷ u) h k = ground (arith, before_trans s t u)

pub before_total : (s t : String) → before s t ≡ false → before t s ≡ false → s ≡ t
unfolding before
before_total [] [] h k = refl
before_total [] (d ∷ t) h k = absurd (ground (arith, h))
before_total (c ∷ s) [] h k = absurd (ground (arith, k))
before_total (c ∷ s) (d ∷ t) h k =
    ap (λ x. x ∷ s) (codes_equal c d (same_code (ground (arith, h, k))))
    ∙ ap (λ y. d ∷ y) (before_total s t (ground (arith, h, k)) (ground (arith, h, k)))
  where
    same_code : code c ≡ code d → compare (code c) (code d) ≡ Ordering.eq
    same_code e = ground (arith, e)
