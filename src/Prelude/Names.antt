-- ===== src/Prelude/Names.antt =====
-- Names and the maps that they key: Go's strings, and `map[string]T`.
use Prim.Native.String.{String as NativeString}
use text.Mathlib.Text.{◌==◌ as same_text}
use text.Mathlib.TextEquality.{eq_iff}
use mathlib.Core.Path.{◌≡◌, refl}
use mathlib.Core.Bool.{Bool, true}
use mathlib.Core.Option.{Option, none, some}
use package.kc.Prelude.Tests.{if◌then◌else◌}

abbrev pub String : Type 0
String = NativeString

unfoldable pub same : String → String → Bool
same s t = same_text s t

pub same→eq : (s t : String) → same s t ≡ true → s ≡ t
unfolding same
same→eq s t h = (eq_iff s t).0 h

pub same_self : (s : String) → same s s ≡ true
unfolding same
same_self s = (eq_iff s s).1 refl

-- A map from names, as the function that looks a name up.
abbrev pub Map {ℓ} : Type ℓ → Type ℓ
Map A = String → Option A

abbrev pub empty {ℓ} : {A : Type ℓ} → Map A
empty name = none

abbrev pub insert {ℓ} : {A : Type ℓ} → Map A → String → A → Map A
insert m name v = λ other. if same other name then some v else m other

abbrev pub delete {ℓ} : {A : Type ℓ} → Map A → String → Map A
delete m name = λ other. if same other name then none else m other
