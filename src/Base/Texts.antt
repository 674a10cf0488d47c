-- ===== src/Base/Texts.antt =====
-- Equality of texts is decided by the library's test, so texts are a set; the bytes of an ASCII text.
use Prim.Native.String.{String}
use Prim.Native.Char.{code}
use Prim.Native.Nat.{ℕ}
use mathlib.Core.List.{List, [], ◌∷◌}
use mathlib.Core.HLevel.{hedberg}
use mathlib.Core.Path.{◌≡◌}
use mathlib.Core.Logic.{inl, inr}
use mathlib.Core.Bool.{true, false}
use text.Mathlib.Text.{◌==◌ as str_eq}
use text.Mathlib.TextEquality.{eq_iff}
use cs2_predictor.Base.Tests.{Bool-cases}

pub String-discrete : Discrete String
String-discrete s t = elim (Bool-cases (str_eq s t)) [
  | inl same ↦ yes ((eq_iff s t).0 same)
  | inr other ↦ no (λ e. clash other ((eq_iff s t).1 e))
]
  where
    clash : str_eq s t ≡ false → str_eq s t ≡ true → ⊥
    clash p q = cc

pub String-set : IsSet String
String-set = hedberg String-discrete

-- Go's view of a text: its bytes, which are its codes where it is ASCII.
abbrev pub bytes : String → List ℕ
bytes String.[] = []
bytes (String.◌∷◌ c s) = code c ∷ bytes s
