-- ===== src/Base/Text.antt =====
-- Texts of the protocol (`std::string`, string literals) as their lists of character codes.
use Prim.Native.Nat.{ℕ}
use Prim.Native.Char.{code}
use Prim.Native.String.{String}
use mathlib.Core.Path.{◌≡◌}
use mathlib.Core.Logic.{◌↔◌}
use mathlib.Core.Bool.{Bool, true, false, ◌&&◌}
use mathlib.Core.List.{List, [], ◌∷◌}
use native.Mathlib.Omega.{arith}
use two_phase_commit_protoco.Base.Tests.{◌==◌}

abbrev pub Text : Type 0
Text = List ℕ

abbrev pub codes : String → Text
codes String.[] = []
codes (String.◌∷◌ c s) = code c ∷ codes s

-- `s == t`, and `s.compare(t) == 0`.
unfoldable pub eqb_text : Text → Text → Bool
eqb_text [] [] = true
eqb_text [] (y ∷ ys) = false
eqb_text (x ∷ xs) [] = false
eqb_text (x ∷ xs) (y ∷ ys) = (x == y) && eqb_text xs ys

pub eqb_text_iff : (s t : Text) → (eqb_text s t ≡ true) ↔ (s ≡ t)
unfolding eqb_text
eqb_text_iff [] [] = ground arith
eqb_text_iff [] (y ∷ ys) = ground arith
eqb_text_iff (x ∷ xs) [] = ground arith
eqb_text_iff (x ∷ xs) (y ∷ ys) = ground (arith, eqb_text_iff xs ys)
