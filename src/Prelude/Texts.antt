-- ===== src/Prelude/Texts.antt =====
-- Python's `str` as the list of its code points, and the string operations that the code uses.
use Prim.Native.Nat.{ℕ}
use Prim.Native.Char.{code}
use Prim.Native.String.{String}
use mathlib.Core.Bool.{Bool, true, false, ◌&&◌, ◌||◌}
use mathlib.Core.List.{List, [], ◌∷◌}
use package.pi_news_aggregator.Prelude.Tests.{Eq, ◌==◌, nat_eq, list_eq, if◌then◌else◌, ltb}
use package.pi_news_aggregator.Prelude.Lists.{contains}

abbrev pub Text : Type 0
Text = List ℕ

-- The code points of a literal.
abbrev pub codes : String → Text
codes String.[] = []
codes (String.◌∷◌ c s) = code c ∷ codes s

-- bool(s): a text or a list is truthy if it is not empty.
abbrev pub nonempty {ℓ} : {A : Type ℓ} → List A → Bool
nonempty [] = false
nonempty (x ∷ xs) = true

module _ {ℓ} {A : Type ℓ} ⦃e : Eq A⦄ where
  -- s.startswith(prefix)
  abbrev pub starts_with : List A → List A → Bool
  starts_with xs [] = true
  starts_with [] (y ∷ ys) = false
  starts_with (x ∷ xs) (y ∷ ys) = (x == y) && starts_with xs ys

  -- sub in s
  abbrev pub has_infix : List A → List A → Bool
  has_infix [] sub = starts_with [] sub
  has_infix (x ∷ xs) sub = starts_with (x ∷ xs) sub || has_infix xs sub

  -- bool(a & b), for sets as lists
  abbrev pub share : List A → List A → Bool
  share [] ys = false
  share (x ∷ xs) ys = if contains x ys then true else share xs ys

-- s <= t, in the order of code points
abbrev pub text_leb : Text → Text → Bool
text_leb [] ys = true
text_leb (x ∷ xs) [] = false
text_leb (x ∷ xs) (y ∷ ys) = if x == y then text_leb xs ys else ltb x y
