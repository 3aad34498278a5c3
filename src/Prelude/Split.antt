-- ===== src/Prelude/Split.antt =====
-- `str::split` at one character, and `str::split_once`.
use Prim.Native.Nat.{ℕ}
use mathlib.Core.Path.{◌≡◌, refl}
use mathlib.Core.Bool.{Bool, false}
use mathlib.Core.List.{List, [], ◌∷◌, ◌++◌}
use native.Mathlib.Omega.{arith}
use hop_rs.Prelude.Tests.{nat_eq, if◌then◌else◌}
use hop_rs.Prelude.Lists.{any}
use hop_rs.Prelude.Texts.{Text}

-- `str::contains` of a character
abbrev pub has_char : ℕ → Text → Bool
has_char c s = any (λ d. nat_eq d c) s

onto_first : ℕ → List Text → List Text
onto_first c [] = (c ∷ []) ∷ []
onto_first c (part ∷ parts) = (c ∷ part) ∷ parts

-- The parts between the separators: one more than there are separators.
unfoldable pub split_on : ℕ → Text → List Text
unfolding onto_first
split_on at [] = [] ∷ []
split_on at (c ∷ s) =
    let rest = split_on at s in if nat_eq c at then [] ∷ rest else onto_first c rest

-- A text without the separator is one part.
pub split_on-whole : (at : ℕ) (a : Text) → has_char at a ≡ false → split_on at a ≡ a ∷ []
unfolding split_on onto_first
split_on-whole at [] h = refl
split_on-whole at (c ∷ a) h = ground (arith, split_on-whole at a)

-- The first part ends at the first separator.
pub split_on-first :
    (at : ℕ) (a s : Text) → has_char at a ≡ false → split_on at (a ++ at ∷ s) ≡ a ∷ split_on at s
unfolding split_on onto_first
split_on-first at [] s h = ground arith
split_on-first at (c ∷ a) s h = ground (arith, split_on-first at a s)
