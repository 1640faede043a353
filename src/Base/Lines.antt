-- ===== src/Base/Lines.antt =====
-- The lines of a text, as Python cuts them: a return and a newline after it are one line end.
pub mod Cut
use Prim.Native.Char.{Char, code}
use Prim.Native.Nat.{ℕ}
use Prim.Native.String.{String, [], ◌∷◌, ◌++◌ as ◌<>◌}
use text.Mathlib.TextLemmas.{cons-append, nil-append}
use mathlib.Core.Path.{◌≡◌, refl, sym, ap, ◌∙◌}
use mathlib.Core.Bool.{Bool, true, false, ◌&&◌, ◌||◌}
use mathlib.Core.Logic.{◌⊎◌, inl, inr}
use mathlib.Core.List.{List, ◌++◌}
use native.Mathlib.Omega.{arith}
use halt_proof.Base.Tests.{leb, eqb, if◌then◌else◌, Bool-cases}

-- The character goes to the first of the pieces.
unfoldable pub onto_first : Char → List String → List String
onto_first c List.[] = List.◌∷◌ (c ∷ []) List.[]
onto_first c (List.◌∷◌ s ss) = List.◌∷◌ (c ∷ s) ss

module _ (is_end : ℕ → Bool) where
  -- The lines without their ends; the character before was a return or not. What follows the last
  -- end is a line if it is not empty.
  unfoldable pub split_lines : Bool → String → List String
  unfolding onto_first
  split_lines after_return [] = List.[]
  split_lines after_return (c ∷ s) =
      let rest = split_lines (eqb (code c) 13) s in
      if after_return && eqb (code c) 10
      then rest
      else if is_end (code c)
      then List.◌∷◌ [] rest
      else onto_first c rest

  -- No character ends a line.
  unfoldable pub is_one_line : String → Bool
  is_one_line [] = true
  is_one_line (c ∷ s) = let rest = is_one_line s in if is_end (code c) then false else rest

-- The line ends of a file that is read as text.
unfoldable pub is_newline : ℕ → Bool
is_newline c = eqb c 10 || eqb c 13

-- Those of `str.splitlines`.
unfoldable pub is_boundary : ℕ → Bool
is_boundary c =
    (leb 10 c && leb c 13) || (leb 28 c && leb c 30) || eqb c 133 || eqb c 8232 || eqb c 8233

-- Both kinds know the newline and the return.
pub record IsLineEnd (is_end : ℕ → Bool) : Type 0 where
  pub newline : is_end 10 ≡ true
  pub return : is_end 13 ≡ true

pub is_newline-IsLineEnd : IsLineEnd is_newline
unfolding is_newline
is_newline-IsLineEnd = record { newline = refl; return = refl }

pub is_boundary-IsLineEnd : IsLineEnd is_boundary
unfolding is_boundary
is_boundary-IsLineEnd = record { newline = refl; return = refl }
