-- ===== src/Cli/Nodes/Split.antt =====
-- What `split` makes of a text, up to its first comma.
use Prim.Native.Char.{Char, code}
use Prim.Native.String.{String, [], ◌∷◌}
use text.Mathlib.TextLemmas.{cons-append, nil-append}
use mathlib.Core.List.{List}
use halt_proof.Base.{
  else_true, ℕ, suc, ◌<>◌, ◌≡◌, refl, ap, ◌∙◌, Bool, true, false, eqb, if◌then◌else◌, length, arith,
}
use halt_proof.Base.Lines.{onto_first}
use halt_proof.Cli.Nodes.{split_commas}

-- No character of the text is a comma.
unfoldable pub is_comma_free : String → Bool
is_comma_free [] = true
is_comma_free (c ∷ s) = let rest = is_comma_free s in if eqb (code c) 44 then false else rest

-- How many characters are commas.
unfoldable pub commas : String → ℕ
commas [] = 0
commas (c ∷ s) = let rest = commas s in if eqb (code c) 44 then suc rest else rest

pub split_commas-is_comma_free :
    (s : String) → is_comma_free s ≡ true → split_commas s ≡ List.◌∷◌ s List.[]
unfolding is_comma_free split_commas onto_first
split_commas-is_comma_free [] free = refl
split_commas-is_comma_free (c ∷ s) free =
    let (plain, rest) = else_true (eqb (code c) 44) (is_comma_free s) free in
    rw (plain, split_commas-is_comma_free s rest) refl

-- A comma after it cuts the first piece off.
pub split_commas-first :
    (s t : String)
    → is_comma_free s ≡ true
    → split_commas (s <> ("," <> t)) ≡ List.◌∷◌ s (split_commas t)
unfolding is_comma_free split_commas onto_first
split_commas-first [] t free =
    ap split_commas (nil-append ("," <> t) ∙ cons-append _ [] t ∙ ap (λ x. "," ∷ x) (nil-append t))
split_commas-first (c ∷ s) t free =
    let (plain, rest) = else_true (eqb (code c) 44) (is_comma_free s) free in
    rw (cons-append c s ("," <> t), plain, split_commas-first s t rest) refl

length-onto_first :
    (c : Char) (ss : List String) (n : ℕ) → length ss ≡ suc n → length (onto_first c ss) ≡ suc n
unfolding onto_first
length-onto_first c List.[] n e = omega (arith, e)
length-onto_first c (List.◌∷◌ s ss) n e = e

length-pieces :
    (b : Bool) (c : Char) (ss : List String) (n : ℕ)
    → length ss ≡ suc n
    → length (if b then List.◌∷◌ [] ss else onto_first c ss) ≡ suc (if b then suc n else n)
length-pieces true c ss n e = ap suc e
length-pieces false c ss n e = length-onto_first c ss n e

-- A text has one piece more than it has commas.
pub length-split_commas : (s : String) → length (split_commas s) ≡ suc (commas s)
unfolding commas split_commas
length-split_commas [] = refl
length-split_commas (c ∷ s) =
    length-pieces (eqb (code c) 44) c (split_commas s) (commas s) (length-split_commas s)
