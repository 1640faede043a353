-- ===== src/Base/TextOrder.antt =====
-- Texts: the order of code points, in which `sort_keys` puts the keys of a dict.
use Prim.Native.Char.{code}
use Prim.Native.Nat.{ℕ, Ordering, compare as compare_ℕ}
use Prim.Native.String.compare
use Prim.Native.String.{String, [], ◌∷◌, compare, then}
use mathlib.Core.Path.{◌≡◌, refl, sym, ◌∙◌, ap, ap₂, ◌≡⟨◌⟩◌, ◌∎}
use mathlib.Core.Bool.{Bool, true, false}
use mathlib.Core.Logic.{◌≢◌, inl, inr}
use mathlib.Core.HLevel.{hedberg}
use text.Mathlib.Text.{◌==◌}
use text.Mathlib.TextEquality.{eq_iff}
use halt_proof.Base.Tests.{Bool-cases}
use native.Mathlib.Omega.{arith}

-- `s <= t`
abbrev pub leb_text : String → String → Bool
leb_text s t = elim (compare s t) [ Ordering.gt ↦ false | _ ↦ true ]

-- The order seen from the other side.
abbrev flip : Ordering → Ordering
flip Ordering.lt = Ordering.gt
flip Ordering.eq = Ordering.eq
flip Ordering.gt = Ordering.lt

compare_ℕ_swap : (m n : ℕ) → compare_ℕ n m ≡ flip (compare_ℕ m n)
compare_ℕ_swap m n = ground arith

flip-then : (o p : Ordering) → flip (then o p) ≡ then (flip o) (flip p)
flip-then Ordering.lt p = refl
flip-then Ordering.eq p = refl
flip-then Ordering.gt p = refl

compare_swap : (s t : String) → compare t s ≡ flip (compare s t)
compare_swap [] [] = compare.nil-nil ∙ ap flip (sym compare.nil-nil)
compare_swap [] (d ∷ t) = compare.cons-nil d t ∙ ap flip (sym (compare.nil-cons d t))
compare_swap (c ∷ s) [] = compare.nil-cons c s ∙ ap flip (sym (compare.cons-nil c s))
compare_swap (c ∷ s) (d ∷ t) =
    compare (d ∷ t) (c ∷ s)
    ≡⟨ compare.cons-cons d c t s ⟩ then (compare_ℕ (code d) (code c)) (compare t s)
    ≡⟨ ap₂ then (compare_ℕ_swap (code c) (code d)) (compare_swap s t) ⟩
      then (flip (compare_ℕ (code c) (code d))) (flip (compare s t))
    ≡⟨ sym (flip-then (compare_ℕ (code c) (code d)) (compare s t)) ⟩
      flip (then (compare_ℕ (code c) (code d)) (compare s t))
    ≡⟨ ap flip (sym (compare.cons-cons c d s t)) ⟩ flip (compare (c ∷ s) (d ∷ t)) ∎

pub leb_text_total : (s t : String) → leb_text s t ≡ false → leb_text t s ≡ true
leb_text_total s t h = ground (arith, compare_swap s t)

pub String_discrete : Discrete String
String_discrete s t = elim (Bool-cases (s == t)) [
  | inl same ↦ yes ((eq_iff s t).0 same)
  | inr other ↦ no (λ e. cc (other, (eq_iff s t).1 e))
]

pub String_set : IsSet String
String_set = hedberg String_discrete

pub not_equal : (s t : String) → s ≢ t → (s == t) ≡ false
not_equal s t h = ground (arith, eq_iff s t)
