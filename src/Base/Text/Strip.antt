-- ===== src/Base/Text/Strip.antt =====
-- Stripping a text that ends, or goes on, with a brace.
use Prim.Native.Char.{code}
use Prim.Native.String.{String, [], ◌∷◌, ◌++◌ as ◌<>◌}
use text.Mathlib.TextLemmas.{cons-append, nil-append, cons-ne-nil, append_assoc}
use halt_proof.Base.{◌==◌, ◌≡◌, refl, sym, ap, subst, ◌∙◌, false, Bool-cases, inl, inr, ◌⊎◌}
use halt_proof.Base.TextOrder.{not_equal}
use halt_proof.Base.Text.{is_space, lstrip, rstrip, strip}

-- A text with a brace at its end is not empty.
pub braced_not_empty : (s : String) → ((s <> "}") == "") ≡ false
braced_not_empty [] = refl
braced_not_empty (c ∷ s) =
    not_equal _ "" λ e. cons-ne-nil c (s <> "}") (sym (cons-append c s "}") ∙ e)

-- What stands before a brace stays.
pub rstrip_brace : (s : String) → rstrip (s <> "}") ≡ s <> "}"
unfolding rstrip is_space
rstrip_brace [] = refl
rstrip_brace (c ∷ s) = rw (cons-append c s "}") (rw (rstrip_brace s) (rw (braced_not_empty s) refl))

-- A newline behind the brace goes.
pub rstrip_brace_newline : (s : String) → rstrip (s <> "}\n") ≡ s <> "}"
unfolding rstrip is_space
rstrip_brace_newline [] = refl
rstrip_brace_newline (c ∷ s) =
    rw (cons-append c s "}\n", cons-append c s "}")
      (rw (rstrip_brace_newline s) (rw (braced_not_empty s) refl))

open_brace : (t : String) → "{" <> t ≡ "{" ∷ t
open_brace t = cons-append "{" [] t ∙ ap (λ x. "{" ∷ x) (nil-append t)

-- What goes on with a brace is stripped only before it.
pub lstrip_brace : (s t : String) → lstrip (s <> ("{" <> t)) ≡ lstrip s <> ("{" <> t)
unfolding lstrip is_space
lstrip_brace [] t =
    ap lstrip (nil-append ("{" <> t) ∙ open_brace t) ∙ sym (nil-append ("{" <> t) ∙ open_brace t)
lstrip_brace (c ∷ s) t = elim (Bool-cases (is_space (code c))) [
  | inl space ↦ rw (cons-append c s ("{" <> t), space, lstrip_brace s t) refl
  | inr ink ↦ rw (cons-append c s ("{" <> t), ink, cons-append c s ("{" <> t)) refl
]

-- A text in braces.
abbrev pub braced : String → String
braced s = "{" <> (s <> "}")

-- Nothing is stripped off it.
pub strip-braced : (s : String) → strip (braced s) ≡ braced s
unfolding strip lstrip is_space
strip-braced s =
    ap strip (open_brace (s <> "}"))
    ∙ rw (rstrip_brace s, braced_not_empty s) (sym (open_brace (s <> "}")))

-- What stands before it is stripped on the left, and a newline behind it goes.
pub strip-append-braced : (s t : String) → strip (s <> (braced t <> "\n")) ≡ lstrip s <> braced t
unfolding strip
strip-append-braced s t =
    let ended : braced t <> "\n" ≡ "{" <> (t <> "}\n") =
      append_assoc "{" (t <> "}") "\n" ∙ ap (λ x. "{" <> x) (append_assoc t "}" "\n") in
    let joined : lstrip s <> ("{" <> (t <> "}\n")) ≡ (lstrip s <> ("{" <> t)) <> "}\n" =
      ap (λ x. lstrip s <> x) (sym (append_assoc "{" t "}\n"))
      ∙ sym (append_assoc (lstrip s) ("{" <> t) "}\n") in
    rw (ended, lstrip_brace s (t <> "}\n"), joined, rstrip_brace_newline (lstrip s <> ("{" <> t)))
      (append_assoc (lstrip s) ("{" <> t) "}" ∙ ap (λ x. lstrip s <> x) (append_assoc "{" t "}"))

-- Every text in braces has a first character.
pub braced_first : (s : String) → braced s ≡ "{" ∷ (s <> "}")
braced_first s = open_brace (s <> "}")

-- It is not empty.
pub braced_not_blank : (s : String) → (braced s == "") ≡ false
braced_not_blank s = not_equal _ "" λ e. cons-ne-nil "{" (s <> "}") (sym (braced_first s) ∙ e)

-- An end of line at the end.
abbrev pub IsEnded : String → Type 0
IsEnded s = (s ≡ "") ⊎ ((x : String) × (s ≡ x <> "\n"))

-- Stripping on the left leaves it there, or leaves nothing.
lstrip-append-IsEnded : (x : String) → IsEnded (lstrip (x <> "\n"))
unfolding lstrip is_space
lstrip-append-IsEnded [] = inl refl
lstrip-append-IsEnded (c ∷ x) =
    subst (λ y. IsEnded (lstrip y)) (sym (cons-append c x "\n"))
      (elim (Bool-cases (is_space (code c))) [
        | inl space ↦ rw space (lstrip-append-IsEnded x)
        | inr ink ↦ rw ink (inr (c ∷ x, sym (cons-append c x "\n")))
      ])

pub lstrip-IsEnded : (s : String) → IsEnded s → IsEnded (lstrip s)
unfolding lstrip
lstrip-IsEnded s (inl e) = inl (ap lstrip e)
lstrip-IsEnded s (inr (x, e)) = subst (λ t. IsEnded (lstrip t)) (sym e) (lstrip-append-IsEnded x)

-- Before a text in braces only the white space on the left is stripped.
pub strip_before_braced : (s t : String) → strip (s <> braced t) ≡ lstrip s <> braced t
unfolding strip
strip_before_braced s t =
    let joined : lstrip s <> ("{" <> (t <> "}")) ≡ (lstrip s <> ("{" <> t)) <> "}" =
      ap (λ x. lstrip s <> x) (sym (append_assoc "{" t "}"))
      ∙ sym (append_assoc (lstrip s) ("{" <> t) "}") in
    rw (lstrip_brace s (t <> "}"), joined, rstrip_brace (lstrip s <> ("{" <> t))) refl
