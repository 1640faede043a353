-- ===== src/Base/Lines/Cut.antt =====
-- A text is cut behind its newlines: what stands before one and what stands behind it are cut
-- apart.
use Prim.Native.Char.{Char, code}
use Prim.Native.String.{String, [], ◌∷◌, ◌++◌ as ◌<>◌}
use text.Mathlib.TextLemmas.{cons-append, nil-append}
use mathlib.Core.List.{List, ◌++◌}
use halt_proof.Base.{
  ℕ, ◌≡◌, refl, sym, ap, ◌∙◌, subst, Bool, true, false, ◌&&◌, eqb, if◌then◌else◌, arith, else_true,
}
use halt_proof.Base.Lines.{onto_first, split_lines, is_one_line, IsLineEnd}

-- There is a first piece.
record Filled (ss : List String) : Type 0 where
  head : String
  tail : List String
  same : ss ≡ List.◌∷◌ head tail

onto_first-Filled : (c : Char) (ss : List String) → Filled (onto_first c ss)
unfolding onto_first
onto_first-Filled c List.[] = record { head = c ∷ []; tail = List.[]; same = refl }
onto_first-Filled c (List.◌∷◌ s ss) = record { head = c ∷ s; tail = ss; same = refl }

onto_first-append :
    (c : Char) (ss ts : List String) → Filled ss → onto_first c (ss ++ ts) ≡ onto_first c ss ++ ts
unfolding onto_first
onto_first-append c ss ts f = rw f.same refl

-- One character before the pieces of the rest.
abbrev cut : Bool → Bool → Char → List String → List String
cut dropped ends c rest =
    if dropped then rest else if ends then List.◌∷◌ [] rest else onto_first c rest

cut-append :
    (dropped ends : Bool) (c : Char) (ss ts : List String)
    → (ends ≡ false → Filled ss)
    → cut dropped ends c (ss ++ ts) ≡ cut dropped ends c ss ++ ts
cut-append true ends c ss ts f = refl
cut-append false true c ss ts f = refl
cut-append false false c ss ts f = onto_first-append c ss ts (f refl)

cut-Filled : (ends : Bool) (c : Char) (ss : List String) → Filled (cut false ends c ss)
cut-Filled true c ss = record { head = []; tail = ss; same = refl }
cut-Filled false c ss = onto_first-Filled c ss

pub newline_first : (t : String) → "\n" <> t ≡ "\n" ∷ t
newline_first t = cons-append "\n" [] t ∙ ap (λ x. "\n" ∷ x) (nil-append t)

module _ (is_end : ℕ → Bool) (e : IsLineEnd is_end) where
  not_return : (n : ℕ) → is_end n ≡ false → eqb n 13 ≡ false
  not_return n h = ground (arith, e.return)

  -- Neither does a text that is not empty and stands after no return.
  split_lines-Filled : (c : Char) (s : String) → Filled (split_lines is_end false (c ∷ s))
  unfolding split_lines
  split_lines-Filled c s = cut-Filled (is_end (code c)) c (split_lines is_end (eqb (code c) 13) s)

  ended-Filled : (s : String) → Filled (split_lines is_end false (s <> "\n"))
  ended-Filled [] = split_lines-Filled "\n" []
  ended-Filled (c ∷ s) =
      subst (λ x. Filled (split_lines is_end false x)) (sym (cons-append c s "\n"))
        (split_lines-Filled c (s <> "\n"))

  ended_rest-Filled :
      (n : ℕ) (s : String) → is_end n ≡ false → Filled (split_lines is_end (eqb n 13) (s <> "\n"))
  ended_rest-Filled n s h =
      subst (λ b. Filled (split_lines is_end b (s <> "\n"))) (sym (not_return n h)) (ended-Filled s)

  split_lines-newline :
      (after_return : Bool) (t : String)
      → split_lines is_end after_return ("\n" <> t)
        ≡ split_lines is_end after_return "\n" ++ split_lines is_end false t
  unfolding split_lines
  split_lines-newline true t = ap (split_lines is_end true) (newline_first t)
  split_lines-newline false t = ap (split_lines is_end false) (newline_first t) ∙ rw e.newline refl

  -- Both parts of a text are cut as they would be alone, if the first ends with a newline.
  pub split_lines-append :
      (after_return : Bool) (s t : String)
      → split_lines is_end after_return (s <> ("\n" <> t))
        ≡ split_lines is_end after_return (s <> "\n") ++ split_lines is_end false t
  unfolding split_lines
  split_lines-append a [] t =
      ap (split_lines is_end a) (nil-append ("\n" <> t)) ∙ split_lines-newline a t
  split_lines-append a (c ∷ s) t =
      rw
        (
          cons-append c s ("\n" <> t),
          cons-append c s "\n",
          split_lines-append (eqb (code c) 13) s t,
        )
        (cut-append (a && eqb (code c) 10) (is_end (code c)) c
          (split_lines is_end (eqb (code c) 13) (s <> "\n")) (split_lines is_end false t)
          (ended_rest-Filled (code c) s))

  one_step :
      (c : Char) (s : String)
      → is_one_line is_end (c ∷ s) ≡ true
      → (split_lines is_end false (c ∷ s) ≡ onto_first c (split_lines is_end false s))
        × (is_one_line is_end s ≡ true)
  unfolding split_lines is_one_line
  one_step c s h =
      let (plain, rest) = else_true (is_end (code c)) (is_one_line is_end s) h in
      (rw (plain, not_return (code c) plain) refl, rest)

  -- A text that is one line.
  pub split_lines_one :
      (c : Char) (s : String)
      → is_one_line is_end (c ∷ s) ≡ true
      → split_lines is_end false (c ∷ s) ≡ List.◌∷◌ (c ∷ s) List.[]
  unfolding split_lines onto_first
  split_lines_one c [] h = (one_step c [] h).0
  split_lines_one c (d ∷ s) h =
      let (step, rest) = one_step c (d ∷ s) h in step ∙ ap (onto_first c) (split_lines_one d s rest)

  -- A text that is one line, and a newline.
  pub split_lines_ended :
      (s : String)
      → is_one_line is_end s ≡ true
      → split_lines is_end false (s <> "\n") ≡ List.◌∷◌ s List.[]
  unfolding split_lines onto_first is_one_line
  split_lines_ended [] h = rw e.newline refl
  split_lines_ended (c ∷ s) h =
      let (plain, rest) = else_true (is_end (code c)) (is_one_line is_end s) h in
      rw (cons-append c s "\n", plain, not_return (code c) plain, split_lines_ended s rest) refl

-- Two texts without a line end, one behind the other.
pub is_one_line-append :
    (is_end : ℕ → Bool) (s t : String)
    → is_one_line is_end s ≡ true
    → is_one_line is_end t ≡ true
    → is_one_line is_end (s <> t) ≡ true
unfolding is_one_line
is_one_line-append is_end [] t h g = ap (is_one_line is_end) (nil-append t) ∙ g
is_one_line-append is_end (c ∷ s) t h g =
    let (plain, rest) = else_true (is_end (code c)) (is_one_line is_end s) h in
    rw (cons-append c s t, plain, is_one_line-append is_end s t rest g) refl
