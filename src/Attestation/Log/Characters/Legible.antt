-- ===== src/Attestation/Log/Characters/Legible.antt =====
-- Records whose text is one line in braces: the lines of the file that `append` writes them to.
use text.Mathlib.TextLemmas.{append_assoc, nil-append}
use mathlib.Core.List.{map-append}
use halt_proof.Base.{
  ℕ, String, ◌<>◌, ◌≡◌, refl, sym, ap, ◌∙◌, true, false, Option, none, some, [], ◌∷◌, ◌++◌, map,
  inl, inr, else_true, arith,
}
use Prim.Native.Char.{code}
use Prim.Native.String as Str
use halt_proof.Base.Text.Strip.{braced, strip-braced, braced_not_blank, IsEnded}
use halt_proof.Base.Lines.{split_lines, is_one_line, is_newline, is_boundary, is_newline-IsLineEnd}
use halt_proof.Base.Lines.Cut.{split_lines-append, split_lines_ended}
use halt_proof.Platform.{Platform}
use halt_proof.Attestation.{AttestationRecord}
use halt_proof.Attestation.Log.{append}
use halt_proof.Attestation.Log.Written.{text_of}
use halt_proof.Attestation.Log.Characters.{Script, line_of, lines_of, written_line, append_line}

newline_is_boundary : (n : ℕ) → is_boundary n ≡ false → is_newline n ≡ false
unfolding is_boundary is_newline
newline_is_boundary n h = ground arith

-- A line for `str.splitlines` is a line of the file.
pub one_line_of_file :
    (s : String) → is_one_line is_boundary s ≡ true → is_one_line is_newline s ≡ true
unfolding is_one_line
one_line_of_file Str.[] h = refl
one_line_of_file (Str.◌∷◌ c s) h =
    let (plain, rest) = else_true (is_boundary (code c)) (is_one_line is_boundary s) h in
    rw (newline_is_boundary (code c) plain, one_line_of_file s rest) refl

-- A text of JSON: an object in one line, which is read back.
pub record Legible (p : Platform) (c : Script p) (t : p.Text) : Type 0 where
  pub inner : String
  pub braces : c.show t ≡ braced inner
  pub one_line : is_one_line is_boundary (braced inner) ≡ true
  pub reads_back : c.text (braced inner) ≡ t

-- A file that is not there, or whose last line has its end.
abbrev pub FileIsEnded : Option String → Type 0
FileIsEnded none = Unit
FileIsEnded (some s) = IsEnded s

module _ (p : Platform) (c : Script p) where
  line_of-braced : (s : String) → line_of p c (braced s) ≡ some (c.text (braced s))
  unfolding line_of
  line_of-braced s = rw (strip-braced s, braced_not_blank s) refl

  written_line_cut :
      (r : AttestationRecord)
      → Legible p c (text_of p r)
      → map (line_of p c) (split_lines is_newline false (written_line p c r))
        ≡ some (text_of p r) ∷ []
  unfolding written_line
  written_line_cut r l =
      ap (λ s. map (line_of p c) (split_lines is_newline false (s <> "\n"))) l.braces
      ∙ rw
          (
            split_lines_ended is_newline is_newline-IsLineEnd (braced l.inner)
                (one_line_of_file (braced l.inner) l.one_line),
            line_of-braced l.inner,
            l.reads_back,
          )
          refl

  written_line_appended :
      (s : String) (r : AttestationRecord)
      → IsEnded s
      → Legible p c (text_of p r)
      → map (line_of p c) (split_lines is_newline false (s <> written_line p c r))
        ≡ map (line_of p c) (split_lines is_newline false s) ++ some (text_of p r) ∷ []
  written_line_appended s r (inl e) l =
      rw (e, nil-append (written_line p c r)) (unfold split_lines in written_line_cut r l)
  written_line_appended s r (inr (x, e)) l =
      rw
        (
          e,
          append_assoc x "\n" (written_line p c r),
          split_lines-append is_newline is_newline-IsLineEnd false x (written_line p c r),
          map-append (line_of p c) (split_lines is_newline false (x <> "\n"))
              (split_lines is_newline false (written_line p c r)),
          written_line_cut r l,
        )
        refl

  -- `append` to a file whose last line has its end adds the line of the record to its lines.
  pub lines_of-append_line :
      (f : Option String) (r : AttestationRecord)
      → FileIsEnded f
      → Legible p c (text_of p r)
      → lines_of p c (append_line p c f r) ≡ append p (lines_of p c f) r
  unfolding lines_of append_line append
  lines_of-append_line none r e l = ap some (written_line_cut r l)
  lines_of-append_line (some s) r e l = ap some (written_line_appended s r e l)

  -- Its last line has its end then.
  pub append_line-FileIsEnded :
      (f : Option String) (r : AttestationRecord) → FileIsEnded (append_line p c f r)
  unfolding append_line written_line
  append_line-FileIsEnded none r = inr (c.show (text_of p r), refl)
  append_line-FileIsEnded (some s) r =
      inr (s <> c.show (text_of p r), sym (append_assoc s (c.show (text_of p r)) "\n"))
