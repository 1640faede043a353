-- ===== src/Attestation/Log/Characters/Torn.antt =====
-- `append` to a file whose last line has no end, as a write that was cut short leaves it.
use mathlib.Core.List.{map-append}
use text.Mathlib.TextLemmas.{append_assoc, nil-append}
use halt_proof.Base.{
  String, ◌<>◌, ◌≡◌, refl, sym, ap, ◌∙◌, true, false, none, some, List, [], ◌∷◌, ◌++◌, map, inl,
  inr,
}
use halt_proof.Base.Results.{Result, ok, err, ◌>>=◌}
use halt_proof.Errors.{Exn, json_decode_error}
use halt_proof.Base.Text.{lstrip}
use halt_proof.Base.Text.Strip.{braced, IsEnded, strip_before_braced}
use halt_proof.Base.Lines.{split_lines, is_one_line, is_newline, is_newline-IsLineEnd}
use halt_proof.Base.Lines.Cut.{split_lines-append, split_lines_ended, is_one_line-append}
use halt_proof.Platform.{Platform}
use halt_proof.Attestation.{AttestationRecord}
use halt_proof.Attestation.Log.{Line, read_line, read_lines, read_all}
use halt_proof.Attestation.Log.Written.{text_of}
use halt_proof.Attestation.Log.Characters.{Script, line_of, lines_of, written_line, append_line}
use halt_proof.Attestation.Log.Characters.Legible.{Legible, one_line_of_file}
use halt_proof.Attestation.Log.Characters.Loaded.{append_braced_not_blank}

-- A line behind lines that have their ends.
split_lines_behind :
    (x s : String)
    → IsEnded x
    → is_one_line is_newline s ≡ true
    → split_lines is_newline false (x <> (s <> "\n")) ≡ split_lines is_newline false x ++ s ∷ []
split_lines_behind x s (inl e) h =
    rw (e, nil-append (s <> "\n"))
      (unfold split_lines in split_lines_ended is_newline is_newline-IsLineEnd s h)
split_lines_behind x s (inr (y, e)) h =
    rw
      (
        e,
        append_assoc y "\n" (s <> "\n"),
        split_lines-append is_newline is_newline-IsLineEnd false y (s <> "\n"),
        split_lines_ended is_newline is_newline-IsLineEnd s h,
      )
      refl

-- Both parts of a sequence returned.
both_returned :
    {A B C : Type 0} (m : Result Exn A) (n : Result Exn B) (f : A → B → C) {c : C}
    → (m >>= λ a. n >>= λ b. ok (f a b)) ≡ ok c
    → ((a : A) × (m ≡ ok a)) × ((b : B) × (n ≡ ok b))
both_returned (ok a) (ok b) f e = ((a, refl), (b, refl))
both_returned (ok a) (err x) f e = cc
both_returned (err x) n f e = cc

module _ (p : Platform) where
  read_line_raises : (t : p.Text) → p.loads t ≡ none → read_line p t ≡ err json_decode_error
  unfolding read_line
  read_line_raises t h = rw (h, read_line) refl

  -- A line that is no JSON, behind lines that can be read.
  read_lines_behind :
      (lines : List (Line p)) (rs : List AttestationRecord) (t : p.Text)
      → read_lines p lines ≡ ok rs
      → p.loads t ≡ none
      → read_lines p (lines ++ some t ∷ []) ≡ err json_decode_error
  unfolding read_lines read_line
  read_lines_behind [] rs t e h = rw (read_line_raises t h) refl
  read_lines_behind (none ∷ lines) rs t e h = read_lines_behind lines rs t e h
  read_lines_behind (some u ∷ lines) rs t e h =
      let ((r, er), (later, el)) = both_returned (read_line p u) (read_lines p lines) ◌∷◌ e in
      rw (er, read_lines_behind lines later t el h) refl

  module _ (c : Script p) where
    joined_line :
        (torn s : String) → line_of p c (torn <> braced s) ≡ some (c.text (lstrip torn <> braced s))
    unfolding line_of
    joined_line torn s =
        rw (strip_before_braced torn s, append_braced_not_blank (lstrip torn) s) refl

    joined_lines :
        (x torn : String) (r : AttestationRecord) (l : Legible p c (text_of p r))
        → IsEnded x
        → is_one_line is_newline torn ≡ true
        → map (line_of p c) (split_lines is_newline false ((x <> torn) <> written_line p c r))
          ≡ map (line_of p c) (split_lines is_newline false x)
            ++ some (c.text (lstrip torn <> braced l.inner)) ∷ []
    unfolding written_line
    joined_lines x torn r l ended plain =
        let whole : (x <> torn) <> (c.show (text_of p r) <> "\n")
            ≡ x <> ((torn <> braced l.inner) <> "\n") =
          ap (λ s. (x <> torn) <> (s <> "\n")) l.braces
          ∙ append_assoc x torn (braced l.inner <> "\n")
          ∙ ap (λ s. x <> s) (sym (append_assoc torn (braced l.inner) "\n")) in
        ap (λ s. map (line_of p c) (split_lines is_newline false s)) whole
        ∙ rw
            (
              split_lines_behind x (torn <> braced l.inner) ended (
                  is_one_line-append is_newline torn (braced l.inner) plain
                    (one_line_of_file (braced l.inner) l.one_line)),
              map-append (line_of p c) (split_lines is_newline false x)
                  ((torn <> braced l.inner) ∷ []),
              joined_line torn l.inner,
            )
            refl

    -- Let the last line of a file have no end, and let `read_all` read the lines before it.
    -- `append` writes a record behind that line all the same: the file has one line more than
    -- before it, in which both texts stand together, and if this line is no JSON, then `read_all`
    -- raises.
    pub append_line_torn :
        (x torn : String) (r : AttestationRecord) (l : Legible p c (text_of p r))
        (rs : List AttestationRecord)
        → IsEnded x
        → is_one_line is_newline torn ≡ true
        → read_lines p (map (line_of p c) (split_lines is_newline false x)) ≡ ok rs
        → p.loads (c.text (lstrip torn <> braced l.inner)) ≡ none
        → (lines_of p c (append_line p c (some (x <> torn)) r)
            ≡ some (
                map (line_of p c) (split_lines is_newline false x)
                ++ some (c.text (lstrip torn <> braced l.inner)) ∷ []))
          × (read_all p (lines_of p c (append_line p c (some (x <> torn)) r))
              ≡ err json_decode_error)
    unfolding lines_of append_line read_all
    append_line_torn x torn r l rs ended plain read no_json =
        let joined = joined_lines x torn r l ended plain in
        (
          ap some joined,
          ap (read_lines p) joined
              ∙ read_lines_behind (map (line_of p c) (split_lines is_newline false x)) rs
                  (c.text (lstrip torn <> braced l.inner)) read no_json,
        )
