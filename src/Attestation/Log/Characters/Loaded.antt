-- ===== src/Attestation/Log/Characters/Loaded.antt =====
-- `load_record_from_file` of attestation.py on a file that `append` wrote last.
use Prim.Native.String as Str
use text.Mathlib.TextLemmas.{append_assoc, nil-append, cons-append, cons-ne-nil}
use halt_proof.Base.{
  String, ◌<>◌, ◌==◌, ◌≡◌, refl, sym, ap, subst, ◌∙◌, true, false, Option, none, some, List, [],
  ◌∷◌, ◌++◌, inl, inr, if◌then◌else◌,
}
use halt_proof.Base.Results.{ok}
use halt_proof.Base.TextOrder.{not_equal}
use halt_proof.Base.Text.{strip, lstrip}
use halt_proof.Base.Text.Strip.{
  braced, strip-braced, braced_first, braced_not_blank, IsEnded, lstrip-IsEnded,
  strip-append-braced,
}
use halt_proof.Base.Lines.{split_lines, is_one_line, is_boundary, is_boundary-IsLineEnd}
use halt_proof.Base.Lines.Cut.{split_lines-append, split_lines_one}
use halt_proof.Platform.{Platform, IsLawful}
use halt_proof.Attestation.{AttestationRecord}
use halt_proof.Attestation.Codec.{normalise}
use halt_proof.Attestation.Log.{read_line}
use halt_proof.Attestation.Log.Written.{text_of, read_line-text_of}
use halt_proof.Attestation.Log.Characters.{
  Script, written_line, append_line, last_full, load_characters,
}
use halt_proof.Attestation.Log.Characters.Legible.{Legible, FileIsEnded}

pub append_braced_not_blank : (x s : String) → ((x <> braced s) == "") ≡ false
append_braced_not_blank Str.[] s = rw (nil-append (braced s)) (braced_not_blank s)
append_braced_not_blank (Str.◌∷◌ c x) s =
    rw (cons-append c x (braced s)) (not_equal _ "" (cons-ne-nil c (x <> braced s)))

-- The pieces before the last one.
record EndsWith (t : String) (ss : List String) : Type 0 where
  before : List String
  same : ss ≡ before ++ t ∷ []

braced_alone :
    (s : String)
    → is_one_line is_boundary (braced s) ≡ true
    → split_lines is_boundary false (braced s) ≡ braced s ∷ []
braced_alone s h = rw (braced_first s) (
    split_lines_one is_boundary is_boundary-IsLineEnd "{" (s <> "}")
      (subst (λ t. is_one_line is_boundary t ≡ true) (braced_first s) h))

braced-EndsWith :
    (x s : String)
    → IsEnded x
    → is_one_line is_boundary (braced s) ≡ true
    → EndsWith (braced s) (split_lines is_boundary false (x <> braced s))
braced-EndsWith x s (inl e) h = record {
  before = [];
  same = rw (e, nil-append (braced s)) (braced_alone s h);
}
braced-EndsWith x s (inr (y, e)) h = record {
  before = split_lines is_boundary false (y <> "\n");
  same =
      rw
        (
          e,
          append_assoc y "\n" (braced s),
          split_lines-append is_boundary is_boundary-IsLineEnd false y (braced s),
          braced_alone s h,
        )
        refl;
}

module _ (p : Platform) (c : Script p) (L : IsLawful p) where
  last_full-braced :
      (kept : Option String) (ss : List String) (s : String)
      → last_full p c kept (ss ++ braced s ∷ []) ≡ some (braced s)
  unfolding last_full
  last_full-braced kept [] s = rw (strip-braced s, braced_not_blank s) refl
  last_full-braced kept (t ∷ ss) s = last_full-braced (if strip t == "" then kept else some t) ss s

  load_braced :
      (x s : String)
      → IsEnded x
      → is_one_line is_boundary (braced s) ≡ true
      → load_characters p c (some (x <> (braced s <> "\n"))) ≡ read_line p (c.text (braced s))
  unfolding load_characters
  load_braced x s e h =
      let found : EndsWith (braced s) (split_lines is_boundary false (lstrip x <> braced s)) =
        braced-EndsWith (lstrip x) s (lstrip-IsEnded x e) h in
      rw
        (
          strip-append-braced x s,
          append_braced_not_blank (lstrip x) s,
          found.same,
          last_full-braced none found.before s,
        )
        refl

  load_written :
      (s : String) (r : AttestationRecord)
      → IsEnded s
      → Legible p c (text_of p r)
      → load_characters p c (some (s <> (c.show (text_of p r) <> "\n"))) ≡ ok (normalise r)
  load_written s r e l =
      ap (λ x. load_characters p c (some (s <> (x <> "\n")))) l.braces
      ∙ load_braced s l.inner e l.one_line
      ∙ ap (read_line p) l.reads_back
      ∙ read_line-text_of p L r

  -- Let the last line of a file have its end, or let there be no file, and let the text of a record
  -- be one line in braces that is read back. `load_record_from_file` of the file to which `append`
  -- wrote the record returns the record, with the keys of its steps and its summary sorted.
  pub load_characters-append_line :
      (f : Option String) (r : AttestationRecord)
      → FileIsEnded f
      → Legible p c (text_of p r)
      → load_characters p c (append_line p c f r) ≡ ok (normalise r)
  unfolding append_line written_line
  load_characters-append_line none r e l =
      ap (λ s. load_characters p c (some s)) (sym (nil-append (c.show (text_of p r) <> "\n")))
      ∙ load_written "" r (inl refl) l
  load_characters-append_line (some s) r e l = load_written s r e l
