-- ===== src/Attestation/Log/Characters/Refined.antt =====
-- Sequences of calls of `AttestationLog` on the characters of the file, against the contract of
-- Attestation/Log/Refined.
use halt_proof.Base.{String, ◌≡◌, refl, sym, ap, subst, ◌∙◌, Option, List, [], ◌∷◌, map, All}
use halt_proof.Base.Results.{Result, ok}
use halt_proof.Errors.{Exn}
use halt_proof.Platform.{Platform, IsLawful}
use halt_proof.Attestation.{AttestationRecord}
use halt_proof.Attestation.Log.Written.{text_of, FileHolds}
use halt_proof.Attestation.Log.Refined.{
  Operation, append_record, read_records, next_number, state_of_chain, check, find_record, Answer,
  promised_all, call, call_all, call_all-promised_all,
}
use halt_proof.Attestation.Log.Characters.{Script, lines_of, append_line}
use halt_proof.Attestation.Log.Characters.Legible.{
  Legible, FileIsEnded, lines_of-append_line, append_line-FileIsEnded,
}

module _ (p : Platform) (c : Script p) where
  -- The characters of the file after a call: only `append` writes.
  unfoldable pub file_after : Operation → Option String → Option String
  file_after (append_record r) f = append_line p c f r
  file_after read_records f = f
  file_after next_number f = f
  file_after state_of_chain f = f
  file_after check f = f
  file_after (find_record ref) f = f

  -- The method of the class; the readers get the lines of the file.
  unfoldable pub call_characters : Operation → Option String → Result Exn Answer × Option String
  unfolding lines_of call file_after
  call_characters o f = ((call p o (lines_of p c f)).0, file_after o f)

  unfoldable pub call_all_characters :
      List Operation → Option String → List (Result Exn Answer) × Option String
  unfolding call_characters
  call_all_characters [] f = ([], f)
  call_all_characters (o ∷ os) f =
      let step = call_characters o f in
      let rest = call_all_characters os step.1 in (step.0 ∷ rest.0, rest.1)

  -- The record that the call appends has a legible text.
  abbrev pub WritesLegible : Operation → Type 0
  WritesLegible (append_record r) = Legible p c (text_of p r)
  WritesLegible o = Unit

  file_after-FileIsEnded :
      (o : Operation) (f : Option String) → FileIsEnded f → FileIsEnded (file_after o f)
  unfolding file_after
  file_after-FileIsEnded (append_record r) f e = append_line-FileIsEnded p c f r
  file_after-FileIsEnded read_records f e = e
  file_after-FileIsEnded next_number f e = e
  file_after-FileIsEnded state_of_chain f e = e
  file_after-FileIsEnded check f e = e
  file_after-FileIsEnded (find_record ref) f e = e

  -- The lines of the file change as on the lines.
  lines_of-file_after :
      (o : Operation) (f : Option String)
      → FileIsEnded f
      → WritesLegible o
      → lines_of p c (file_after o f) ≡ (call p o (lines_of p c f)).1
  unfolding file_after call
  lines_of-file_after (append_record r) f e l = lines_of-append_line p c f r e l
  lines_of-file_after read_records f e l = refl
  lines_of-file_after next_number f e l = refl
  lines_of-file_after state_of_chain f e l = refl
  lines_of-file_after check f e l = refl
  lines_of-file_after (find_record ref) f e l = refl

  -- Calls on the characters return what those on the lines do.
  call_all_characters-call_all :
      (os : List Operation) (f : Option String)
      → FileIsEnded f
      → All WritesLegible os
      → ((call_all_characters os f).0 ≡ (call_all p os (lines_of p c f)).0)
        × (lines_of p c (call_all_characters os f).1 ≡ (call_all p os (lines_of p c f)).1)
        × FileIsEnded (call_all_characters os f).1
  unfolding call_all_characters call_characters call_all
  call_all_characters-call_all [] f e l = (refl, refl, e)
  call_all_characters-call_all (o ∷ os) f e (l, ls) =
      let lines : lines_of p c (file_after o f) ≡ (call p o (lines_of p c f)).1 =
        lines_of-file_after o f e l in
      let (answers, held, ended) =
        call_all_characters-call_all os (file_after o f) (file_after-FileIsEnded o f e) ls in
      (
        ap (λ rest. (call p o (lines_of p c f)).0 ∷ rest)
            (answers ∙ ap (λ g. (call_all p os g).0) lines),
        held ∙ ap (λ g. (call_all p os g).1) lines,
        ended,
      )

  -- Let the lines of a file hold these records and its last line have its end, or let there be
  -- neither, and let the text of every record that the calls append be one line in braces that is
  -- read back. After any sequence of calls of `append`, `read_all`, `next_seq`, `chain_state`,
  -- `find` and `verify_chain` on the characters of the file, each has returned what the contract
  -- says of the list, none has raised, the lines of the file hold the list that the contract says,
  -- and its last line has its end.
  pub call_all_characters-promised_all :
      (L : IsLawful p) (os : List Operation) (f : Option String) (rs : List AttestationRecord)
      → FileIsEnded f
      → FileHolds p (lines_of p c f) rs
      → All WritesLegible os
      → ((call_all_characters os f).0 ≡ map ok (promised_all p os rs).0)
        × FileHolds p (lines_of p c (call_all_characters os f).1) (promised_all p os rs).1
        × FileIsEnded (call_all_characters os f).1
  call_all_characters-promised_all L os f rs e h l =
      let (answers, lines, ended) = call_all_characters-call_all os f e l in
      let (returned, held) = call_all-promised_all p L os (lines_of p c f) rs h in
      (
        answers ∙ returned,
        subst (λ g. FileHolds p g (promised_all p os rs).1) (sym lines) held,
        ended,
      )
