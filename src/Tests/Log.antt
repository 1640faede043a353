-- ===== src/Tests/Log.antt =====
-- The log on its characters: two records, in a notation that shows only the number of a record.
use halt_proof.Base.{
  String, ◌<>◌, ◌==◌, ◌≡◌, refl, inr, none, some, [], ◌∷◌, map, List, if◌then◌else◌, All,
}
use halt_proof.Base.Decimal.{str_ℤ}
use halt_proof.Base.Int.{next}
use halt_proof.Base.Lines.{is_one_line, is_boundary}
use halt_proof.Base.Results.{ok}
use halt_proof.Json.{Json, num, obj, get, sort_keys}
use halt_proof.Platform.Sample.{sample, sample-IsLawful}
use halt_proof.Attestation.{to_dict, build_record, sign_record}
use halt_proof.Attestation.Codec.{normalise}
use halt_proof.Attestation.Log.Written.{text_of, FileHolds}
use halt_proof.Attestation.Log.Refined.{
  Operation, append_record, read_records, next_number, check, promised_all,
}
use halt_proof.Attestation.Log.Characters.{Script, lines_of, append_line, load_characters}
use halt_proof.Attestation.Log.Characters.Legible.{Legible, FileIsEnded}
use halt_proof.Attestation.Log.Characters.Refined.{
  WritesLegible, call_all_characters, call_all_characters-promised_all,
}
use halt_proof.Attestation.Log.Characters.Loaded.{load_characters-append_line}
use halt_proof.Tests.{r₁, r₂}

abbrev number_of : Json → String
number_of (obj m) = elim (get "seq" m) [ none ↦ "" | some (num n) ↦ str_ℤ n | some v ↦ "" ]
number_of v = ""

abbrev numbered : Script sample
unfolding sample
numbered = record {
  show = λ t. "{" <> (number_of t <> "}");
  text = λ s. if s == "{1}" then text_of sample r₁ else text_of sample r₂;
}

r₁-Legible : Legible sample numbered (text_of sample r₁)
unfolding sample get to_dict build_record sign_record str_ℤ is_one_line is_boundary sort_keys
r₁-Legible = record { inner = "1"; braces = refl; one_line = refl; reads_back = refl }

r₂-Legible : Legible sample numbered (text_of sample r₂)
unfolding sample get to_dict build_record sign_record str_ℤ is_one_line is_boundary sort_keys next
r₂-Legible = record { inner = "2"; braces = refl; one_line = refl; reads_back = refl }

abbrev calls : List Operation
calls = append_record r₁ ∷ next_number ∷ append_record r₂ ∷ read_records ∷ check ∷ []

calls-WritesLegible : All (WritesLegible sample numbered) calls
calls-WritesLegible = (r₁-Legible, (tt, (r₂-Legible, (tt, (tt, tt)))))

none-FileHolds : FileHolds sample (lines_of sample numbered none) []
unfolding lines_of
none-FileHolds = refl

call_all_characters-promised_all_example :
    ((call_all_characters sample numbered calls none).0 ≡ map ok (promised_all sample calls []).0)
    × FileHolds sample
        (lines_of sample numbered (call_all_characters sample numbered calls none).1)
        (promised_all sample calls []).1
    × FileIsEnded (call_all_characters sample numbered calls none).1
call_all_characters-promised_all_example =
    call_all_characters-promised_all sample numbered sample-IsLawful calls none [] tt none-FileHolds
      calls-WritesLegible

load_characters-append_line_example :
    load_characters sample numbered (append_line sample numbered (some "\n{1}\n") r₂)
    ≡ ok (normalise r₂)
load_characters-append_line_example =
    load_characters-append_line sample numbered sample-IsLawful (some "\n{1}\n") r₂
      (inr ("\n{1}", refl)) r₂-Legible
