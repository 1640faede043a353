-- ===== src/Cli/Dicts.antt =====
-- The dicts that core.py returns and cli.py prints with `--format=json`, and the messages in them.
use mathlib.Core.Option
use halt_proof.Base.{String, ◌<>◌, Bool, Option, none, some, List, [], ◌∷◌}
use halt_proof.Base.Int.{pos, next}
use halt_proof.Base.Decimal.{str_ℤ}
use halt_proof.Errors.{
  Exn, missing_signature, malformed_base64, invalid_public_key, untrusted_key, contents_changed,
  attestation_error, signature_error,
}
use halt_proof.Json.{Json, null, bool, num, str, arr, obj, Fields, end, field}
use halt_proof.Attestation.{to_dict, dicts}
use halt_proof.Attestation.Chain.{
  Break, signature_invalid, first_not_empty, sequence_gap, hash_mismatch,
}
use halt_proof.Core.{ChainReport, Verified}
use halt_proof.Core.Halt.{HaltResult}
use halt_proof.Core.Status.{StatusReport}
use halt_proof.Core.Keygen.{KeygenResult}
use halt_proof.Cli.{Checked, whole_chain, one_record}
use halt_proof.Cli.Layout.{Words}

-- A text or `None`.
unfoldable pub text_or_null : Option String → Json
text_or_null none = null
text_or_null (some s) = str s

unfoldable pub str_option : Option String → String
str_option none = "None"
str_option (some s) = s

-- `d[k] = v` of a key that is not there: the entry stands last.
unfoldable pub put_last : Fields → String → Json → Fields
put_last end k v = field k v end
put_last (field j w m) k v = field j w (put_last m k v)

-- `if remote_status is not None`
unfoldable pub with_remote : Option String → Fields → Fields
unfolding put_last
with_remote none m = m
with_remote (some s) m = put_last m "remote_collector_status" (str s)

-- The dict of `run_halt`.
unfoldable pub halt_dict : HaltResult → Fields
unfolding put_last with_remote
halt_dict res =
    let signed = put_last (to_dict res.made) "signed" (bool res.signed) in
    let placed = put_last signed "attestation_log_path" (str res.attestation_log_path) in
    put_last (with_remote res.remote_collector_status placed) "any_failures" (bool res.any_failures)

module _ (ws : Words) where
  -- `str(exc)` of the exceptions that `verify_record` raises.
  unfoldable pub message : Exn → String
  message (attestation_error missing_signature) = "record is missing 'signature' or 'public_key'"
  message (attestation_error malformed_base64) =
      "malformed base64 in record: " <> ws.quoted malformed_base64
  message (attestation_error invalid_public_key) =
      "invalid Ed25519 public key: " <> ws.quoted invalid_public_key
  message (signature_error untrusted_key) =
      "record's embedded public key does not match the trusted key provided"
  message (signature_error contents_changed) = "signature does not match record contents"
  message e = ws.str_exn e

  -- The reasons of `verify_chain`.
  unfoldable pub reason : Break → String
  unfolding message str_ℤ
  reason (signature_invalid seq e) =
      "seq " <> (str_ℤ seq <> (": signature invalid (" <> (message e <> ")")))
  reason (first_not_empty seq prev_hash) =
      "seq "
      <> (str_ℤ seq
          <> (": expected prev_hash '' for the first record in the log, got " <> ws.repr prev_hash))
  reason (sequence_gap previous current) =
      "sequence gap: seq "
      <> (str_ℤ previous
          <> (" is followed by seq "
              <> (str_ℤ current <> (", expected " <> str_ℤ (next previous)))))
  reason (hash_mismatch current previous) =
      "seq "
      <> (str_ℤ current
          <> (": prev_hash does not match the content hash of seq "
              <> (str_ℤ previous <> "; a record may have been deleted, reordered, or edited")))

  -- The dict of `run_verify`.
  unfoldable pub verified_dict : Verified → Fields
  unfolding message text_or_null
  verified_dict v = field "valid" (bool v.valid) (
      field "error" (text_or_null (Option.map message v.error))
        (field "record" (obj (to_dict v.found)) end))

  -- The dict of `run_verify_chain`.
  unfoldable pub chain_dict : ChainReport → Fields
  unfolding reason text_or_null
  chain_dict report = field "valid" (bool report.valid) (
      field "error" (text_or_null (Option.map reason report.error)) (
        field "record_count" (num (pos report.record_count))
          (field "attestation_log_path" (str report.attestation_log_path) end)))

  unfoldable pub checked_dict : Checked → Fields
  unfolding verified_dict chain_dict
  checked_dict (whole_chain report) = chain_dict report
  checked_dict (one_record v) = verified_dict v

unfoldable pub presence : List (String × Bool) → Fields
presence [] = end
presence ((name, b) ∷ rest) = field name (bool b) (presence rest)

-- The dict of `run_status`.
unfoldable pub status_dict : StatusReport → Fields
unfolding presence text_or_null
status_dict report = field "available_backends" (obj (presence report.available_backends)) (
    field "auto_detected_backend" (text_or_null report.auto_detected_backend) (
      field "active_backend" (text_or_null report.active_backend)
        (field "nodes" (arr (dicts report.nodes)) end)))

-- The dict of `run_keygen`.
unfoldable pub keygen_dict : KeygenResult → Fields
keygen_dict k = field "private_key_path" (str k.private_key_path) (
    field "public_key_path" (str k.public_key_path)
      (field "private_key_permissions" (str k.private_key_permissions) end))
