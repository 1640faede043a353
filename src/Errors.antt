-- ===== src/Errors.antt =====
-- The exceptions that the program raises or lets through. A message is told apart by its fault and
-- the values that it quotes; Cli/Dicts has the words of those that become part of a result.
use halt_proof.Base.{String}

-- `AttestationError`
pub data AttestationFault : Type 0 where
  missing_signature malformed_base64 invalid_public_key empty_file : AttestationFault

-- `SignatureVerificationError`
pub data SignatureFault : Type 0 where
  untrusted_key contents_changed : SignatureFault

-- `HaltProofError`
pub data HaltFault : Type 0 where
  no_nodes : String → HaltFault
  no_backend : HaltFault
  unknown_backend : String → HaltFault
  key_not_found : String → HaltFault
  no_attestation : String → HaltFault
  already_exists : String → HaltFault

pub data Exn : Type 0 where
  attestation_error : AttestationFault → Exn
  signature_error : SignatureFault → Exn
  haltproof_error : HaltFault → Exn
  value_error : String → Exn
  type_error attribute_error key_error json_decode_error file_not_found os_error : Exn
  timeout_expired : String → Exn
  other_error : String → Exn
  -- A JSON value whose type is not the one that the dataclass declares: Python keeps it, and the
  -- model stops here.
  ill_typed : String → Exn
