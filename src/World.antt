-- ===== src/World.antt =====
-- The state that the operations of core.py share: the files, what the backends change, and what was
-- posted. A path is its text: that two texts can name one file is not modelled.
use halt_proof.Base.{Bool, String, ◌==◌, Option, none, some, List, [], if◌then◌else◌}
use halt_proof.Base.Results.{Result, ok, err}
use halt_proof.Errors.{Exn, json_decode_error, file_not_found, value_error}
use halt_proof.Json.{Fields}
use halt_proof.Platform.{Platform}
use halt_proof.Attestation.Log.{Line, LogFile}
use halt_proof.Host.{Trace}
use halt_proof.Exec.{Exec}

-- A file as the code that reads it finds it; `other` fits no reader.
pub data Content (p : Platform) : Type 0 where
  log_lines : List (Line p) → Content p
  private_pem : p.PrivateKey → Content p
  public_pem : p.PublicKey → Content p
  toml : Fields → Content p
  other : Content p

-- Who may read, write and execute.
pub record Bits : Type 0 where
  pub read : Bool
  pub write : Bool
  pub execute : Bool

-- The permission bits of a file.
pub record Mode : Type 0 where
  pub owner : Bits
  pub group : Bits
  pub other : Bits

pub record World (p : Platform) : Type 0 where
  pub trace : Trace
  pub files : String → Option (Content p)
  -- The permissions of the files, as keys.py sets them; those of a new log are not modelled.
  pub modes : String → Mode
  -- The URLs and the payloads of the requests that were sent.
  pub posts : List (String × Fields)

module _ (p : Platform) where
  -- A backend's action, in the world.
  unfoldable pub on_trace : {A : Type 0} → Exec Trace A → Exec (World p) A
  on_trace m w = let (r, t) = m w.trace in (r, record w { trace = t })

  unfoldable pub write_file : String → Content p → World p → World p
  write_file path c w = record w { files = λ q. if q == path then some c else w.files q }

  -- The log at a path.
  unfoldable pub log_at : String → World p → Result Exn (LogFile p)
  log_at path w = elim (w.files path) [
    | none ↦ ok none
    | some (log_lines lines) ↦ ok (some lines)
    | some _ ↦ err json_decode_error
  ]

  -- The lines of a log that exists.
  unfoldable pub log_content : LogFile p → Content p
  log_content none = log_lines []
  log_content (some lines) = log_lines lines

  -- `load_private_key` of keys.py
  unfoldable pub load_private_key : String → World p → Result Exn p.PrivateKey
  load_private_key path w = elim (w.files path) [
    | none ↦ err file_not_found
    | some (private_pem k) ↦ ok k
    | some _ ↦ err (value_error path)
  ]

  -- `load_public_key` of keys.py
  unfoldable pub load_public_key : String → World p → Result Exn p.PublicKey
  load_public_key path w = elim (w.files path) [
    | none ↦ err file_not_found
    | some (public_pem k) ↦ ok k
    | some _ ↦ err (value_error path)
  ]
