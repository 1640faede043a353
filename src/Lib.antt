-- ===== src/Lib.antt =====
-- HaltProof stops the nodes of a cluster (drain, isolate, power off) through the tools of Kubernetes,
-- Slurm or IPMI, only plans the commands unless it is told to run them, and appends a signed record of
-- each halt to a log whose records are chained by hashes.
--
-- How the parts work together: `run_halt` (src/haltproof/core.py) reads the settings, chooses the
-- nodes and a backend, has the backend make its steps, asks the log for the next number and hash,
-- builds a record, signs it, appends it to the log and may post it to a collector. `run_verify` and
-- `run_verify_chain` read the log back and check a signature, or the whole chain, and `run_keygen`
-- makes the pair of keys. The commands (src/haltproof/cli.py) and the tools
-- (src/haltproof/mcp_server.py) are two ways to these operations.
--
-- Which file models what:
--   * Attestation.antt: src/haltproof/attestation.py, the records, `_canonical_bytes`,
--     `record_content_hash`, `sign_record` and `verify_record`. Attestation/Codec has what holds of a
--     record and its dict, Attestation/Signing what holds of signatures.
--   * Attestation/Log.antt: `AttestationLog` and `load_record_from_file` of that file. A log is the
--     list of its lines. Attestation/Log/Written is about logs that `append` wrote,
--     Attestation/Log/Refined has the contract of the class. Attestation/Log/Characters is the same
--     file as its characters: how `append` writes a line and how lines are cut and stripped. The
--     modules below it carry the contract over. Attestation/Refusal and Attestation/Passing are about
--     the exceptions of `verify_record` and of reading a log.
--   * Attestation/Chain.antt: `verify_chain` of that file; the modules below it hold its proofs.
--     Attestation/Chain/Overlap is about halts that interleave their calls on one log.
--   * Backend.antt and Backend/: src/haltproof/backends, a module for each of base.py, runner.py,
--     kubernetes.py, slurm.py, ipmi.py and detect.py. Backend/Clusters is the dispatch of
--     `ClusterBackend`. Backend/DryRun and Backend/Executed have the proofs, on commands that are only
--     planned and on commands that are run, and Backend/Health those on `status`.
--   * Config.antt, Operator.antt: src/haltproof/config.py and src/haltproof/operator.py.
--   * Core.antt, Core/Halt.antt: src/haltproof/core.py. `run_halt` is `plan` up to the choice of the
--     backend and `execute` from the first command on, both cut at the blocks of the source. The
--     modules below Core/Halt hold its proofs, with Core/Halt/Unrecorded and Core/Halt/Unread on halts
--     that raise after their commands, and Core/Halt/Reported on the collector. Core/Choice has those
--     on the choice of a backend. Core/Status is `run_status`, Core/Status/Nodes is
--     about the nodes that it reports, Core/Keygen is `run_keygen`, and Core/Lookup is about
--     `run_verify`.
--   * Keys.antt: `generate_keypair` of src/haltproof/keys.py, as its calls on the files one by one.
--   * History.antt: the states that any sequence of these operations can reach.
--   * Guarded.antt, Cli.antt, Mcp.antt: `except core.HaltProofError`, the commands and the tools.
--     Cli/Nodes is the option `--nodes`, Cli/Dicts the dicts that are printed as JSON with the messages
--     in them, Cli/Layout the texts of a line and Cli/Render the functions `render` and `_emit`. The
--     modules below Cli/Render, and Cli/Exit, Cli/Record and Cli/Agreement, have the proofs.
--   * World.antt: the files with their permissions, the posted requests and the state of a host, with
--     the two loaders of src/haltproof/keys.py.
--   * Base, Json, Errors, Exec: integers, texts, results, JSON values, the exceptions, and code that
--     changes a state and may raise. What was done before a raise stays done.
--   * Tests.antt and Tests/: the theorems on concrete data.
--
-- What the program calls and does not contain is a parameter:
--   * Platform: `json.dumps`, `json.loads`, sha256, base64 and the Ed25519 keys. `IsLawful` says what
--     their documentation promises: a written value is read back with its keys sorted, signatures
--     verify, encodings are undone. Platform/Sample meets these laws. No law says that digests or
--     signatures are never shared; a theorem that depends on it has the shared digest or signature as
--     its other case.
--   * Host: `subprocess.run`, the clock, `uuid4`, the environment, `shutil.which` and the JSON that a
--     tool prints. `Setup` has the home directory, the default paths and the collector.
--   * `Script` of Attestation/Log/Characters: the characters of a JSON text. `Words` of Cli/Layout:
--     `upper`, `repr`, `str` of a dict or an exception, and `json.dumps` with an indent.
--     `Legible` says of one text what `json.dumps` promises: an object is written in braces and in one
--     line, and read back.
--   * For new keys: the umask, and the key that `Ed25519PrivateKey.generate` makes.
--
-- Numbers: a sequence number is an integer of Python, without bound. All loops run over a list, so no
-- fuel is needed.
--
-- What is not modelled:
--   * How click parses the command line, with the defaults that it fills in, and how it shows a
--     `ClickException`; the MCP server, which is a library.
--   * The words of a `HaltProofError`: it is told apart by its kind and its values.
--   * File locks, directories, the permissions of the log, failing writes, and two paths that name one
--     file. What a write that was cut short leaves is modelled as a log that is read, not as a step.
--   * Values whose JSON or TOML type is not the declared one: Python keeps them, and the model stops
--     with an exception of its own, `ill_typed`.
pub mod Base
pub mod Json
pub mod Platform
pub mod Errors
pub mod Exec
pub mod Host
pub mod Backend
pub mod Attestation
pub mod World
pub mod Keys
pub mod Config
pub mod Operator
pub mod Core
pub mod History
pub mod Cli
pub mod Guarded
pub mod Mcp
mod Tests
