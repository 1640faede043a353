-- ===== src/Cli/Agreement.antt =====
-- cli.py and mcp_server.py are two ways to the same operations: the command and the tool, side by
-- side.
pub mod Checks
use halt_proof.Base.{String, ◌≡◌, ◌≢◌, refl, Bool, false, Option, none, some, List, ◌∷◌, All}
use halt_proof.Base.Results
use halt_proof.Base.Results.{Result, ok, err}
use halt_proof.Errors.{Exn, HaltFault}
use halt_proof.Platform.{Platform}
use halt_proof.Exec.{Exec, pure, ◌>>=◌}
use halt_proof.Host.{Host}
use halt_proof.World.{World}
use halt_proof.Core.Halt.{Setup}
use halt_proof.Cli.{
  FormatOptions, Ended, finish, HaltOptions, StatusOptions, KeygenOptions, VerifyOptions,
  halt_request, Checked, one_record, is_refused,
}
use halt_proof.Cli
use halt_proof.Cli.Nodes.Join.{IsPlain, join_commas, node_list-join_commas}
use halt_proof.Mcp

-- What a tool did, as the command ends that does the same.
abbrev pub as_command :
    {S A : Type 0} → FormatOptions → (A → Bool) → Exec S (Result HaltFault A) → Exec S (Ended A)
as_command o failed tool s = (Results.◌>>=◌ (tool s).0 (λ r. ok (finish o failed r)), (tool s).1)

pub bind_finish :
    {S A : Type 0} (o : FormatOptions) (failed : A → Bool) (m : Exec S (Result HaltFault A)) (s : S)
    → (m >>= λ r. pure (finish o failed r)) s ≡ as_command o failed m s
unfolding ◌>>=◌ pure
bind_finish {S} {A} o failed m s = resumed (m s).0
  where
    resumed :
        (r : Result Exn (Result HaltFault A))
        → halt_proof.Exec.resume r (λ x. pure (finish o failed x)) (m s).1
          ≡ (Results.◌>>=◌ r (λ x. ok (finish o failed x)), (m s).1)
    resumed (ok a) = refl
    resumed (err e) = refl

-- The command's options for the arguments of the tool `halt`, with the nodes as one text.
abbrev pub halt_options :
    String
    → List String
    → Option String
    → Bool
    → String
    → Option String
    → FormatOptions
    → HaltOptions
halt_options group ns backend confirm reason operator_id o = record {
  target_group = group;
  nodes = some (join_commas ns);
  backend_name = backend;
  confirm = confirm;
  reason = reason;
  operator_id = operator_id;
  config_path = none;
  attestation_log_path = none;
  attestation_key_path = none;
  no_sign = false;
  remote_collector_url = none;
  format = o;
}

abbrev pub status_options :
    Option String → List String → Option String → FormatOptions → StatusOptions
status_options backend ns group o = record {
  backend_name = backend;
  nodes = some (join_commas ns);
  target_group = group;
  config_path = none;
  format = o;
}

module _ (p : Platform) (h : Host) (u : Setup) where
  -- Take names with no comma in them and no white space at their ends, whose joined text is not
  -- empty. The command `halt`, given the joined text and no option that the tool `halt` has no
  -- argument for, does what the tool does with the names, and leaves the same world: the same
  -- result is printed, with 1 for the exit code if a step failed and 0 if none did, the same
  -- `HaltProofError` becomes a `ClickException`, and other exceptions pass. So does `status`, whose
  -- exit code is 0.
  pub node_tools_agree :
      (group : String) (n : String) (ns : List String) (backend : Option String) (confirm : Bool)
      (reason : String) (operator_id target_group : Option String) (o : FormatOptions) (w : World p)
      → All IsPlain (n ∷ ns)
      → join_commas (n ∷ ns) ≢ ""
      → (Cli.halt p h u (halt_options group (n ∷ ns) backend confirm reason operator_id o) w
          ≡ as_command o
              (λ r. r.any_failures)
              (Mcp.halt p h u group (some (n ∷ ns)) backend confirm reason operator_id)
              w)
        × (Cli.status p h u (status_options backend (n ∷ ns) target_group o) w
            ≡ as_command o (λ _. false) (Mcp.status p h u backend (some (n ∷ ns)) target_group) w)
  unfolding Cli.halt halt_request Mcp.halt Mcp.halt_request Cli.status Mcp.status
  node_tools_agree group n ns backend confirm reason operator_id target_group o w plain other =
      rw (node_list-join_commas n ns plain other)
        (bind_finish o _ _ w, bind_finish o (λ _. false) _ w)
