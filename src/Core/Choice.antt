-- ===== src/Core/Choice.antt =====
-- The choice of a backend in core.py.
use halt_proof.Base.{String, eq_iff, ◌≡◌, ◌⊎◌, true, Option, none, some, arith}
use halt_proof.Base.Results.{Result, ok, err, ◌>>=◌}
use halt_proof.Errors.{Exn}
use halt_proof.Host.{Host}
use halt_proof.Config.{HaltProofConfig, setting, namespace, ipmi_user}
use halt_proof.Operator.{or_else}
use halt_proof.Backend.Detect.{known_backend_names, is_one_of, detect_backend}
use halt_proof.Core.{build_backend, check_name, resolve_backend_name, non_empty}

-- The names of the three backends.
abbrev pub IsKnown : String → Type 0
IsKnown name = (name ≡ "kubernetes") ⊎ ((name ≡ "slurm") ⊎ (name ≡ "ipmi"))

is_one_of-IsKnown : (name : String) → is_one_of name known_backend_names ≡ true → IsKnown name
unfolding is_one_of
is_one_of-IsKnown name h =
    ground (arith, eq_iff name "kubernetes", eq_iff name "slurm", eq_iff name "ipmi")

check_name-IsKnown : (o : Option String) {name : String} → check_name o ≡ ok name → IsKnown name
unfolding check_name
check_name-IsKnown none h = cc
check_name-IsKnown (some s) h = ground (arith, eq_iff s "", is_one_of-IsKnown s)

-- What follows a setting that was read.
after_setting :
    (r : Result Exn (Option String)) (k : Option String → Result Exn String) {name : String}
    → (r >>= k) ≡ ok name
    → (o : Option String) × (k o ≡ ok name)
after_setting (ok o) k h = (o, h)
after_setting (err e) k h = cc

module _ (h : Host) where
  -- A name that `resolve_backend_name` returns is that of one of the three backends.
  pub resolve_backend_name-IsKnown :
      (explicit : Option String) (config : HaltProofConfig) {name : String}
      → resolve_backend_name h explicit config ≡ ok name
      → IsKnown name
  unfolding resolve_backend_name
  resolve_backend_name-IsKnown explicit config e = resolved (non_empty explicit) e
    where
      resolved :
          (o : Option String) {name : String}
          → elim o [
            | some name ↦ check_name (some name)
            | none ↦ do
              configured ← setting "backend" config
              check_name (or_else configured (detect_backend h))
          ]
            ≡ ok name
          → IsKnown name
      resolved (some s) e = check_name-IsKnown (some s) e
      resolved none e =
          check_name-IsKnown
            (or_else (after_setting (setting "backend" config) _ e).0 (detect_backend h))
            (after_setting (setting "backend" config) _ e).1

  failed_setting :
      (name : String) (config : HaltProofConfig) {x : Exn}
      → IsKnown name
      → build_backend name config ≡ err x
      → (namespace config ≡ err x) ⊎ (ipmi_user config ≡ err x)
  unfolding build_backend
  failed_setting name config k e =
      ground (arith, eq_iff name "kubernetes", eq_iff name "slurm", eq_iff name "ipmi")

  -- If `_build_backend` raises for a name that `resolve_backend_name` returned, then it is because
  -- reading the namespace or the user of the settings raised, and with the same exception.
  pub resolve_backend_name-builds :
      (explicit : Option String) (config : HaltProofConfig) (name : String) (x : Exn)
      → resolve_backend_name h explicit config ≡ ok name
      → build_backend name config ≡ err x
      → (namespace config ≡ err x) ⊎ (ipmi_user config ≡ err x)
  resolve_backend_name-builds explicit config name x e b =
      failed_setting name config (resolve_backend_name-IsKnown explicit config e) b
