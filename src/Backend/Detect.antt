-- ===== src/Backend/Detect.antt =====
-- backends/detect.py
use halt_proof.Base.{
  String, ◌==◌, Bool, true, false, Option, none, some, List, [], ◌∷◌, if◌then◌else◌,
}
use halt_proof.Host.{Host}

-- `_BACKEND_TOOLS`, in its order.
abbrev pub backend_tools : List (String × String)
backend_tools = ("kubernetes", "kubectl") ∷ ("slurm", "scontrol") ∷ ("ipmi", "ipmitool") ∷ []

abbrev pub detection_order : List String
detection_order = "kubernetes" ∷ "slurm" ∷ "ipmi" ∷ []

-- `known_backend_names`: the keys of `_BACKEND_CLASSES`.
abbrev pub known_backend_names : List String
known_backend_names = "kubernetes" ∷ "slurm" ∷ "ipmi" ∷ []

-- `name in names`
unfoldable pub is_one_of : String → List String → Bool
is_one_of name [] = false
is_one_of name (n ∷ ns) = if name == n then true else is_one_of name ns

module _ (h : Host) where
  present : List (String × String) → List (String × Bool)
  present [] = []
  present ((name, tool) ∷ tools) = (name, h.which tool) ∷ present tools

  -- `detect_available_backends`
  unfoldable pub detect_available_backends : List (String × Bool)
  unfolding present
  detect_available_backends = present backend_tools

  -- `available.get(name)`, a Boolean or nothing.
  available_at : String → List (String × Bool) → Bool
  available_at name [] = false
  available_at name ((n, b) ∷ rest) = if n == name then b else available_at name rest

  first_available : List (String × Bool) → List String → Option String
  unfolding available_at
  first_available available [] = none
  first_available available (name ∷ names) =
      if available_at name available then some name else first_available available names

  -- `detect_backend`
  unfoldable pub detect_backend : Option String
  unfolding detect_available_backends first_available
  detect_backend = first_available detect_available_backends detection_order
