-- ===== src/Config.antt =====
-- config.py: the settings of a TOML file, with the types that the properties declare.
use halt_proof.Base.{String, ◌<>◌, ◌==◌, Option, none, some, List, [], ◌∷◌, ◌++◌, if◌then◌else◌}
use halt_proof.Base.Results.{Result, ok, err, ◌>>=◌}
use halt_proof.Errors.{Exn, attribute_error, ill_typed, value_error}
use halt_proof.Json.{Json, str, arr, obj, Items, nil, cons, Fields, end, get}
use halt_proof.Platform.{Platform}
use halt_proof.Host.{Host, getenv}
use halt_proof.World.{World, toml}

-- `HaltProofConfig`: its `data`.
abbrev pub HaltProofConfig : Type 0
HaltProofConfig = Fields

as_text : Option Json → Result Exn (Option String)
as_text none = ok none
as_text (some (str s)) = ok (some s)
as_text (some _) = err (ill_typed "text")

-- `self.data.get(k)` of a property that is a text or `None`.
unfoldable pub setting : String → HaltProofConfig → Result Exn (Option String)
unfolding as_text get
setting k data' = as_text (get k data')

-- `self.data.get(table, {})`
table : String → HaltProofConfig → Result Exn Fields
unfolding get
table k data' = elim (get k data') [
  | none ↦ ok end
  | some (obj m) ↦ ok m
  | some _ ↦ err attribute_error
]

-- `namespace`
unfoldable pub namespace : HaltProofConfig → Result Exn String
unfolding table setting
namespace data' = do
  kubernetes ← table "kubernetes" data'
  value ← setting "namespace" kubernetes
  ok (elim value [ none ↦ "default" | some s ↦ s ])

-- `ipmi_user`
unfoldable pub ipmi_user : HaltProofConfig → Result Exn (Option String)
unfolding table setting
ipmi_user data' = do ipmi ← table "ipmi" data'; setting "user" ipmi

texts : Items → Result Exn (List String)
texts nil = ok []
texts (cons (str s) vs) = do rest ← texts vs; ok (s ∷ rest)
texts (cons _ vs) = err (ill_typed "node")

-- `resolve_group`
unfoldable pub resolve_group : String → HaltProofConfig → Result Exn (Option (List String))
unfolding table texts get
resolve_group group data' = do
  groups ← table "groups" data'
  elim (get group groups) [
    | none ↦ ok none
    | some (arr vs) ↦ do nodes ← texts vs; ok (some nodes)
    | some _ ↦ err (ill_typed "group")
  ]

-- The path of an argument or a variable that is given and not empty.
abbrev pub given : Option String → List String
given none = []
given (some s) = if s == "" then [] else s ∷ []

module _ (p : Platform) (h : Host) (home : String) where
  -- `candidates`: an explicit path, `HALTPROOF_CONFIG`, then `DEFAULT_LOCATIONS`.
  unfoldable pub candidates : Option String → List String
  unfolding getenv
  candidates explicit_path =
      given explicit_path
      ++ (given (getenv "HALTPROOF_CONFIG" h.environ)
          ++ ("haltproof.toml" ∷ (home <> "/.config/haltproof/config.toml") ∷ []))

  -- The loop over the candidates: the first that exists.
  unfoldable pub load_first : World p → List String → Result Exn HaltProofConfig
  load_first w [] = ok end
  load_first w (path ∷ paths) =
      let rest = load_first w paths in
      elim (w.files path) [ none ↦ rest | some (toml m) ↦ ok m | some _ ↦ err (value_error path) ]

  -- `load_config`
  unfoldable pub load_config : Option String → World p → Result Exn HaltProofConfig
  unfolding candidates load_first
  load_config explicit_path w = load_first w (candidates explicit_path)
