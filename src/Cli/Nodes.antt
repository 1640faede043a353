-- ===== src/Cli/Nodes.antt =====
-- cli.py: the option `--nodes`, a list of names with commas between them.
pub mod Split
pub mod Join
use Prim.Native.Char.{code}
use Prim.Native.String.{String, [], ◌∷◌}
use mathlib.Core.List.{List, map}
use halt_proof.Base.{Option, none, some, eqb, if◌then◌else◌}
use halt_proof.Base.Text.{strip}
use halt_proof.Base.Lines.{onto_first}
use halt_proof.Core.{non_empty}

-- `s.split(",")`
unfoldable pub split_commas : String → List String
unfolding onto_first
split_commas [] = List.◌∷◌ [] List.[]
split_commas (c ∷ s) =
    let rest = split_commas s in if eqb (code c) 44 then List.◌∷◌ [] rest else onto_first c rest

-- `[n.strip() for n in nodes.split(",")] if nodes else None`
unfoldable pub node_list : Option String → Option (List String)
unfolding split_commas
node_list nodes = elim (non_empty nodes) [
  | none ↦ none
  | some s ↦ some (map strip (split_commas s))
]
