-- ===== src/Cli/Layout.antt =====
-- The texts that cli.py puts together for people: the columns of a step, and the values that its
-- f-strings take from dicts, with what Python raises where a value does not fit.
use Prim.Native.Nat.{zero, suc}
use Prim.Native.String as Str
use halt_proof.Base.{ℕ, String, ◌<>◌, Bool, none, some, List, [], ◌∷◌, if◌then◌else◌}
use halt_proof.Base.Results.{Result, ok, err, ◌>>=◌}
use halt_proof.Errors.{Exn, AttestationFault, key_error, type_error, value_error, attribute_error}
use halt_proof.Json.{
  Json, bool, num, str, arr, obj, Items, nil, cons, Fields, end, field, get, truthy,
}

-- What Python's strings and `json` do.
pub record Words : Type 0 where
  -- `s.upper()`
  pub upper : String → String
  -- `repr(s)`
  pub repr : String → String
  -- `str(d)` of a dict.
  pub str_dict : Fields → String
  -- `str(v)` of a value that is no text.
  pub str_value : Json → String
  -- The exception that the message of an `AttestationError` quotes, where it quotes one.
  pub quoted : AttestationFault → String
  -- `str(exc)` of an exception that `verify_record` does not raise.
  pub str_exn : Exn → String
  -- `json.dumps(d, indent=2, sort_keys=True)`
  pub dumps_indented : Fields → String

-- `str(b)`
unfoldable pub str_bool : Bool → String
str_bool b = if b then "True" else "False"

-- `f"{s:20s}"`: at least so many characters, filled with spaces on the right.
unfoldable pub padded : ℕ → String → String
padded zero s = s
padded (suc n) Str.[] = " " <> padded n Str.[]
padded (suc n) (Str.◌∷◌ c s) = Str.◌∷◌ c (padded n s)

-- `separator.join(texts)`
unfoldable pub join : String → List String → String
join separator [] = ""
join separator (s ∷ []) = s
join separator (s ∷ (t ∷ ss)) = let rest = join separator (t ∷ ss) in s <> (separator <> rest)

unfoldable pub characters : String → List String
characters Str.[] = []
characters (Str.◌∷◌ c s) = Str.◌∷◌ c Str.[] ∷ characters s

unfoldable pub keys : Fields → List String
keys end = []
keys (field k v m) = k ∷ keys m

-- The items of a list for `join`, which takes only texts.
unfoldable pub texts : Items → Result Exn (List String)
texts nil = ok []
texts (cons (str s) vs) = do ss ← texts vs; ok (s ∷ ss)
texts (cons v vs) = err type_error

-- `" ".join(value)`: a text is joined from its characters, and a dict from its keys.
unfoldable pub joined : Json → Result Exn String
unfolding join characters keys texts
joined (arr vs) = do ss ← texts vs; ok (join " " ss)
joined (obj m) = ok (join " " (keys m))
joined (str s) = ok (join " " (characters s))
joined v = err type_error

-- `step[k]`
unfoldable pub item : String → Json → Result Exn Json
unfolding get
item k (obj m) = elim (get k m) [ none ↦ err key_error | some v ↦ ok v ]
item k v = err type_error

-- `" ".join(step["command"]) if step["command"] else "(no command)"`
unfoldable pub command_text : Json → Result Exn String
unfolding joined truthy
command_text v = if truthy v then joined v else ok "(no command)"

-- `f"{v:20s}"`: a number knows no such format, and other values know no format.
unfoldable pub padded_value : ℕ → Json → Result Exn String
unfolding padded
padded_value n (str s) = ok (padded n s)
padded_value n (num i) = err (value_error "s")
padded_value n (bool b) = err (value_error "s")
padded_value n v = err type_error

module _ (ws : Words) where
  -- `f"{v}"`
  unfoldable pub shown : Json → String
  shown (str s) = s
  shown v = ws.str_value v

  -- `v.upper()`
  unfoldable pub upper_value : Json → Result Exn String
  upper_value (str s) = ok (ws.upper s)
  upper_value v = err attribute_error

  -- `f"[{step['status'].upper():8s}] {step['node']:20s} {step['operation']:16s} {cmd}"`
  unfoldable pub columns : Json → String → Result Exn String
  unfolding item upper_value padded_value
  columns step cmd = do
    status ← item "status" step
    upper ← upper_value status
    node ← item "node" step
    wide_node ← padded_value 20 node
    operation ← item "operation" step
    wide_operation ← padded_value 16 operation
    ok (
        "["
        <> (padded 8 upper <> ("] " <> (wide_node <> (" " <> (wide_operation <> (" " <> cmd)))))))

  -- The line of a step that `halt` prints.
  unfoldable pub halt_line : Json → Result Exn String
  unfolding columns command_text
  halt_line step = do
    command ← item "command" step
    cmd ← command_text command
    line ← columns step cmd
    ok ("  " <> line)

  -- The line of a step that `verify` prints.
  unfoldable pub timeline_line : Json → Result Exn String
  unfolding columns command_text shown
  timeline_line step = do
    command ← item "command" step
    cmd ← command_text command
    time ← item "timestamp" step
    line ← columns step cmd
    ok ("    " <> (shown time <> ("  " <> line)))

-- The line of a node.
unfoldable pub node_line : Json → Result Exn String
unfolding item padded_value truthy
node_line node = do
  reachable ← item "reachable" node
  let reach = if truthy reachable then "reachable" else "unreachable"
  name ← item "node" node
  wide_name ← padded_value 20 name
  state ← item "state" node
  wide_state ← padded_value 12 state
  ok ("  " <> (wide_name <> (" " <> (wide_state <> (" " <> reach)))))
