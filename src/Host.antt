-- ===== src/Host.antt =====
-- What a halt meets on the machine that it runs on: processes, the clock, the environment. `Trace`
-- is what the backends change: the commands that were started, in order, and how often the clock
-- and the random numbers were asked.
use halt_proof.Base.{
  ℕ, ◌+◌, String, ◌==◌, Bool, Option, none, some, List, [], ◌∷◌, ◌++◌, if◌then◌else◌,
}
use halt_proof.Base.Int.{ℤ}
use halt_proof.Base.Results.{Result, ok}
use halt_proof.Errors.{Exn}
use halt_proof.Exec.{Exec}
use halt_proof.Json.{Json}

abbrev pub Environ : Type 0
Environ = List (String × String)

-- `os.environ.get(k)`
unfoldable pub getenv : String → Environ → Option String
getenv k [] = none
getenv k ((j, v) ∷ m) = if j == k then some v else getenv k m

-- The arguments of `subprocess.run`; the timeout is in seconds.
pub record Call : Type 0 where
  pub argv : List String
  pub input : Option String
  pub timeout : ℕ
  pub env : Option Environ

pub record Process : Type 0 where
  pub returncode : ℤ
  pub stdout : String
  pub stderr : String

-- How `subprocess.run` ends: a process that ended, a `FileNotFoundError` with its text, a
-- `TimeoutExpired` with its timeout and its text, or any other exception.
pub data Outcome : Type 0 where
  completed : Process → Outcome
  not_found : String → Outcome
  timed_out : String → String → Outcome
  raised : Exn → Outcome

pub record Host : Type 0 where
  -- The answer may depend on all that was run before.
  pub run : List Call → Call → Outcome
  -- `datetime.now(timezone.utc).isoformat()`, `str(uuid.uuid4())` at a given tick.
  pub now : ℕ → String
  pub uuid4 : ℕ → String
  -- `socket.gethostname()`
  pub hostname : String
  -- `shutil.which(tool) is not None`
  pub which : String → Bool
  pub environ : Environ
  -- `getpass.getuser()`; `none` is an exception.
  pub getuser : Option String
  -- `s.lower()`
  pub lower : String → String
  -- `json.loads(s)` of a process's output, or the text of its `JSONDecodeError`.
  pub parse_json : String → Result String Json

pub record Trace : Type 0 where
  pub calls : List Call
  pub ticks : ℕ

module _ (h : Host) where
  -- `subprocess.run(...)`
  unfoldable pub run_process : Call → Exec Trace Outcome
  run_process c t = (ok (h.run t.calls c), record t { calls = t.calls ++ c ∷ [] })

  unfoldable pub timestamp : Exec Trace String
  timestamp t = (ok (h.now t.ticks), record t { ticks = t.ticks + 1 })

  unfoldable pub fresh_id : Exec Trace String
  fresh_id t = (ok (h.uuid4 t.ticks), record t { ticks = t.ticks + 1 })
