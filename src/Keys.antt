-- ===== src/Keys.antt =====
-- keys.py: `generate_keypair`. The two loaders stand with the files in World. A path is its text,
-- as `str(Path(text))` gives it; directories and writes that fail are not modelled.
use halt_proof.Base.{
  String, ◌<>◌, ◌==◌, ℕ, ◌+◌, true, false, ◌&&◌, not, none, some, List, [], ◌∷◌, if◌then◌else◌,
}
use halt_proof.Base.Results.{ok}
use halt_proof.Platform.{Platform}
use halt_proof.Exec.{Exec, pure, modify, ◌>>=◌, ◌>>◌}
use halt_proof.World.{World, private_pem, public_pem, other, Bits, Mode, write_file}

abbrev pub closed : Bits
closed = record { read = false; write = false; execute = false }

abbrev read_write : Bits
read_write = record { read = true; write = true; execute = false }

abbrev read_only : Bits
read_only = record { read = true; write = false; execute = false }

-- `PRIVATE_KEY_MODE`, 0o600
abbrev pub private_key_mode : Mode
private_key_mode = record { owner = read_write; group = closed; other = closed }

-- 0o644
abbrev pub public_key_mode : Mode
public_key_mode = record { owner = read_write; group = read_only; other = read_only }

-- 0o666, which `open` asks for.
abbrev pub default_mode : Mode
default_mode = record { owner = read_write; group = read_write; other = read_write }

masked_bits : Bits → Bits → Bits
masked_bits umask b = record {
  read = b.read && not umask.read;
  write = b.write && not umask.write;
  execute = b.execute && not umask.execute;
}

-- `mode & ~umask`
unfoldable pub masked : Mode → Mode → Mode
unfolding masked_bits
masked umask m = record {
  owner = masked_bits umask.owner m.owner;
  group = masked_bits umask.group m.group;
  other = masked_bits umask.other m.other;
}

-- `private_key_path.with_suffix(private_key_path.suffix + ".pub")`
unfoldable pub public_path : String → String
public_path path = path <> ".pub"

module _ (p : Platform) where
  unfoldable pub chmod : String → Mode → World p → World p
  chmod path m w = record w { modes = λ q. if q == path then m else w.modes q }

  -- `os.open(path, O_WRONLY | O_CREAT | O_TRUNC, mode)`: a file that is there keeps its
  -- permissions.
  unfoldable pub open_truncated : Mode → String → Mode → World p → World p
  unfolding chmod masked write_file
  open_truncated umask path m w = elim (w.files path) [
    | none ↦ write_file p path other (chmod path (masked umask m) w)
    | some c ↦ write_file p path other w
  ]

  -- What `generate_keypair` does to the files, one call after the other.
  unfoldable pub key_actions : Mode → String → p.PrivateKey → List (World p → World p)
  unfolding public_path open_truncated chmod write_file
  key_actions umask path k =
      open_truncated umask path private_key_mode
      ∷ write_file p path (private_pem k)
      ∷ chmod path private_key_mode
      ∷ open_truncated umask (public_path path) default_mode
      ∷ write_file p (public_path path) (public_pem (p.public_key k))
      ∷ chmod (public_path path) public_key_mode
      ∷ []

  unfoldable pub perform : List (World p → World p) → World p → World p
  perform [] w = w
  perform (a ∷ actions) w = perform actions (a w)

  -- `Ed25519PrivateKey.generate()` is a parameter, given how often chance was asked before.
  module _ (umask : Mode) (generate : ℕ → p.PrivateKey) where
    unfoldable pub fresh_key : Exec (World p) p.PrivateKey
    fresh_key w = (
      ok (generate w.trace.ticks),
      record w { trace = record w.trace { ticks = w.trace.ticks + 1 } },
    )

    -- `generate_keypair`
    unfoldable pub generate_keypair : String → Exec (World p) String
    unfolding fresh_key key_actions perform
    generate_keypair private_key_path = do
      private_key ← fresh_key
      modify (perform (key_actions umask private_key_path private_key))
      pure (public_path private_key_path)
