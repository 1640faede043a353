-- ===== src/Tests/Keys.antt =====
-- The theorems on new keys.
use halt_proof.Base.{◌≡◌, ◌⊎◌, ◌↔◌, refl, inl, true, false, none, some, All}
use halt_proof.Base.Results.{ok}
use halt_proof.Platform.Sample.{sample, sample-IsLawful, key}
use halt_proof.Exec.{Returns, ◌>>=◌, reads, modify, pure}
use halt_proof.World.{World, Mode, Bits, load_private_key, load_public_key}
use halt_proof.Attestation.{sign_record, verify_record}
use halt_proof.Keys.{closed, private_key_mode, public_key_mode, key_actions, public_path}
use halt_proof.Core.{chosen}
use halt_proof.Core.Keygen.{KeygenResult, run_keygen}
use halt_proof.Core.Keygen.Private.{IsPrivate, IsHidden, moments, view, moments-IsHidden}
use halt_proof.Core.Keygen.Pair.{run_keygen-pair, run_keygen-verifies}
use halt_proof.Tests.{without_key, r₁}

abbrev no_write : Bits
no_write = record { read = false; write = true; execute = false }

-- 0o022
abbrev umask : Mode
umask = record { owner = closed; group = no_write; other = no_write }

moments-IsHidden_example :
    All
      (λ (v : World sample). IsHidden sample (view sample "k" v))
      (moments sample (key_actions sample umask "k" key) without_key)
    ↔ ((without_key.files "k" ≡ none) ⊎ IsPrivate private_key_mode)
moments-IsHidden_example = moments-IsHidden sample umask "k" key without_key

-- What `run_keygen` leaves at a path without a file.
abbrev made : World sample
made = (run_keygen sample umask (λ n. key) "k" none false without_key).1

abbrev result : KeygenResult
result = record {
  private_key_path = "k";
  public_key_path = "k.pub";
  private_key_permissions = "0600";
}

default_key_path : chosen none none "k" ≡ "k"
unfolding chosen
default_key_path = refl

keygen-computes :
    Returns (run_keygen sample umask (λ n. key) "k" none false) without_key result made
    × (load_private_key sample "k" made ≡ ok key)
    × (load_public_key sample "k.pub" made ≡ ok (sample.public_key key))
unfolding run_keygen ◌>>=◌ reads modify pure halt_proof.Core.Keygen.check_absent chosen
    halt_proof.Keys.generate_keypair halt_proof.Keys.fresh_key key_actions halt_proof.Keys.perform
    halt_proof.Keys.open_truncated halt_proof.Keys.chmod halt_proof.World.write_file public_path
    load_private_key load_public_key
keygen-computes = (refl, refl, refl)

run_keygen-pair_example :
    ((run_keygen sample umask (λ n. key) "k" none false without_key).0
      ≡ ok (record {
        private_key_path = chosen none none "k";
        public_key_path = public_path (chosen none none "k");
        private_key_permissions = "0600";
      }))
    × (load_private_key sample (chosen none none "k") made ≡ ok key)
    × (load_public_key sample (public_path (chosen none none "k")) made
        ≡ ok (sample.public_key key))
    × (made.modes (chosen none none "k") ≡ private_key_mode)
    × (made.modes (public_path (chosen none none "k")) ≡ public_key_mode)
run_keygen-pair_example =
    run_keygen-pair sample umask (λ n. key) "k" none false without_key (inl refl)

run_keygen-verifies_example :
    verify_record sample (sign_record sample r₁ key) (some (sample.public_key key)) ≡ ok true
run_keygen-verifies_example =
    run_keygen-verifies sample umask (λ n. key) "k" none false without_key made result r₁ key
      (sample.public_key key) sample-IsLawful keygen-computes.0 keygen-computes.1 keygen-computes.2
