-- ===== src/Core/Keygen/Pair.antt =====
-- The pair of keys that `run_keygen` leaves.
use halt_proof.Base.{
  String, ℕ, ◌+◌, ◌≡◌, ◌≢◌, refl, sym, ap, ap₂, ◌∙◌, ◌⊎◌, inl, inr, Bool, true, false, Option, none,
  some, Option-cases, Bool-cases,
}
use halt_proof.Base.Results.{ok, ok_injective, ok-ne-err}
use halt_proof.Platform.{Platform, IsLawful}
use halt_proof.Exec.{pure, reads, modify, Returns, ◌>>=◌}
use halt_proof.World.{World, Mode, private_pem, public_pem, load_private_key, load_public_key}
use halt_proof.Keys.{
  public_path, private_key_mode, public_key_mode, key_actions, perform, fresh_key, generate_keypair,
}
use halt_proof.Attestation.{AttestationRecord, sign_record, verify_record}
use halt_proof.Attestation.Signing.{verify_record-IsSigned, sign_record-IsSigned}
use halt_proof.Core.{chosen}
use halt_proof.Core.Keygen.{KeygenResult, check_absent, run_keygen, run_keygen-kept}
use halt_proof.Core.Keygen.Private.{view, w₆, view₆, public₆, rest₆}

module _ (p : Platform) where
  load_private_key-written :
      (path : String) (k : p.PrivateKey) (v : World p)
      → v.files path ≡ some (private_pem k)
      → load_private_key p path v ≡ ok k
  unfolding load_private_key
  load_private_key-written path k v e = rw (e, load_private_key) refl

  load_public_key-written :
      (path : String) (k : p.PublicKey) (v : World p)
      → v.files path ≡ some (public_pem k)
      → load_public_key p path v ≡ ok k
  unfolding load_public_key
  load_public_key-written path k v e = rw (e, load_public_key) refl

  module _ (umask : Mode) (generate : ℕ → p.PrivateKey) where
    check_absent-passed :
        (path : String) (force : Bool) (w : World p)
        → (w.files path ≡ none) ⊎ (force ≡ true)
        → check_absent p umask generate path force w ≡ ok tt
    unfolding check_absent
    check_absent-passed path force w (inl e) = rw (e, check_absent) refl
    check_absent-passed path force w (inr e) = elim (Option-cases (w.files path)) [
      | inl absent ↦ rw (absent, check_absent) refl
      | inr (c, there) ↦ rw (there, e, check_absent) refl
    ]

    -- The world in which the files are written.
    abbrev ticked : World p → World p
    ticked w = record w { trace = record w.trace { ticks = w.trace.ticks + 1 } }

    module _ (default_key : String) (output_path : Option String) (force : Bool) (w : World p) where
      abbrev key_path : String
      key_path = chosen output_path none default_key

      abbrev made_key : p.PrivateKey
      made_key = generate w.trace.ticks

      run_keygen-passed :
          (w.files key_path ≡ none) ⊎ (force ≡ true)
          → run_keygen p umask generate default_key output_path force w ≡ (
            ok (record {
              private_key_path = key_path;
              public_key_path = public_path key_path;
              private_key_permissions = "0600";
            }),
            w₆ p umask key_path made_key (ticked w),
          )
      unfolding run_keygen generate_keypair fresh_key key_actions perform ◌>>=◌ reads modify pure
      run_keygen-passed free = rw (check_absent-passed key_path force w free) refl

      -- Where no file is at the path, or `force` is given, `run_keygen` returns the two paths, and
      -- loading them gives a private key and its public key. The private key's file is then open to
      -- its owner only, and the public key's is readable for all.
      pub run_keygen-pair :
          (w.files key_path ≡ none) ⊎ (force ≡ true)
          → ((run_keygen p umask generate default_key output_path force w).0
              ≡ ok (record {
                private_key_path = key_path;
                public_key_path = public_path key_path;
                private_key_permissions = "0600";
              }))
            × (load_private_key p key_path
                  (run_keygen p umask generate default_key output_path force w).1
                ≡ ok made_key)
            × (load_public_key p
                  (public_path key_path)
                  (run_keygen p umask generate default_key output_path force w).1
                ≡ ok (p.public_key made_key))
            × ((run_keygen p umask generate default_key output_path force w).1.modes key_path
                ≡ private_key_mode)
            × ((run_keygen p umask generate default_key output_path force w).1.modes
                  (public_path key_path)
                ≡ public_key_mode)
      run_keygen-pair free =
          let e = run_keygen-passed free in
          let own = view₆ p umask key_path made_key (ticked w) in
          let published = public₆ p umask key_path made_key (ticked w) in
          rw e (
            refl,
            load_private_key-written key_path made_key _ (ap (λ x. x.0) own),
            load_public_key-written (public_path key_path) (p.public_key made_key) _
                (ap (λ x. x.0) published),
            ap (λ x. x.1) own,
            ap (λ x. x.1) published,
          )

      others_of_passed :
          (q : String)
          → q ≢ key_path
          → q ≢ public_path key_path
          → (w.files key_path ≡ none) ⊎ (force ≡ true)
          → view p q (run_keygen p umask generate default_key output_path force w).1 ≡ view p q w
      others_of_passed q a b free =
          rw (run_keygen-passed free) (rest₆ p umask key_path made_key (ticked w) q a b)

      -- `run_keygen` leaves what stands at any path but these two as it was, with its permissions,
      -- whatever it returns or raises.
      pub run_keygen-others :
          (q : String)
          → q ≢ key_path
          → q ≢ public_path key_path
          → view p q (run_keygen p umask generate default_key output_path force w).1 ≡ view p q w
      run_keygen-others q a b = elim (Option-cases (w.files key_path)) [
        | inl absent ↦ others_of_passed q a b (inl absent)
        | inr (c, there) ↦ elim (Bool-cases force) [
          | inl forced ↦ others_of_passed q a b (inr forced)
          | inr unforced ↦
              rw (unforced, run_keygen-kept p umask generate default_key output_path c w there) refl
        ]
      ]

free_of_returned :
    (p : Platform) (umask : Mode) (generate : ℕ → p.PrivateKey) (default_key : String)
    (output_path : Option String) (force : Bool) (w : World p) (made : KeygenResult) (v : World p)
    → Returns (run_keygen p umask generate default_key output_path force) w made v
    → (w.files (chosen output_path none default_key) ≡ none) ⊎ (force ≡ true)
free_of_returned p umask generate default_key output_path true w made v e = inr refl
free_of_returned p umask generate default_key output_path false w made v e =
    elim (Option-cases (w.files (chosen output_path none default_key))) [
      | inl absent ↦ inl absent
      | inr (c, there) ↦
          let kept = run_keygen-kept p umask generate default_key output_path c w there in
          absurd (ok-ne-err (sym (ap (λ x. x.0) e) ∙ ap (λ x. x.0) kept))
    ]

-- What the private key signs that `run_keygen` wrote, verifies under the public key that it wrote.
pub run_keygen-verifies :
    (p : Platform) (umask : Mode) (generate : ℕ → p.PrivateKey) (default_key : String)
    (output_path : Option String) (force : Bool) (w v : World p) (made : KeygenResult)
    (r : AttestationRecord) (k : p.PrivateKey) (t : p.PublicKey)
    → IsLawful p
    → Returns (run_keygen p umask generate default_key output_path force) w made v
    → load_private_key p made.private_key_path v ≡ ok k
    → load_public_key p made.public_key_path v ≡ ok t
    → verify_record p (sign_record p r k) (some t) ≡ ok true
run_keygen-verifies p umask generate default_key output_path force w v made r k t L e ek et =
    let free = free_of_returned p umask generate default_key output_path force w made v e in
    let (result, private, public, _, _) =
      run_keygen-pair p umask generate default_key output_path force w free in
    let same = ok_injective (sym (ap (λ x. x.0) e) ∙ result) in
    let after = sym (ap (λ x. x.1) e) in
    let one = ok_injective (
      sym ek
      ∙ ap₂ (load_private_key p) (ap (λ (x : KeygenResult). x.private_key_path) same) after
      ∙ private) in
    let two = ok_injective (
      sym et
      ∙ ap₂ (load_public_key p) (ap (λ (x : KeygenResult). x.public_key_path) same) after
      ∙ public) in
    verify_record-IsSigned p _ (some t)
      (sign_record-IsSigned p L r k (some t) (ap p.public_bytes (two ∙ ap p.public_key (sym one))))
