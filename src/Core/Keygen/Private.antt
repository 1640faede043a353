-- ===== src/Core/Keygen/Private.antt =====
-- What `generate_keypair` leaves, and who can read the key meanwhile.
use Prim.Native.String.{[]}
use text.Mathlib.TextLemmas.{cons-ne-nil, append_cancel_left, append-nil}
use halt_proof.Base.{
  String, eq_refl, ◌≡◌, ◌≢◌, refl, sym, ap, ◌∙◌, ◌⊎◌, ◌↔◌, inl, inr, Option, none, some, List, All,
  Option-cases, subst,
}
use halt_proof.Base.TextOrder.{not_equal}
use halt_proof.Platform.{Platform}
use halt_proof.World.{World, Content, Mode, private_pem, public_pem, other, write_file}
use halt_proof.Keys.{
  default_mode, public_path, private_key_mode, public_key_mode, closed, masked, chmod,
  open_truncated, key_actions,
}

public_path-ne : (path : String) → public_path path ≢ path
unfolding public_path
public_path-ne path e =
    cons-ne-nil _ _ (append_cancel_left path ".pub" [] (e ∙ sym (append-nil path)))

-- Neither the group nor others may do anything.
abbrev pub IsPrivate : Mode → Type 0
IsPrivate m = (m.group ≡ closed) × (m.other ≡ closed)

module _ (p : Platform) where
  abbrev pub View : Type 0
  View = Option (Content p) × Mode

  -- What stands at a path, with its permissions.
  abbrev pub view : String → World p → View
  view path w = (w.files path, w.modes path)

  -- If it is a private key, then only its owner may read it.
  abbrev pub IsHidden : View → Type 0
  IsHidden (some (private_pem k), m) = IsPrivate m
  IsHidden _ = Unit

  -- The states after each of the calls.
  abbrev pub moments : List (World p → World p) → World p → List (World p)
  moments List.[] w = List.[]
  moments (List.◌∷◌ a actions) w = List.◌∷◌ (a w) (moments actions (a w))

  view-write_file :
      (path : String) (c : Content p) (w : World p)
      → view path (write_file p path c w) ≡ (some c, w.modes path)
  unfolding write_file
  view-write_file path c w = rw (eq_refl path) refl

  view-write_file_other :
      (path q : String) (c : Content p) (w : World p)
      → q ≢ path
      → view q (write_file p path c w) ≡ view q w
  unfolding write_file
  view-write_file_other path q c w h = rw (not_equal q path h) refl

  view-chmod :
      (path : String) (m : Mode) (w : World p) → view path (chmod p path m w) ≡ (w.files path, m)
  unfolding chmod
  view-chmod path m w = rw (eq_refl path) refl

  view-chmod_other :
      (path q : String) (m : Mode) (w : World p) → q ≢ path → view q (chmod p path m w) ≡ view q w
  unfolding chmod
  view-chmod_other path q m w h = rw (not_equal q path h) refl

  -- The permissions that a file has once it is opened.
  abbrev pub opened : Mode → Mode → View → Mode
  opened umask m (none, old) = masked umask m
  opened umask m (some c, old) = old

  view-open_truncated :
      (umask : Mode) (path : String) (m : Mode) (w : World p)
      → view path (open_truncated p umask path m w) ≡ (some other, opened umask m (view path w))
  unfolding open_truncated
  view-open_truncated umask path m w = elim (Option-cases (w.files path)) [
    | inl e ↦ rw (e, eq_refl path, open_truncated, write_file, chmod) refl
    | inr (c, e) ↦ rw (e, eq_refl path, open_truncated, write_file) refl
  ]

  view-open_truncated_other :
      (umask : Mode) (path q : String) (m : Mode) (w : World p)
      → q ≢ path
      → view q (open_truncated p umask path m w) ≡ view q w
  unfolding open_truncated
  view-open_truncated_other umask path q m w h = elim (Option-cases (w.files path)) [
    | inl e ↦ rw (e, not_equal q path h, open_truncated, write_file, chmod) refl
    | inr (c, e) ↦ rw (e, not_equal q path h, open_truncated, write_file) refl
  ]

  opened-IsPrivate :
      (umask : Mode) (o : Option (Content p)) (old : Mode)
      → ((o ≡ none) ⊎ IsPrivate old)
      → IsPrivate (opened umask private_key_mode (o, old))
  unfolding masked
  opened-IsPrivate umask none old h = (refl, refl)
  opened-IsPrivate umask (some c) old (inl e) = cc
  opened-IsPrivate umask (some c) old (inr h) = h

  opened-cases :
      (umask : Mode) (o : Option (Content p)) (old : Mode)
      → IsPrivate (opened umask private_key_mode (o, old))
      → (o ≡ none) ⊎ IsPrivate old
  opened-cases umask none old h = inl refl
  opened-cases umask (some c) old h = inr h

  module _ (umask : Mode) (path : String) (k : p.PrivateKey) (w : World p) where
    -- The permissions that the private key is written under.
    abbrev written_mode : Mode
    written_mode = opened umask private_key_mode (view path w)

    abbrev pub w₁ : World p
    w₁ = open_truncated p umask path private_key_mode w

    abbrev pub w₂ : World p
    w₂ = write_file p path (private_pem k) w₁

    abbrev pub w₃ : World p
    w₃ = chmod p path private_key_mode w₂

    abbrev pub w₄ : World p
    w₄ = open_truncated p umask (public_path path) default_mode w₃

    abbrev pub w₅ : World p
    w₅ = write_file p (public_path path) (public_pem (p.public_key k)) w₄

    abbrev pub w₆ : World p
    w₆ = chmod p (public_path path) public_key_mode w₅

    view₁ : view path w₁ ≡ (some other, written_mode)
    view₁ = view-open_truncated umask path private_key_mode w

    view₂ : view path w₂ ≡ (some (private_pem k), written_mode)
    view₂ =
        view-write_file path (private_pem k) w₁
        ∙ ap (λ (x : View). (some (private_pem k), x.1)) view₁

    view₃ : view path w₃ ≡ (some (private_pem k), private_key_mode)
    view₃ = view-chmod path private_key_mode w₂ ∙ ap (λ (x : View). (x.0, private_key_mode)) view₂

    path-ne : path ≢ public_path path
    path-ne e = public_path-ne path (sym e)

    view₄ : view path w₄ ≡ (some (private_pem k), private_key_mode)
    view₄ = view-open_truncated_other umask (public_path path) path default_mode w₃ path-ne ∙ view₃

    view₅ : view path w₅ ≡ (some (private_pem k), private_key_mode)
    view₅ =
        view-write_file_other (public_path path) path (public_pem (p.public_key k)) w₄ path-ne
        ∙ view₄

    pub view₆ : view path w₆ ≡ (some (private_pem k), private_key_mode)
    view₆ = view-chmod_other (public_path path) path public_key_mode w₅ path-ne ∙ view₅

    -- At the public key's path.
    public₅ : (view (public_path path) w₅).0 ≡ some (public_pem (p.public_key k))
    public₅ =
        ap (λ (x : View). x.0) (view-write_file (public_path path) (public_pem (p.public_key k)) w₄)

    pub public₆ : view (public_path path) w₆ ≡ (some (public_pem (p.public_key k)), public_key_mode)
    public₆ =
        view-chmod (public_path path) public_key_mode w₅
        ∙ ap (λ (o : Option (Content p)). (o, public_key_mode)) public₅

    -- At any other path.
    pub rest₆ : (q : String) → q ≢ path → q ≢ public_path path → view q w₆ ≡ view q w
    rest₆ q a b =
        view-chmod_other (public_path path) q public_key_mode w₅ b
        ∙ view-write_file_other (public_path path) q (public_pem (p.public_key k)) w₄ b
        ∙ view-open_truncated_other umask (public_path path) q default_mode w₃ b
        ∙ view-chmod_other path q private_key_mode w₂ a
        ∙ view-write_file_other path q (private_pem k) w₁ a
        ∙ view-open_truncated_other umask path q private_key_mode w a

    hidden :
        {m : Mode} (v : World p)
        → view path v ≡ (some (private_pem k), m)
        → IsPrivate m
        → IsHidden (view path v)
    hidden v e h = subst IsHidden (sym e) h

    written_mode-IsPrivate :
        ((w.files path ≡ none) ⊎ IsPrivate (w.modes path)) → IsPrivate written_mode
    written_mode-IsPrivate = opened-IsPrivate umask (w.files path) (w.modes path)

    written_mode-cases : IsPrivate written_mode → (w.files path ≡ none) ⊎ IsPrivate (w.modes path)
    written_mode-cases = opened-cases umask (w.files path) (w.modes path)

    -- While `generate_keypair` writes the key, no moment leaves it readable for the group or for
    -- others, exactly if no file was at its path before or that file was closed to them. A file
    -- that was open to them holds the new key before its permissions are changed.
    pub moments-IsHidden :
        All (λ (v : World p). IsHidden (view path v)) (moments (key_actions p umask path k) w)
        ↔ ((w.files path ≡ none) ⊎ IsPrivate (w.modes path))
    unfolding key_actions
    moments-IsHidden = (
      λ h. written_mode-cases (subst IsHidden view₂ h.1.0),
      λ h. (
        subst IsHidden (sym view₁) tt,
        (
          hidden w₂ view₂ (written_mode-IsPrivate h),
          (
            hidden w₃ view₃ (refl, refl),
            (
              hidden w₄ view₄ (refl, refl),
              (hidden w₅ view₅ (refl, refl), (hidden w₆ view₆ (refl, refl), tt)),
            ),
          ),
        ),
      ),
    )
