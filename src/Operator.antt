-- ===== src/Operator.antt =====
-- operator.py
use halt_proof.Base.{
  ◌≡◌, ◌≢◌, ◌⊎◌, inl, inr, ap, sym, ◌∙◌, true, false, false≢true, eq_iff, Bool-cases, String, ◌==◌,
  Option, none, some, if◌then◌else◌,
}
use halt_proof.Host.{Host, getenv}

-- `a or b`, where each may be `None`.
unfoldable pub or_else : Option String → Option String → Option String
or_else none b = b
or_else (some a) b = if a == "" then b else some a

some_injective : {s t : String} → some s ≡ some t → s ≡ t
some_injective e = cc

module _ (h : Host) where
  -- `_ssh_cert_identity`
  unfoldable pub ssh_cert_identity : Option String
  unfolding getenv or_else
  ssh_cert_identity = or_else (getenv "HALTPROOF_SSH_CERT_IDENTITY" h.environ) none

  -- `getpass.getuser()`, or the variable `USER`.
  unfoldable pub os_user : String
  unfolding getenv
  os_user = elim h.getuser [
    | some user ↦ user
    | none ↦ elim (getenv "USER" h.environ) [ none ↦ "unknown" | some user ↦ user ]
  ]

  -- `resolve_operator_id`
  unfoldable pub resolve_operator_id : Option String → String
  unfolding or_else ssh_cert_identity os_user
  resolve_operator_id explicit = elim (or_else explicit ssh_cert_identity) [
    | some identity ↦ identity
    | none ↦ os_user
  ]

  -- An option that holds no empty text.
  abbrev Given : Option String → Type 0
  Given o = o ≢ some ""

  or_else-Given : (a b : Option String) → Given b → Given (or_else a b)
  unfolding or_else
  or_else-Given none b g = g
  or_else-Given (some a) b g = given (Bool-cases (a == ""))
    where
      given : ((a == "") ≡ true) ⊎ ((a == "") ≡ false) → Given (or_else (some a) b)
      given (inl blank) = rw blank g
      given (inr other) = rw other λ e. false≢true (sym other ∙ (eq_iff a "").1 (some_injective e))

  resolved-named :
      (o : Option String) (user : String)
      → Given o
      → user ≢ ""
      → ◌≢◌ {A = String} (elim o [ some identity ↦ identity | none ↦ user ]) ""
  resolved-named none user g named = named
  resolved-named (some s) user g named = λ e. g (ap some e)

  cert-Given : Given ssh_cert_identity
  unfolding ssh_cert_identity
  cert-Given = or_else-Given (getenv "HALTPROOF_SSH_CERT_IDENTITY" h.environ) none λ e. cc

  -- An identity is not empty, unless the system has an empty name for the user.
  pub resolve_operator_id-named :
      (explicit : Option String) → os_user ≢ "" → resolve_operator_id explicit ≢ ""
  unfolding resolve_operator_id
  resolve_operator_id-named explicit named =
      resolved-named (or_else explicit ssh_cert_identity) os_user
        (or_else-Given explicit ssh_cert_identity cert-Given) named
