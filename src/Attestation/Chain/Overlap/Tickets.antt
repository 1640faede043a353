-- ===== src/Attestation/Chain/Overlap/Tickets.antt =====
-- What the answers that halts hold say of the log.
use mathlib.Core.List.{Mem, mem-append_left}
use halt_proof.Base.{
  String, ◌==◌, eq_iff, ◌≡◌, ◌≢◌, refl, sym, ap, ap₂, ◌∙◌, ◌⊎◌, inl, inr, false≢true, Bool-cases,
  List, [], ◌∷◌, ◌++◌, append_assoc, append-nil, All,
}
use halt_proof.Base.Int.{ℤ, eqb_ℤ, eqb_ℤ_iff}
use halt_proof.Platform.{Platform}
use halt_proof.Attestation.{AttestationRecord}
use halt_proof.Attestation.Log.Written.{state_after}

-- Two records with one number, told apart by their ids.
abbrev pub Clash : List AttestationRecord → Type 0
Clash rs =
    (r : AttestationRecord) × (s : AttestationRecord) × Mem r rs
    × Mem s rs
    × (r.seq ≡ s.seq)
    × (r.id ≢ s.id)

pub Clash-append : (rs ss : List AttestationRecord) → Clash rs → Clash (rs ++ ss)
Clash-append rs ss (r, s, mr, ms, e, other) =
    (r, s, mem-append_left ss mr, mem-append_left ss ms, e, other)

pub All-Mem :
    (P : AttestationRecord → Type 0) (rs : List AttestationRecord) (r : AttestationRecord)
    (later : List AttestationRecord)
    → All P (rs ++ r ∷ later)
    → P r
All-Mem P [] r later h = h.0
All-Mem P (q ∷ rs) r later h = All-Mem P rs r later h.1

pub pair_cases : (t u : ℤ × String) → (t ≡ u) ⊎ (t ≢ u)
pair_cases t u = elim (Bool-cases (eqb_ℤ t.0 u.0)) [
  | inr other ↦ inr λ e. false≢true (sym other ∙ (eqb_ℤ_iff t.0 u.0).1 (ap (λ x. x.0) e))
  | inl same ↦ elim (Bool-cases (t.1 == u.1)) [
    | inl alike ↦ inl (ap₂ (λ x y. (x, y)) ((eqb_ℤ_iff t.0 u.0).0 same) ((eq_iff t.1 u.1).0 alike))
    | inr unlike ↦ inr λ e. false≢true (sym unlike ∙ (eq_iff t.1 u.1).1 (ap (λ x. x.1) e))
  ]
]

module _ (p : Platform) where
  -- The first record that was appended since has the number that was answered.
  abbrev Since : List AttestationRecord → List AttestationRecord → Type 0
  Since front [] = Unit
  Since front (x ∷ later) = x.seq ≡ (state_after p front).0

  -- The answer of `chain_state` at an earlier time.
  pub record Ticket (rs : List AttestationRecord) (t : ℤ × String) : Type 0 where
    pub front : List AttestationRecord
    pub later : List AttestationRecord
    pub split : rs ≡ front ++ later
    pub told : t ≡ state_after p front
    pub since : Since front later

  pub new_Ticket : (rs : List AttestationRecord) → Ticket rs (state_after p rs)
  new_Ticket rs = record {
    front = rs;
    later = [];
    split = sym (append-nil rs);
    told = refl;
    since = tt;
  }

  pub Ticket-append :
      (rs : List AttestationRecord) (r : AttestationRecord) (t : ℤ × String)
      → r.seq ≡ (state_after p rs).0
      → Ticket rs t
      → Ticket (rs ++ r ∷ []) t
  Ticket-append rs r t e k = record {
    front = k.front;
    later = k.later ++ r ∷ [];
    split = ap (λ x. x ++ r ∷ []) k.split ∙ append_assoc k.front k.later (r ∷ []);
    told = k.told;
    since = grown k.later k.split k.since;
  }
    where
      grown :
          (later : List AttestationRecord)
          → rs ≡ k.front ++ later
          → Since k.front later
          → Since k.front (later ++ r ∷ [])
      grown [] same h = e ∙ ap (λ x. (state_after p x).0) (same ∙ append-nil k.front)
      grown (x ∷ later) same h = h

  -- An answer that is out of date has the number of a record that the log holds.
  pub stale_Ticket :
      (rs : List AttestationRecord) (t : ℤ × String)
      → Ticket rs t
      → t ≢ state_after p rs
      → (front : List AttestationRecord) × (x : AttestationRecord) × (later : List
          AttestationRecord)
        × (rs ≡ front ++ x ∷ later)
        × (x.seq ≡ t.0)
  stale_Ticket rs t k other = found k.later k.split k.since
    where
      found :
          (later : List AttestationRecord)
          → rs ≡ k.front ++ later
          → Since k.front later
          → (front : List AttestationRecord) × (x : AttestationRecord) × (later : List
              AttestationRecord)
            × (rs ≡ front ++ x ∷ later)
            × (x.seq ≡ t.0)
      found [] same h =
          absurd (other (k.told ∙ ap (state_after p) (sym (append-nil k.front) ∙ sym same)))
      found (x ∷ later) same h = (k.front, x, later, same, h ∙ ap (λ y. y.0) (sym k.told))
