-- ===== src/Attestation/Chain/Overlap/Serial.antt =====
-- When halts that overlap leave an intact log.
use mathlib.Core.List.{Mem, mem-append_right, mem-append_left, mem-cons_self, mem-map_of_mem}
use halt_proof.Base.{
  String, ◌≡◌, ◌≢◌, refl, sym, ap, ◌∙◌, subst, ◌⊎◌, inl, inr, ◌↔◌, true, false≢true, none, List, [],
  ◌∷◌, ◌++◌, map, All, All-map, All-without,
}
use halt_proof.Base.Int.{ℤ}
use halt_proof.Base.Results.{ok, ok_injective}
use halt_proof.Platform.{Platform, IsLawful}
use halt_proof.Attestation.{AttestationRecord, sign_record}
use halt_proof.Attestation.Codec.{normalise}
use halt_proof.Attestation.Log.{LogFile, chain_state, append}
use halt_proof.Attestation.Log.Written.{
  FileHolds, state_after, append-FileHolds, chain_state-FileHolds, read_all-FileHolds,
}
use halt_proof.Attestation.Chain.{verify_log, verify_chain}
use halt_proof.Attestation.Chain.Extended.{IsIntactLog, append-IsIntactLog, verify_log-IsIntactLog}
use halt_proof.Attestation.Chain.Duplicate.{verify_chain_duplicate}
use halt_proof.Attestation.Chain.Overlap.{Site, take, write, Run, start, next, IsSerial}
use halt_proof.Attestation.Chain.Overlap.Tickets.{
  Clash, Clash-append, All-Mem, pair_cases, Ticket, new_Ticket, Ticket-append, stale_Ticket,
}

module _ (p : Platform) (L : IsLawful p) where
  -- All halts wait with answers of `chain_state`, old or new, and the log is intact.
  record Orderly (s : Site p) : Type 0 where
    intact : IsIntactLog p s.file s.written
    waiting : All (Ticket p s.written) s.tickets

  took :
      (s : Site p) (t : ℤ × String)
      → chain_state p s.file ≡ ok t
      → Orderly s
      → Orderly (record s { tickets = t ∷ s.tickets })
  took s t e o = record {
    intact = o.intact;
    waiting = (
      subst (Ticket p s.written)
          (ok_injective (sym (chain_state-FileHolds p L s.file s.written o.intact.holds) ∙ e))
          (new_Ticket p s.written),
      o.waiting,
    );
  }

  wrote :
      (s : Site p) (before after : List (ℤ × String)) (t : ℤ × String) (r : AttestationRecord)
      (k : p.PrivateKey)
      → s.tickets ≡ before ++ t ∷ after
      → r.seq ≡ t.0
      → r.prev_hash ≡ t.1
      → t ≡ state_after p s.written
      → Orderly s
      → Orderly (record {
        file = append p s.file (sign_record p r k);
        tickets = before ++ after;
        written = s.written ++ sign_record p r k ∷ [];
      })
  unfolding sign_record
  wrote s before after t r k held es eh current o = record {
    intact =
        append-IsIntactLog p L s.file s.written r k o.intact (es ∙ ap (λ x. x.0) current)
          (eh ∙ ap (λ x. x.1) current);
    waiting =
        All-map (λ u. Ticket-append p s.written (sign_record p r k) u (es ∙ ap (λ x. x.0) current))
          (before ++ after)
          (All-without (Ticket p s.written) before t after
            (subst (All (Ticket p s.written)) held o.waiting)).1;
  }

  clashed :
      (rs : List AttestationRecord) (t : ℤ × String) (r : AttestationRecord) (k : p.PrivateKey)
      → r.seq ≡ t.0
      → All (λ (q : AttestationRecord). q.id ≢ r.id) rs
      → Ticket p rs t
      → t ≢ state_after p rs
      → Clash (rs ++ sign_record p r k ∷ [])
  unfolding sign_record
  clashed rs t r k es fresh ticket other =
      let (front, x, later, same, e) = stale_Ticket p rs t ticket other in
      (
        x,
        sign_record p r k,
        mem-append_left _ (subst (Mem x) (sym same) (mem-append_right front mem-cons_self)),
        mem-append_right rs mem-cons_self,
        e ∙ sym es,
        All-Mem (λ q. q.id ≢ r.id) front x later
            (subst (All (λ (q : AttestationRecord). q.id ≢ r.id)) same fresh),
      )

  -- A run is serial and has left all in order, or it is not and two records clash.
  Outcome : {s : Site p} → Run p s → Type 0
  Outcome {s} run =
      (IsSerial p run × Orderly s)
      ⊎ ((¬ IsSerial p run) × FileHolds p s.file s.written × Clash s.written)

  after_take :
      (s v : Site p) (run : Run p s) (t : ℤ × String) (e : chain_state p s.file ≡ ok t)
      (same : v ≡ record s { tickets = t ∷ s.tickets })
      → Outcome run
      → Outcome (next run (take s v t e same))
  unfolding Outcome
  after_take s v run t e same (inl (serial, o)) =
      inl ((serial, tt), subst Orderly (sym same) (took s t e o))
  after_take s v run t e same (inr (not_serial, holds, clash)) = inr (
    λ x. not_serial x.0,
    subst (λ (x : Site p). FileHolds p x.file x.written) (sym same) holds,
    subst (λ (x : Site p). Clash x.written) (sym same) clash,
  )

  module _ (s v : Site p) (run : Run p s) (before after : List (ℤ × String)) (t : ℤ × String)
      (r : AttestationRecord) (k : p.PrivateKey) (held : s.tickets ≡ before ++ t ∷ after)
      (es : r.seq ≡ t.0) (eh : r.prev_hash ≡ t.1)
      (fresh : All (λ (q : AttestationRecord). q.id ≢ r.id) s.written)
      (same : v ≡ record {
        file = append p s.file (sign_record p r k);
        tickets = before ++ after;
        written = s.written ++ sign_record p r k ∷ [];
      }) where
    written_holds : FileHolds p s.file s.written → FileHolds p v.file v.written
    written_holds h =
        subst (λ (x : Site p). FileHolds p x.file x.written) (sym same)
          (append-FileHolds p s.file s.written (sign_record p r k) h)

    written-Clash : Clash (s.written ++ sign_record p r k ∷ []) → Clash v.written
    written-Clash c = subst (λ (x : Site p). Clash x.written) (sym same) c

    after_write :
        Outcome run → Outcome (next run (write s v before after t r k held es eh fresh same))
    unfolding Outcome
    after_write (inr (not_serial, holds, clash)) = inr (
      λ x. not_serial x.0,
      written_holds holds,
      written-Clash (Clash-append s.written (sign_record p r k ∷ []) clash),
    )
    after_write (inl (serial, o)) =
        let answered = chain_state-FileHolds p L s.file s.written o.intact.holds in
        elim (pair_cases t (state_after p s.written)) [
          | inl current ↦ inl (
            (serial, answered ∙ ap ok (sym current)),
            subst Orderly (sym same) (wrote s before after t r k held es eh current o),
          )
          | inr other ↦ inr (
            λ x. other (ok_injective (sym x.1 ∙ answered)),
            written_holds o.intact.holds,
            written-Clash (
                clashed s.written t r k es fresh
                  (All-without (Ticket p s.written) before t after
                    (subst (All (Ticket p s.written)) held o.waiting)).0
                  other),
          )
        ]

  run_outcome : {s : Site p} (run : Run p s) → Outcome run
  unfolding Outcome
  run_outcome start = inl (
    tt,
    record {
      intact = record { holds = refl; intact = record { signed = tt; starts = tt; linked = tt } };
      waiting = tt;
    },
  )
  run_outcome (next run (take s v t e same)) = after_take s v run t e same (run_outcome run)
  run_outcome (next run (write s v before after t r k held es eh fresh same)) =
      after_write s v run before after t r k held es eh fresh same (run_outcome run)

  refused_of_Clash :
      (f : LogFile p) (rs : List AttestationRecord)
      → FileHolds p f rs
      → Clash rs
      → verify_log p f ≢ ok (true, none)
  unfolding verify_log
  refused_of_Clash f rs holds (r, s, mr, ms, same, other) e =
      let read : verify_log p f ≡ ok (verify_chain p (map normalise rs)) =
        rw (read_all-FileHolds p L f rs holds) refl in
      let refused =
        verify_chain_duplicate p (map normalise rs) (normalise r) (normalise s)
          (mem-map_of_mem normalise mr) (mem-map_of_mem normalise ms) same
          (λ alike. other (ap (λ (x : AttestationRecord). x.id) alike)) in
      false≢true (sym refused ∙ ap (λ x. x.0) (ok_injective (sym read ∙ e)))

  -- Let halts on a log that did not exist ask for their numbers and append their signed records in
  -- any order, each record with a new id. `AttestationLog.verify_chain` accepts the log exactly if,
  -- at each write, `chain_state` would have answered what that halt had been told before.
  pub verify_log-iff-IsSerial :
      {s : Site p} (run : Run p s) → (verify_log p s.file ≡ ok (true, none)) ↔ IsSerial p run
  unfolding Outcome
  verify_log-iff-IsSerial {s} run = elim (run_outcome run) [
    | inl (serial, o) ↦ (λ e. serial, λ x. verify_log-IsIntactLog p L s.file s.written o.intact)
    | inr (not_serial, holds, clash) ↦
        (λ e. absurd (refused_of_Clash s.file s.written holds clash e), λ x. absurd (not_serial x))
  ]
