-- ===== src/Attestation/Log/Written.antt =====
-- Log files that `append` wrote: what the readers of the log find in them.
use halt_proof.Base.{
  String, ◌≡◌, refl, ap, true, Option, none, some, List, [], ◌∷◌, ◌++◌, map, last, arith,
}
use halt_proof.Base.Int.{ℤ, pos, next}
use halt_proof.Base.Results.{ok}
use halt_proof.Json.{truthy, obj, sort_keys, sort_fields}
use halt_proof.Platform.{Platform, IsLawful}
use halt_proof.Attestation.{AttestationRecord, to_dict, dict_content_hash, record_content_hash}
use halt_proof.Attestation.Codec.{normalise, from_dict-sort_fields}
use halt_proof.Attestation.Log.{
  Line, LogFile, last_line, last_record, load_value, seq_after, chain_state, next_seq, append,
  read_line, read_lines, read_all,
}

module _ (p : Platform) where
  -- The text that `append` writes.
  abbrev pub text_of : AttestationRecord → p.Text
  text_of r = p.dumps (obj (to_dict r))

  -- The lines hold these records, one to a line, with any blank lines between them.
  abbrev pub Holds : List (Line p) → List AttestationRecord → Type 0
  Holds [] [] = Unit
  Holds [] (r ∷ rs) = ⊥
  Holds (none ∷ lines) rs = Holds lines rs
  Holds (some t ∷ lines) [] = ⊥
  Holds (some t ∷ lines) (r ∷ rs) = (t ≡ text_of r) × Holds lines rs

  abbrev pub FileHolds : LogFile p → List AttestationRecord → Type 0
  FileHolds none rs = rs ≡ []
  FileHolds (some lines) rs = Holds lines rs

  -- The sequence number and the hash that the next record gets after these.
  abbrev pub after : Option AttestationRecord → ℤ × String
  after none = (pos 1, "")
  after (some r) = (next r.seq, record_content_hash p r)

  abbrev pub state_after : List AttestationRecord → ℤ × String
  state_after rs = after (last rs)

  Holds-append :
      (lines : List (Line p)) (rs : List AttestationRecord) (r : AttestationRecord)
      → Holds lines rs
      → Holds (lines ++ some (text_of r) ∷ []) (rs ++ r ∷ [])
  Holds-append [] [] r h = (refl, tt)
  Holds-append [] (s ∷ rs) r h = absurd h
  Holds-append (none ∷ lines) rs r h = Holds-append lines rs r h
  Holds-append (some t ∷ lines) [] r h = absurd h
  Holds-append (some t ∷ lines) (s ∷ rs) r h = (h.0, Holds-append lines rs r h.1)

  -- Appending a record puts it behind those that the file holds.
  pub append-FileHolds :
      (f : LogFile p) (rs : List AttestationRecord) (r : AttestationRecord)
      → FileHolds f rs
      → FileHolds (append p f r) (rs ++ r ∷ [])
  unfolding append
  append-FileHolds none [] r h = (refl, tt)
  append-FileHolds none (s ∷ rs) r h = cc
  append-FileHolds (some lines) rs r h = Holds-append lines rs r h

  -- The last line is the text of the last record.
  last_line-Holds :
      (kept : Option p.Text) (lines : List (Line p)) (rs : List AttestationRecord)
      → Holds lines rs
      → last_line p kept lines ≡ elim (last rs) [ none ↦ kept | some r ↦ some (text_of r) ]
  unfolding last_line
  last_line-Holds kept [] [] h = refl
  last_line-Holds kept [] (r ∷ rs) h = absurd h
  last_line-Holds kept (none ∷ lines) rs h = last_line-Holds kept lines rs h
  last_line-Holds kept (some t ∷ lines) [] h = absurd h
  last_line-Holds kept (some t ∷ lines) (r ∷ rs) h =
      ground (arith, last_line-Holds (some t) lines rs h.1)

module _ (p : Platform) (L : IsLawful p) where
  loads-text_of :
      (r : AttestationRecord) → p.loads (text_of p r) ≡ some (obj (sort_fields (to_dict r)))
  unfolding sort_keys
  loads-text_of r = L.loads-dumps (obj (to_dict r))

  pub read_line-text_of : (r : AttestationRecord) → read_line p (text_of p r) ≡ ok (normalise r)
  unfolding read_line
  read_line-text_of r = rw (loads-text_of r, read_line) (from_dict-sort_fields r)

  read_lines-Holds :
      (lines : List (Line p)) (rs : List AttestationRecord)
      → Holds p lines rs
      → read_lines p lines ≡ ok (map normalise rs)
  unfolding read_lines
  read_lines-Holds [] [] h = refl
  read_lines-Holds [] (r ∷ rs) h = absurd h
  read_lines-Holds (none ∷ lines) rs h = read_lines-Holds lines rs h
  read_lines-Holds (some t ∷ lines) [] h = absurd h
  read_lines-Holds (some t ∷ lines) (r ∷ rs) h =
      rw (h.0, read_line-text_of r, read_lines-Holds lines rs h.1)

  -- `read_all` of a file that holds these records returns them in the order of the file, with the
  -- keys of their steps and their summaries sorted.
  pub read_all-FileHolds :
      (f : LogFile p) (rs : List AttestationRecord)
      → FileHolds p f rs
      → read_all p f ≡ ok (map normalise rs)
  unfolding read_all
  read_all-FileHolds none [] h = refl
  read_all-FileHolds none (r ∷ rs) h = cc
  read_all-FileHolds (some lines) rs h = read_lines-Holds lines rs h

  seq_after-sort_fields :
      (r : AttestationRecord) → seq_after (sort_fields (to_dict r)) ≡ ok (next r.seq)
  unfolding seq_after to_dict sort_keys
  seq_after-sort_fields r = refl

  content_hash-sort_fields :
      (r : AttestationRecord)
      → dict_content_hash p (sort_fields (to_dict r)) ≡ record_content_hash p r
  unfolding record_content_hash dict_content_hash sort_keys
  content_hash-sort_fields r = ap p.sha256 (L.dumps-sort_keys (obj (to_dict r)))

  load_value-text_of :
      (r : AttestationRecord)
      → load_value p (text_of p r) ≡ ok (some (obj (sort_fields (to_dict r))))
  unfolding load_value
  load_value-text_of r = rw (loads-text_of r, load_value)

  last_record_of_line :
      (lines : List (Line p)) (r : AttestationRecord)
      → last_line p none lines ≡ some (text_of p r)
      → last_record p (some lines) ≡ ok (some (obj (sort_fields (to_dict r))))
  unfolding last_record
  last_record_of_line lines r e = rw (e, last_record) (load_value-text_of r)

  chain_state_of_last :
      (lines : List (Line p)) (o : Option AttestationRecord)
      → last_line p none lines ≡ elim o [ none ↦ none | some r ↦ some (text_of p r) ]
      → chain_state p (some lines) ≡ ok (after p o)
  unfolding chain_state
  chain_state_of_last lines none e = unfold last_record in rw (e, last_record)
  chain_state_of_last lines (some r) e =
      rw (last_record_of_line lines r e, seq_after-sort_fields r, content_hash-sort_fields r)

  -- `chain_state` of a file that holds these records returns the number after that of the last one
  -- and its content hash, and `(1, "")` if there is none.
  pub chain_state-FileHolds :
      (f : LogFile p) (rs : List AttestationRecord)
      → FileHolds p f rs
      → chain_state p f ≡ ok (state_after p rs)
  unfolding chain_state last_record
  chain_state-FileHolds none [] h = refl
  chain_state-FileHolds none (r ∷ rs) h = cc
  chain_state-FileHolds (some lines) rs h =
      chain_state_of_last lines (last rs) (last_line-Holds p none lines rs h)

  truthy-sort_fields : (r : AttestationRecord) → truthy (obj (sort_fields (to_dict r))) ≡ true
  unfolding truthy to_dict sort_keys
  truthy-sort_fields r = refl

  next_seq_of_last :
      (lines : List (Line p)) (o : Option AttestationRecord)
      → last_line p none lines ≡ elim o [ none ↦ none | some r ↦ some (text_of p r) ]
      → next_seq p (some lines) ≡ ok (after p o).0
  unfolding next_seq
  next_seq_of_last lines none e = unfold last_record in rw (e, last_record)
  next_seq_of_last lines (some r) e =
      rw (last_record_of_line lines r e, truthy-sort_fields r, seq_after-sort_fields r) refl

  -- `next_seq` of a file that holds these records returns the number that `chain_state` returns.
  pub next_seq-FileHolds :
      (f : LogFile p) (rs : List AttestationRecord)
      → FileHolds p f rs
      → next_seq p f ≡ ok (state_after p rs).0
  unfolding next_seq last_record
  next_seq-FileHolds none [] h = refl
  next_seq-FileHolds none (r ∷ rs) h = cc
  next_seq-FileHolds (some lines) rs h =
      next_seq_of_last lines (last rs) (last_line-Holds p none lines rs h)
