-- ===== src/Evidence/Chain/Tamper.antt =====
-- apps/api/src/modules/evidence/chain.ts: two chains with one last hash.
use securtxn.Prelude.{
  ℕ, suc, zero, ◌+◌, ◌-◌, ◌==◌, ltb, ◌≡◌, ◌≢◌, ◌⊎◌, inl, inr, refl, sym, ap, ◌∙◌, List, [], ◌∷◌,
  ◌++◌, arith, Text, text_eq, text_eq_iff, length, ok, Bool-cases, >>=-split, length-append,
}
use securtxn.Platform.{Platform}
use securtxn.Evidence.Chain.{
  ChainRecord, valid, verify_chain, compute_record_hash, canonicalize, record_digest,
  genesis_previous_hash,
}
use securtxn.Evidence.Chain.Laws.{tip, Holds, verify_chain-eq-valid_iff}

append-injective : (s t a b : Text) → length a ≡ length b → s ++ a ≡ t ++ b → (s ≡ t) × (a ≡ b)
append-injective [] [] a b l h = (refl, h)
append-injective [] (y ∷ t) a b l h = absurd (omega (arith, ap length h, length-append (y ∷ t) b))
append-injective (x ∷ s) [] a b l h = absurd (omega (arith, ap length h, length-append (x ∷ s) a))
append-injective (x ∷ s) (y ∷ t) a b l h = ground (arith, append-injective s t a b l)

genesis_length : length genesis_previous_hash ≡ 64
unfolding genesis_previous_hash
genesis_length = refl

compare_lengths : (n m : ℕ) → ((n ≡ m) ⊎ ((d : ℕ) × (m ≡ suc d + n))) ⊎ ((d : ℕ) × (n ≡ suc d + m))
compare_lengths n m = elim (Bool-cases (n == m)) [
  | inl same ↦ inl (inl (ground arith))
  | inr other ↦ elim (Bool-cases (ltb n m)) [
    | inl below ↦ inl (inr (m - n - 1, ground arith))
    | inr above ↦ inr (n - m - 1, ground arith)
  ]
]

module _ (pf : Platform) where
  -- Two texts that keccak256 does not tell apart.
  abbrev pub Collision : Type 0
  Collision = (s t : Text) × (s ≢ t) × (record_digest pf s ≡ record_digest pf t)

  -- A text whose digest is the all-zero link that every chain starts from.
  abbrev pub GenesisPreimage : Type 0
  GenesisPreimage = (s : Text) × (record_digest pf s ≡ genesis_previous_hash)

  digest_injective : (s t : Text) → record_digest pf s ≡ record_digest pf t → (s ≡ t) ⊎ Collision
  digest_injective s t h = elim (Bool-cases (text_eq s t)) [
    | inl same ↦ inl ((text_eq_iff s t).0 same)
    | inr other ↦ inr (s, t, (λ e. cc (other, (text_eq_iff s t).1 e)), h)
  ]

  -- The same payload texts and the same hashes, record for record.
  abbrev pub SameRecords : List ChainRecord → List ChainRecord → Type 0
  SameRecords [] [] = Unit
  SameRecords (r ∷ rs) (s ∷ ss) =
      (canonicalize r.payload ≡ canonicalize s.payload)
      × (r.payload_hash ≡ s.payload_hash)
      × SameRecords rs ss
  SameRecords _ _ = ⊥

  hash_inversion :
      (r : ChainRecord) {h : Text}
      → compute_record_hash pf r.payload r.previous_record_hash ≡ ok h
      → (t : Text) × (canonicalize r.payload ≡ ok t)
        × (h ≡ record_digest pf (t ++ r.previous_record_hash))
  unfolding compute_record_hash
  hash_inversion r e =
      let (t, same, canonical) = >>=-split _ (canonicalize r.payload) e in (t, canonical, cc)

  module _ (digest_length : (t : Text) → length (record_digest pf t) ≡ 64) where
    hash_length :
        (r : ChainRecord) {h : Text}
        → compute_record_hash pf r.payload r.previous_record_hash ≡ ok h
        → length h ≡ 64
    hash_length r e = let (t, _, same) = hash_inversion r e in rw same (digest_length _)

    -- Two records with one hash, each under a link of 64 digits.
    record_injective :
        (r s : ChainRecord)
        → compute_record_hash pf r.payload r.previous_record_hash ≡ ok r.payload_hash
        → compute_record_hash pf s.payload s.previous_record_hash ≡ ok s.payload_hash
        → length r.previous_record_hash ≡ 64
        → length s.previous_record_hash ≡ 64
        → r.payload_hash ≡ s.payload_hash
        → ((canonicalize r.payload ≡ canonicalize s.payload)
            × (r.previous_record_hash ≡ s.previous_record_hash))
          ⊎ Collision
    record_injective r s hr hs lr ls e =
        let (t, ct, et) = hash_inversion r hr in
        let (u, cu, eu) = hash_inversion s hs in
        elim (digest_injective (t ++ r.previous_record_hash) (u ++ s.previous_record_hash)
          (sym et ∙ e ∙ eu)) [
            | inl same ↦
                let (texts, links) = append-injective t u _ _ (lr ∙ sym ls) same in inl (cc, links)
            | inr c ↦ inr c
          ]

    same_length :
        (e f : Text) (rs ss : List ChainRecord)
        → Holds pf e rs
        → Holds pf f ss
        → length rs ≡ length ss
        → length e ≡ 64
        → length f ≡ 64
        → tip e rs ≡ tip f ss
        → ((e ≡ f) × SameRecords rs ss) ⊎ Collision
    same_length e f [] [] h k l le lf t = inl (t, tt)
    same_length e f [] (s ∷ ss) h k l le lf t = absurd (omega arith)
    same_length e f (r ∷ rs) [] h k l le lf t = absurd (omega arith)
    same_length e f (r ∷ rs) (s ∷ ss) h k l le lf t =
        elim (same_length r.payload_hash s.payload_hash rs ss h.2 k.2 (omega arith)
          (hash_length r h.1) (hash_length s k.1) t) [
            | inr c ↦ inr c
            | inl (hashes, rest) ↦
                elim (record_injective r s h.1 k.1 (rw h.0 le) (rw k.0 lf) hashes) [
                  | inr c ↦ inr c
                  | inl (texts, links) ↦ inl (sym h.0 ∙ links ∙ k.0, (texts, hashes, rest))
                ]
          ]

    -- A chain that is longer reaches the all-zero link again, or collides.
    longer :
        (d : ℕ) (f : Text) (rs ss : List ChainRecord)
        → Holds pf genesis_previous_hash rs
        → Holds pf f ss
        → length ss ≡ suc d + length rs
        → tip genesis_previous_hash rs ≡ tip f ss
        → Collision ⊎ GenesisPreimage
    longer d f rs [] h k l t = absurd (omega arith)
    longer zero f rs (s ∷ ss) h k l t =
        elim (same_length genesis_previous_hash s.payload_hash rs ss h k.2 (omega arith)
          genesis_length (hash_length s k.1) t) [
            | inr c ↦ inl c
            | inl (e, _) ↦ let (u, _, hashed) = hash_inversion s k.1 in inr (_, sym hashed ∙ sym e)
          ]
    longer (suc d) f rs (s ∷ ss) h k l t = longer d s.payload_hash rs ss h k.2 (omega arith) t

    -- Two chains that `verifyChain` accepts and that end in one hash hold the same payload texts
    -- and hashes, record for record, unless keccak256 collides on two texts or hits the all-zero
    -- link. The digest is assumed to have 64 digits.
    pub verify_chain-same_tip :
        (rs ss : List ChainRecord)
        → verify_chain pf rs ≡ valid
        → verify_chain pf ss ≡ valid
        → tip genesis_previous_hash rs ≡ tip genesis_previous_hash ss
        → SameRecords rs ss ⊎ (Collision ⊎ GenesisPreimage)
    verify_chain-same_tip rs ss v w t =
        let h = (verify_chain-eq-valid_iff pf rs).0 v in
        let k = (verify_chain-eq-valid_iff pf ss).0 w in
        elim (compare_lengths (length rs) (length ss)) [
          | inl (inl same) ↦ elim (same_length _ _ rs ss h k same genesis_length genesis_length t) [
            | inl (_, all) ↦ inl all
            | inr c ↦ inr (inl c)
          ]
          | inl (inr (d, e)) ↦ inr (longer d _ rs ss h k e t)
          | inr (d, e) ↦ inr (longer d _ ss rs k h e (sym t))
        ]
