-- ===== src/Evidence/Chain/Laws.antt =====
-- The verifier of the hash chain against what it means for a chain to hold.
use securtxn.Prelude.{
  ℕ, ◌+◌, ◌==◌, if◌then◌else◌, Error, some-injective, ◌≡◌, ◌↔◌, refl, ap, ◌∙◌, none, some, List, [],
  ◌∷◌, ◌++◌, arith, text_eq, text_eq_iff, length, Result, ok, err, Option-cases, inl, inr,
  Bool-cases, sym,
}
use securtxn.Prelude.{Text}
use securtxn.Platform.{Platform}
use securtxn.Evidence.Chain.{
  ChainRecord, BreakReason, not_from_genesis, not_linked, not_canonical, wrong_hash, valid, broken,
  judge_hash, check_record, verify_from, verify_chain, compute_record_hash, genesis_previous_hash,
}

-- The hash that the next record has to name.
abbrev pub tip : Text → List ChainRecord → Text
tip e [] = e
tip e (r ∷ rs) = tip r.payload_hash rs

-- Each record names its predecessor's hash, and its own hash is that of its payload.
abbrev pub Holds : Platform → Text → List ChainRecord → Type 0
Holds pf e [] = Unit
Holds pf e (r ∷ rs) =
    (r.previous_record_hash ≡ e)
    × (compute_record_hash pf r.payload r.previous_record_hash ≡ ok r.payload_hash)
    × Holds pf r.payload_hash rs

judge_hash-eq-none_iff :
    (stored : Text) (computed : Result Text)
    → (judge_hash stored computed ≡ none) ↔ (computed ≡ ok stored)
judge_hash-eq-none_iff stored (err e) = (λ h. cc, λ h. cc)
judge_hash-eq-none_iff stored (ok t) =
    (λ h. ground (arith, text_eq_iff t stored), λ h. ground (arith, text_eq_iff t stored))

pub check_record-eq-none_iff :
    (pf : Platform) (i : ℕ) (e : Text) (r : ChainRecord)
    → (check_record pf i e r ≡ none) ↔ (
        (r.previous_record_hash ≡ e)
        × (compute_record_hash pf r.payload r.previous_record_hash ≡ ok r.payload_hash))
unfolding check_record
check_record-eq-none_iff pf i e r =
    let (to, from) =
      judge_hash-eq-none_iff r.payload_hash
        (compute_record_hash pf r.payload r.previous_record_hash) in
    elim (Bool-cases (text_eq r.previous_record_hash e)) [
      | inl same ↦ (λ h. ((text_eq_iff _ _).0 same, to (rw same at h)), λ h. rw same (from h.1))
      | inr other ↦
          (λ h. cc (rw other at h), λ h. cc (other, (text_eq_iff r.previous_record_hash e).1 h.0))
    ]

-- What each reason says of the record at index k, which has to name `e`.
abbrev pub Fails : Platform → ℕ → Text → ChainRecord → BreakReason → Type 0
Fails pf k e r not_from_genesis = (k ≡ 0) × (r.previous_record_hash ≡ e → ⊥)
Fails pf k e r not_linked = (k ≡ 0 → ⊥) × (r.previous_record_hash ≡ e → ⊥)
Fails pf k e r not_canonical =
    (r.previous_record_hash ≡ e)
    × ((x : Error) × (compute_record_hash pf r.payload r.previous_record_hash ≡ err x))
Fails pf k e r wrong_hash =
    (r.previous_record_hash ≡ e)
    × ((t : Text) × (compute_record_hash pf r.payload r.previous_record_hash ≡ ok t)
        × (t ≡ r.payload_hash → ⊥))

unlinked-Fails :
    (pf : Platform) (k : ℕ) (e : Text) (r : ChainRecord)
    → (r.previous_record_hash ≡ e → ⊥)
    → Fails pf k e r (if k == 0 then not_from_genesis else not_linked)
unlinked-Fails pf k e r other = elim (Bool-cases (k == 0)) [
  | inl first ↦ rw first (ground arith, other)
  | inr later ↦ rw later ((λ h. absurd (ground arith)), other)
]

hash-Fails :
    (pf : Platform) (k : ℕ) (e : Text) (r : ChainRecord) (b : BreakReason) (computed : Result Text)
    → compute_record_hash pf r.payload r.previous_record_hash ≡ computed
    → r.previous_record_hash ≡ e
    → judge_hash r.payload_hash computed ≡ some b
    → Fails pf k e r b
hash-Fails pf k e r b (err x) made same h = rw (sym (some-injective h)) (same, (x, made))
hash-Fails pf k e r b (ok t) made same h = elim (Bool-cases (text_eq t r.payload_hash)) [
  | inl agree ↦ cc (rw agree at h)
  | inr differ ↦
      let told : some wrong_hash ≡ some b = rw differ at h in
      rw (sym (some-injective told))
        (same, (t, made, λ eq. cc (differ, (text_eq_iff t r.payload_hash).1 eq)))
]

check_record-Fails :
    (pf : Platform) (k : ℕ) (e : Text) (r : ChainRecord) (b : BreakReason)
    → check_record pf k e r ≡ some b
    → Fails pf k e r b
unfolding check_record
check_record-Fails pf k e r b h = elim (Bool-cases (text_eq r.previous_record_hash e)) [
  | inl same ↦
      hash-Fails pf k e r b (compute_record_hash pf r.payload r.previous_record_hash) refl
        ((text_eq_iff r.previous_record_hash e).0 same) (rw same at h)
  | inr other ↦
      let told : some (if k == 0 then not_from_genesis else not_linked) ≡ some b = rw other at h in
      rw (sym (some-injective told))
        (unlinked-Fails pf k e r λ eq. cc (other, (text_eq_iff r.previous_record_hash e).1 eq))
]

reported :
    (pf : Platform) (i k : ℕ) (e : Text) (r : ChainRecord) (b c : BreakReason)
    → check_record pf i e r ≡ some c
    → broken i c ≡ broken k b
    → check_record pf k e r ≡ some b
reported pf i k e r b c h same = cc

module _ (pf : Platform) where
  verify_from-cons_none :
      (i : ℕ) (e : Text) (r : ChainRecord) (rs : List ChainRecord)
      → check_record pf i e r ≡ none
      → verify_from pf i e (r ∷ rs) ≡ verify_from pf (i + 1) r.payload_hash rs
  unfolding verify_from
  verify_from-cons_none i e r rs h = rw (h, verify_from)

  verify_from-cons_some :
      (i : ℕ) (e : Text) (r : ChainRecord) (rs : List ChainRecord) (b : BreakReason)
      → check_record pf i e r ≡ some b
      → verify_from pf i e (r ∷ rs) ≡ broken i b
  unfolding verify_from
  verify_from-cons_some i e r rs b h = rw (h, verify_from)

  verify_from-eq-valid_iff :
      (i : ℕ) (e : Text) (rs : List ChainRecord) → (verify_from pf i e rs ≡ valid) ↔ Holds pf e rs
  unfolding verify_from
  verify_from-eq-valid_iff i e [] = (λ _. tt, λ _. refl)
  verify_from-eq-valid_iff i e (r ∷ rs) =
      let (to, from) = check_record-eq-none_iff pf i e r in
      let (rest_to, rest_from) = verify_from-eq-valid_iff (i + 1) r.payload_hash rs in
      (
        λ h. elim (Option-cases (check_record pf i e r)) [
          | inl good ↦
              ((to good).0, (to good).1, rest_to (sym (verify_from-cons_none i e r rs good) ∙ h))
          | inr (b, bad) ↦ cc (verify_from-cons_some i e r rs b bad)
        ],
        λ h. verify_from-cons_none i e r rs (from (h.0, h.1)) ∙ rest_from h.2,
      )

  -- `verifyChain` accepts exactly the chains that hold from genesis.
  pub verify_chain-eq-valid_iff :
      (rs : List ChainRecord) → (verify_chain pf rs ≡ valid) ↔ Holds pf genesis_previous_hash rs
  unfolding verify_chain
  verify_chain-eq-valid_iff rs = verify_from-eq-valid_iff 0 genesis_previous_hash rs

  pub Holds-snoc :
      (e : Text) (rs : List ChainRecord) (r : ChainRecord)
      → Holds pf e rs
      → r.previous_record_hash ≡ tip e rs
      → compute_record_hash pf r.payload r.previous_record_hash ≡ ok r.payload_hash
      → Holds pf e (rs ++ r ∷ [])
  Holds-snoc e [] r h linked hashed = (linked, hashed, tt)
  Holds-snoc e (s ∷ rs) r h linked hashed =
      (h.0, h.1, Holds-snoc s.payload_hash rs r h.2 linked hashed)

  -- A split of the records at the first one that fails.
  pub record FirstBreak (i : ℕ) (e : Text) (rs : List ChainRecord) (k : ℕ) (b : BreakReason)
      : Type 0 where
    pub before : List ChainRecord
    pub culprit : ChainRecord
    pub after : List ChainRecord
    pub split : rs ≡ before ++ culprit ∷ after
    pub index : k ≡ i + length before
    pub holds : Holds pf e before
    pub reason : Fails pf k (tip e before) culprit b

  verify_from-FirstBreak :
      (i : ℕ) (e : Text) (rs : List ChainRecord) (k : ℕ) (b : BreakReason)
      → verify_from pf i e rs ≡ broken k b
      → FirstBreak i e rs k b
  unfolding verify_from
  verify_from-FirstBreak i e [] k b h = cc
  verify_from-FirstBreak i e (r ∷ rs) k b h = elim (Option-cases (check_record pf i e r)) [
    | inl good ↦
        let f =
          verify_from-FirstBreak (i + 1) r.payload_hash rs k b
            (sym (verify_from-cons_none i e r rs good) ∙ h) in
        let (linked, hashed) = (check_record-eq-none_iff pf i e r).0 good in
        record {
          before = r ∷ f.before;
          culprit = f.culprit;
          after = f.after;
          split = ap (λ l. r ∷ l) f.split;
          index = omega (arith, f.index);
          holds = (linked, hashed, f.holds);
          reason = f.reason;
        }
    | inr (c, bad) ↦ record {
      before = [];
      culprit = r;
      after = rs;
      split = refl;
      index = ground (arith, verify_from-cons_some i e r rs c bad);
      holds = tt;
      reason =
          check_record-Fails pf k e r b
            (reported pf i k e r b c bad (sym (verify_from-cons_some i e r rs c bad) ∙ h));
    }
  ]

  -- Where `verifyChain` reports a break at index k, the k records before it hold from genesis and
  -- the record at k is the first that fails, and as the reason says: it names another hash than
  -- the one before it, at the first index or later; or it names that hash, and its payload does not
  -- serialise or hashes to something else than its stored hash.
  pub verify_chain-FirstBreak :
      (rs : List ChainRecord) (k : ℕ) (b : BreakReason)
      → verify_chain pf rs ≡ broken k b
      → FirstBreak 0 genesis_previous_hash rs k b
  unfolding verify_chain
  verify_chain-FirstBreak rs k b h = verify_from-FirstBreak 0 genesis_previous_hash rs k b h
