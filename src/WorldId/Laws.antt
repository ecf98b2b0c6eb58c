-- ===== src/WorldId/Laws.antt =====
-- apps/api/src/modules/worldid/service.ts: what an accepted proof has shown, and that it is used once.
use securtxn.Prelude.{
  true-not-false, ℕ, Bool, true, false, not, ◌==◌, ◌≡◌, ◌≢◌, refl, sym, ap, ◌∙◌, some, List, [],
  ◌∷◌, ◌++◌, Text, text_eq, text_eq_iff, text_eq_refl, any, ok, Returns, Returns-bind,
  Returns-require, Returns-eq, Returns-ok, not-true, internal, signal_mismatch, nullifier_replay,
  present, present-eq-ok, require, require-eq-ok, not_enrolled, different_human, arith,
}
use securtxn.Store.Rows.{WorldIdVerification, WorldIdPurpose, enrollment, reverification, Db}
use securtxn.WorldId.Nullifier.{nullifier_to_decimal}
use securtxn.WorldId.Verifier.{VerifiedProof}
use securtxn.WorldId.{
  WorldIdServiceOptions, AcceptProofInput, AcceptedProof, enrollment_of, assert_same_human,
  check_human, accepted_proof, same_use, new_verification, create_verification, accept,
}

-- What an acceptance has shown, and the row that it appends.
pub record Accepted (o : WorldIdServiceOptions) (i : AcceptProofInput) (db : Db) (r : AcceptedProof)
    (after : Db) : Type 0 where
  pub proof : VerifiedProof
  pub valid : o.verified ≡ ok proof
  pub action : proof.action ≡ o.expected_action
  pub bound : proof.signal_hash ≡ o.hash_signal i.signal
  pub value : nullifier_to_decimal proof.nullifier_hex ≡ ok r.nullifier
  pub same_human : i.purpose ≡ reverification → enrollment_of i.subject db ≡ some r.nullifier
  pub row : WorldIdVerification
  pub appended :
      after ≡ record db { world_id_verifications = db.world_id_verifications ++ row ∷ [] }
  pub written :
      (row.nullifier ≡ r.nullifier)
      × (row.action ≡ o.expected_action)
      × (row.signal ≡ i.signal)
      × (row.subject ≡ i.subject)
  pub unused : any (same_use row) db.world_id_verifications ≡ false

==-sound : (a b : ℕ) → (a == b) ≡ true → a ≡ b
==-sound a b h = ground arith

text_eq_sound : (a b : Text) → text_eq a b ≡ true → a ≡ b
text_eq_sound a b = (text_eq_iff a b).0

assert_same_human-some :
    (subject : Text) (n : ℕ) (db : Db)
    → Returns (λ _. enrollment_of subject db ≡ some n) (assert_same_human subject n db)
unfolding assert_same_human
assert_same_human-some subject n db =
    Returns-bind _ (present (enrollment_of subject db) not_enrolled) _ λ m h.
      Returns-eq _ (require (m == n) different_human) λ _ k.
        present-eq-ok (enrollment_of subject db) not_enrolled h
        ∙ ap (λ x. some x) (==-sound m n (require-eq-ok (m == n) different_human k))

check_human-some :
    (purpose : WorldIdPurpose) (subject : Text) (n : ℕ) (db : Db)
    → Returns
        (λ _. purpose ≡ reverification → enrollment_of subject db ≡ some n)
        (check_human purpose subject n db)
check_human-some enrollment subject n db = λ h. cc
check_human-some reverification subject n db =
    Returns-eq _ (assert_same_human subject n db)
      λ u h _. Returns-ok _ _ u (assert_same_human-some subject n db) h

abbrev Appends : WorldIdVerification → Db → Db → Type 0
Appends w db after =
    (after ≡ record db { world_id_verifications = db.world_id_verifications ++ w ∷ [] })
    × (any (same_use w) db.world_id_verifications ≡ false)

create_verification_lem :
    (w : WorldIdVerification) (db : Db) → Returns (Appends w db) (create_verification w db)
unfolding create_verification
create_verification_lem w db =
    Returns-require _ (not (any (same_use w) db.world_id_verifications)) nullifier_replay _
      λ h. (refl, not-true _ h)

-- A proof is accepted only if the verifier confirmed it for the configured action, it is bound to
-- the signal that was asked for, its nullifier is that of the subject's enrolment where it is a
-- re-verification, and no row has its nullifier, action and signal; one row with them is appended.
pub accept-Accepted :
    (o : WorldIdServiceOptions) (now : ℕ) (new_id : Text) (i : AcceptProofInput) (db : Db)
    → Returns (λ r. Accepted o i db r.0 r.1) (accept o now new_id i db)
unfolding accept
accept-Accepted o now new_id i db = Returns-bind _ o.verified _ λ v valid.
    Returns-require _ (text_eq v.action o.expected_action) internal _ λ action.
      Returns-require _ (text_eq v.signal_hash (o.hash_signal i.signal)) signal_mismatch _ λ bound.
        Returns-bind _ (nullifier_to_decimal v.nullifier_hex) _ λ n value.
          Returns-bind _ (check_human i.purpose i.subject n db) _ λ u human.
            Returns-bind _ (create_verification (new_verification now new_id i v n) db) _
              λ after made.
                let (appended, unused) =
                  Returns-ok (Appends (new_verification now new_id i v n) db) _ after
                    (create_verification_lem (new_verification now new_id i v n) db) made in
                let accepted : Accepted o i db (accepted_proof new_id i v n) after = record {
                  proof = v;
                  valid = valid;
                  action = text_eq_sound v.action o.expected_action action;
                  bound = text_eq_sound v.signal_hash (o.hash_signal i.signal) bound;
                  value = value;
                  same_human = Returns-ok _ _ u (check_human-some i.purpose i.subject n db) human;
                  row = new_verification now new_id i v n;
                  appended = appended;
                  written = (refl, text_eq_sound v.action o.expected_action action, refl, refl);
                  unused = unused;
                } in
                accepted

any-last :
    {A : Type 0} (p : A → Bool) (xs : List A) (x : A) → any p (xs ++ x ∷ []) ≡ false → p x ≡ false
any-last p [] x h = ground arith
any-last p (y ∷ xs) x h = ground (arith, any-last p xs x)

same_use-true :
    (w v : WorldIdVerification)
    → v.nullifier ≡ w.nullifier
    → v.action ≡ w.action
    → v.signal ≡ w.signal
    → same_use w v ≡ true
same_use-true w v n a g = rw (n, a, g, text_eq_refl w.action, text_eq_refl w.signal) (ground arith)

reuse-refused :
    (o o' : WorldIdServiceOptions) (i i' : AcceptProofInput) (db after last : Db)
    (r s : AcceptedProof)
    → Accepted o i db r after
    → Accepted o' i' after s last
    → o'.expected_action ≡ o.expected_action
    → i'.signal ≡ i.signal
    → s.nullifier ≢ r.nullifier
reuse-refused o o' i i' db after last r s x y a g same =
    let (n, b, c, _) = x.written in
    let (m, d, e, _) = y.written in
    let used =
      same_use-true y.row x.row (n ∙ sym same ∙ sym m) (b ∙ sym a ∙ sym d) (c ∙ sym g ∙ sym e) in
    let unused = any-last (same_use y.row) db.world_id_verifications x.row (
      ap (λ (t : Db). any (same_use y.row) t.world_id_verifications) (sym x.appended) ∙ y.unused) in
    true-not-false (sym used ∙ unused)

-- Once a proof is accepted, no proof with the same nullifier is accepted for the same signal under
-- the same action, for whichever subject and purpose.
pub accept-once :
    (o o' : WorldIdServiceOptions) (now now' : ℕ) (new_id new_id' : Text) (i i' : AcceptProofInput)
    (db after : Db) (r : AcceptedProof)
    → accept o now new_id i db ≡ ok (r, after)
    → o'.expected_action ≡ o.expected_action
    → i'.signal ≡ i.signal
    → Returns (λ s. s.0.nullifier ≢ r.nullifier) (accept o' now' new_id' i' after)
accept-once o o' now now' new_id new_id' i i' db after r h a g =
    let first =
      Returns-ok (λ r. Accepted o i db r.0 r.1) _ (r, after) (accept-Accepted o now new_id i db)
        h in
    Returns-eq _ (accept o' now' new_id' i' after) λ (s, last) k.
      reuse-refused o o' i i' db after last r s first
        (Returns-ok (λ r. Accepted o' i' after r.0 r.1) _ (s, last)
          (accept-Accepted o' now' new_id' i' after) k)
        a g
