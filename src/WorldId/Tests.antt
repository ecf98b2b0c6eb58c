-- ===== src/WorldId/Tests.antt =====
-- The theorems on World ID at small inputs.
use securtxn.Prelude.{◌≡◌, ◌≢◌, refl, ◌<◌, ◌^◌, ℕ, true, false, codes, trim, ok, Returns, text_eq}
use securtxn.Store.Rows.{enrollment, Db}
use securtxn.Store.Queries.{oldest}
use securtxn.WorldId.{
  WorldIdServiceOptions, AcceptProofInput, AcceptedProof, enrollment_of, assert_same_human,
  create_verification, accept,
}
use securtxn.WorldId.Verifier.{VerifiedProof}
use securtxn.WorldId.Nullifier.{
  is_hex_text, big_int, nullifier_to_decimal, nullifier_to_decimal-bound,
}
use securtxn.WorldId.Laws.{Accepted, accept-Accepted, accept-once}
use securtxn.Sample.{at_start, db_of}

abbrev proof : VerifiedProof
proof = record {
  nullifier_hex = codes "0x0abc";
  signal_hash = codes "hash";
  credential = codes "selfie";
  action = codes "act";
  environment = codes "staging";
  upstream_reuse = false;
}

abbrev options : WorldIdServiceOptions
options = record {
  verified = ok proof;
  hash_signal = λ s. codes "hash";
  expected_action = codes "act";
}

abbrev enrol : AcceptProofInput
enrol = record { signal = codes "s"; subject = codes "v1"; purpose = enrollment }

-- What the runs below compute with.
unfoldable run : Unit {0}
unfolding text_eq oldest enrollment_of assert_same_human create_verification accept is_hex_text
    big_int nullifier_to_decimal
run = tt

unfoldable enrolled : Db
enrolled = db_of (accept options 0 (codes "a") enrol at_start)

abbrev accepted : AcceptedProof
accepted = record {
  id = codes "a";
  nullifier = 2748;
  credential = codes "selfie";
  action = codes "act";
  purpose = enrollment;
  upstream_reuse = false;
}

enrolled_returned : accept options 0 (codes "a") enrol at_start ≡ ok (accepted, enrolled)
unfolding run enrolled
enrolled_returned = refl

accept-Accepted_example :
    Returns
      (λ r. Accepted options enrol at_start r.0 r.1)
      (accept options 0 (codes "a") enrol at_start)
accept-Accepted_example = accept-Accepted options 0 (codes "a") enrol at_start

accept-once_example :
    Returns (λ s. s.0.nullifier ≢ accepted.nullifier) (accept options 1 (codes "b") enrol enrolled)
accept-once_example =
    accept-once options options 0 1 (codes "a") (codes "b") enrol enrol at_start enrolled accepted
      enrolled_returned refl refl

shaped : is_hex_text (trim (codes " 0x0abc")) ≡ true
unfolding run
shaped = refl

nullifier_to_decimal-bound_example :
    (n : ℕ) × (nullifier_to_decimal (codes " 0x0abc") ≡ ok n) × (n < 2 ^ 256)
nullifier_to_decimal-bound_example = nullifier_to_decimal-bound (codes " 0x0abc") shaped
