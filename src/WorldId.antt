-- ===== src/WorldId.antt =====
-- apps/api/src/modules/worldid/service.ts: the acceptance of a World ID proof. What the verifier
-- answers and the hash of a signal are parameters; the verifier's client and the canonical form of
-- a nullifier are in child modules.
pub mod Nullifier
pub mod Verifier
pub mod Laws
mod Tests
use securtxn.Prelude.{
  ℕ, Bool, true, false, not, ◌&&◌, ◌==◌, Option, none, some, List, [], ◌∷◌, ◌++◌, Text, text_eq,
  any, filter, Result, ok, err, require, present, ◌>>=◌, ◌>>◌, internal, signal_mismatch,
  nullifier_replay, not_enrolled, different_human,
}
use mathlib.Core.Option
use securtxn.Store.Rows.{WorldIdVerification, WorldIdPurpose, enrollment, reverification, Db}
use securtxn.Store.Queries.{oldest}
use securtxn.WorldId.Nullifier.{nullifier_to_decimal}
use securtxn.WorldId.Verifier.{VerifiedProof}

pub record WorldIdServiceOptions : Type 0 where
  -- what `verifier.verify` answers for the proof at hand
  pub verified : Result VerifiedProof
  -- idkit's `hashSignal`
  pub hash_signal : Text → Text
  pub expected_action : Text

pub record AcceptProofInput : Type 0 where
  pub signal : Text
  pub subject : Text
  pub purpose : WorldIdPurpose

pub record AcceptedProof : Type 0 where
  pub id : Text
  pub nullifier : ℕ
  pub credential : Text
  pub action : Text
  pub purpose : WorldIdPurpose
  pub upstream_reuse : Bool

abbrev is_enrollment : WorldIdPurpose → Bool
is_enrollment enrollment = true
is_enrollment reverification = false

-- The nullifier is a decimal column, so it is a number here.
unfoldable pub enrollment_of : Text → Db → Option ℕ
enrollment_of subject db =
    Option.map (λ v. v.nullifier)
      (oldest (λ v. v.verified_at)
        (filter (λ v. text_eq v.subject subject && is_enrollment v.purpose)
          db.world_id_verifications))

unfoldable pub assert_same_human : Text → ℕ → Db → Result (Unit {0})
assert_same_human subject nullifier db =
    present (enrollment_of subject db) not_enrolled >>= λ enrolled.
    require (enrolled == nullifier) different_human

-- Only a re-verification is compared with the enrolment.
abbrev pub check_human : WorldIdPurpose → Text → ℕ → Db → Result (Unit {0})
check_human enrollment subject nullifier db = ok tt
check_human reverification subject nullifier db = assert_same_human subject nullifier db

abbrev pub new_verification : ℕ → Text → AcceptProofInput → VerifiedProof → ℕ → WorldIdVerification
new_verification now new_id i v nullifier = record {
  id = new_id;
  nullifier = nullifier;
  action = v.action;
  signal = i.signal;
  credential = v.credential;
  environment = v.environment;
  subject = i.subject;
  purpose = i.purpose;
  upstream_reuse = v.upstream_reuse;
  verified_at = now;
}

-- The unique index on `(nullifier, action, signal)`.
abbrev pub same_use : WorldIdVerification → WorldIdVerification → Bool
same_use w v =
    v.nullifier == w.nullifier && (text_eq v.action w.action && text_eq v.signal w.signal)

-- `worldIdVerification.create`, with a broken index as the replay that the service makes of it.
unfoldable pub create_verification : WorldIdVerification → Db → Result Db
create_verification w db =
    require (not (any (same_use w) db.world_id_verifications)) nullifier_replay
    >> ok (record db { world_id_verifications = db.world_id_verifications ++ w ∷ [] })

abbrev pub accepted_proof : Text → AcceptProofInput → VerifiedProof → ℕ → AcceptedProof
accepted_proof new_id i v nullifier = record {
  id = new_id;
  nullifier = nullifier;
  credential = v.credential;
  action = v.action;
  purpose = i.purpose;
  upstream_reuse = v.upstream_reuse;
}

unfoldable pub accept :
    WorldIdServiceOptions → ℕ → Text → AcceptProofInput → Db → Result (AcceptedProof × Db)
accept options now new_id i db = options.verified >>= λ v.
    require (text_eq v.action options.expected_action) internal
    >> (require (text_eq v.signal_hash (options.hash_signal i.signal)) signal_mismatch
        >> (nullifier_to_decimal v.nullifier_hex >>= λ nullifier.
            check_human i.purpose i.subject nullifier db
            >> (create_verification (new_verification now new_id i v nullifier) db >>= λ after.
                ok (accepted_proof new_id i v nullifier, after))))
