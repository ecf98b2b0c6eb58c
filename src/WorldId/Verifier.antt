-- ===== src/WorldId/Verifier.antt =====
-- apps/api/src/modules/worldid/WorldIdProofVerifier.ts: how the answer of the verify endpoint is
-- read. The HTTP response is a parameter, with its body as it was parsed.
use securtxn.Prelude.{
  Bool, Option, List, [], Text, codes, lower, filled, includes, or_else, or_option, chain,
  get_elem?, Result, ok, require, present, ◌>>=◌, ◌>>◌, verification_failed,
}

pub record ProofResponse : Type 0 where
  pub identifier : Option Text
  pub nullifier : Option Text
  pub signal_hash : Option Text

pub record IdKitProof : Type 0 where
  pub action : Option Text
  pub environment : Option Text
  pub responses : List ProofResponse

pub record VerifyResult : Type 0 where
  pub identifier : Option Text
  pub nullifier : Option Text

-- `success` is `body.success === true`.
pub record VerifyBody : Type 0 where
  pub success : Bool
  pub nullifier : Option Text
  pub action : Option Text
  pub environment : Option Text
  pub message : Option Text
  pub results : List VerifyResult

pub record HttpResponse : Type 0 where
  pub is_ok : Bool
  -- `JSON.parse` of the text, which may throw
  pub body : Result VerifyBody

pub record VerifiedProof : Type 0 where
  pub nullifier_hex : Text
  pub signal_hash : Text
  pub credential : Text
  pub action : Text
  pub environment : Text
  pub upstream_reuse : Bool

unfoldable pub verify : IdKitProof → HttpResponse → Result VerifiedProof
verify proof response =
    require response.is_ok verification_failed
    >> (response.body >>= λ body.
        require body.success verification_failed
        >> (let result = get_elem? body.results 0 in
            let asked = get_elem? proof.responses 0 in
            present (filled (or_option body.nullifier (chain result (λ r. r.nullifier))))
              verification_failed
            >>= λ nullifier_hex. ok (record {
              nullifier_hex = nullifier_hex;
              signal_hash = or_else (chain asked (λ r. r.signal_hash)) [];
              credential =
                  or_else
                    (or_option (chain result (λ r. r.identifier)) (chain asked (λ r. r.identifier)))
                    (codes "unknown");
              action = or_else (or_option body.action proof.action) [];
              environment = or_else (or_option body.environment proof.environment) [];
              upstream_reuse = includes (codes "nullifier reuse") (lower (or_else body.message []));
            })))
