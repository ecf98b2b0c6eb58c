-- ===== src/Evidence/Chain.antt =====
-- apps/api/src/modules/evidence/chain.ts: the hash chain.
pub mod Laws
pub mod Tamper
use securtxn.Prelude.{
  ℕ, suc, ◌+◌, Bool, true, false, not, Option, none, some, List, [], ◌∷◌, ◌++◌, Text, text_eq, drop,
  replicate, if◌then◌else◌, ◌==◌, Result, ok, err, ◌>>=◌,
}
use securtxn.Json.{serialise}
use securtxn.Platform.{Platform}
use securtxn.Evidence.Payload.{EvidencePayload}
use securtxn.Evidence.Payload.Value.{payload_value}

-- `"0".repeat(64)`
unfoldable pub genesis_previous_hash : Text
genesis_previous_hash = replicate 64 b'0'

unfoldable pub canonicalize : EvidencePayload → Result Text
canonicalize p = serialise (payload_value p)

-- `keccak256(toHex(preimage)).slice(2)`
unfoldable pub record_digest : Platform → Text → Text
record_digest pf preimage = drop 2 (pf.keccak256 (pf.to_hex preimage))

unfoldable pub compute_record_hash : Platform → EvidencePayload → Text → Result Text
compute_record_hash pf p previous =
    canonicalize p >>= λ text. ok (record_digest pf (text ++ previous))

pub record ChainRecord : Type 0 where
  pub payload : EvidencePayload
  pub payload_hash : Text
  pub previous_record_hash : Text
  pub created_at : ℕ

pub data BreakReason : Type 0 where
  not_from_genesis not_linked not_canonical wrong_hash : BreakReason

-- `valid` is `{ chainValid: true, brokenAtIndex: null, reason: null }`.
pub data ChainVerification : Type 0 where
  valid : ChainVerification
  broken : (broken_at_index : ℕ) (reason : BreakReason) → ChainVerification

abbrev pub judge_hash : Text → Result Text → Option BreakReason
judge_hash stored (err e) = some not_canonical
judge_hash stored (ok recomputed) = if text_eq recomputed stored then none else some wrong_hash

-- What one round finds wrong with a record, `none` if it holds.
unfoldable pub check_record : Platform → ℕ → Text → ChainRecord → Option BreakReason
check_record pf index expected r =
    if not (text_eq r.previous_record_hash expected)
    then some (if index == 0 then not_from_genesis else not_linked)
    else judge_hash r.payload_hash (compute_record_hash pf r.payload r.previous_record_hash)

unfoldable pub verify_from : Platform → ℕ → Text → List ChainRecord → ChainVerification
verify_from pf index expected [] = valid
verify_from pf index expected (r ∷ rs) = elim (check_record pf index expected r) [
  | some reason ↦ broken index reason
  | none ↦ verify_from pf (index + 1) r.payload_hash rs
]

unfoldable pub verify_chain : Platform → List ChainRecord → ChainVerification
unfolding verify_from
verify_chain pf = verify_from pf 0 genesis_previous_hash
