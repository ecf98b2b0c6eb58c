-- ===== src/Matching.antt =====
-- packages/cre-workflows/src/matching.ts: the match rule that the fallback matcher and both enclave
-- handlers share, and the fallback matcher (packages/cre-workflows/src/fallback).
pub mod Laws
mod Tests
use Prim.Native.Nat.{bit_or, bit_xor}
use securtxn.Prelude.{
  ℕ, Bool, true, false, not, ◌&&◌, ◌||◌, ◌==◌, Option, none, some, List, [], ◌∷◌, Text, text_eq,
  lower, any, length, if◌then◌else◌, or_else,
}

pub record VendorMatchInput : Type 0 where
  pub vendor_id : Text
  pub claimed_name_hmac : Text
  pub claimed_pan_hmac : Text
  pub wallet_address : Text
  pub network : Text
  pub token_contract : Option Text

pub record WalletOnFile : Type 0 where
  pub address : Text
  pub network : Text
  pub token_contract : Option Text

pub record VendorRecord : Type 0 where
  pub legal_name_hmac : Option Text
  pub pan_number_hmac : Option Text
  pub wallets : List WalletOnFile

pub data MatchReason : Type 0 where
  vendor_not_found wallet_not_on_file identity_mismatch matched : MatchReason

pub record VendorMatchResult : Type 0 where
  pub match : Bool
  pub reason_code : MatchReason

-- The loop over the code units, `diff |= a ^ b`. It is entered at equal lengths.
unfoldable pub diff_from : ℕ → Text → Text → ℕ
diff_from diff [] b = diff
diff_from diff (x ∷ a) [] = diff
diff_from diff (x ∷ a) (y ∷ b) = diff_from (bit_or diff (bit_xor x y)) a b

abbrev is_empty : Text → Bool
is_empty [] = true
is_empty (_ ∷ _) = false

-- `digestsEqual`: an absent or an empty digest equals nothing.
unfoldable pub digests_equal : Option Text → Option Text → Bool
unfolding diff_from
digests_equal none b = false
digests_equal (some a) none = false
digests_equal (some a) (some b) =
    if is_empty a || (is_empty b || not (length a == length b)) then false else diff_from 0 a b == 0

abbrev token_agrees : Option Text → Option Text → Bool
token_agrees none on_file = true
token_agrees (some claimed) on_file = text_eq (lower (or_else on_file [])) (lower claimed)

abbrev pub wallet_agrees : VendorMatchInput → WalletOnFile → Bool
wallet_agrees input wallet =
    text_eq (lower wallet.address) (lower input.wallet_address)
    && (text_eq wallet.network input.network
        && token_agrees input.token_contract wallet.token_contract)

abbrev refusal : MatchReason → VendorMatchResult
refusal reason = record { match = false; reason_code = reason }

abbrev pub identity_agrees : VendorMatchInput → VendorRecord → Bool
identity_agrees input vendor =
    digests_equal (some input.claimed_name_hmac) vendor.legal_name_hmac
    && digests_equal (some input.claimed_pan_hmac) vendor.pan_number_hmac

unfoldable pub evaluate_match : VendorMatchInput → Option VendorRecord → VendorMatchResult
evaluate_match input none = refusal vendor_not_found
evaluate_match input (some vendor) =
    if not (any (wallet_agrees input) vendor.wallets)
    then refusal wallet_not_on_file
    else if not (identity_agrees input vendor)
    then refusal identity_mismatch
    else record { match = true; reason_code = matched }

-- `FallbackVendorMatcher.match`, over an injected lookup.
unfoldable pub fallback_match : (Text → Option VendorRecord) → VendorMatchInput → VendorMatchResult
fallback_match lookup input = evaluate_match input (lookup input.vendor_id)
