-- ===== src/Matching/Tests.antt =====
-- The match rule at concrete inputs.
use securtxn.Prelude.{
  ◌≡◌, ◌↔◌, refl, Option, none, some, [], ◌∷◌, codes, true, false, text_eq, to_lower,
}
use securtxn.Matching.{VendorMatchInput, VendorRecord, digests_equal, evaluate_match}
use securtxn.Matching.Laws.{
  SameDigest, digests_equal_iff, IsMatch, evaluate_match-match_iff, evaluate_match-blind,
}

abbrev on_file : Option VendorRecord
on_file = some (record {
  legal_name_hmac = some (codes "name");
  pan_number_hmac = some (codes "pan");
  wallets = record { address = codes "0xaB"; network = codes "hedera"; token_contract = none } ∷ [];
})

abbrev wrong_name : VendorMatchInput
wrong_name = record {
  vendor_id = codes "v";
  claimed_name_hmac = codes "other";
  claimed_pan_hmac = codes "pan";
  wallet_address = codes "0xAb";
  network = codes "hedera";
  token_contract = none;
}

abbrev wrong_pan : VendorMatchInput
wrong_pan = record wrong_name { claimed_name_hmac = codes "name"; claimed_pan_hmac = codes "nap" }

digests_equal_iff_example :
    (digests_equal (some (codes "pan")) (some (codes "pan")) ≡ true)
    ↔ SameDigest (codes "pan") (some (codes "pan"))
digests_equal_iff_example = digests_equal_iff (codes "pan") (some (codes "pan"))

evaluate_match-match_iff_example :
    ((evaluate_match wrong_name on_file).match ≡ true) ↔ IsMatch wrong_name on_file
evaluate_match-match_iff_example = evaluate_match-match_iff wrong_name on_file

wrong_name_refused : (evaluate_match wrong_name on_file).match ≡ false
unfolding evaluate_match digests_equal text_eq to_lower
wrong_name_refused = refl

wrong_pan_refused : (evaluate_match wrong_pan on_file).match ≡ false
unfolding evaluate_match digests_equal text_eq to_lower
wrong_pan_refused = refl

evaluate_match-blind_example : evaluate_match wrong_name on_file ≡ evaluate_match wrong_pan on_file
evaluate_match-blind_example =
    evaluate_match-blind wrong_name wrong_pan on_file refl refl refl wrong_name_refused
      wrong_pan_refused
