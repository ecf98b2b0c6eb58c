-- ===== src/Identity/Tests.antt =====
-- The theorem on the four checks, at two documents that pass and at one that does not.
use securtxn.Prelude.{
  ◌*◌, ◌+◌, ◌≡◌, refl, true, false, none, some, [], ◌++◌, Text, codes, replicate, text_eq, to_lower,
}
use securtxn.Identity.{IdentityCheckInput, run_identity_checks, all_checks_passed}
use securtxn.Identity.Dates.{
  DateRuntime, text, build_utc_date, day_first, iso_date_form, parse_flexible_date, to_iso_date,
  dates_match, get_time,
}
use securtxn.Identity.Names.{normalise_name, names_match, normalise_gender, genders_match}
use securtxn.Identity.Checks.{
  AadhaarDocument, PanDocument, check_cross_doc_consistency, extract_user_id_from_txn,
  check_same_subject_linkage, check_ttl,
}
use securtxn.Identity.Passed.{Passed}
use securtxn.Sample.{platform}

-- A calendar with months of 31 days, counted from the year 2000.
abbrev runtime : DateRuntime
runtime = record {
  parse_native = λ t. none;
  utc = λ y m d. (y * 400 + m * 31 + d) * 86400000;
  iso_date = λ ms. (2000, 1, 1);
}

abbrev account : Text
account = replicate 32 b'a'

abbrev aadhaar : AadhaarDocument
aadhaar = record {
  name = some (codes "Ankur Kumar");
  dob = some (codes "19-11-2001");
  gender = some (codes "M");
  ttl = some (codes "2027-09-03");
  txn = some (codes "UKC:" ++ account ++ codes "20260903041004");
  last4 = some (codes "1234");
  address = [];
  photo_base64 = none;
}

abbrev pan : PanDocument
pan = record {
  name = some (codes "ANKUR  KUMAR");
  dob = some (codes "19/11/2001");
  gender = some (codes "MALE");
  person_uid = some (codes " " ++ replicate 32 b'A');
  pan_number = some (codes "P");
}

abbrev documents : IdentityCheckInput
documents = record {
  aadhaar = aadhaar;
  pan = pan;
  profile = none;
  aadhaar_signature = true;
  pan_signature = true;
  aadhaar_doc_hash = codes "aa";
  pan_doc_hash = codes "bb";
}

-- What the runs below compute with.
unfoldable run : Unit {0}
unfolding text_eq to_lower run_identity_checks all_checks_passed build_utc_date day_first
    iso_date_form parse_flexible_date to_iso_date dates_match get_time normalise_name names_match
    normalise_gender genders_match check_cross_doc_consistency extract_user_id_from_txn
    check_same_subject_linkage check_ttl
run = tt

other_account_refused :
    (run_identity_checks platform runtime 0 (record documents {
      pan = record pan { person_uid = some (replicate 32 b'b') };
    })).same_subject_linked
    ≡ false
unfolding run
other_account_refused = refl

impossible_date : to_iso_date runtime (text (codes "31-02-2001")) ≡ none
unfolding run
impossible_date = refl
