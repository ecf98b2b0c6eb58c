-- ===== src/Identity/Checks.antt =====
-- apps/api/src/modules/identity/checks: the four mandatory checks on the two documents. The parsed
-- documents and the verdicts on their signatures are inputs, since xmldom and xml-crypto give them.
use securtxn.Prelude.{
  ℕ, ◌-◌, Bool, true, false, ◌&&◌, ◌||◌, ◌==◌, leb, Option, none, some, List, [], ◌∷◌, ◌++◌, Text,
  text_eq, trim, lower, all_of, if◌then◌else◌,
}
use mathlib.Core.Option
use securtxn.Platform.{Platform}
use securtxn.Identity.Dates.{
  DateRuntime, Moment, DateInput, missing, text, parse_flexible_date, dates_match, get_time,
  is_digit,
}
use securtxn.Identity.Names.{names_match, genders_match}

pub record AadhaarDocument : Type 0 where
  pub name : Option Text
  pub dob : Option Text
  pub gender : Option Text
  pub ttl : Option Text
  pub txn : Option Text
  pub last4 : Option Text
  pub address : List (Text × Text)
  pub photo_base64 : Option Text

pub record PanDocument : Type 0 where
  pub name : Option Text
  pub dob : Option Text
  pub gender : Option Text
  pub person_uid : Option Text
  pub pan_number : Option Text

pub record UserProfile : Type 0 where
  pub name : Option Text
  pub dob : DateInput
  pub gender : Option Text
  pub mobile : Option Text

pub data Field : Type 0 where
  name dob gender profile_name profile_dob profile_gender : Field

pub record ConsistencyResult : Type 0 where
  pub consistent : Bool
  pub mismatched_fields : List Field
  pub missing_fields : List Field

-- What comparing one field found.
pub data Compared : Type 0 where
  agreed mismatched absent : Compared

abbrev pub verdict_on : Bool → Compared
verdict_on true = agreed
verdict_on false = mismatched

abbrev pub compare : {A : Type 0} → (Option A → Option A → Bool) → Option A → Option A → Compared
compare matcher none right = absent
compare matcher (some l) none = absent
compare matcher (some l) (some r) = verdict_on (matcher (some l) (some r))

abbrev pub as_input : Option Text → DateInput
as_input none = missing
as_input (some t) = text t

abbrev pub date_matcher : DateRuntime → Option Text → Option Text → Bool
date_matcher dates l r = dates_match dates (as_input l) (as_input r)

abbrev pub input_of : DateInput → Option DateInput
input_of missing = none
input_of i = some i

abbrev pub profile_dob_matcher : DateRuntime → Option DateInput → Option DateInput → Bool
profile_dob_matcher dates (some l) (some r) = dates_match dates l r
profile_dob_matcher dates _ _ = false

-- A field that the profile does not carry is not compared.
abbrev pub unless_absent : {A : Type 0} → Field → Option A → Compared → List (Field × Compared)
unless_absent field none c = []
unless_absent field (some a) c = (field, c) ∷ []

abbrev pub profile_comparisons :
    Platform → DateRuntime → AadhaarDocument → Option UserProfile → List (Field × Compared)
profile_comparisons pf dates a none = []
profile_comparisons pf dates a (some p) =
    unless_absent profile_name p.name (compare (names_match pf) a.name p.name)
    ++ (unless_absent profile_dob (input_of p.dob)
          (compare (profile_dob_matcher dates) (input_of (as_input a.dob)) (input_of p.dob))
        ++ unless_absent profile_gender p.gender (compare genders_match a.gender p.gender))

abbrev pub comparisons :
    Platform
    → DateRuntime
    → AadhaarDocument
    → PanDocument
    → Option UserProfile
    → List (Field × Compared)
comparisons pf dates a pan profile =
    (name, compare (names_match pf) a.name pan.name)
    ∷ (dob, compare (date_matcher dates) a.dob pan.dob)
    ∷ (gender, compare genders_match a.gender pan.gender)
    ∷ profile_comparisons pf dates a profile

abbrev pub mismatched_in : List (Field × Compared) → List Field
mismatched_in [] = []
mismatched_in ((f, mismatched) ∷ cs) = f ∷ mismatched_in cs
mismatched_in ((f, _) ∷ cs) = mismatched_in cs

abbrev pub missing_in : List (Field × Compared) → List Field
missing_in [] = []
missing_in ((f, absent) ∷ cs) = f ∷ missing_in cs
missing_in ((f, _) ∷ cs) = missing_in cs

abbrev pub is_empty : {A : Type 0} → List A → Bool
is_empty [] = true
is_empty (x ∷ xs) = false

abbrev pub consistency_of : List (Field × Compared) → ConsistencyResult
consistency_of cs = record {
  consistent = is_empty (mismatched_in cs) && is_empty (missing_in cs);
  mismatched_fields = mismatched_in cs;
  missing_fields = missing_in cs;
}

unfoldable pub check_cross_doc_consistency :
    Platform → DateRuntime → AadhaarDocument → PanDocument → Option UserProfile → ConsistencyResult
check_cross_doc_consistency pf dates a pan profile =
    consistency_of (comparisons pf dates a pan profile)

-- `[A-Z]` and `[0-9a-f]` under the flag `i`
abbrev is_letter : ℕ → Bool
is_letter c = (leb b'A' c && leb c b'Z') || (leb b'a' c && leb c b'z')

abbrev is_hex : ℕ → Bool
is_hex c = is_digit c || ((leb b'a' c && leb c b'f') || (leb b'A' c && leb c b'F'))

-- The next `n` units where they are hex, and the rest of digits only.
abbrev take_id : ℕ → Text → Option Text
take_id n [] = if n == 0 then some [] else none
take_id n (c ∷ t) =
    let shorter = take_id (n - 1) t in
    if n == 0
    then (if all_of is_digit (c ∷ t) then some [] else none)
    else if is_hex c
    then Option.map (λ r. c ∷ r) shorter
    else none

-- What follows letters, at least one, and a colon.
abbrev after_prefix : Bool → Text → Option Text
after_prefix seen [] = none
after_prefix seen (c ∷ t) =
    let on = after_prefix true t in
    if is_letter c then on else if seen && c == b':' then some t else none

abbrev id_in : Option Text → Option Text
id_in none = none
id_in (some t) = Option.map lower (take_id 32 t)

-- `/^[A-Z]+:([0-9a-f]{32})\d*$/i`
unfoldable pub extract_user_id_from_txn : Option Text → Option Text
extract_user_id_from_txn none = none
extract_user_id_from_txn (some txn) = id_in (after_prefix false (trim txn))

-- The reason is left out; it says which of the three failed.
pub record LinkageResult : Type 0 where
  pub linked : Bool
  pub user_id : Option Text

abbrev pub link : Option Text → Option Text → LinkageResult
link none from_pan = record { linked = false; user_id = none }
link (some a) none = record { linked = false; user_id = none }
link (some a) (some p) =
    if text_eq a p
    then record { linked = true; user_id = some a }
    else record { linked = false; user_id = none }

unfoldable pub check_same_subject_linkage : AadhaarDocument → PanDocument → LinkageResult
check_same_subject_linkage a pan =
    link (extract_user_id_from_txn a.txn) (Option.map (λ t. lower (trim t)) pan.person_uid)

pub record TtlResult : Type 0 where
  pub captured : Bool
  pub ttl : Option ℕ
  pub expired : Bool

abbrev no_ttl : TtlResult
no_ttl = record { captured = false; ttl = none; expired = false }

abbrev pub ttl_from : DateRuntime → ℕ → Option Moment → TtlResult
ttl_from dates now none = no_ttl
ttl_from dates now (some m) = record {
  captured = true;
  ttl = some (get_time dates m);
  expired = leb (get_time dates m) now;
}

abbrev pub ttl_of : DateRuntime → ℕ → Option Text → TtlResult
ttl_of dates now none = no_ttl
ttl_of dates now (some []) = no_ttl
ttl_of dates now (some (c ∷ t)) = ttl_from dates now (parse_flexible_date dates (text (c ∷ t)))

unfoldable pub check_ttl : DateRuntime → AadhaarDocument → ℕ → TtlResult
check_ttl dates a now = ttl_of dates now a.ttl
