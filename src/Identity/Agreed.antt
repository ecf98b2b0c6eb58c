-- ===== src/Identity/Agreed.antt =====
-- apps/api/src/modules/identity/checks/crossDocConsistency.ts: what two documents, and the profile,
-- have in common where every comparison agrees.
use securtxn.Prelude.{
  ℕ, Bool, true, false, ◌≡◌, refl, ap, Option, none, some, List, ◌++◌, Text, text_eq_iff, All,
  arith,
}
use securtxn.Platform.{Platform}
use securtxn.Identity.Dates.{
  DateRuntime, DateInput, missing, text, finite_number, dates_match, same_date, to_iso_date,
}
use securtxn.Identity.Names.{
  normalise_name, same_text, names_match, Gender, male, female, normalise_gender, same_gender,
  genders_match,
}
use securtxn.Identity.Checks.{
  AadhaarDocument, PanDocument, UserProfile, Field, profile_name, profile_dob, profile_gender,
  Compared, agreed, verdict_on, compare, as_input, date_matcher, input_of, profile_dob_matcher,
  unless_absent, profile_comparisons, comparisons,
}

-- Two inputs with one normal form; what is absent has none.
abbrev pub Same : {A B : Type 0} → (A → Option B) → A → A → Type 0
Same {B = B} norm left right = (n : B) × (norm left ≡ some n) × (norm right ≡ some n)

abbrev pub Given : {A : Type 0} → Option A → Type 0 → Type 0
Given none T = Unit {0}
Given (some _) T = T

-- The profile may be missing, and each of its fields.
abbrev pub FitsProfile : Platform → DateRuntime → AadhaarDocument → Option UserProfile → Type 0
FitsProfile pf dates a none = Unit {0}
FitsProfile pf dates a (some p) =
    Given p.name (Same (normalise_name pf) a.name p.name)
    × Given (input_of p.dob) (Same (to_iso_date dates) (as_input a.dob) p.dob)
    × Given p.gender (Same normalise_gender a.gender p.gender)

pub record Agreeing (pf : Platform) (dates : DateRuntime) (a : AadhaarDocument) (pan : PanDocument)
    (profile : Option UserProfile) : Type 0 where
  pub one_name : Same (normalise_name pf) a.name pan.name
  pub one_dob : Same (to_iso_date dates) (as_input a.dob) (as_input pan.dob)
  pub one_gender : Same normalise_gender a.gender pan.gender
  pub fits : FitsProfile pf dates a profile

verdict_on-agreed : (b : Bool) → verdict_on b ≡ agreed → b ≡ true
verdict_on-agreed true h = refl
verdict_on-agreed false h = cc

compare-agreed :
    {A : Type 0} (matcher : Option A → Option A → Bool) (l r : Option A)
    → compare matcher l r ≡ agreed
    → matcher l r ≡ true
compare-agreed matcher none r h = cc
compare-agreed matcher (some l) none h = cc
compare-agreed matcher (some l) (some r) h = verdict_on-agreed (matcher (some l) (some r)) h

same_text-Same :
    (a b : Option Text) → same_text a b ≡ true → (n : Text) × (a ≡ some n) × (b ≡ some n)
same_text-Same (some a) (some b) h = (b, ap (λ t. some t) ((text_eq_iff a b).0 h), refl)
same_text-Same (some a) none h = cc
same_text-Same none b h = cc

same_gender-Same :
    (a b : Option Gender) → same_gender a b ≡ true → (g : Gender) × (a ≡ some g) × (b ≡ some g)
same_gender-Same (some male) (some male) h = (male, refl, refl)
same_gender-Same (some male) (some female) h = cc
same_gender-Same (some male) (some Gender.other) h = cc
same_gender-Same (some female) (some male) h = cc
same_gender-Same (some female) (some female) h = (female, refl, refl)
same_gender-Same (some female) (some Gender.other) h = cc
same_gender-Same (some Gender.other) (some male) h = cc
same_gender-Same (some Gender.other) (some female) h = cc
same_gender-Same (some Gender.other) (some Gender.other) h = (Gender.other, refl, refl)
same_gender-Same (some male) none h = cc
same_gender-Same (some female) none h = cc
same_gender-Same (some Gender.other) none h = cc
same_gender-Same none b h = cc

same_date-Same :
    (a b : Option (ℕ × ℕ × ℕ))
    → same_date a b ≡ true
    → (d : ℕ × ℕ × ℕ) × (a ≡ some d) × (b ≡ some d)
same_date-Same (some (y, m, d)) (some (y', m', d')) h =
    let year : y ≡ y' = ground arith in
    let month : m ≡ m' = ground arith in
    let day : d ≡ d' = ground arith in ((y', m', d'), rw (year, month, day) refl, refl)
same_date-Same (some x) none h = cc
same_date-Same none b h = cc

names_match-Same :
    (pf : Platform) (l r : Option Text) → names_match pf l r ≡ true → Same (normalise_name pf) l r
unfolding names_match
names_match-Same pf l r h = same_text-Same (normalise_name pf l) (normalise_name pf r) h

genders_match-Same : (l r : Option Text) → genders_match l r ≡ true → Same normalise_gender l r
unfolding genders_match
genders_match-Same l r h = same_gender-Same (normalise_gender l) (normalise_gender r) h

dates_match-Same :
    (dates : DateRuntime) (l r : DateInput)
    → dates_match dates l r ≡ true
    → Same (to_iso_date dates) l r
unfolding dates_match
dates_match-Same dates l r h = same_date-Same (to_iso_date dates l) (to_iso_date dates r) h

profile_dob-Same :
    (dates : DateRuntime) (dob : Option Text) (i : DateInput)
    → profile_dob_matcher dates (input_of (as_input dob)) (input_of i) ≡ true
    → Same (to_iso_date dates) (as_input dob) i
profile_dob-Same dates none i h = cc
profile_dob-Same dates (some t) missing h = cc
profile_dob-Same dates (some t) (text s) h = dates_match-Same dates (text t) (text s) h
profile_dob-Same dates (some t) (finite_number n) h =
    dates_match-Same dates (text t) (finite_number n) h
profile_dob-Same dates (some t) DateInput.other h =
    dates_match-Same dates (text t) DateInput.other h

-- A field that was compared, before the others.
unless_absent-Given :
    {A : Type 0} (T : Type 0) (f : Field) (o : Option A) (c : Compared)
    (rest : List (Field × Compared))
    → (c ≡ agreed → T)
    → All (λ x. x.1 ≡ agreed) (unless_absent f o c ++ rest)
    → Given o T × All (λ x. x.1 ≡ agreed) rest
unless_absent-Given T f none c rest k h = (tt, h)
unless_absent-Given T f (some a) c rest k h = (k h.0, h.1)

last-Given :
    {A : Type 0} (T : Type 0) (f : Field) (o : Option A) (c : Compared)
    → (c ≡ agreed → T)
    → All (λ x. x.1 ≡ agreed) (unless_absent f o c)
    → Given o T
last-Given T f none c k h = tt
last-Given T f (some a) c k h = k h.0

profile_comparisons-FitsProfile :
    (pf : Platform) (dates : DateRuntime) (a : AadhaarDocument) (profile : Option UserProfile)
    → All (λ x. x.1 ≡ agreed) (profile_comparisons pf dates a profile)
    → FitsProfile pf dates a profile
profile_comparisons-FitsProfile pf dates a none h = tt
profile_comparisons-FitsProfile pf dates a (some p) h =
    let dob_found =
      compare (profile_dob_matcher dates) (input_of (as_input a.dob)) (input_of p.dob) in
    let gender_found = compare genders_match a.gender p.gender in
    let by_gender = unless_absent profile_gender p.gender gender_found in
    let (named, rest) =
      unless_absent-Given (Same (normalise_name pf) a.name p.name) profile_name p.name
        (compare (names_match pf) a.name p.name)
        (unless_absent profile_dob (input_of p.dob) dob_found ++ by_gender)
        (λ e. names_match-Same pf a.name p.name (compare-agreed (names_match pf) a.name p.name e))
        h in
    let (born, last) =
      unless_absent-Given (Same (to_iso_date dates) (as_input a.dob) p.dob) profile_dob
        (input_of p.dob) dob_found by_gender
        (λ e. profile_dob-Same dates a.dob p.dob (
          compare-agreed (profile_dob_matcher dates) (input_of (as_input a.dob)) (input_of p.dob)
            e))
        rest in
    (
      named,
      born,
      last-Given (Same normalise_gender a.gender p.gender) profile_gender p.gender gender_found
          (λ e.
            genders_match-Same a.gender p.gender (compare-agreed genders_match a.gender p.gender e))
          last,
    )

pub comparisons-Agreeing :
    (pf : Platform) (dates : DateRuntime) (a : AadhaarDocument) (pan : PanDocument)
    (profile : Option UserProfile)
    → All (λ x. x.1 ≡ agreed) (comparisons pf dates a pan profile)
    → Agreeing pf dates a pan profile
comparisons-Agreeing pf dates a pan profile h = record {
  one_name =
      names_match-Same pf a.name pan.name (compare-agreed (names_match pf) a.name pan.name h.0);
  one_dob =
      dates_match-Same dates (as_input a.dob) (as_input pan.dob)
        (compare-agreed (date_matcher dates) a.dob pan.dob h.1.0);
  one_gender =
      genders_match-Same a.gender pan.gender
        (compare-agreed genders_match a.gender pan.gender h.1.1.0);
  fits = profile_comparisons-FitsProfile pf dates a profile h.1.1.1;
}
