-- ===== src/Identity/Names.antt =====
-- apps/api/src/modules/identity/normalise/name.ts and gender.ts
use securtxn.Prelude.{
  Bool, true, false, not, Option, none, some, List, [], ◌∷◌, Text, codes, text_eq, trim, lower,
  is_space, one_of, filter, if◌then◌else◌,
}
use securtxn.Platform.{Platform}

-- `/\s+/g` becomes one space: `spaced` says that the last unit was white space.
abbrev collapse : Bool → Text → Text
collapse spaced [] = []
collapse spaced (c ∷ t) =
    let after = collapse true t in
    let on = collapse false t in
    if is_space c then (if spaced then after else 0x20 ∷ after) else c ∷ on

abbrev pub non_empty : Text → Option Text
non_empty [] = none
non_empty (c ∷ t) = some (c ∷ t)

-- `none` is an input that is no string.
unfoldable pub normalise_name : Platform → Option Text → Option Text
normalise_name pf none = none
normalise_name pf (some input) =
    non_empty
      (trim (collapse false (filter (λ c. not (one_of c (codes ".,'"))) (pf.fold_text input))))

abbrev pub same_text : Option Text → Option Text → Bool
same_text (some a) (some b) = text_eq a b
same_text _ _ = false

unfoldable pub names_match : Platform → Option Text → Option Text → Bool
names_match pf left right = same_text (normalise_name pf left) (normalise_name pf right)

pub data Gender : Type 0 where
  male female other : Gender

abbrev any_of : List Text → Text → Bool
any_of [] t = false
any_of (k ∷ ks) t = if text_eq t k then true else any_of ks t

-- The keys are ASCII, and no other letter folds into them.
unfoldable pub normalise_gender : Option Text → Option Gender
normalise_gender none = none
normalise_gender (some input) =
    let key = lower (trim input) in
    if any_of (codes "m" ∷ codes "male" ∷ []) key
    then some male
    else if any_of (codes "f" ∷ codes "female" ∷ []) key
    then some female
    else if any_of (codes "t" ∷ codes "o" ∷ codes "other" ∷ codes "transgender" ∷ []) key
    then some other
    else none

abbrev pub same_gender : Option Gender → Option Gender → Bool
same_gender (some male) (some male) = true
same_gender (some female) (some female) = true
same_gender (some other) (some other) = true
same_gender _ _ = false

unfoldable pub genders_match : Option Text → Option Text → Bool
genders_match left right = same_gender (normalise_gender left) (normalise_gender right)
