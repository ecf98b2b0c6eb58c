-- ===== src/Prelude/Strings.antt =====
-- Text as the list of its UTF-16 code units, which is how JavaScript compares and slices strings.
use Prim.Native.Nat.{ℕ, ◌+◌}
use Prim.Native.Char.{code}
use Prim.Native.String.{String}
use mathlib.Core.Path.{◌≡◌, refl, ap, ap₂}
use mathlib.Core.Logic.{◌↔◌}
use mathlib.Core.Bool.{Bool, true, false, ◌&&◌, ◌||◌}
use mathlib.Core.Option.{Option, none, some}
use mathlib.Core.List.{List, [], ◌∷◌, ◌++◌, map}
use native.Mathlib.Omega.{arith}
use securtxn.Prelude.Lists.{any, All}
use securtxn.Prelude.Tests.{ltb, leb, ◌==◌, if◌then◌else◌}

abbrev pub Text : Type 0
Text = List ℕ

-- The code units of a literal of the basic plane.
abbrev pub codes : String → Text
codes String.[] = []
codes (String.◌∷◌ c s) = code c ∷ codes s

-- `a === b`
unfoldable pub text_eq : Text → Text → Bool
text_eq [] [] = true
text_eq (x ∷ xs) (y ∷ ys) = x == y && text_eq xs ys
text_eq _ _ = false

pub text_eq_iff : (a b : Text) → (text_eq a b ≡ true) ↔ (a ≡ b)
unfolding text_eq
text_eq_iff [] [] = (λ _. refl, λ _. refl)
text_eq_iff [] (y ∷ ys) = (λ h. cc, λ h. cc)
text_eq_iff (x ∷ xs) [] = (λ h. cc, λ h. cc)
text_eq_iff (x ∷ xs) (y ∷ ys) = ground (arith, text_eq_iff xs ys)

pub text_eq_refl : (a : Text) → text_eq a a ≡ true
text_eq_refl a = (text_eq_iff a a).1 refl

-- `a < b`: code unit by code unit.
unfoldable pub text_lt : Text → Text → Bool
text_lt [] [] = false
text_lt [] (y ∷ ys) = true
text_lt (x ∷ xs) [] = false
text_lt (x ∷ xs) (y ∷ ys) = if x == y then text_lt xs ys else ltb x y

-- `toLowerCase` on ASCII, which is all that it is applied to: addresses, hashes and folded names.
unfoldable pub to_lower : ℕ → ℕ
to_lower c = if leb b'A' c && leb c b'Z' then c + 32 else c

abbrev pub lower : Text → Text
lower = map to_lower

to_lower_idem : (c : ℕ) → to_lower (to_lower c) ≡ to_lower c
unfolding to_lower
to_lower_idem c = ground arith

pub lower_idem : (t : Text) → lower (lower t) ≡ lower t
lower_idem [] = refl
lower_idem (c ∷ t) = ap₂ ◌∷◌ (to_lower_idem c) (lower_idem t)

pub lower-append : (s t : Text) → lower (s ++ t) ≡ lower s ++ lower t
lower-append [] t = refl
lower-append (c ∷ s) t = ap (λ r. to_lower c ∷ r) (lower-append s t)

abbrev pub one_of : ℕ → Text → Bool
one_of c t = any (λ d. c == d) t

-- `\s`
abbrev pub is_space : ℕ → Bool
is_space c =
    (leb 9 c && leb c 13)
    || (one_of c (0x20 ∷ 0xa0 ∷ 0x1680 ∷ 0x2028 ∷ 0x2029 ∷ 0x202f ∷ 0x205f ∷ 0x3000 ∷ 0xfeff ∷ [])
        || (leb 0x2000 c && leb c 0x200a))

abbrev trim_start : Text → Text
trim_start [] = []
trim_start (c ∷ t) = if is_space c then trim_start t else c ∷ t

abbrev without_end : ℕ → Text → Text
without_end c [] = if is_space c then [] else c ∷ []
without_end c (d ∷ t) = c ∷ d ∷ t

abbrev trim_end : Text → Text
trim_end [] = []
trim_end (c ∷ t) = without_end c (trim_end t)

-- `value.trim()`
abbrev pub trim : Text → Text
trim t = trim_end (trim_start t)

without_end-solid : (c : ℕ) (t : Text) → is_space c ≡ false → without_end c t ≡ c ∷ t
without_end-solid c [] h = ground (arith, h)
without_end-solid c (d ∷ t) h = refl

trim_end-solid : (t : Text) → All (λ c. is_space c ≡ false) t → trim_end t ≡ t
trim_end-solid [] h = refl
trim_end-solid (c ∷ t) h = rw (trim_end-solid t h.1) (without_end-solid c t h.0)

trim_start-solid : (t : Text) → All (λ c. is_space c ≡ false) t → trim_start t ≡ t
trim_start-solid [] h = refl
trim_start-solid (c ∷ t) h = ground (arith, h.0)

-- A text without white space is its own trim.
pub trim-solid : (t : Text) → All (λ c. is_space c ≡ false) t → trim t ≡ t
trim-solid t h = rw (trim_start-solid t h) (trim_end-solid t h)

-- A `string | null` that is truthy: there and not empty.
abbrev pub filled : Option Text → Option Text
filled none = none
filled (some []) = none
filled (some (c ∷ t)) = some (c ∷ t)

abbrev onto_first : ℕ → List Text → List Text
onto_first c [] = (c ∷ []) ∷ []
onto_first c (w ∷ ws) = (c ∷ w) ∷ ws

-- `value.split(d)`, at one code unit
abbrev pub split_on : ℕ → Text → List Text
split_on d [] = [] ∷ []
split_on d (c ∷ t) = let rest = split_on d t in if c == d then [] ∷ rest else onto_first c rest

abbrev starts_with : Text → Text → Bool
starts_with [] t = true
starts_with (c ∷ p) [] = false
starts_with (c ∷ p) (d ∷ t) = c == d && starts_with p t

-- `value.includes(p)`
abbrev pub includes : Text → Text → Bool
includes p [] = starts_with p []
includes p (c ∷ t) = starts_with p (c ∷ t) || includes p t
