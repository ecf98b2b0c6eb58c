-- ===== src/Settle/Units.antt =====
-- apps/api/src/modules/securities/service.ts: `toBaseUnits` and `fromBaseUnits`, decimal texts to
-- and from the integer that a token counts. Both work on texts, and no number here is negative.
use securtxn.Prelude.{
  ℕ, zero, suc, ◌+◌, ◌-◌, ◌*◌, ◌/◌, ◌%◌, true, false, ◌&&◌, ◌==◌, ltb, leb, [], ◌∷◌, ◌++◌, length,
  drop, replicate, if◌then◌else◌, Text, Result, ok, err, require, ◌>>◌, unprocessable,
  invalid_value,
}

-- The decimal digits of a number, least fuel first: one unit for each digit.
unfoldable pub digits : ℕ → ℕ → Text
digits zero n = []
digits (suc fuel) n = elim (ltb n 10) [
  | true ↦ (b'0' + n) ∷ []
  | false ↦ digits fuel (n / 10) ++ (b'0' + n % 10) ∷ []
]

-- `BigInt.prototype.toString`: a number has no more digits than it counts, and one.
unfoldable pub print : ℕ → Text
print n = digits (suc n) n

-- `BigInt(text)` on decimal digits; another character is a `SyntaxError`, no text is 0.
unfoldable pub parse_from : ℕ → Text → Result ℕ
parse_from acc [] = ok acc
parse_from acc (c ∷ t) = elim (leb b'0' c && leb c b'9') [
  | true ↦ parse_from (acc * 10 + (c - b'0')) t
  | false ↦ err invalid_value
]

unfoldable pub parse : Text → Result ℕ
parse t = parse_from 0 t

-- `split(".")`: the part before the first point, and what follows it up to the next.
unfoldable pub before_point : Text → Text
before_point [] = []
before_point (c ∷ t) = if c == b'.' then [] else c ∷ before_point t

unfoldable pub after_point : Text → Text
after_point [] = []
after_point (c ∷ t) = if c == b'.' then before_point t else after_point t

-- `padEnd(n, "0")` and `padStart(n, "0")`
unfoldable pub pad_end : ℕ → Text → Text
pad_end n t = t ++ replicate (n - length t) b'0'

unfoldable pub pad_start : ℕ → Text → Text
pad_start n t = replicate (n - length t) b'0' ++ t

-- `toBaseUnits`
unfoldable pub to_base_units : Text → ℕ → Result ℕ
to_base_units amount decimals = do
  require (leb (length (after_point amount)) decimals) unprocessable
  parse (before_point amount ++ pad_end decimals (after_point amount))

unfoldable pub take_front : ℕ → Text → Text
take_front zero t = []
take_front (suc n) [] = []
take_front (suc n) (c ∷ t) = c ∷ take_front n t

-- `replace(/0+$/, "")`
unfoldable pub strip_zeros : Text → Text
strip_zeros [] = []
strip_zeros (c ∷ t) = elim (strip_zeros t) [
  | [] ↦ if c == b'0' then [] else c ∷ []
  | d ∷ u ↦ c ∷ d ∷ u
]

abbrev pub with_point : Text → Text → Text
with_point whole [] = whole
with_point whole (c ∷ t) = whole ++ b'.' ∷ c ∷ t

-- `fromBaseUnits`
unfoldable pub from_base_units : ℕ → ℕ → Text
from_base_units value zero = print value
from_base_units value (suc d) =
    let text = pad_start (suc d + 1) (print value) in
    with_point (take_front (length text - suc d) text)
      (strip_zeros (drop (length text - suc d) text))
