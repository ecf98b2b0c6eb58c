-- ===== src/WorldId/Nullifier.antt =====
-- apps/api/src/modules/worldid/nullifier.ts
use securtxn.Prelude.{
  ltb-true, ℕ, zero, suc, ◌+◌, ◌-◌, ◌*◌, ◌^◌, ◌<◌, ◌≤◌, Bool, true, false, ◌&&◌, ◌||◌, ◌==◌, leb,
  ltb, ◌≡◌, refl, [], ◌∷◌, Text, trim, trim-solid, is_space, length, replicate, ◌++◌, All,
  if◌then◌else◌, Result, ok, require, invalid_value, ◌>>◌, arith,
}

-- `[0-9a-fA-F]`
abbrev is_hex : ℕ → Bool
is_hex c = (leb b'0' c && leb c b'9') || ((leb b'a' c && leb c b'f') || (leb b'A' c && leb c b'F'))

abbrev digit_value : ℕ → ℕ
digit_value c = if leb c b'9' then c - b'0' else if leb c b'F' then c - 55 else c - 87

abbrev all_hex : Text → Bool
all_hex [] = true
all_hex (c ∷ t) = is_hex c && all_hex t

-- `/^0x[0-9a-fA-F]{1,64}$/`
unfoldable pub is_hex_text : Text → Bool
is_hex_text (z ∷ x ∷ c ∷ t) =
    (z == b'0' && x == b'x') && (all_hex (c ∷ t) && leb (length (c ∷ t)) 64)
is_hex_text _ = false

-- `BigInt` of hex digits, on from the value of those before.
abbrev pub big_from : ℕ → Text → ℕ
big_from n [] = n
big_from n (c ∷ t) = big_from (n * 16 + digit_value c) t

unfoldable pub big_int : Text → ℕ
big_int (z ∷ x ∷ t) = big_from 0 t
big_int _ = 0

-- The decimal form is read as its number; the last guard is the source's, on `MAX`.
unfoldable pub nullifier_to_decimal : Text → Result ℕ
nullifier_to_decimal hex =
    require (is_hex_text (trim hex)) invalid_value
    >> (require (ltb (big_int (trim hex)) (2 ^ 256)) invalid_value >> ok (big_int (trim hex)))

digit_value-bound : (c : ℕ) → is_hex c ≡ true → digit_value c ≤ 15
digit_value-bound c h = ground arith

-- The largest value that `k` more digits can give.
abbrev top : ℕ → ℕ → ℕ
top n zero = n
top n (suc k) = top (n * 16 + 15) k

top_mono : (k n m : ℕ) → n ≤ m → top n k ≤ top m k
top_mono zero n m h = h
top_mono (suc k) n m h = top_mono k (n * 16 + 15) (m * 16 + 15) (omega arith)

top_self : (k n : ℕ) → n ≤ top n k
top_self zero n = omega arith
top_self (suc k) n = omega (arith, top_self k (n * 16 + 15))

all_hex-parts : (c : ℕ) (t : Text) → all_hex (c ∷ t) ≡ true → (is_hex c ≡ true) × (all_hex t ≡ true)
all_hex-parts c t h = ground arith

big_from-top : (n : ℕ) (t : Text) (k : ℕ) → all_hex t ≡ true → length t ≤ k → big_from n t ≤ top n k
big_from-top n [] k h l = top_self k n
big_from-top n (c ∷ t) zero h l = absurd (omega arith)
big_from-top n (c ∷ t) (suc k) h l =
    let (a, b) = all_hex-parts c t h in
    let step = digit_value-bound c a in
    omega (
      arith,
      big_from-top (n * 16 + digit_value c) t k b (omega arith),
      top_mono k (n * 16 + digit_value c) (n * 16 + 15) (omega arith),
    )

top-bits : top 0 64 ≡ 2 ^ 256 - 1
top-bits = refl

is_hex_text-parts :
    (z x c : ℕ) (t : Text)
    → is_hex_text (z ∷ x ∷ c ∷ t) ≡ true
    → (all_hex (c ∷ t) ≡ true) × (length (c ∷ t) ≤ 64)
unfolding is_hex_text
is_hex_text-parts z x c t h = ground arith

is_hex_text-bound : (t : Text) → is_hex_text t ≡ true → big_int t < 2 ^ 256
unfolding is_hex_text big_int
is_hex_text-bound [] h = cc
is_hex_text-bound (z ∷ []) h = cc
is_hex_text-bound (z ∷ x ∷ []) h = cc
is_hex_text-bound (z ∷ x ∷ c ∷ t) h =
    let (a, l) = is_hex_text-parts z x c t h in
    omega (arith, big_from-top 0 (c ∷ t) 64 a l, top-bits)

-- The guard on 256 bits never refuses: every text in the shape of a nullifier is accepted, and its
-- value is below 2^256.
pub nullifier_to_decimal-bound :
    (hex : Text)
    → is_hex_text (trim hex) ≡ true
    → (n : ℕ) × (nullifier_to_decimal hex ≡ ok n) × (n < 2 ^ 256)
unfolding nullifier_to_decimal
nullifier_to_decimal-bound hex h =
    let small = is_hex_text-bound (trim hex) h in
    (big_int (trim hex), rw (h, ltb-true (big_int (trim hex)) (2 ^ 256) small) refl, small)

is_hex-solid : (c : ℕ) → is_hex c ≡ true → is_space c ≡ false
is_hex-solid c h = ground arith

all_hex-solid : (t : Text) → all_hex t ≡ true → All (λ c. is_space c ≡ false) t
all_hex-solid [] h = tt
all_hex-solid (c ∷ t) h = let (a, b) = all_hex-parts c t h in (is_hex-solid c a, all_hex-solid t b)

prefix-parts : (z x c : ℕ) (t : Text) → is_hex_text (z ∷ x ∷ c ∷ t) ≡ true → (z ≡ b'0') × (x ≡ b'x')
unfolding is_hex_text
prefix-parts z x c t h = ground arith

is_hex_text-trim : (t : Text) → is_hex_text t ≡ true → trim t ≡ t
unfolding is_hex_text
is_hex_text-trim [] h = refl
is_hex_text-trim (z ∷ []) h = cc
is_hex_text-trim (z ∷ x ∷ []) h = cc
is_hex_text-trim (z ∷ x ∷ c ∷ t) h =
    let (zero_x, ex) = prefix-parts z x c t h in
    trim-solid (z ∷ x ∷ c ∷ t) (
      ground (arith, zero_x),
      (ground (arith, ex), all_hex-solid (c ∷ t) (is_hex_text-parts z x c t h).0),
    )

-- `0x`, zeros, and digits.
abbrev pub padded : ℕ → Text → Text
padded k t = b'0' ∷ b'x' ∷ (replicate k b'0' ++ t)

big_from-zeros : (k : ℕ) (t : Text) → big_from 0 (replicate k b'0' ++ t) ≡ big_from 0 t
big_from-zeros zero t = refl
big_from-zeros (suc k) t = big_from-zeros k t

-- Digits with no leading zeros and the same digits after any number of zeros, both in the shape of
-- a nullifier, are one number.
pub nullifier_to_decimal-padded :
    (k : ℕ) (t : Text)
    → is_hex_text (padded k t) ≡ true
    → is_hex_text (padded 0 t) ≡ true
    → nullifier_to_decimal (padded k t) ≡ nullifier_to_decimal (padded 0 t)
unfolding nullifier_to_decimal big_int
nullifier_to_decimal-padded k t h l =
    rw (is_hex_text-trim (padded k t) h, is_hex_text-trim (padded 0 t) l, h, l, big_from-zeros k t)
      refl
