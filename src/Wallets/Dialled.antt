-- ===== src/Wallets/Dialled.antt =====
-- apps/api/src/modules/wallets/callback-guard.ts: what it means to dial a contact on file.
use securtxn.Prelude.{
  ℕ, ◌≤◌, ◌≡◌, refl, sym, ◌∙◌, true, false, ◌⊎◌, inl, inr, Option, none, some, [], ◌∷◌, Text, codes,
  is_space, one_of, is_some, arith, Bool-cases,
}
use securtxn.Store.Rows.{Vendor, VendorWallet}
use securtxn.Wallets.Guard.{
  ContactSource, registry_lookup, digilocker_verified_mobile, canonical, is_separator, after,
}

-- White space, a parenthesis, a dash or a dot.
abbrev pub Separator : ℕ → Type 0
Separator c = (is_space c ≡ true) ⊎ (one_of c (codes "()-.") ≡ true)

-- Two numbers that are one but for separators.
pub data Alike : Text → Text → Type 0 where
  ended : Alike [] []
  left_skips : {c : ℕ} {a b : Text} → Separator c → Alike a b → Alike (c ∷ a) b
  right_skips : {c : ℕ} {a b : Text} → Separator c → Alike a b → Alike a (c ∷ b)
  shares : {c d : ℕ} {a b : Text} → c ≡ d → Alike a b → Alike (c ∷ a) (d ∷ b)

is_separator-Separator : (c : ℕ) → is_separator c ≡ true → Separator c
is_separator-Separator c h = elim (Bool-cases (is_space c)) [
  | inl space ↦ inl space
  | inr solid ↦ inr (ground arith)
]

head_eq : (c d : ℕ) (a b : Text) → c ∷ a ≡ d ∷ b → c ≡ d
head_eq c d a b h = cc

tail_eq : (c d : ℕ) (a b : Text) → c ∷ a ≡ d ∷ b → a ≡ b
tail_eq c d a b h = cc

canonical_of_separator :
    (c : ℕ) (t : Text) → is_separator c ≡ true → canonical (c ∷ t) ≡ canonical t
unfolding canonical
canonical_of_separator c t h = rw h refl

canonical_of_solid :
    (c : ℕ) (t : Text) → is_separator c ≡ false → canonical (c ∷ t) ≡ c ∷ canonical t
unfolding canonical
canonical_of_solid c t h = rw h refl

nothing-Alike : (b : Text) → [] ≡ canonical b → Alike [] b
nothing-Alike [] h = ended
nothing-Alike (d ∷ b) h = elim (Bool-cases (is_separator d)) [
  | inl separator ↦
      right_skips (is_separator-Separator d separator)
        (nothing-Alike b (h ∙ canonical_of_separator d b separator))
  | inr solid ↦ cc (h ∙ canonical_of_solid d b solid)
]

-- The first unit stands, and the rest is dealt with for every other number.
solid-Alike :
    (c : ℕ) (a b : Text)
    → ((b' : Text) → canonical a ≡ canonical b' → Alike a b')
    → c ∷ canonical a ≡ canonical b
    → Alike (c ∷ a) b
unfolding canonical
solid-Alike c a [] k h = cc
solid-Alike c a (d ∷ b) k h = elim (Bool-cases (is_separator d)) [
  | inl separator ↦
      right_skips (is_separator-Separator d separator)
        (solid-Alike c a b k (h ∙ canonical_of_separator d b separator))
  | inr solid ↦
      let same : c ∷ canonical a ≡ d ∷ canonical b = h ∙ canonical_of_solid d b solid in
      shares (head_eq c d _ _ same) (k b (tail_eq c d _ _ same))
]

pub canonical-Alike : (a b : Text) → canonical a ≡ canonical b → Alike a b
unfolding canonical
canonical-Alike [] b h = nothing-Alike b h
canonical-Alike (c ∷ a) b h = elim (Bool-cases (is_separator c)) [
  | inl separator ↦
      left_skips (is_separator-Separator c separator)
        (canonical-Alike a b (sym (canonical_of_separator c a separator) ∙ h))
  | inr solid ↦
      solid-Alike c a b (λ b' e. canonical-Alike a b' e) (sym (canonical_of_solid c a solid) ∙ h)
]

-- What the source of a contact asks of the time at which it was recorded.
abbrev pub InTime : ContactSource → Vendor → VendorWallet → Type 0
InTime registry_lookup v w = Unit {0}
InTime digilocker_verified_mobile v w =
    (t : ℕ) × (v.verified_phone_at ≡ some t) × (t ≤ w.created_at)

pub mobile-InTime :
    (o : Option ℕ) (t : ℕ) → is_some o ≡ true → after o t ≡ false → (s : ℕ) × (o ≡ some s) × (s ≤ t)
mobile-InTime none t h late = cc
mobile-InTime (some s) t h late = (s, refl, ground arith)
