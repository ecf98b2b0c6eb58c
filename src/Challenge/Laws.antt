-- ===== src/Challenge/Laws.antt =====
-- What each trigger of the payee's challenge means, and when none fires.
use securtxn.Prelude.{
  ℕ, ◌+◌, ◌*◌, ◌≤◌, ◌<◌, ◌≡◌, ◌↔◌, Bool, true, false, Option, none, some, arith, ◌==◌, any,
  Bool-cases, inl, inr,
}
use securtxn.Challenge.{
  ChallengeTrigger, first_payment_from_sender, above_tier_ceiling, wallet_recently_rotated,
  selfie_check_stale, recent_identity_mismatch, not_enrolled, ChallengeInput,
  assess_payee_challenge, day_ms, selfie_check_window_days, wallet_rotation_window_days,
  mismatch_window_days,
}

abbrev number : ChallengeTrigger → ℕ
number first_payment_from_sender = 0
number above_tier_ceiling = 1
number wallet_recently_rotated = 2
number selfie_check_stale = 3
number recent_identity_mismatch = 4
number not_enrolled = 5

-- Whether a trigger is among those reported.
abbrev pub fired : ChallengeTrigger → ChallengeInput → Bool
fired t i = any (λ u. number u == number t) (assess_payee_challenge i).triggers

-- A time that is known and lies at most `days` days back.
abbrev pub Recent : ℕ → Option ℕ → ℕ → Type 0
Recent now o days = (t : ℕ) × (o ≡ some t) × (now ≤ t + days * day_ms)

-- What each trigger says, in words of the input.
abbrev pub Meaning : ChallengeTrigger → ChallengeInput → Type 0
Meaning first_payment_from_sender i = i.has_prior_settled_payment ≡ false
Meaning above_tier_ceiling i = (c : ℕ) × (i.tier_ceiling ≡ some c) × (c < i.amount)
Meaning wallet_recently_rotated i = Recent i.now i.wallet_confirmed_at wallet_rotation_window_days
Meaning selfie_check_stale i =
    (t : ℕ) × (i.last_selfie_check_at ≡ some t) × (t + selfie_check_window_days * day_ms < i.now)
Meaning recent_identity_mismatch i = Recent i.now i.last_identity_mismatch_at mismatch_window_days
Meaning not_enrolled i = i.last_selfie_check_at ≡ none

-- A trigger is reported exactly when its condition holds: no settled payment between the two
-- parties, an amount above the tier's ceiling, a wallet confirmed in the last 7 days, a last selfie
-- check more than 90 days old, an identity mismatch in the last 30 days, or no check on file.
pub fired_iff : (t : ChallengeTrigger) (i : ChallengeInput) → (fired t i ≡ true) ↔ Meaning t i
unfolding assess_payee_challenge
fired_iff first_payment_from_sender i = (λ h. ground arith, λ h. ground arith)
fired_iff above_tier_ceiling i = (λ h. ground arith, λ h. ground arith)
fired_iff wallet_recently_rotated i = (λ h. ground arith, λ h. ground arith)
fired_iff selfie_check_stale i = (λ h. ground arith, λ h. ground arith)
fired_iff recent_identity_mismatch i = (λ h. ground arith, λ h. ground arith)
fired_iff not_enrolled i = (λ h. ground arith, λ h. ground arith)

fired_needs_required :
    (t : ChallengeTrigger) (i : ChallengeInput)
    → (assess_payee_challenge i).required ≡ false
    → fired t i ≡ false
unfolding assess_payee_challenge
fired_needs_required t i h = ground arith

required_of_none_fired :
    (i : ChallengeInput)
    → ((t : ChallengeTrigger) → fired t i ≡ false)
    → (assess_payee_challenge i).required ≡ false
unfolding assess_payee_challenge
required_of_none_fired i h = ground (
  arith,
  h first_payment_from_sender,
  h above_tier_ceiling,
  h wallet_recently_rotated,
  h selfie_check_stale,
  h recent_identity_mismatch,
  h not_enrolled,
)

-- The payee is let through unchallenged exactly when none of the six conditions holds.
pub required-eq-false_iff :
    (i : ChallengeInput)
    → ((assess_payee_challenge i).required ≡ false) ↔ ((t : ChallengeTrigger) → ¬ Meaning t i)
required-eq-false_iff i = (
  λ h t m. cc (fired_needs_required t i h, (fired_iff t i).1 m),
  λ none_holds. required_of_none_fired i λ t. elim (Bool-cases (fired t i)) [
    | inl hit ↦ absurd (none_holds t ((fired_iff t i).0 hit))
    | inr miss ↦ miss
  ],
)
