-- ===== src/Challenge/Tests.antt =====
-- The payee's challenge at concrete inputs.
use securtxn.Prelude.{◌≡◌, refl, ◌↔◌, true, none, some, [], ◌∷◌}
use securtxn.Challenge.{
  wallet_recently_rotated, selfie_check_stale, ChallengeInput, assess_payee_challenge, day_ms,
}
use securtxn.Prelude.{◌*◌}
use securtxn.Challenge.Laws.{fired, Meaning, fired_iff}

abbrev rotated : ChallengeInput
rotated = record {
  now = 100 * day_ms;
  has_prior_settled_payment = true;
  amount = 5;
  tier_ceiling = some 5;
  wallet_confirmed_at = some (93 * day_ms);
  last_selfie_check_at = some (9 * day_ms);
  last_identity_mismatch_at = none;
}

triggers-rotated :
    (assess_payee_challenge rotated).triggers ≡ wallet_recently_rotated ∷ selfie_check_stale ∷ []
unfolding assess_payee_challenge
triggers-rotated = refl

fired_iff_example :
    (fired wallet_recently_rotated rotated ≡ true) ↔ Meaning wallet_recently_rotated rotated
fired_iff_example = fired_iff wallet_recently_rotated rotated
