-- ===== src/Challenge.antt =====
-- apps/api/src/modules/consent/challenge.ts: when the payee has to prove to be the enrolled human.
-- Times are milliseconds since the epoch; a `Date` that is null is `none`.
pub mod Laws
mod Tests
use securtxn.Prelude.{
  ℕ, ◌+◌, ◌*◌, Bool, true, false, not, Option, none, some, List, [], ◌∷◌, ◌++◌, if◌then◌else◌, leb,
}
use securtxn.Decision.{exceeds}

pub data ChallengeTrigger : Type 0 where
  first_payment_from_sender above_tier_ceiling wallet_recently_rotated selfie_check_stale
        recent_identity_mismatch not_enrolled :
      ChallengeTrigger

abbrev pub selfie_check_window_days : ℕ
selfie_check_window_days = 90

abbrev pub wallet_rotation_window_days : ℕ
wallet_rotation_window_days = 7

abbrev pub mismatch_window_days : ℕ
mismatch_window_days = 30

abbrev pub day_ms : ℕ
day_ms = 86_400_000

pub record ChallengeInput : Type 0 where
  pub now : ℕ
  pub has_prior_settled_payment : Bool
  pub amount : ℕ
  pub tier_ceiling : Option ℕ
  pub wallet_confirmed_at : Option ℕ
  pub last_selfie_check_at : Option ℕ
  pub last_identity_mismatch_at : Option ℕ

pub record ChallengeAssessment : Type 0 where
  pub required : Bool
  pub triggers : List ChallengeTrigger

-- `now - then <= days * DAY_MS`. The difference is signed, so a time ahead of `now` is within.
abbrev pub within : ℕ → Option ℕ → ℕ → Bool
within now none days = false
within now (some t) days = leb now (t + days * day_ms)

abbrev push_if : Bool → ChallengeTrigger → List ChallengeTrigger
push_if b t = if b then t ∷ [] else []

abbrev selfie_triggers : ChallengeInput → List ChallengeTrigger
selfie_triggers i = elim i.last_selfie_check_at [
  | none ↦ not_enrolled ∷ []
  | some t ↦ push_if (not (within i.now (some t) selfie_check_window_days)) selfie_check_stale
]

abbrev triggers_of : ChallengeInput → List ChallengeTrigger
triggers_of i =
    push_if (not i.has_prior_settled_payment) first_payment_from_sender
    ++ (push_if (exceeds i.amount i.tier_ceiling) above_tier_ceiling
        ++ (push_if (within i.now i.wallet_confirmed_at wallet_rotation_window_days)
              wallet_recently_rotated
            ++ (selfie_triggers i
                ++ push_if (within i.now i.last_identity_mismatch_at mismatch_window_days)
                    recent_identity_mismatch)))

abbrev is_empty : List ChallengeTrigger → Bool
is_empty [] = true
is_empty (_ ∷ _) = false

unfoldable pub assess_payee_challenge : ChallengeInput → ChallengeAssessment
assess_payee_challenge i = record {
  required = not (is_empty (triggers_of i));
  triggers = triggers_of i;
}
