-- ===== src/Consent/Checks.antt =====
-- apps/api/src/modules/consent/service.ts: the World ID checks of the two parties, and what the
-- challenge rules read.
use securtxn.Prelude.{
  ℕ, Bool, true, false, not, ◌&&◌, ◌||◌, ◌==◌, Option, none, some, ◌++◌, Text, codes, text_eq, any,
  filter, if◌then◌else◌, Result, ok, require, present, ◌>>=◌, ◌>>◌, unprocessable, forbidden,
  not_found,
}
use mathlib.Core.Option
use securtxn.Types.{PaymentStatus, sent, confirmed_on_chain, is_status, NotificationKind}
use securtxn.Deps.{Deps}
use securtxn.Challenge.{ChallengeAssessment, assess_payee_challenge}
use securtxn.Store.Rows.{
  PaymentRequest, WorldIdVerification, WorldIdPurpose, enrollment, reverification, Db,
}
use securtxn.Store.Queries.{find, find_vendor, find_wallet, newest, oldest}
use securtxn.Evidence.Payload.{EvidenceEvent, world_id_check, sender, payee}

unfoldable pub sender_signal : Text → Text
sender_signal payment_id = codes "sender:" ++ payment_id

unfoldable pub payee_signal : Text → Text
payee_signal payment_id = codes "payee:" ++ payment_id

abbrev pub is_reverification : WorldIdPurpose → Bool
is_reverification reverification = true
is_reverification enrollment = false

abbrev purpose_text : WorldIdPurpose → Text
purpose_text enrollment = codes "ENROLLMENT"
purpose_text reverification = codes "REVERIFICATION"

-- `matchesEnrolment`: the first enrolment of the subject has this nullifier.
unfoldable pub matches_enrolment : Text → ℕ → Db → Bool
matches_enrolment subject nullifier db =
    elim (oldest (λ v. v.verified_at)
      (filter (λ v. text_eq v.subject subject && not (is_reverification v.purpose))
        db.world_id_verifications)) [ none ↦ false | some e ↦ e.nullifier == nullifier ]

-- The query of `requireSenderCheck`.
unfoldable pub sender_check_of : Text → Text → Db → Option WorldIdVerification
sender_check_of payer payment_id db =
    newest (λ v. v.verified_at)
      (filter
        (λ v.
          text_eq v.subject payer
          && (text_eq v.signal (sender_signal payment_id) && is_reverification v.purpose))
        db.world_id_verifications)

-- `requireSenderCheck` (P2): no check at all where World ID is switched off.
unfoldable pub require_sender_check : Deps → Text → Text → Db → Result (Option EvidenceEvent)
require_sender_check deps payer payment_id db =
    if not deps.world_feature_flag_enabled
    then ok none
    else (present (sender_check_of payer payment_id db) unprocessable >>= λ check. ok (
        some (
          world_id_check check.id (purpose_text check.purpose) check.credential sender
            (matches_enrolment payer check.nullifier db))))

-- `requireWorldIdCheck` (P5)
unfoldable pub require_world_id_check : Text → Text → Option Text → Db → Result EvidenceEvent
require_world_id_check payee_vendor_id payment_id verification_id db = do
  id ← present verification_id unprocessable
  v ← present (find (λ v. v.id) id db.world_id_verifications) not_found
  require (text_eq v.signal (payee_signal payment_id)) forbidden
  require (is_reverification v.purpose) forbidden
  require (text_eq v.subject payee_vendor_id) forbidden
  ok (
      world_id_check v.id (purpose_text v.purpose) v.credential payee
        (matches_enrolment payee_vendor_id v.nullifier db))

abbrev pub is_settled : PaymentStatus → Bool
is_settled s = is_status s sent || is_status s confirmed_on_chain

abbrev same_payer : Text → Option Text → Bool
same_payer payer none = false
same_payer payer (some q) = text_eq q payer

abbrev has_prior_settled : PaymentRequest → Db → Bool
has_prior_settled p db = elim p.payer_vendor_id [
  | none ↦ false
  | some payer ↦
      any
        (λ q.
          text_eq q.vendor_id p.vendor_id
          && (same_payer payer q.payer_vendor_id
              && (not (text_eq q.id p.id) && is_settled q.status)))
        db.payment_requests
]

abbrev is_mismatch : NotificationKind → Bool
is_mismatch NotificationKind.identity_mismatch = true
is_mismatch _ = false

-- `assess`
unfoldable pub assess : Deps → ℕ → PaymentRequest → Db → Result ChallengeAssessment
assess deps now p db = do
  vendor ← find_vendor p.vendor_id db
  wallet ← find_wallet p.vendor_wallet_id db
  ok (
      assess_payee_challenge (record {
        now = now;
        has_prior_settled_payment = has_prior_settled p db;
        amount = p.amount;
        tier_ceiling = deps.tier_thresholds vendor.verification_tier;
        wallet_confirmed_at = wallet.confirmed_at;
        last_selfie_check_at =
            Option.map (λ v. v.verified_at)
              (newest (λ v. v.verified_at)
                (filter (λ v. text_eq v.subject p.vendor_id) db.world_id_verifications));
        last_identity_mismatch_at =
            Option.map (λ n. n.created_at)
              (newest (λ n. n.created_at)
                (filter (λ n. text_eq n.vendor_id p.vendor_id && is_mismatch n.kind)
                  db.notifications));
      }))
