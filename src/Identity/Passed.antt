-- ===== src/Identity/Passed.antt =====
-- apps/api/src/modules/identity/checks: what documents that pass the four checks have in common.
use securtxn.Prelude.{ℕ, ◌<◌, true, ◌≡◌, Option, some, Text, trim, lower}
use mathlib.Core.Option
use securtxn.Platform.{Platform}
use securtxn.Identity.Dates.{DateRuntime}
use securtxn.Identity.Checks.{extract_user_id_from_txn}
use securtxn.Identity.Agreed.{Agreeing}
use securtxn.Identity.{IdentityCheckInput, fetch_identity}

-- What documents that pass have in common.
pub record Passed (pf : Platform) (dates : DateRuntime) (now : ℕ) (i : IdentityCheckInput)
    : Type 0 where
  pub signed : (i.aadhaar_signature ≡ true) × (i.pan_signature ≡ true)
  pub agreeing : Agreeing pf dates i.aadhaar i.pan i.profile
  pub one_account :
      (t : Text) × (extract_user_id_from_txn i.aadhaar.txn ≡ some t)
      × (Option.map (λ u. lower (trim u)) i.pan.person_uid ≡ some t)
      × ((fetch_identity pf dates now i).provider_user_id ≡ t)
  pub deadline : (t : ℕ) × ((fetch_identity pf dates now i).ttl ≡ some t) × (now < t)
