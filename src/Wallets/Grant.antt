-- ===== src/Wallets/Grant.antt =====
-- apps/api/src/modules/wallets/service.ts: the credential as it is read, and the grant of KYC on the
-- chain. The compliance gateway is a parameter; a granting carries what was asked of it.
use securtxn.Prelude.{
  ℕ, Bool, not, Option, none, some, List, [], ◌∷◌, Text, text_eq, filled, lower, is_some, Result,
  ok, err, require, present, ◌>>=◌, ◌>>◌, unprocessable, conflict, not_found,
}
use mathlib.Core.Option
use securtxn.Types.{is_confirmed}
use securtxn.Deps.{OnboardingDeps}
use securtxn.Store.Rows.{CredentialClaims, VerifiableCredential, Db}
use securtxn.Store.Queries.{first, put}
use securtxn.Wallets.{require_pair}
use securtxn.Wallets.Credential.{is_usable}

pub record CredentialResponse : Type 0 where
  pub credential_id : Text
  pub subject_address : Text
  pub claims : CredentialClaims
  pub signature : Text
  pub issuer_address : Text
  pub issued_at : Text
  pub expires_at : Option Text
  pub revoked_at : Option Text
  pub granted_tx_hash : Option Text
  pub usable : Bool

-- `findUnique` by the wallet, which is unique.
unfoldable pub find_credential : Text → Db → Result VerifiableCredential
find_credential wallet_id db =
    present (first (λ c. text_eq c.wallet_id wallet_id) db.verifiable_credentials) not_found

unfoldable pub get_credential : OnboardingDeps → ℕ → Text → Text → Db → Result CredentialResponse
get_credential deps now vendor_id wallet_id db = require_pair vendor_id wallet_id db >>= λ _.
    find_credential wallet_id db >>= λ c. ok (record {
      credential_id = c.id;
      subject_address = c.subject_address;
      claims = c.claims;
      signature = c.signature;
      issuer_address = c.issuer_address;
      issued_at = deps.platform.to_iso_string c.issued_at;
      expires_at = Option.map deps.platform.to_iso_string c.expires_at;
      revoked_at = Option.map deps.platform.to_iso_string c.revoked_at;
      granted_tx_hash = c.granted_tx_hash;
      usable = is_usable c now;
    })

pub record GrantKycInput : Type 0 where
  pub security_id : Text
  pub account : Text
  pub vc_id : Text
  pub valid_from : ℕ
  pub valid_to : Option ℕ

pub record ComplianceResult : Type 0 where
  pub tx_hash : Option Text
  pub broadcast : Bool

pub record GrantGateway : Type 0 where
  pub grant_kyc : GrantKycInput → Result ComplianceResult
  pub issuer_address : Text

pub record GrantResponse : Type 0 where
  pub tx_hash : Option Text
  pub broadcast : Bool
  pub credential_id : Text
  pub security_id : Text

abbrev kyc_input : Text → Text → VerifiableCredential → GrantKycInput
kyc_input security account c = record {
  security_id = security;
  account = account;
  vc_id = c.id;
  valid_from = c.issued_at;
  valid_to = c.expires_at;
}

-- Every guard of `grantOnChainKyc`, and what it then asks of the gateway.
unfoldable pub plan_grant :
    OnboardingDeps
    → GrantGateway
    → ℕ
    → Text
    → Text
    → Db
    → Result (VerifiableCredential × GrantKycInput)
plan_grant deps gateway now vendor_id wallet_id db = require_pair vendor_id wallet_id db >>= λ pair.
    let wallet = pair.1 in
    require (is_confirmed wallet.status) unprocessable
    >> (present (filled deps.ats_security_id) unprocessable >>= λ security.
        find_credential wallet_id db >>= λ c.
        require (is_usable c now) unprocessable
        >> (require (not (is_some (filled c.granted_tx_hash))) conflict
            >> (require (text_eq (lower c.issuer_address) (lower gateway.issuer_address))
                  unprocessable
                >> ok (c, kyc_input security wallet.address c))))

-- The hash is written only where there is one.
unfoldable pub write_grant : VerifiableCredential → Option Text → Db → Db
write_grant c none db = db
write_grant c (some tx) db = record db {
  verifiable_credentials =
      put (λ d. d.id) (record c { granted_tx_hash = some tx }) db.verifiable_credentials;
}

pub record Granting : Type 0 where
  pub asked : List GrantKycInput
  pub result : Result (GrantResponse × Db)

abbrev grant_response : ComplianceResult → VerifiableCredential → GrantKycInput → GrantResponse
grant_response answer c i = record {
  tx_hash = answer.tx_hash;
  broadcast = answer.broadcast;
  credential_id = c.id;
  security_id = i.security_id;
}

abbrev pub ask :
    GrantGateway → Db → VerifiableCredential → GrantKycInput → Result (GrantResponse × Db)
ask gateway db c i = gateway.grant_kyc i >>= λ answer.
    ok (grant_response answer c i, write_grant c (filled answer.tx_hash) db)

abbrev pub carry_out_grant :
    GrantGateway → Db → Result (VerifiableCredential × GrantKycInput) → Granting
carry_out_grant gateway db (err e) = record { asked = []; result = err e }
carry_out_grant gateway db (ok (c, i)) = record { asked = i ∷ []; result = ask gateway db c i }

unfoldable pub grant_on_chain_kyc : OnboardingDeps → GrantGateway → ℕ → Text → Text → Db → Granting
grant_on_chain_kyc deps gateway now vendor_id wallet_id db =
    carry_out_grant gateway db (plan_grant deps gateway now vendor_id wallet_id db)
