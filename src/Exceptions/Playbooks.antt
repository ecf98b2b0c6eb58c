-- ===== src/Exceptions/Playbooks.antt =====
-- apps/api/src/modules/exceptions/playbooks.ts: the steps of each playbook.
use securtxn.Prelude.{List, [], ◌∷◌, Text, codes}
use securtxn.Types.{ExceptionType, overpay, misdirect, duplicate, wrong_asset, dispute}
use securtxn.Store.Rows.{PlaybookStep, pending}

abbrev playbooks : ExceptionType → List Text
playbooks overpay =
    codes "Confirm the overpaid amount against the invoice and the on-chain transfer"
    ∷ codes "Contact the payee on the independently verified channel on file"
    ∷ codes "Request return of the difference to the original sending address"
    ∷ codes "Confirm the return on chain and reconcile"
    ∷ []
playbooks misdirect =
    codes "Freeze further payments to this vendor wallet"
    ∷ codes "Identify the receiving address and check whether it is a known custodian"
    ∷ codes "Contact the payee on the verified channel to confirm they did not receive it"
    ∷ codes "If a custodian, open a recovery request with the exchange citing the evidence chain"
    ∷ codes "Record the outcome and decide whether to revoke the wallet"
    ∷ []
playbooks duplicate =
    codes "Identify the earlier payment and confirm both settled on chain"
    ∷ codes "Confirm the invoice reference is genuinely the same commitment"
    ∷ codes "Contact the payee on the verified channel and request return of the duplicate"
    ∷ codes "Reconcile once returned, or write off with an approver's sign-off"
    ∷ []
playbooks wrong_asset =
    codes "Confirm which asset and network actually received the funds"
    ∷ codes "Check whether the payee controls that address on that network"
    ∷ codes "Arrange a return or a re-send in the correct asset"
    ∷ codes "Correct the vendor wallet's token contract on file"
    ∷ []
playbooks dispute =
    codes "Retrieve the evidence chain and verify it end to end"
    ∷ codes "Retrieve the signed identity attestation and any recipient acknowledgment"
    ∷ codes "Contact the payee on the verified channel and record their account"
    ∷ codes "Decide the outcome on the evidence and record the reasoning"
    ∷ []

abbrev fresh : List Text → List PlaybookStep
fresh [] = []
fresh (t ∷ ts) = record { step = t; status = pending } ∷ fresh ts

-- Every step starts PENDING.
unfoldable pub playbook_for : ExceptionType → List PlaybookStep
playbook_for type = fresh (playbooks type)
