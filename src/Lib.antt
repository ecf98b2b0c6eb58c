-- ===== src/Lib.antt =====
-- Confirmed Payee and Exception Desk: the onboarding and the payment services of the API, modelled
-- and verified.
--
-- A vendor is created with a nonce (apps/api/src/modules/vendors), completes an identity session
-- whose documents are compared (modules/identity), registers a wallet, proves control of it and
-- signs the identity binding, and the wallet is confirmed by a call to an independent contact, which
-- mints a credential that can be granted on the chain (modules/wallets). A payer's claim about the
-- vendor is matched in an enclave that answers by a callback (modules/vendorMatch).
--
-- A payment is created as a draft (apps/api/src/modules/payments), its payee is asked and answers
-- with a signature (modules/consent), the decision engine rules on it (modules/decision, with the
-- matcher of packages/cre-workflows), an approver proposes and sends it (modules/approvals) or the
-- treasury releases it directly or through a hash time lock (modules/payments/settle.ts), and the
-- payee acknowledges or claims it, or it is refunded and becomes an exception (modules/exceptions).
-- Every step appends to the payment's evidence chain, whose records are anchored in batches by the
-- root of a Merkle tree (modules/evidence).
--
-- Prelude          texts, lists, results with errors; what the other files share
-- Types            the closed vocabularies of packages/shared-types
-- Decision         modules/decision: decide, recommendSettlementMode
-- Challenge        modules/consent/challenge.ts: when a payee has to prove liveness
-- Json             lib/canonical-json.ts
-- Platform, Deps   what the services call and are constructed with: both are parameters
-- Evidence         payloads and schemas, the hash chain, append, retries, access records
-- Merkle           trees over record hashes and proofs of inclusion
-- Anchor           modules/evidence/anchor.ts: run, verify, proofFor, and the published message
-- Store            the rows of the Prisma schema and the queries on them
-- Eip712, Htlc     the messages that are signed, and the hashes of an escrow
-- Exceptions       cases and their playbooks
-- Consent          request and decide, with the World ID checks
-- WorldId          modules/worldid: acceptance of a proof, the nullifier, the verifier's answer
-- Vendors          modules/vendors, and the lookup of the approval bridge
-- Identity         modules/identity: startSession, complete, the checks and their normalisation
-- Wallets          modules/wallets with lib/vc.ts: registration, proofs, guard, confirmation, grant
-- Onboarding       the steps of those services, and what holds of all reached databases
-- VendorMatch      modules/vendorMatch: the request table, the callback, the matcher that polls
-- Matching         the match rule; EntityName: the canonical form of a legal name
-- Payments         create, runDecision, acknowledge
-- Approvals        propose, listPending, reportSent
-- Settlement       recordLock, recordClaim, recordRefund
-- Settle           settle, releaseSecret, executeRefund, sweepRefunds
-- Lifecycle        what every operation preserves, and what holds of all reached databases
-- Sample           a small world: a vendor is onboarded, a payment created, settled and claimed
--
-- An operation is a function from a database and a time to a result: an error, which stands for
-- the exception and leaves the database as it is, or what is returned and the database after it. A
-- transaction is one such function. The release and the refund of funds also return what was
-- broadcast before the result. Ids that the database chooses, the secret that is drawn and the
-- answers of the chain, the matcher, the screener and the compliance gateway are arguments, so a
-- theorem holds for all of them. Hashing, signature recovery, dates and decimal printing are the
-- functions of a platform. Amounts count units of 10^-18 and times milliseconds; neither is bounded
-- here, while a column holds 20 digits before the point. appendStandalone tries at most three times,
-- as its constant says, and the mirror of an anchor is read at most three times; printing a number
-- takes one unit of fuel for each digit and is given one more than the number, and a Merkle tree
-- takes at most one level for each leaf. The matcher polls until its deadline; the times of its polls
-- are an argument, and where they grow, one poll more than the timeout has milliseconds is enough.
--
-- `orderBy: createdAt` leaves the order of equal times open: for the evidence chain it is a parameter
-- of the platform, elsewhere rows of one time stand in the order of the table or of their insertion.
-- A call of a gateway that throws may have sent its transaction: whether it had is a parameter too.
--
-- Requests run one after another: what two open transactions see of each other is modelled only
-- where appendStandalone retries. The three identity checks, the guard of the callback and the
-- verifier's answer are modelled on parsed values. Not modelled: the XML parsers and their
-- signatures, the HTTP clients and routes, encryption at rest, the securities service beyond its
-- base units, and the user interface.
pub mod Prelude
pub mod Types
pub mod Decision
pub mod Challenge
pub mod Json
pub mod Platform
pub mod Evidence
pub mod Store
pub mod Deps
pub mod Eip712
pub mod Exceptions
pub mod Htlc
pub mod Consent
pub mod Matching
pub mod EntityName
pub mod Payments
pub mod Approvals
pub mod Settlement
pub mod Lifecycle
pub mod Settle
pub mod Wallets
pub mod Anchor
pub mod WorldId
pub mod VendorMatch
pub mod Identity
pub mod Vendors
pub mod Onboarding
pub mod Sample
pub mod Merkle
