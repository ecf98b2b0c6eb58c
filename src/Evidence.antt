-- ===== src/Evidence.antt =====
-- packages/shared-types/src/evidence.ts and apps/api/src/modules/evidence: the payloads, their
-- schemas, and the hash chain. A timestamp is the ISO text that goes into the payload.
pub mod Payload
pub mod Chain
pub mod Service
