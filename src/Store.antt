-- ===== src/Store.antt =====
-- apps/api/prisma/schema.prisma: the rows that the services read and write, and the queries
-- on them. A relation that the schema makes unique for a payment (consent, proposal, approval,
-- escrow, acknowledgment, case) is an optional field of the payment; its evidence is a list in the
-- order of insertion, each record with its `createdAt`. Ids are opaque texts, times are
-- milliseconds, amounts units of 10⁻¹⁸. What no modelled operation reads is left out.
pub mod Rows
pub mod Queries
