-- ===== src/Htlc.antt =====
-- packages/contracts/src/htlc/client.ts: the hashes that an escrow is made of.
use securtxn.Prelude.{Text}
use securtxn.Platform.{Platform, LockParams}

-- keccak256 of the raw secret.
unfoldable pub hashlock_for : Platform → Text → Text
hashlock_for pf preimage = pf.keccak256 preimage

unfoldable pub payment_ref_for : Platform → Text → Text
payment_ref_for pf payment_request_id = pf.keccak256 (pf.to_hex payment_request_id)

unfoldable pub compute_lock_id : Platform → LockParams → Text
compute_lock_id pf params = pf.keccak256 (pf.encode_lock params)
