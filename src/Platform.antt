-- ===== src/Platform.antt =====
-- What the services call and do not implement: the JavaScript runtime's dates, decimal.js, zod's
-- string formats, viem's hashing, encoding and signature recovery, node's crypto. Every operation
-- takes such a platform as an argument.
use securtxn.Prelude.{ℕ, Bool, List, Text}

-- An EIP-712 message: its primary type and its fields in the order of the struct.
pub record TypedData : Type 0 where
  pub primary_type : Text
  pub fields : List (Text × Text)

-- The parameters of `computeLockId` (packages/contracts/src/htlc/client.ts).
pub record LockParams : Type 0 where
  pub payment_ref : Text
  pub payer : Text
  pub payee : Text
  pub token : Text
  pub amount : ℕ
  pub hashlock : Text
  pub timelock : ℕ

pub record Platform : Type 0 where
  -- viem's `keccak256` and `toHex`, hex text to hex text
  pub keccak256 : Text → Text
  pub to_hex : Text → Text
  -- viem's `encodeAbiParameters` at the seven types of a lock
  pub encode_lock : LockParams → Text
  -- viem's `verifyTypedData` in the domain of a chain id: address, message, signature
  pub verify_typed_data : ℕ → Text → TypedData → Text → Bool
  -- `Date.prototype.toISOString`, on milliseconds
  pub to_iso_string : ℕ → Text
  -- decimal.js `toString`, on units of 10⁻¹⁸
  pub decimal_text : ℕ → Text
  -- zod's `.uuid()` and `.datetime()`
  pub is_uuid : Text → Bool
  pub is_datetime : Text → Bool
  -- lib/crypto.ts `hmac` under the configured pepper, and sha256 in hex, both node's
  pub hmac : Text → Text
  pub sha256 : Text → Text
  -- `value.normalize("NFKC").toLowerCase()`
  pub fold_text : Text → Text
  -- `String.prototype.toUpperCase`
  pub to_upper : Text → Text
  -- whether the database returns rows of one `createdAt` in the order in which they were written,
  -- or in the opposite one: `orderBy` leaves it open
  pub ties_as_written : Bool
