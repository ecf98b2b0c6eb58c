-- ===== src/Wallets/Guard.antt =====
-- apps/api/src/modules/wallets/callback-guard.ts: which contact may be dialled to confirm a wallet.
use securtxn.Prelude.{
  ℕ, Bool, false, not, ◌||◌, Option, none, some, List, [], ◌∷◌, ◌++◌, Text, codes, text_eq, filled,
  filter, is_space, one_of, ltb,
}
use securtxn.Store.Rows.{Vendor, VendorWallet}
use securtxn.Store.Queries.{first}

pub data ContactSource : Type 0 where
  registry_lookup digilocker_verified_mobile : ContactSource

pub record IndependentContact : Type 0 where
  pub value : Text
  pub source : ContactSource

-- Why a channel is refused; the source has a sentence for each.
pub data Refusal : Type 0 where
  no_contact no_match recorded_after_wallet : Refusal

pub data CallbackCheck : Type 0 where
  allowed : IndependentContact → CallbackCheck
  refused : Refusal → CallbackCheck

-- `/[\s()\-.]/g`
abbrev pub is_separator : ℕ → Bool
is_separator c = is_space c || one_of c (codes "()-.")

unfoldable pub canonical : Text → Text
canonical phone = filter (λ c. not (is_separator c)) phone

abbrev pub contact_of : ContactSource → Option Text → List IndependentContact
contact_of source none = []
contact_of source (some value) = record { value = value; source = source } ∷ []

-- `a && b` on two nullable values: the first where the second is there.
abbrev pub provided : Option Text → Option ℕ → Option Text
provided o none = none
provided o (some _) = o

unfoldable pub independent_contacts_for : Vendor → Option Text → List IndependentContact
independent_contacts_for vendor decrypted_verified_phone =
    contact_of registry_lookup (filled vendor.registry_verified_contact)
    ++ contact_of digilocker_verified_mobile
        (provided (filled decrypted_verified_phone) vendor.verified_phone_at)

abbrev pub after : Option ℕ → ℕ → Bool
after none t = false
after (some s) t = ltb t s

-- Recorded after the wallet was submitted, which counts for a DigiLocker mobile only.
abbrev pub too_recent : ContactSource → Vendor → VendorWallet → Bool
too_recent registry_lookup vendor wallet = false
too_recent digilocker_verified_mobile vendor wallet =
    after vendor.verified_phone_at wallet.created_at

abbrev pub refuse_recent : Bool → IndependentContact → CallbackCheck
refuse_recent Bool.true contact = refused recorded_after_wallet
refuse_recent Bool.false contact = allowed contact

abbrev pub judge : Vendor → VendorWallet → Option IndependentContact → CallbackCheck
judge vendor wallet none = refused no_match
judge vendor wallet (some contact) = refuse_recent (too_recent contact.source vendor wallet) contact

abbrev pub check_among : Vendor → VendorWallet → Text → List IndependentContact → CallbackCheck
check_among vendor wallet channel_used [] = refused no_contact
check_among vendor wallet channel_used (c ∷ cs) =
    judge vendor wallet
      (first (λ contact. text_eq (canonical contact.value) (canonical channel_used)) (c ∷ cs))

unfoldable pub check_callback_channel : Vendor → VendorWallet → Text → Option Text → CallbackCheck
check_callback_channel vendor wallet channel_used decrypted_verified_phone =
    check_among vendor wallet channel_used
      (independent_contacts_for vendor decrypted_verified_phone)
