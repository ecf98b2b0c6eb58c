-- ===== src/Matching/Laws.antt =====
-- When a match is reported, and what a refusal gives away.
use Prim.Native.Nat.{bit_or, bit_xor}
use mathlib.Core.Path.{subst}
use securtxn.Prelude.{
  ◌⊎◌, ap, ◌||◌, or_else, ℕ, ◌≡◌, ◌↔◌, ◌≢◌, refl, true, false, none, some, Option, List, [], ◌∷◌,
  Text, text_eq_iff, any, length, arith, lower, bit_or-eq-zero, bit_xor-eq-zero, bit_xor_self,
  Bool-cases, inl, inr,
}
use securtxn.Matching.{
  VendorMatchInput, VendorRecord, WalletOnFile, evaluate_match, digests_equal, diff_from,
  wallet_agrees, token_agrees,
}

-- The two digests are there, not empty, and the same.
abbrev pub SameDigest : Text → Option Text → Type 0
SameDigest a none = ⊥
SameDigest a (some b) = (a ≡ b) × (a ≢ [])

diff_from-eq-zero :
    (d : ℕ) (a b : Text) → length a ≡ length b → diff_from d a b ≡ 0 → (d ≡ 0) × (a ≡ b)
unfolding diff_from
diff_from-eq-zero d [] [] l h = (h, refl)
diff_from-eq-zero d [] (y ∷ b) l h = absurd (omega arith)
diff_from-eq-zero d (x ∷ a) [] l h = absurd (omega arith)
diff_from-eq-zero d (x ∷ a) (y ∷ b) l h =
    let (here, rest) = diff_from-eq-zero (bit_or d (bit_xor x y)) a b (omega arith) h in
    let (so_far, same) = bit_or-eq-zero d (bit_xor x y) here in
    (so_far, cc (bit_xor-eq-zero x y same))

diff_from_self : (a : Text) → diff_from 0 a a ≡ 0
unfolding diff_from
diff_from_self [] = refl
diff_from_self (x ∷ a) = rw (bit_xor_self x) (diff_from_self a)

digests_equal_self : (a : Text) → a ≢ [] → digests_equal (some a) (some a) ≡ true
unfolding digests_equal
digests_equal_self [] h = absurd (h refl)
digests_equal_self (x ∷ a) h = ground (arith, diff_from_self (x ∷ a))

-- The loop over the code units decides equality: `digestsEqual` accepts exactly two equal digests
-- that are there and not empty.
pub digests_equal_iff :
    (a : Text) (b : Option Text) → (digests_equal (some a) b ≡ true) ↔ SameDigest a b
unfolding digests_equal
digests_equal_iff a none = (λ h. cc, λ h. absurd h)
digests_equal_iff [] (some b) = (λ h. cc, λ h. absurd (h.1 refl))
digests_equal_iff (x ∷ a) (some []) = (λ h. cc, λ h. absurd (h.1 (ground arith)))
digests_equal_iff (x ∷ a) (some (y ∷ b)) = (
  λ h. ((diff_from-eq-zero 0 (x ∷ a) (y ∷ b) (ground arith) (ground arith)).1, λ e. cc),
  λ h.
      subst (λ c. digests_equal (some (x ∷ a)) (some c) ≡ true) h.0
        (digests_equal_self (x ∷ a) h.1),
)

abbrev pub Any : {A : Type 0} → (A → Type 0) → List A → Type 0
Any P [] = ⊥
Any P (x ∷ xs) = P x ⊎ Any P xs

-- A token contract that is claimed is the one on file, up to case; none need be claimed.
abbrev pub SameToken : Option Text → Option Text → Type 0
SameToken none on_file = Unit
SameToken (some claimed) on_file = lower (or_else on_file []) ≡ lower claimed

abbrev pub SameWallet : VendorMatchInput → WalletOnFile → Type 0
SameWallet input w =
    (lower w.address ≡ lower input.wallet_address)
    × (w.network ≡ input.network)
    × SameToken input.token_contract w.token_contract

token_agrees_iff :
    (claimed on_file : Option Text)
    → (token_agrees claimed on_file ≡ true) ↔ SameToken claimed on_file
token_agrees_iff none on_file = (λ _. tt, λ _. refl)
token_agrees_iff (some c) on_file = text_eq_iff (lower (or_else on_file [])) (lower c)

wallet_agrees_iff :
    (input : VendorMatchInput) (w : WalletOnFile)
    → (wallet_agrees input w ≡ true) ↔ SameWallet input w
wallet_agrees_iff input w =
    let (a_to, a_from) = text_eq_iff (lower w.address) (lower input.wallet_address) in
    let (n_to, n_from) = text_eq_iff w.network input.network in
    let (t_to, t_from) = token_agrees_iff input.token_contract w.token_contract in
    (
      λ h. (a_to (ground arith), n_to (ground arith), t_to (ground arith)),
      λ h. ground (arith, a_from h.0, n_from h.1, t_from h.2),
    )

any-wallet_agrees_iff :
    (input : VendorMatchInput) (ws : List WalletOnFile)
    → (any (wallet_agrees input) ws ≡ true) ↔ Any (SameWallet input) ws
any-wallet_agrees_iff input [] = (λ h. cc, λ h. absurd h)
any-wallet_agrees_iff input (w ∷ ws) =
    let (here_to, here_from) = wallet_agrees_iff input w in
    let (rest_to, rest_from) = any-wallet_agrees_iff input ws in
    (
      λ h. elim (Bool-cases (wallet_agrees input w)) [
        | inl here ↦ inl (here_to here)
        | inr other ↦ inr (rest_to (rw other at h))
      ],
      λ h. elim h [
        | inl here ↦ rw (here_from here)
        | inr rest ↦ elim (Bool-cases (wallet_agrees input w)) [
          | inl here ↦ rw here
          | inr other ↦ rw other (rest_from rest)
        ]
      ],
    )

-- Everything that a match asserts of the record on file.
abbrev pub Agrees : VendorMatchInput → VendorRecord → Type 0
Agrees input vendor =
    Any (SameWallet input) vendor.wallets
    × SameDigest input.claimed_name_hmac vendor.legal_name_hmac
    × SameDigest input.claimed_pan_hmac vendor.pan_number_hmac

abbrev pub IsMatch : VendorMatchInput → Option VendorRecord → Type 0
IsMatch input none = ⊥
IsMatch input (some r) = Agrees input r

-- A match is reported exactly when the payee is on record, one of its wallets has the claimed
-- address, network and token, and both claimed digests are the recorded ones. An absent digest
-- matches nothing.
pub evaluate_match-match_iff :
    (input : VendorMatchInput) (vendor : Option VendorRecord)
    → ((evaluate_match input vendor).match ≡ true) ↔ IsMatch input vendor
unfolding evaluate_match
evaluate_match-match_iff input none = (λ h. cc, λ h. absurd h)
evaluate_match-match_iff input (some r) =
    let (w_to, w_from) = any-wallet_agrees_iff input r.wallets in
    let (n_to, n_from) = digests_equal_iff input.claimed_name_hmac r.legal_name_hmac in
    let (p_to, p_from) = digests_equal_iff input.claimed_pan_hmac r.pan_number_hmac in
    (
      λ h. (w_to (ground arith), n_to (ground arith), p_to (ground arith)),
      λ h. ground (arith, w_from h.0, n_from h.1, p_from h.2),
    )

any-same_wallet :
    (a b : VendorMatchInput) (ws : List WalletOnFile)
    → a.wallet_address ≡ b.wallet_address
    → a.network ≡ b.network
    → a.token_contract ≡ b.token_contract
    → any (wallet_agrees a) ws ≡ any (wallet_agrees b) ws
any-same_wallet a b [] ea en et = refl
any-same_wallet a b (w ∷ ws) ea en et =
    rw (ea, en, et) (ap (λ r. wallet_agrees b w || r) (any-same_wallet a b ws ea en et))

-- Two claims about one payee that name the same wallet, network and token and are both refused get
-- the same answer: the result never tells which of the two digests was wrong.
pub evaluate_match-blind :
    (a b : VendorMatchInput) (vendor : Option VendorRecord)
    → a.wallet_address ≡ b.wallet_address
    → a.network ≡ b.network
    → a.token_contract ≡ b.token_contract
    → (evaluate_match a vendor).match ≡ false
    → (evaluate_match b vendor).match ≡ false
    → evaluate_match a vendor ≡ evaluate_match b vendor
unfolding evaluate_match
evaluate_match-blind a b none _ _ _ _ _ = refl
evaluate_match-blind a b (some r) ea en et ha hb =
    ground (arith, any-same_wallet a b r.wallets ea en et)
