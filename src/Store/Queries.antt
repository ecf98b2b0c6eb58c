-- ===== src/Store/Queries.antt =====
-- The queries of the Prisma client on a table: `findUnique` by id, `update` by id, `create`, and the
-- first row in an order.
use securtxn.Prelude.{
  ℕ, ◌≤◌, ◌≡◌, refl, Option, none, some, List, [], ◌∷◌, arith, Text, text_eq, text_eq_iff,
  if◌then◌else◌, All, leb, ltb, is_some, Bool, true, false, Result, ok, present-eq-ok, present,
  not_found,
}
use securtxn.Store.Rows.{Db, PaymentRequest, Vendor, VendorWallet}

module _ {A : Type 0} where
  unfoldable pub find : (A → Text) → Text → List A → Option A
  find key k [] = none
  find key k (x ∷ xs) = if text_eq (key x) k then some x else find key k xs

  -- The row with this row's id is replaced.
  unfoldable pub put : (A → Text) → A → List A → List A
  put key a [] = []
  put key a (x ∷ xs) = if text_eq (key x) (key a) then a ∷ put key a xs else x ∷ put key a xs

  pub find-All :
      (P : A → Type 0) (key : A → Text) (k : Text) (xs : List A) (a : A)
      → All P xs
      → find key k xs ≡ some a
      → P a
  unfolding find
  find-All P key k [] a h e = cc
  find-All P key k (x ∷ xs) a h e = ground (arith, find-All P key k xs a h.1)

  pub put-All :
      (P : A → Type 0) (key : A → Text) (a : A) (xs : List A)
      → All P xs
      → P a
      → All P (put key a xs)
  unfolding put
  put-All P key a [] h p = tt
  put-All P key a (x ∷ xs) h p = ground (arith, put-All P key a xs h.1 p)

  -- What holds of the new row and of every row that it does not replace holds after.
  pub put-others :
      (P : A → Type 0) (key : A → Text) (a : A) (xs : List A)
      → All (λ x. text_eq (key x) (key a) ≡ false → P x) xs
      → P a
      → All P (put key a xs)
  unfolding put
  put-others P key a [] h p = tt
  put-others P key a (x ∷ xs) h p = ground (arith, put-others P key a xs h.1 p, h.0)

  pub find-key :
      (key : A → Text) (k : Text) (xs : List A) (a : A) → find key k xs ≡ some a → key a ≡ k
  unfolding find
  find-key key k [] a e = cc
  find-key key k (x ∷ xs) a e = ground (arith, text_eq_iff (key x) k, find-key key k xs a)

  -- A row that is there is read back as it was written, and every other row as it was.
  pub find-put :
      (key : A → Text) (a : A) (k : Text) (xs : List A)
      → find key k (put key a xs) ≡ (
          if text_eq (key a) k
          then (if is_some (find key k xs) then some a else none)
          else find key k xs)
  unfolding find put
  find-put key a k [] = ground arith
  find-put key a k (x ∷ xs) = ground (
    arith,
    text_eq_iff (key x) k,
    text_eq_iff (key a) k,
    text_eq_iff (key x) (key a),
    find-put key a k xs,
  )

  -- `findUnique` by a column that is unique.
  unfoldable pub first : (A → Bool) → List A → Option A
  first test [] = none
  first test (x ∷ xs) = if test x then some x else first test xs

  pub first-All :
      (P : A → Type 0) (test : A → Bool) (xs : List A) (a : A)
      → All P xs
      → first test xs ≡ some a
      → P a
  unfolding first
  first-All P test [] a h e = cc
  first-All P test (x ∷ xs) a h e = ground (arith, first-All P test xs a h.1)

  pub first-test : (test : A → Bool) (xs : List A) (a : A) → first test xs ≡ some a → test a ≡ true
  unfolding first
  first-test test [] a e = cc
  first-test test (x ∷ xs) a e = ground (arith, first-test test xs a)

  pub first-none :
      (test : A → Bool) (xs : List A) → first test xs ≡ none → All (λ x. test x ≡ false) xs
  unfolding first
  first-none test [] e = tt
  first-none test (x ∷ xs) e = ground (arith, first-none test xs)

  pub first-put :
      (key : A → Text) (test : A → Bool) (a b : A) (xs : List A)
      → first test xs ≡ some a
      → key b ≡ key a
      → test b ≡ true
      → first test (put key b xs) ≡ some b
  unfolding first put
  first-put key test a b [] h i t = cc
  first-put key test a b (x ∷ xs) h i t =
      ground (arith, text_eq_iff (key x) (key b), first-put key test a b xs)

  -- `findFirst` in descending order: the later row wins a tie.
  unfoldable pub newest : (A → ℕ) → List A → Option A
  newest time [] = none
  newest time (x ∷ xs) = elim (newest time xs) [
    | none ↦ some x
    | some y ↦ if leb (time x) (time y) then some y else some x
  ]

  -- The time of the newest row, 0 where there is none.
  abbrev time_of : (A → ℕ) → Option A → ℕ
  time_of time none = 0
  time_of time (some y) = time y

  newest-step :
      (time : A → ℕ) (x : A) (xs : List A)
      → (time x ≤ time_of time (newest time (x ∷ xs)))
        × (time_of time (newest time xs) ≤ time_of time (newest time (x ∷ xs)))
  unfolding newest
  newest-step time x xs = elim (newest time xs) [ none ↦ ground arith | some y ↦ ground arith ]

  pub newest-All :
      (time : A → ℕ) (xs : List A) (n : ℕ)
      → time_of time (newest time xs) ≤ n
      → All (λ x. time x ≤ n) xs
  newest-All time [] n h = tt
  newest-All time (x ∷ xs) n h =
      let (a, b) = newest-step time x xs in
      (omega (arith, a, h), newest-All time xs n (omega (arith, b, h)))

  pub newest-holds :
      (P : A → Type 0) (time : A → ℕ) (xs : List A) (y : A)
      → All P xs
      → newest time xs ≡ some y
      → P y
  unfolding newest
  newest-holds P time [] y h e = cc
  newest-holds P time (x ∷ xs) y h e = ground (arith, newest-holds P time xs y h.1, h.0)

  -- `findFirst` in ascending order.
  unfoldable pub oldest : (A → ℕ) → List A → Option A
  oldest time [] = none
  oldest time (x ∷ xs) = elim (oldest time xs) [
    | none ↦ some x
    | some y ↦ if ltb (time y) (time x) then some y else some x
  ]

  -- `findMany` in ascending order: a sort that keeps the order of ties.
  abbrev insert_by : (A → ℕ) → A → List A → List A
  insert_by time a [] = a ∷ []
  insert_by time a (x ∷ xs) = if ltb (time x) (time a) then x ∷ insert_by time a xs else a ∷ x ∷ xs

  unfoldable pub sorted_by : (A → ℕ) → List A → List A
  sorted_by time [] = []
  sorted_by time (x ∷ xs) = insert_by time x (sorted_by time xs)

unfoldable pub find_payment : Text → Db → Result PaymentRequest
find_payment k db = present (find (λ p. p.id) k db.payment_requests) not_found

unfoldable pub find_vendor : Text → Db → Result Vendor
find_vendor k db = present (find (λ v. v.id) k db.vendors) not_found

unfoldable pub find_wallet : Text → Db → Result VendorWallet
find_wallet k db = present (find (λ w. w.id) k db.vendor_wallets) not_found

-- `tx.paymentRequest.update` and the rows that belong to the payment, at the end of a transaction.
unfoldable pub save_payment : PaymentRequest → Db → Db
save_payment p db = record db { payment_requests = put (λ q. q.id) p db.payment_requests }

unfoldable pub save_vendor : Vendor → Db → Db
save_vendor v db = record db { vendors = put (λ u. u.id) v db.vendors }

unfoldable pub save_wallet : VendorWallet → Db → Db
save_wallet w db = record db { vendor_wallets = put (λ v. v.id) w db.vendor_wallets }

kept :
    (q : PaymentRequest) (o : Option PaymentRequest)
    → is_some o ≡ true
    → present (if is_some o then some q else none) not_found ≡ ok q
kept q none h = cc
kept q (some p) h = refl

found-is_some :
    (o : Option PaymentRequest) (p : PaymentRequest) → present o not_found ≡ ok p → is_some o ≡ true
found-is_some none p h = cc
found-is_some (some q) p h = refl

-- What is saved for a payment that is there is what is found.
pub find_payment-save_payment :
    (k : Text) (p q : PaymentRequest) (db : Db)
    → find_payment k db ≡ ok p
    → q.id ≡ k
    → find_payment k (save_payment q db) ≡ ok q
unfolding find_payment save_payment
find_payment-save_payment k p q db h i =
    rw (find-put (λ r. r.id) q k db.payment_requests, (text_eq_iff q.id k).1 i)
      (kept q (find (λ r. r.id) k db.payment_requests) (found-is_some _ p h))

pub find_payment-id :
    (k : Text) (db : Db) (p : PaymentRequest) → find_payment k db ≡ ok p → p.id ≡ k
unfolding find_payment
find_payment-id k db p h =
    find-key (λ r. r.id) k db.payment_requests p (present-eq-ok _ not_found h)

pub find_vendor-id : (k : Text) (db : Db) (v : Vendor) → find_vendor k db ≡ ok v → v.id ≡ k
unfolding find_vendor
find_vendor-id k db v h = find-key (λ u. u.id) k db.vendors v (present-eq-ok _ not_found h)

pub find_wallet-id : (k : Text) (db : Db) (w : VendorWallet) → find_wallet k db ≡ ok w → w.id ≡ k
unfolding find_wallet
find_wallet-id k db w h = find-key (λ v. v.id) k db.vendor_wallets w (present-eq-ok _ not_found h)
