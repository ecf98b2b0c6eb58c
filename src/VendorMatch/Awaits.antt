-- ===== src/VendorMatch/Awaits.antt =====
-- apps/api/src/modules/vendorMatch/CreVendorMatcher.ts: that the matcher ends, and what it returns.
use securtxn.Prelude.{
  some-injective, none-not-some, leb-false, ℕ, zero, suc, ◌+◌, ◌≤◌, ◌<◌, Bool, true, false, leb,
  ◌≡◌, refl, sym, ap, ◌∙◌, Option, none, some, Text, is_some, Result, ok, err, Returns,
  Returns-bind, Returns-ok, present, present-eq-ok, internal, Option-cases, inl, inr, arith,
}
use securtxn.Matching.{VendorMatchInput}
use securtxn.Store.Rows.{
  VendorMatchRequest, VendorMatchRequestStatus, pending, completed, failed, Db,
}
use securtxn.VendorMatch.{get_request, create_request, attach_execution}
use securtxn.VendorMatch.Matcher.{
  Verdict, Awaited, Surroundings, read_verdict, settled_as, settled_by, poll_step, poll, await,
  match_vendor,
}
use securtxn.VendorMatch.Cells.{answered, view}

-- What an outcome may say of the request in the database that it leaves.
abbrev pub Told : Text → Option Awaited → Type 0
Told id none = Unit
Told id (some a) =
    Returns (λ v. view id a.db ≡ some (answered (some v.match) (some v.reason_code))) a.result

read_verdict-Told :
    (r : VendorMatchRequest)
    → Returns
        (λ v. (r.match ≡ some v.match) × (r.reason_code ≡ some v.reason_code))
        (read_verdict r)
read_verdict-Told r = Returns-bind _ (present r.match internal) _ λ m h.
    Returns-bind _ (present r.reason_code internal) _
      λ c k. (present-eq-ok r.match internal h, present-eq-ok r.reason_code internal k)

settled_as-Told :
    (s : VendorMatchRequestStatus) (id : Text) (db : Db) (r : VendorMatchRequest)
    (result : Result Verdict)
    → get_request id db ≡ some r
    → r.status ≡ s
    → settled_as r s ≡ some result
    → Told id (some (record { db = db; result = result }))
settled_as-Told pending id db r result found h k = cc
settled_as-Told completed id db r (ok v) found h k =
    let (m, c) = Returns-ok _ (read_verdict r) v (read_verdict-Told r) (some-injective k) in
    rw (found, h, m, c) refl
settled_as-Told completed id db r (err e) found h k = tt
settled_as-Told failed id db r (ok v) found h k = cc
settled_as-Told failed id db r (err e) found h k = tt

settled_by-Told :
    (id : Text) (db : Db) (result : Result Verdict)
    → settled_by (get_request id db) ≡ some result
    → Told id (some (record { db = db; result = result }))
settled_by-Told id db result h = elim (Option-cases (get_request id db)) [
  | inl e ↦ absurd (none-not-some (ap settled_by (sym e) ∙ h))
  | inr (r, e) ↦ settled_as-Told r.status id db r result e refl (ap settled_by (sym e) ∙ h)
]

poll_step-Told :
    (o : Option (Result Verdict)) (late : Bool) (now : ℕ) (id : Text) (db : Db)
    (later : Option Awaited)
    → settled_by (get_request id db) ≡ o
    → Told id later
    → Told id (poll_step o late now id db later)
poll_step-Told (some result) late now id db later h k = settled_by-Told id db result h
poll_step-Told none true now id db later h k = tt
poll_step-Told none false now id db later h k = k

poll-Told :
    (fuel : ℕ) (s : Surroundings) (deadline k : ℕ) (id : Text) (db : Db)
    → Told id (poll fuel s deadline k id db)
unfolding poll
poll-Told zero s deadline k id db = tt
poll-Told (suc fuel) s deadline k id db =
    poll_step-Told (settled_by (get_request id db)) (leb deadline (s.now k)) (s.now k) id db _ refl
      (poll-Told fuel s deadline (k + 1) id (s.between k db))

await-Told :
    (fuel : ℕ) (s : Surroundings) (timeout_ms : ℕ) (id : Text) (db : Db) (answer : Result Text)
    → Told id (await fuel s timeout_ms id db answer)
await-Told fuel s timeout_ms id db (err e) = tt
await-Told fuel s timeout_ms id db (ok execution_id) =
    poll-Told fuel s (s.started + timeout_ms) 0 id (attach_execution id execution_id db)

-- A verdict that the matcher returns stands on its request, which is completed; in every other
-- outcome the matcher throws.
pub match_vendor-Told :
    (fuel : ℕ) (s : Surroundings) (timeout_ms : ℕ) (new_id : Text) (i : VendorMatchInput) (db : Db)
    → Told new_id (match_vendor fuel s timeout_ms new_id i db)
unfolding match_vendor
match_vendor-Told fuel s timeout_ms new_id i db =
    await-Told fuel s timeout_ms new_id (s.meanwhile (create_request new_id i db)) s.invoke

poll_step-ends :
    (o : Option (Result Verdict)) (late : Bool) (now : ℕ) (id : Text) (db : Db)
    (later : Option Awaited)
    → (late ≡ false → is_some later ≡ true)
    → is_some (poll_step o late now id db later) ≡ true
poll_step-ends (some result) late now id db later h = refl
poll_step-ends none true now id db later h = refl
poll_step-ends none false now id db later h = h refl

poll-ends :
    (fuel : ℕ) (s : Surroundings) (deadline k : ℕ) (id : Text) (db : Db)
    → ((k : ℕ) → s.now k < s.now (k + 1))
    → deadline ≤ s.now k + fuel
    → is_some (poll (suc fuel) s deadline k id db) ≡ true
unfolding poll
poll-ends zero s deadline k id db ticks h =
    poll_step-ends (settled_by (get_request id db)) (leb deadline (s.now k)) (s.now k) id db _
      λ n. absurd (omega (arith, leb-false deadline (s.now k) n, h))
poll-ends (suc fuel) s deadline k id db ticks h =
    poll_step-ends (settled_by (get_request id db)) (leb deadline (s.now k)) (s.now k) id db _
      λ n. poll-ends fuel s deadline (k + 1) id (s.between k db) ticks (omega (arith, ticks k, h))

await-ends :
    (s : Surroundings) (timeout_ms : ℕ) (id : Text) (db : Db) (answer : Result Text)
    → s.started ≤ s.now 0
    → ((k : ℕ) → s.now k < s.now (k + 1))
    → is_some (await (suc timeout_ms) s timeout_ms id db answer) ≡ true
await-ends s timeout_ms id db (err e) h ticks = refl
await-ends s timeout_ms id db (ok execution_id) h ticks =
    poll-ends timeout_ms s (s.started + timeout_ms) 0 id (attach_execution id execution_id db) ticks
      (omega (arith, h))

-- Where the clock advances between two polls, one poll more than the timeout has milliseconds is
-- enough: the matcher ends, whatever the gateway and the callbacks do.
pub match_vendor-ends :
    (s : Surroundings) (timeout_ms : ℕ) (new_id : Text) (i : VendorMatchInput) (db : Db)
    → s.started ≤ s.now 0
    → ((k : ℕ) → s.now k < s.now (k + 1))
    → is_some (match_vendor (suc timeout_ms) s timeout_ms new_id i db) ≡ true
unfolding match_vendor
match_vendor-ends s timeout_ms new_id i db h ticks =
    await-ends s timeout_ms new_id (s.meanwhile (create_request new_id i db)) s.invoke h ticks
