-- ===== src/VendorMatch/Tests.antt =====
-- The theorems on the vendor match requests at small inputs.
use securtxn.Prelude.{
  ℕ, zero, suc, ◌+◌, ◌*◌, ◌<◌, ◌≡◌, refl, true, is_some, none, some, List, [], ◌∷◌, Text, codes, ok,
  arith, text_eq,
}
use mathlib.Core.Option
use securtxn.Matching.{VendorMatchInput}
use securtxn.Store.Rows.{Db}
use securtxn.Store.Queries.{find, put}
use securtxn.VendorMatch.{create_request, get_request, save_request, attach_execution, fail_request}
use securtxn.VendorMatch.Callback.{verdict, failure, receive}
use securtxn.VendorMatch.Matcher.{Surroundings, match_vendor}
use securtxn.VendorMatch.Cells.{
  Event, called_back, gave_up, executed, view, run_all, offer_all, answered,
}
use securtxn.VendorMatch.Once.{run_all-offer_all}
use securtxn.VendorMatch.Awaits.{Told, match_vendor-Told, match_vendor-ends}
use securtxn.Sample.{at_start}

abbrev input : VendorMatchInput
input = record {
  vendor_id = codes "v1";
  claimed_name_hmac = codes "n";
  claimed_pan_hmac = codes "p";
  wallet_address = codes "0x1";
  network = codes "hedera";
  token_contract = none;
}

abbrev id : Text
id = codes "r1"

-- A yes, five hundred milliseconds late, and a no after it.
abbrev events : List Event
events =
    executed id (codes "e1")
    ∷ called_back 500 (verdict id true none (codes "MATCH"))
    ∷ gave_up 600 id (codes "timed out")
    ∷ called_back 700 (failure id (codes "broken"))
    ∷ []

abbrev asked : Db
asked = create_request id input at_start

run_all-offer_all_example :
    view id (run_all events asked) ≡ Option.map (offer_all id events) (view id asked)
run_all-offer_all_example = run_all-offer_all id events asked

first_wins : view id (run_all events asked) ≡ some (answered (some true) (some (codes "MATCH")))
unfolding create_request get_request save_request attach_execution fail_request receive find put
    text_eq
first_wins = refl

-- The callback comes after the second poll.
abbrev arrives : ℕ → Db → Db
arrives (suc zero) db = run_all (called_back 900 (verdict id true none (codes "MATCH")) ∷ []) db
arrives _ db = db

abbrev surroundings : Surroundings
surroundings = record {
  invoke = ok (codes "e1");
  started = 0;
  now = λ k. k * 500;
  meanwhile = λ db. db;
  between = arrives;
}

ticks : (k : ℕ) → k * 500 < (k + 1) * 500
ticks k = omega arith

match_vendor-Told_example : Told id (match_vendor 10 surroundings 2000 id input at_start)
match_vendor-Told_example = match_vendor-Told 10 surroundings 2000 id input at_start

match_vendor-ends_example :
    is_some (match_vendor (suc 2000) surroundings 2000 id input at_start) ≡ true
match_vendor-ends_example =
    match_vendor-ends surroundings 2000 id input at_start (omega arith) ticks
