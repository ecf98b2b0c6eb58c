-- ===== src/Anchor/Verified.antt =====
-- apps/api/src/modules/evidence/anchor.ts: what `verify` and `verifyWithRetry` mark as verified.
use securtxn.Prelude.{
  ℕ, ◌≡◌, refl, sym, true, some, Text, text_eq, text_eq_iff, lower, ok, Returns, Returns-bind,
  Returns-ok, Returns-require, present, present-eq-ok, conflict, unprocessable, ◌⊎◌, inl, inr,
  if-Returns,
}
use securtxn.Platform.{Platform}
use securtxn.Anchor.Message.{AnchorMessage, read_message}
use securtxn.Anchor.{
  AnchorRow, AnchorDb, AnchorSummary, to_anchor_summary, load, Served, Fetch, served_with,
  save_anchor, verify_loaded, verify_anchor,
}

-- The mirror served a message at the anchor's own place, with the root that is on file.
pub record ReadBack (pf : Platform) (fetch : Fetch) (a : AnchorRow) (m : Served) : Type 0 where
  pub served : fetch a.sequence_number ≡ ok (some m)
  pub agrees :
      (p : AnchorMessage) × (read_message pf m.contents ≡ ok p)
      × (lower p.root ≡ lower a.merkle_root)

-- What is true of an answer of `verify`.
pub record Checked (pf : Platform) (fetch : Fetch) (now : ℕ) (k : Text) (db : AnchorDb)
    (out : AnchorSummary × AnchorDb) : Type 0 where
  pub marked : out.0.verified ≡ true
  pub why :
      (a : AnchorRow) × (load k db ≡ ok a)
      × (((a.verified ≡ true) × (out.1 ≡ db))
          ⊎ ((m : Served) × ReadBack pf fetch a m × (out.1 ≡ save_anchor (served_with now m a) db)))

already :
    (pf : Platform) (fetch : Fetch) (now : ℕ) (k : Text) (db : AnchorDb) (a : AnchorRow)
    → load k db ≡ ok a
    → a.verified ≡ true
    → Checked pf fetch now k db (to_anchor_summary pf a, db)
unfolding to_anchor_summary
already pf fetch now k db a loaded e = record { marked = e; why = (a, loaded, inl (e, refl)) }

fresh :
    (pf : Platform) (fetch : Fetch) (now : ℕ) (k : Text) (db : AnchorDb) (a : AnchorRow)
    (m : Served)
    → load k db ≡ ok a
    → ReadBack pf fetch a m
    → Checked pf fetch now k db
        (to_anchor_summary pf (served_with now m a), save_anchor (served_with now m a) db)
unfolding to_anchor_summary
fresh pf fetch now k db a m loaded back = record {
  marked = refl;
  why = (a, loaded, inr (m, back, refl));
}

verify_loaded-Checked :
    (pf : Platform) (fetch : Fetch) (now : ℕ) (k : Text) (db : AnchorDb) (a : AnchorRow)
    → load k db ≡ ok a
    → Returns (Checked pf fetch now k db) (verify_loaded pf fetch now a db)
unfolding verify_loaded
verify_loaded-Checked pf fetch now k db a loaded =
    Returns-bind (Checked pf fetch now k db) (fetch a.sequence_number) _ λ answer served.
      Returns-bind (Checked pf fetch now k db) (present answer conflict) _ λ m there.
        Returns-bind (Checked pf fetch now k db) (read_message pf m.contents) _ λ p read.
          Returns-require (Checked pf fetch now k db) (text_eq (lower p.root) (lower a.merkle_root))
            unprocessable _
            λ same.
              let here = present-eq-ok answer conflict there in
              fresh pf fetch now k db a m loaded (record {
                served = rw (sym here) served;
                agrees = (p, read, (text_eq_iff (lower p.root) (lower a.merkle_root)).0 same);
              })

-- An anchor that `verify` answers for is marked as verified: it was so already and nothing changes,
-- or the mirror served a message at its place in the topic that carries the root on file.
pub verify_anchor-Checked :
    (pf : Platform) (fetch : Fetch) (now : ℕ) (k : Text) (db : AnchorDb)
    (out : AnchorSummary × AnchorDb)
    → verify_anchor pf fetch now k db ≡ ok out
    → Checked pf fetch now k db out
unfolding verify_anchor
verify_anchor-Checked pf fetch now k db out h =
    Returns-ok (Checked pf fetch now k db) _ out
      (Returns-bind (Checked pf fetch now k db) (load k db) _ λ a loaded.
        if-Returns (Checked pf fetch now k db) a.verified _ _
          (λ e. already pf fetch now k db a loaded e)
          (λ _. verify_loaded-Checked pf fetch now k db a loaded))
      h
