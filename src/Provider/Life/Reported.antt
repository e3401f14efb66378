-- ===== src/Provider/Life/Reported.antt =====
-- The report of a payment of services/resource-server/src/outbox.ts: once stored it stays, up to its JSON.
use koven.Prelude.{
  ◌≡◌, refl, sym, ◌∙◌, subst, ℕ, String, Option, none, some, true, ◌&&◌, eq_iff, arith,
  Option-cases, inl, inr,
}
use koven.Domain.Scan.{ScanReport}
use koven.Exec.{ok}
use koven.Sql.{has_key}
use koven.Sql.Laws.{select-key, select-update}
use koven.Provider.Types.{ProviderDb, StoredPayment}
use koven.Provider.Payments.{
  Texts, payment_key, payment_in, save_report, update_payment, holds, with_report,
}
use koven.Provider.Life.{
  Moved, leased, reported, renewed, tried, paid, rotated, finished, Moves, still, then_move, Goes,
  Lived,
}

-- The payment has a report with the JSON of this one.
pub record HasReport (t : Texts) (report : ScanReport) (r : StoredPayment) : Type 0 where
  pub kept : ScanReport
  pub stored : r.report ≡ some kept
  pub same : t.report_json kept ≡ t.report_json report

Moved-HasReport :
    {t : Texts} {report : ScanReport} {r r' : StoredPayment}
    → Moved t r r'
    → HasReport t report r
    → HasReport t report r'
Moved-HasReport (leased token now g e) h = record {
  kept = h.kept;
  stored = rw e h.stored;
  same = h.same;
}
Moved-HasReport {t} {report} {r} (reported token x now g f d e) h = record {
  kept = x;
  stored = rw e refl;
  same =
      sym (
        (eq_iff (t.report_json h.kept) (t.report_json x)).0
          (let unlike = rw h.stored at d in ground arith))
      ∙ h.same;
}
Moved-HasReport (renewed token until now g e) h = record {
  kept = h.kept;
  stored = rw e h.stored;
  same = h.same;
}
Moved-HasReport (tried token now g e) h = record {
  kept = h.kept;
  stored = rw e h.stored;
  same = h.same;
}
Moved-HasReport (paid x header now p v c e) h = record {
  kept = h.kept;
  stored = rw e h.stored;
  same = h.same;
}
Moved-HasReport (rotated u now p o e) h = record {
  kept = h.kept;
  stored = rw e h.stored;
  same = h.same;
}
Moved-HasReport (finished now c f e) h = record {
  kept = h.kept;
  stored = rw e h.stored;
  same = h.same;
}

Moves-HasReport :
    {t : Texts} {report : ScanReport} {r r' : StoredPayment}
    → Moves t r r'
    → HasReport t report r
    → HasReport t report r'
Moves-HasReport still h = h
Moves-HasReport (then_move m x) h = Moved-HasReport x (Moves-HasReport m h)

-- The payment with an id is there, with this report.
pub record Says (t : Texts) (id : String) (report : ScanReport) (s : ProviderDb) : Type 0 where
  pub row : StoredPayment
  pub found : payment_in id s ≡ some row
  pub has : HasReport t report row

pub Says-Lived :
    (t : Texts) (id : String) (report : ScanReport) (s s' : ProviderDb)
    → Says t id report s
    → Lived t s s'
    → Says t id report s'
Says-Lived t id report s s' h lived =
    after (payment_in id s') refl (subst (λ o. Goes t id o (payment_in id s')) h.found (lived.1 id))
  where
    after :
        (o : Option StoredPayment)
        → payment_in id s' ≡ o
        → Goes t id (some h.row) o
        → Says t id report s'
    after none e g = elim g [ ]
    after (some r) e g = record { row = r; found = e; has = Moves-HasReport g h.has }

-- A report that is saved is there.
pub save_report-Says :
    (t : Texts) (id token : String) (report : ScanReport) (now : ℕ) (s s' : ProviderDb)
    → save_report t id token report now s ≡ (ok tt, s')
    → Says t id report s'
unfolding save_report
save_report-Says t id token report now s s' h = elim (Option-cases (payment_in id s)) [
  | inl e ↦ absurd (ground arith)
  | inr (r, e) ↦
      let key : r.transaction_id ≡ id = select-key payment_key id s.payments e in
      let hit : has_key payment_key id r && holds token r ≡ true =
        ground (arith, (eq_iff r.transaction_id id).1 key) in
      let after : (update_payment id (holds token) (with_report report now) s).1 ≡ s' =
        ground arith in
      rw (← after) (record {
        row = with_report report now r;
        found =
            select-update payment_key (λ r. has_key payment_key id r && holds token r)
              (with_report report now) id s.payments (λ r. refl)
            ∙ rw (e, hit) refl;
        has = record { kept = report; stored = refl; same = refl };
      })
]
