-- ===== src/Provider/Server/Released.antt =====
-- A report leaves services/resource-server/src/server.ts only for a payment that is settled in the store.
use koven.Prelude.{
  ℕ, ◌≡◌, ◌∙◌, refl, sym, ap, subst, String, Option, none, some, true, not, ◌&&◌, ◌==◌, List,
  same_text, some_inj, Bool-cases, Option-cases, inl, inr,
}
use koven.Domain.Scan.{ScanReport}
use koven.Exec.{Result, ok, pure, throw, ◌>>=◌, ◌>>◌}
use koven.Exec.Laws.{>>=-eq-ok, transaction-eq-ok, ok_inj}
use koven.Sql.Laws.{select-key}
use koven.Provider.Types.{ProviderDb, StoredPayment, Attempt, empty}
use koven.Provider.Payments.{
  PaymentClaim, payment_key, payment_in, update_payment, save_report, mark_settlement_attempted,
  renew_verified_payment_lease, claim_payment, claim_body, claim_existing, take_over,
  insert_payment, claim_of, lease_payment, reclaimable, fresh_payment,
}
use koven.Provider.Settlements.{record_unconfirmed_settlement}
use koven.Provider.Life.{Lived, Lived-trans}
use koven.Provider.Life.Payments.{
  claim_payment-Lived, save_report-Lived, renew-Lived, attempt-Lived,
}
use koven.Provider.Life.Settlements.{record-Lived}
use koven.Provider.Life.Reported.{HasReport, Says, Says-Lived, save_report-Says}
use koven.Provider.Life.Paid.{IsPaid, Lived-IsSound, sound-IsPaid}
use koven.Provider.Life.History.{Call, run, run-Lived}
use koven.Provider.Authorization.{parse_base, ScanRequest}
use koven.Provider.Authorization.Bound.{IsRead, IsBound, validate_attempt-IsBound}
use koven.Provider.Scan.{scan}
use koven.Provider.Server.Settled.{Ends, then_Ends, respond_with_existing-Ends, save_settled-Ends}
use koven.Provider.Server.Steps.{To, then_To, stays, wait-To}
use koven.Provider.Server.{
  PaidScanServer, Answers, Response, report, Settling, success, failure, Verification, checked,
  wait, assert_settlement_result, safe_header, save_settled, unconfirmed_error, after_settling,
  prepare_report, settle_claim, after_verifying, with_claim, validate, paid_scan, scan_handler,
  serve_attempt, may_retry, stored_policy, verified, unavailable, unexpected,
}

module _ {Body : Type 0} (v : PaidScanServer Body) (body : Body) (a : Attempt) (x : Answers) where
  abbrev k : String
  k = a.authorization.transaction_id

  after_settling-Ends :
      (r : ScanReport) (y : Settling) (s : ProviderDb)
      → Says v.texts k r s
      → Ends v k s (after_settling v a x r y s)
  unfolding after_settling
  after_settling-Ends r failure s says =
      then_Ends v k (record_unconfirmed_settlement k x.later true) (λ p. throw unconfirmed_error) s
        (record-Lived v.texts k x.later s true) (λ p u h l. (stays v u, tt))
  after_settling-Ends r (success settlement given) s says =
      then_Ends v k (checked (assert_settlement_result v settlement a))
        (λ b. checked (safe_header v given settlement) >>= save_settled v k x r settlement) s
        (stays v s)
        (λ b u h l.
          then_Ends v k (checked (safe_header v given settlement)) (save_settled v k x r settlement)
            u (stays v u)
            (λ header u' h' l'.
              save_settled-Ends v k x r settlement header u'
                (Says-Lived v.texts k r u u' (Says-Lived v.texts k r s u says l) l')))

  scan-To :
      (stored : Option ScanReport) (s : ProviderDb) → To v s (prepare_report v body a x stored s).1
  unfolding prepare_report
  scan-To (some r) s = stays v s
  scan-To none s = then_To v (checked (parse_base v.libraries body)) _ s (stays v s) (λ request u1.
      then_To v (wait v x.while_scanning) _ u1 (wait-To v x.while_scanning u1) (λ b u2.
        then_To v
          (checked (
            scan v.reports request v.provider_id v.failure_mode x.findings x.started_at
              x.completed_at))
          _ u2 (stays v u2)
          (λ r u3.
            then_To v (save_report v.texts k x.token r x.reported_at) (λ b. pure r) u3
              (save_report-Lived v.texts k x.token x.reported_at u3 r) (λ b u4. stays v u4))))

  -- The report that is prepared is the payment's.
  prepare_report-Says :
      (stored : Option ScanReport) (s : ProviderDb) {r : ScanReport} {s' : ProviderDb}
      → ((r : ScanReport) → stored ≡ some r → Says v.texts k r s)
      → prepare_report v body a x stored s ≡ (ok r, s')
      → Says v.texts k r s'
  unfolding prepare_report
  prepare_report-Says (some q) s {r} {s'} says h =
      subst (λ (o : ScanReport × ProviderDb). Says v.texts k o.0 o.1) (λ i. (ok_inj h i, (h i).1))
        (says q refl)
  prepare_report-Says none s {r} {s'} says h =
      let (request, u1, h1, rest1) =
        >>=-eq-ok {A = ScanRequest} {B = ScanReport} (checked (parse_base v.libraries body)) _ s
          h in
      let (b, u2, h2, rest2) =
        >>=-eq-ok {A = Unit {0}} {B = ScanReport} (wait v x.while_scanning) _ u1 rest1 in
      let (q, u3, h3, rest3) =
        >>=-eq-ok {A = ScanReport} {B = ScanReport}
          (checked (
            scan v.reports request v.provider_id v.failure_mode x.findings x.started_at
              x.completed_at))
          (λ r. save_report v.texts k x.token r x.reported_at >> pure r) u2 rest2 in
      let (c, u4, saved, last) =
        >>=-eq-ok {A = Unit {0}} {B = ScanReport} (save_report v.texts k x.token q x.reported_at)
          (λ b. pure q) u3 rest3 in
      subst (λ (o : ScanReport × ProviderDb). Says v.texts k o.0 o.1)
        (λ i. (ok_inj last i, (last i).1))
        (save_report-Says v.texts k x.token q x.reported_at u3 u4 saved)

  settle_claim-Ends :
      (stored : Option ScanReport) (s : ProviderDb)
      → ((r : ScanReport) → stored ≡ some r → Says v.texts k r s)
      → Ends v k s (settle_claim v body a x stored s)
  unfolding settle_claim
  settle_claim-Ends stored s says =
      then_Ends v k (renew_verified_payment_lease k x.token x.renewed_at) _ s
        (renew-Lived v.texts k x.token x.renewed_at s)
        (λ b u1 h1 l1.
          then_Ends v k (prepare_report v body a x stored) _ u1 (scan-To stored u1) (λ r u2 h2 l2.
            let prepared =
              prepare_report-Says stored u1 {r = r} {s' = u2}
                (λ q e. Says-Lived v.texts k q s u1 (says q e) l1) h2 in
            then_Ends v k (mark_settlement_attempted k x.token x.attempted_at) _ u2
              (attempt-Lived v.texts k x.token x.attempted_at u2)
              (λ b u3 h3 l3.
                then_Ends v k (wait v x.while_settling) (λ b. after_settling v a x r x.settling) u3
                  (wait-To v x.while_settling u3)
                  (λ b u4 h4 l4.
                    after_settling-Ends r x.settling u4 (
                      Says-Lived v.texts k r u3 u4 (Says-Lived v.texts k r u2 u3 prepared l3)
                        l4)))))

  after_verifying-Ends :
      (stored : Option ScanReport) (y : Verification) (s : ProviderDb)
      → ((r : ScanReport) → stored ≡ some r → Says v.texts k r s)
      → Ends v k s (after_verifying v body a x stored y s)
  unfolding after_verifying
  after_verifying-Ends stored verified s says = settle_claim-Ends stored s says
  after_verifying-Ends stored unavailable s says = (stays v s, tt)
  after_verifying-Ends stored Verification.refused s says = (stays v s, tt)
  after_verifying-Ends stored unexpected s says = (stays v s, tt)

  with_claim-Ends :
      (c : PaymentClaim) (s : ProviderDb)
      → payment_in k s ≡ some c.payment
      → Ends v k s (with_claim v body a x c s)
  unfolding with_claim
  with_claim-Ends c s e = elim (Bool-cases c.owned) [
    | inl y ↦ rw y (
        then_Ends v k (wait v x.while_verifying)
          (λ b. after_verifying v body a x c.payment.report x.verification) s
          (wait-To v x.while_verifying s)
          (λ b u h l. after_verifying-Ends c.payment.report x.verification u (λ r is.
            Says-Lived v.texts k r s u
              (record {
                row = c.payment;
                found = e;
                has = record { kept = r; stored = is; same = refl };
              })
              l)))
    | inr n ↦
        let at_k : c.payment.transaction_id ≡ k = select-key payment_key k s.payments e in
        rw n (respond_with_existing-Ends v k x c.payment s e)
  ]

-- What is claimed is the row.
take_over-row :
    (id token : String) (now : ℕ) (r : StoredPayment) (s : ProviderDb) {p : StoredPayment}
    {s' : ProviderDb}
    → payment_in id s ≡ some r
    → take_over id token now r s ≡ (ok p, s')
    → payment_in id s' ≡ some p
unfolding take_over
take_over-row id token now r s {p} {s'} e h =
    elim (Bool-cases (not (same_text r.lease_token (some token)) && reclaimable now r)) [
      | inr n ↦
          let done = rw n at h in
          cc (e, ap (λ (x : ProviderDb). payment_in id x) (ap (λ x. x.1) done))
      | inl y ↦
          let done = rw y at h in
          let u = (update_payment id (reclaimable now) (lease_payment token now) s).1 in
          elim (Option-cases (payment_in id u)) [
            | inl e' ↦ absurd (cc (rw e' at done))
            | inr (q, e') ↦
                let last = rw e' at done in
                cc (e', ap (λ (x : ProviderDb). payment_in id x) (ap (λ x. x.1) last))
          ]
    ]

claim_existing-row :
    (a : Attempt) (token : String) (now : ℕ) (s : ProviderDb) {c : PaymentClaim} {s' : ProviderDb}
    → claim_existing a token now s ≡ (ok c, s')
    → payment_in a.authorization.transaction_id s' ≡ some c.payment
unfolding claim_existing
claim_existing-row a token now s {c} {s'} h = elim (Option-cases (payment_in k s)) [
  | inl e ↦ absurd (cc (rw e at h))
  | inr (r, e) ↦ elim (Bool-cases (r.fingerprint == a.fingerprint)) [
    | inr n ↦ absurd (cc (rw (e, n) at h))
    | inl y ↦
        let rest = rw (e, y) at h in
        let (p, u, taken, last) =
          >>=-eq-ok {A = StoredPayment} {B = PaymentClaim} (take_over k token now r)
            (λ current. pure (claim_of token current)) s rest in
        let row = take_over-row k token now r s {p = p} {s' = u} e taken in
        cc (row, ap (λ (x : ProviderDb). payment_in k x) (ap (λ x. x.1) last))
  ]
]
  where
    k : String
    k = a.authorization.transaction_id

claim_payment-row :
    (a : Attempt) (token : String) (now : ℕ) (s : ProviderDb) {c : PaymentClaim} {s' : ProviderDb}
    → claim_payment a token now s ≡ (ok c, s')
    → payment_in a.authorization.transaction_id s' ≡ some c.payment
unfolding claim_payment claim_body
claim_payment-row a token now s {c} {s'} h =
    let body = transaction-eq-ok (claim_body a token now) s {a = c} {s' = s'} h in
    let (b, u, inserted, rest) =
      >>=-eq-ok {A = Unit {0}} {B = PaymentClaim} (insert_payment (fresh_payment a token now))
        (λ b. claim_existing a token now) s body in
    claim_existing-row a token now u {c = c} {s' = s'} rest

module _ {Body : Type 0} (v : PaidScanServer Body) (body : Body) (x : Answers) where
  serve_attempt-Ends :
      (a : Attempt) (s : ProviderDb)
      → Ends v a.authorization.transaction_id s (serve_attempt v body x a s)
  unfolding serve_attempt
  serve_attempt-Ends a s =
      let found = payment_in a.authorization.transaction_id s in
      elim (Bool-cases (a.authorization_expired && not (may_retry v a found))) [
        | inl y ↦ rw y (stays v s, tt)
        | inr n ↦ rw n (
            then_Ends v a.authorization.transaction_id (claim_payment a x.token x.now)
              (with_claim v body a x) s (claim_payment-Lived v.texts x.token x.now a s)
              (λ c u h l.
                with_claim-Ends v body a x c u
                  (claim_payment-row a x.token x.now s {c = c} {s' = u} h)))
      ]

  validate-IsBound :
      (header : String) (now : ℕ) (s : ProviderDb) {a : Attempt} {s' : ProviderDb}
      → validate v body header now s ≡ (ok a, s')
      → IsRead v.libraries body header v.policy (stored_policy v s) a
        × IsBound v.libraries v.signer_keys a
  unfolding validate
  validate-IsBound header now s {a} {s'} h =
      validate_attempt-IsBound v.libraries body header v.policy v.signer_keys now true
        (stored_policy v s) {a = a} (ap (λ (o : Result Attempt × ProviderDb). (o.0, tt {0})) h)

  validate-state :
      (header : String) (now : ℕ) (s : ProviderDb) → (validate v body header now s).1 ≡ s
  unfolding validate
  validate-state header now s = refl

-- A report is released only for a payment that is settled. Whatever other requests do to the store before a request
-- and while it waits: when it is answered with a report, the request's own body and header hold a validated attempt,
-- and the payment of that attempt's transaction is in the store with a settlement, a success of this transaction,
-- paid by its borrower, in the authorized amount where it states one; the attempt is recorded, no one holds the
-- lease, and the report that is released is the stored one of this payment, up to its canonical JSON.
pub scan_handler-IsPaid :
    {Body : Type 0} (v : PaidScanServer Body) (body : Body) (header : String) (x : Answers)
    (others : List Call) {r : ScanReport} {h : Option String} {s' : ProviderDb}
    → scan_handler v body (some header) x (run v.texts v.reports.sha256 others empty)
      ≡ (ok (report r h), s')
    → let s = run v.texts v.reports.sha256 others empty in
      (a : Attempt) × IsRead v.libraries body header v.policy (stored_policy v s) a
      × IsBound v.libraries v.signer_keys a
      × ((p : StoredPayment) × (payment_in a.authorization.transaction_id s' ≡ some p)
          × IsPaid v.texts p
          × HasReport v.texts r p)
unfolding scan_handler paid_scan
scan_handler-IsPaid v body header x others {r} {h} {s'} eq =
    let s = run v.texts v.reports.sha256 others empty in
    let (b, u1, h1, rest) =
      >>=-eq-ok {B = Response} (checked (parse_base v.libraries body))
        (λ b. validate v body header x.now >>= serve_attempt v body x) s eq in
    let (a, u2, h2, last) =
      >>=-eq-ok {A = Attempt} {B = Response} (validate v body header x.now) (serve_attempt v body x)
        u1 rest in
    let same : u2 ≡ s =
      sym (ap (λ (o : Result Attempt × ProviderDb). o.1) h2)
      ∙ validate-state v body x header x.now u1
      ∙ sym (ap (λ (o : Result ScanRequest × ProviderDb). o.1) h1) in
    let (to, (paid, says)) =
      subst (Ends v a.authorization.transaction_id u2) last (serve_attempt-Ends v body x a u2) in
    let born = run-Lived v.texts v.reports.sha256 others empty in
    let lived : Lived v.texts empty s' =
      Lived-trans v.texts empty s s' born (subst (λ u. To v u s') same to) in
    let kept : u1 ≡ s = sym (ap (λ (o : Result ScanRequest × ProviderDb). o.1) h1) in
    let (read, bound) = validate-IsBound v body x header x.now u1 {a = a} {s' = u2} h2 in
    let row : paid.row ≡ says.row = some_inj (sym paid.found ∙ says.found) in
    (
      a,
      subst (λ u. IsRead v.libraries body header v.policy (stored_policy v u) a) kept read,
      bound,
      (
        paid.row,
        paid.found,
        sound-IsPaid v.texts paid.row
            (Lived-IsSound v.texts a.authorization.transaction_id s' {r = paid.row} lived
              paid.found)
            paid.settled,
        subst (HasReport v.texts r) (sym row) says.has,
      ),
    )
