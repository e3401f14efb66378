-- ===== src/Provider/Server/Settled.antt =====
-- The responses of services/resource-server/src/server.ts that carry a report, and what is in the store then.
use koven.Prelude.{
  ℕ, ◌≡◌, ◌∙◌, eq_iff, refl, sym, ap, subst, String, Option, none, some, Bool, true, false, ◌&&◌,
  List, is_none, arith, Bool-cases, Option-cases, inl, inr, if◌then◌else◌,
}
use koven.Domain.Errors.{plain_error, settlement_confirmation_error}
use koven.Domain.Scan.{ScanReport}
use koven.Exec.{Exec, Result, ok, err, pure, or_throw, throw, continue, caught, ◌>>=◌}
use koven.Exec.Laws.{>>=-eq-ok, gets-eq-ok}
use koven.Sql.{has_key}
use koven.Sql.Laws.{select-key, select-update}
use koven.Provider.Types.{ProviderDb, StoredPayment, SettleResponse, is_failed}
use koven.Provider.Payments.{payment_key, payment_in, get_payment, update_payment}
use koven.Provider.Settlements.{
  any, with_settlement, save_settlement, is_over, is_prepared, record_unconfirmed_settlement,
}
use koven.Provider.Life.{Lived-trans}
use koven.Provider.Life.Settlements.{save_settlement-Lived}
use koven.Provider.Life.Queued.{PaidIn, PaidIn-Lived}
use koven.Provider.Payments.{Texts}
use koven.Provider.Life.Reported.{Says, Says-Lived}
use koven.Provider.Life.History.{Call}
use koven.Provider.Server.Steps.{To, stays, reconcile-To}
use koven.Provider.Server.{
  PaidScanServer, Answers, Response, report, payment_required, processing, wait, reconcile,
  on_confirmation, finish_confirmed, respond_after, after_saving, save_settled, ignore_unconfirmed,
  is_unconfirmed, unconfirmed_error, stored_response, keep_settlement, complete_with,
  complete_and_read, is_unconfirmed_code, Confirmation, confirmed, refused, broken, respond_current,
  respond_with_existing,
}

-- A response that carries a report comes with a settlement of the payment with an id.
abbrev pub Released : Texts → String → Result Response × ProviderDb → Type 0
Released t id (ok (report r header), s) = PaidIn s.payments id × Says t id r s
Released t id (ok payment_required, s) = Unit {0}
Released t id (ok processing, s) = Unit {0}
Released t id (err e, s) = Unit {0}

module _ {Body : Type 0} (v : PaidScanServer Body) (id : String) where
  -- The payments live on, and a report is released with a settlement.
  abbrev pub Ends : ProviderDb → Result Response × ProviderDb → Type 0
  Ends s o = To v s o.1 × Released v.texts id o

  pub then_Ends :
      {A : Type 0} (m : Exec ProviderDb A) (f : A → Exec ProviderDb Response) (s : ProviderDb)
      → To v s (m s).1
      → ((a : A) (u : ProviderDb) → m s ≡ (ok a, u) → To v s u → Ends u (f a u))
      → Ends s ((m >>= f) s)
  then_Ends {A} m f s l k = split (m s) refl l
    where
      split : (r : Result A × ProviderDb) → m s ≡ r → To v s r.1 → Ends s (continue f r)
      split (ok a, u) e p =
          let (to, out) = k a u e p in (Lived-trans v.texts s u (f a u).1 p to, out)
      split (err x, u) e p = (p, tt)

  pub trans_Ends :
      (s u : ProviderDb) (o : Result Response × ProviderDb) → To v s u → Ends u o → Ends s o
  trans_Ends s u o l (to, out) = (Lived-trans v.texts s u o.1 l to, out)

  -- The responses from a stored payment.
  respond_current-Ends :
      (b : Bool) (s : ProviderDb) (o : Option StoredPayment)
      → ((p : StoredPayment) → o ≡ some p → payment_in id s ≡ some p)
      → Ends s (respond_current v b o s)
  unfolding respond_current
  respond_current-Ends true s none k = (stays v s, tt)
  respond_current-Ends false s none k = (stays v s, tt)
  respond_current-Ends b s (some p) k = elim (Bool-cases (is_failed p.status)) [
    | inl y ↦ rw y (stays v s, tt)
    | inr n ↦ rw n (stored b p.report refl)
  ]
    where
      stored :
          (b : Bool) (o : Option ScanReport) → p.report ≡ o → Ends s (stored_response v b p o s)
      stored true none e = (stays v s, tt)
      stored false none e = (stays v s, tt)
      stored b (some r) e = elim (Bool-cases (is_none p.settlement)) [
        | inr n ↦ rw n (
          stays v s,
          (
            record { row = p; found = k p refl; settled = n },
            record {
              row = p;
              found = k p refl;
              has = record { kept = r; stored = e; same = refl };
            },
          ),
        )
        | inl y ↦ rw y (missing b)
      ]
        where
          missing : (b : Bool) → Ends s ((if b then throw unconfirmed_error else pure processing) s)
          missing true = (stays v s, tt)
          missing false = (stays v s, tt)

  -- What a reconciliation returns is the row.
  complete_and_read-row :
      (at : String) (now : ℕ) (r : StoredPayment) (s : ProviderDb) {o : Option StoredPayment}
      {s' : ProviderDb}
      → complete_and_read v id at now r s ≡ (ok o, s')
      → o ≡ payment_in id s'
  unfolding complete_and_read
  complete_and_read-row at now r s {o} {s'} h =
      let (a, u, h1, last) =
        >>=-eq-ok {B = Option StoredPayment} (complete_with v id at now r) (λ a. get_payment id) s
          h in
      gets-eq-ok (payment_in id) u {a = o} {t = s'} last

  finish_confirmed-row :
      (at : String) (now : ℕ) (r : StoredPayment) (s : ProviderDb) {o : Option StoredPayment}
      {s' : ProviderDb}
      → r.transaction_id ≡ id
      → finish_confirmed v at now r s ≡ (ok o, s')
      → o ≡ payment_in id s'
  unfolding finish_confirmed
  finish_confirmed-row at now r s {o} {s'} at_id h =
      let (a, u, h1, rest) =
        >>=-eq-ok {A = Unit {0}} {B = Option StoredPayment} (keep_settlement v r now)
          (λ a. do
            found ← get_payment r.transaction_id
            current ← or_throw found plain_error
            complete_and_read v r.transaction_id at now current)
          s h in
      elim (Option-cases (payment_in r.transaction_id u)) [
        | inl e ↦ absurd (cc (rw e at rest))
        | inr (p, e) ↦
            let last = rw e at rest in
            complete_and_read-row at now p u {o = o} {s' = s'} (rw at_id at last)
      ]

  on_confirmation-row :
      (c : Confirmation) (now : ℕ) (r : StoredPayment) (s : ProviderDb) {o : Option StoredPayment}
      {s' : ProviderDb}
      → r.transaction_id ≡ id
      → on_confirmation v c now r s ≡ (ok o, s')
      → o ≡ payment_in id s'
  unfolding on_confirmation
  on_confirmation-row (confirmed at) now r s {o} {s'} at_id h =
      finish_confirmed-row at now r s {o = o} {s' = s'} at_id h
  on_confirmation-row (refused code) now r s {o} {s'} at_id h =
      let (p, u, h1, rest) =
        >>=-eq-ok {A = StoredPayment} {B = Option StoredPayment}
          (record_unconfirmed_settlement r.transaction_id now (is_unconfirmed_code code))
          (λ a. throw (settlement_confirmation_error code)) s h in
      absurd (cc rest)
  on_confirmation-row broken now r s at_id h = absurd (cc h)

  reconcile-row :
      (others : List Call) (c : Confirmation) (now : ℕ) (r : StoredPayment) (s : ProviderDb)
      {p : StoredPayment} {s' : ProviderDb}
      → payment_in id s ≡ some r
      → reconcile v others c now r s ≡ (ok (some p), s')
      → payment_in id s' ≡ some p
  unfolding reconcile
  reconcile-row others c now r s {p} {s'} e h = elim (Bool-cases (is_over r)) [
    | inl y ↦
        let done = rw y at h in
        cc (e, ap (λ (x : ProviderDb). payment_in id x) (ap (λ x. x.1) done))
    | inr n ↦ elim (Bool-cases (is_prepared r)) [
      | inr m ↦ absurd (cc (rw (n, m) at h))
      | inl y ↦
          let rest = rw (n, y) at h in
          let (a, u, h1, last) =
            >>=-eq-ok {A = Unit {0}} {B = Option StoredPayment} (wait v others)
              (λ a. on_confirmation v c now r) s rest in
          sym (
            on_confirmation-row c now r u {o = some p} {s' = s'}
              (select-key payment_key id s.payments e) last)
    ]
  ]

  -- A settlement that is saved is there.
  save_settlement-PaidIn :
      (x : SettleResponse) (header : String) (now : ℕ) (s : ProviderDb) {s' : ProviderDb}
      → save_settlement v.texts id x header now s ≡ (ok tt, s')
      → PaidIn s'.payments id
  unfolding save_settlement
  save_settlement-PaidIn x header now s {s'} h = elim (Option-cases (payment_in id s)) [
    | inl e ↦ absurd (ground arith)
    | inr (r, e) ↦
        let key : r.transaction_id ≡ id = select-key payment_key id s.payments e in
        let hit : has_key payment_key id r && any r ≡ true =
          ground (arith, (eq_iff r.transaction_id id).1 key) in
        let after : (update_payment id any (with_settlement x header now) s).1 ≡ s' =
          ground arith in
        rw (← after) (record {
          row = with_settlement x header now r;
          found =
              select-update payment_key (λ r. has_key payment_key id r && any r)
                (with_settlement x header now) id s.payments (λ r. refl)
              ∙ rw (e, hit) refl;
          settled = refl;
        })
  ]

  pub respond_with_existing-Ends :
      (x : Answers) (r : StoredPayment) (s : ProviderDb)
      → payment_in id s ≡ some r
      → Ends s (respond_with_existing v x r s)
  unfolding respond_with_existing respond_after
  respond_with_existing-Ends x r s e = after _ refl
    where
      to :
          {y : Result (Option StoredPayment)} (u : ProviderDb)
          → reconcile v x.while_confirming x.confirmation x.later r s ≡ (y, u)
          → To v s u
      to u h =
          subst (λ o. To v s o.1) h (reconcile-To v x.while_confirming x.confirmation x.later r s)

      after :
          (o : Result (Option StoredPayment) × ProviderDb)
          → reconcile v x.while_confirming x.confirmation x.later r s ≡ o
          → Ends s (respond_after v r.transaction_id o)
      after (ok none, u) h =
          trans_Ends s u _ (to u h) (respond_current-Ends false u none (λ p eq. absurd (cc eq)))
      after (ok (some p), u) h = trans_Ends s u _ (to u h) (
          respond_current-Ends false u (some p) (λ q eq.
            let row : payment_in id u ≡ some p =
              reconcile-row x.while_confirming x.confirmation x.later r s {p = p} {s' = u} e h in
            row ∙ eq))
      after (err y, u) h = elim (Bool-cases (is_unconfirmed y)) [
        | inr n ↦ rw n (to u h, tt)
        | inl k ↦ rw k (
            trans_Ends s u _ (to u h) (
              respond_current-Ends true u (payment_in r.transaction_id u) (λ p eq.
                subst (λ i. payment_in i u ≡ some p) (select-key payment_key id s.payments e) eq)))
      ]

  after_saving-Ends :
      (x : Answers) (r : ScanReport) (header : String) (s : ProviderDb)
      → PaidIn s.payments id
      → Says v.texts id r s
      → Ends s (after_saving v id x r header s)
  unfolding after_saving
  after_saving-Ends x r header s p says = rw p.found (
      ended (reconcile v x.while_confirming x.confirmation x.later p.row s)
        (reconcile-To v x.while_confirming x.confirmation x.later p.row s))
    where
      kept : (u : ProviderDb) → To v s u → PaidIn u.payments id
      kept u l = PaidIn-Lived v.texts id s u l p

      said : (u : ProviderDb) → To v s u → Says v.texts id r u
      said u l = Says-Lived v.texts id r s u says l

      ended :
          (o : Result (Option StoredPayment) × ProviderDb)
          → To v s o.1
          → Ends s (continue (λ a. pure (report r (some header))) (caught (ignore_unconfirmed v) o))
      ended (ok o, u) l = (l, (kept u l, said u l))
      ended (err e, u) l = elim (Bool-cases (is_unconfirmed e)) [
        | inl y ↦ rw y (l, (kept u l, said u l))
        | inr n ↦ rw n (l, tt)
      ]

  pub save_settled-Ends :
      (x : Answers) (r : ScanReport) (settlement : SettleResponse) (header : String)
      (s : ProviderDb)
      → Says v.texts id r s
      → Ends s (save_settled v id x r settlement header s)
  unfolding save_settled
  save_settled-Ends x r settlement header s says =
      then_Ends (save_settlement v.texts id settlement header x.later)
        (λ a. after_saving v id x r header) s
        (save_settlement-Lived v.texts id x.later s settlement header)
        (λ a u h l.
          after_saving-Ends x r header u
            (save_settlement-PaidIn settlement header x.later s {s' = u} h)
            (Says-Lived v.texts id r s u says l))
