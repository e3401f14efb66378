-- ===== src/Orchestrator/Repay/Closed.antt =====
-- When apps/orchestrator/src/workflows/repay.ts answers with a repayment, its mission is closed.
use koven.Prelude.{
  ◌≡◌, refl, sym, ap, ◌∙◌, subst, String, Option, none, some, arith, Bool-cases, Option-cases, inl,
  inr, ◌⊎◌, some_inj,
}
use koven.Domain.Mission.{
  MissionState, completed, repayment_pending, repaid, closed, same_state, same_state_iff,
}
use koven.Domain.Credit.{Loan}
use koven.Exec.{Exec, Result, ok, pure, lift, or_throw, ◌>>=◌}
use koven.Exec.Laws.{>>=-eq-ok}
use koven.Sql.{IsKeyed, select, has_key}
use koven.Persistence.Db.{Db, MissionRow}
use koven.Persistence.Missions.{PersistedMission, mission_key, find_mission, get_mission}
use koven.Persistence.Missions.Transition.{transition_mission-Moved, transition_mission-IsKeyed}
use koven.Persistence.Loans.{loan_of_mission, update_loan_state}
use koven.Orchestrator.Machine.{Machine, TransitionAudit, transition, missing}
use koven.Orchestrator.Machine.Life.{KeepsMissions, transition-ok}
use koven.Orchestrator.Repay.{
  RepaymentWorkflow, RepaymentRun, nothing, set_local_repaid, closed_evidence, completed_audit,
  settled_audit, close_without_credit, request_repayment, pay_loan, close_repaid, settle_loan,
  with_loan, run_locked,
}

-- The mission is there, in this state.
pub record IsIn (id : String) (state : MissionState) (s : Db) : Type 0 where
  pub row : MissionRow
  pub found : find_mission id s ≡ some row
  pub is : row.state ≡ state

set_local_repaid-KeepsMissions :
    (m : Machine) (loan_id tx : String) → KeepsMissions m (set_local_repaid loan_id tx)
unfolding set_local_repaid update_loan_state
set_local_repaid-KeepsMissions m loan_id tx db = ground arith

transition-IsIn :
    (m : Machine) (id : String) (from to : MissionState) (audit : TransitionAudit) (now : String)
    (persist : Exec Db (Unit {0})) (s s' : Db) (p : PersistedMission)
    → KeepsMissions m persist
    → IsKeyed mission_key s.missions
    → transition m id from to audit now persist s ≡ (ok p, s')
    → IsKeyed mission_key s'.missions × IsIn id to s'
transition-IsIn m id from to audit now persist s s' p keeps keyed h =
    let (u, step, same) = transition-ok m id from to audit now persist s s' p keeps h in
    let is = transition_mission-Moved id from to now s {db' = u} keyed step in
    (
      subst (IsKeyed mission_key) (sym same)
          (transition_mission-IsKeyed id from to now s {db' = u} keyed step),
      record {
        row = record is.row { state = to; updated_at = now };
        found = ap (select (has_key mission_key id)) same ∙ is.moved;
        is = refl;
      },
    )

-- A mission that is read is there, in the state that it is read in.
get_mission-IsIn :
    (id : String) (p : PersistedMission) (s t : Db)
    → get_mission id s ≡ (ok (some p), t)
    → (t ≡ s) × IsIn id p.mission.state s
unfolding get_mission
get_mission-IsIn id p s t h = elim (Option-cases (find_mission id s)) [
  | inl absent ↦ absurd (ground arith)
  | inr (row, found) ↦ (ground arith, record { row = row; found = found; is = ground arith })
]

loan_of_mission-state :
    (id : String) (o : Option Loan) (s t : Db) → loan_of_mission id s ≡ (ok o, t) → t ≡ s
unfolding loan_of_mission
loan_of_mission-state id o s t h = ground arith

module _ (w : RepaymentWorkflow) (id : String) (x : RepaymentRun)
    (others : (db : Db)
      → IsKeyed mission_key db.missions
      → IsKeyed mission_key (x.while_paying db).missions) where
  -- What shows that the loan is repaid: the signer's answer, or the loan's row.
  abbrev pub Evidence : Loan → String → Type 0
  Evidence loan tx = (x.answer ≡ ok tx) ⊎ (loan.repayment_tx_id ≡ some tx)

  request_repayment-IsKeyed :
      (loan : Loan) (state to : MissionState) (s t : Db)
      → IsKeyed mission_key s.missions
      → request_repayment w id x loan state s ≡ (ok to, t)
      → IsKeyed mission_key t.missions
  unfolding request_repayment
  request_repayment-IsKeyed loan state to s t keyed h =
      elim (Bool-cases (same_state state completed)) [
        | inl y ↦
            let audit = completed_audit w id x (w.loan_payload loan.id) in
            let (p, u, moved, last) =
              >>=-eq-ok {A = PersistedMission} {B = MissionState}
                (transition w.machine id completed repayment_pending audit x.now nothing)
                (λ p. pure p.mission.state) s (rw y at h) in
            let kept : u ≡ t = ap (λ (o : Result MissionState × Db). o.1) last in
            subst (λ (v : Db). IsKeyed mission_key v.missions) kept
              (transition-IsIn w.machine id completed repayment_pending audit x.now nothing s u p
                (λ db. refl) keyed moved).0
        | inr n ↦
            let kept : s ≡ t = ap (λ (o : Result MissionState × Db). o.1) (rw n at h) in
            subst (λ (v : Db). IsKeyed mission_key v.missions) kept keyed
      ]

  pay_loan-Evidence :
      (loan : Loan) (state to : MissionState) (paid : Option String) (s t : Db)
      → IsKeyed mission_key s.missions
      → pay_loan w id x loan state s ≡ (ok (to, paid), t)
      → IsKeyed mission_key t.missions × ((tx : String) → paid ≡ some tx → Evidence loan tx)
  unfolding pay_loan
  pay_loan-Evidence loan state to paid s t keyed h =
      elim (Bool-cases (same_state state repayment_pending)) [
        | inl y ↦
            let (tx, u, answered, rest) =
              >>=-eq-ok {A = String} {B = MissionState × Option String} (lift x.answer)
                (λ tx. do
                  p ←
                      transition w.machine id repayment_pending repaid
                        (settled_audit w id x loan tx) x.now (set_local_repaid loan.id tx)
                  pure (p.mission.state, some tx))
                (x.while_paying s) (rw y at h) in
            let (p, v, moved, last) =
              >>=-eq-ok {A = PersistedMission} {B = MissionState × Option String}
                (transition w.machine id repayment_pending repaid (settled_audit w id x loan tx)
                  x.now (set_local_repaid loan.id tx))
                (λ p. pure (p.mission.state, some tx)) u rest in
            let same : x.while_paying s ≡ u = ap (λ (o : Result String × Db). o.1) answered in
            let kept : v ≡ t = ap (λ (o : Result (MissionState × Option String) × Db). o.1) last in
            (
              subst (λ (v : Db). IsKeyed mission_key v.missions) kept
                  (transition-IsIn w.machine id repayment_pending repaid
                    (settled_audit w id x loan tx) x.now (set_local_repaid loan.id tx) u v p
                    (set_local_repaid-KeepsMissions w.machine loan.id tx)
                    (subst (λ (v : Db). IsKeyed mission_key v.missions) same (others s keyed))
                    moved).0,
              λ tx' e.
                  let was : some tx ≡ paid = ground arith in
                  inl (ap (λ (o : Result String × Db). o.0) answered ∙ ap ok (some_inj (was ∙ e))),
            )
        | inr n ↦
            let kept : s ≡ t =
              ap (λ (o : Result (MissionState × Option String) × Db). o.1) (rw n at h) in
            let was : loan.repayment_tx_id ≡ paid = ground arith in
            (subst (λ (v : Db). IsKeyed mission_key v.missions) kept keyed, λ tx e. inr (was ∙ e))
      ]

  close_repaid-IsIn :
      (loan : Loan) (state : MissionState) (paid : Option String) (tx : String) (s t : Db)
      → IsKeyed mission_key s.missions
      → close_repaid w id x loan (state, paid) s ≡ (ok (some tx), t)
      → IsIn id closed t × (paid ≡ some tx)
  unfolding close_repaid
  close_repaid-IsIn loan state none tx s t keyed h = absurd (ground arith)
  close_repaid-IsIn loan state (some a) tx s t keyed h =
      elim (Bool-cases (same_state state repaid)) [
        | inl y ↦
            let (p, u, moved, last) =
              >>=-eq-ok {A = PersistedMission} {B = Option String}
                (transition w.machine id repaid closed (settled_audit w id x loan a) x.now nothing)
                (λ p. pure (some a)) s (rw y at h) in
            let kept : u ≡ t = ap (λ (o : Result (Option String) × Db). o.1) last in
            (
              subst (IsIn id closed) kept
                  (transition-IsIn w.machine id repaid closed (settled_audit w id x loan a) x.now
                    nothing s u p (λ db. refl) keyed moved).1,
              ground arith,
            )
        | inr n ↦ absurd (cc (rw n at h))
      ]

  settle_loan-IsIn :
      (state : MissionState) (loan : Loan) (tx : String) (s t : Db)
      → IsKeyed mission_key s.missions
      → settle_loan w id x state loan s ≡ (ok (some tx), t)
      → IsIn id closed t × Evidence loan tx
  unfolding settle_loan
  settle_loan-IsIn state loan tx s t keyed h =
      let (requested, u, asked, rest) =
        >>=-eq-ok {A = MissionState} {B = Option String} (request_repayment w id x loan state)
          (λ requested. pay_loan w id x loan requested >>= close_repaid w id x loan) s h in
      let ((to, paid), v, settled, last) =
        >>=-eq-ok {A = MissionState × Option String} {B = Option String}
          (pay_loan w id x loan requested) (close_repaid w id x loan) u rest in
      let keyed' = request_repayment-IsKeyed loan state requested s u keyed asked in
      let (kept, shown) = pay_loan-Evidence loan requested to paid u v keyed' settled in
      let (ended, same) = close_repaid-IsIn loan to paid tx v t kept last in (ended, shown tx same)

  closed_evidence-tx :
      (loan : Loan) (tx : String) (s t : Db)
      → closed_evidence loan s ≡ (ok (some tx), t)
      → (t ≡ s) × (loan.repayment_tx_id ≡ some tx)
  unfolding closed_evidence
  closed_evidence-tx loan tx s t h = (ground arith, ground arith)

  not_without_credit :
      (state : MissionState) (tx : String) (s t : Db)
      → close_without_credit w id x state s ≡ (ok (some tx), t)
      → ⊥
  unfolding close_without_credit
  not_without_credit state tx s t h = elim (Bool-cases (same_state state completed)) [
    | inl y ↦
        let (p, u, moved, last) =
          >>=-eq-ok {A = PersistedMission} {B = Option String}
            (transition w.machine id completed closed
              (completed_audit w id x w.without_credit_payload) x.now nothing)
            (λ p. pure none) s (rw y at h) in
        cc last
    | inr n ↦ cc (rw n at h)
  ]

  -- A run that answers with a repayment: the mission's loan, what shows its repayment, the mission closed.
  pub record IsRepaid (tx : String) (s t : Db) : Type 0 where
    pub loan : Loan
    pub of_mission : loan_of_mission id s ≡ (ok (some loan), s)
    pub evidence : Evidence loan tx
    pub ended : IsIn id closed t

  with_loan-IsRepaid :
      (state : MissionState) (o : Option Loan) (tx : String) (s t : Db)
      → IsKeyed mission_key s.missions
      → IsIn id state s
      → loan_of_mission id s ≡ (ok o, s)
      → with_loan w id x state o s ≡ (ok (some tx), t)
      → IsRepaid tx s t
  unfolding with_loan
  with_loan-IsRepaid state none tx s t keyed there of_mission h =
      absurd (not_without_credit state tx s t h)
  with_loan-IsRepaid state (some loan) tx s t keyed there of_mission h =
      elim (Bool-cases (same_state state closed)) [
        | inl y ↦
            let (kept, shown) = closed_evidence-tx loan tx s t (rw y at h) in
            record {
              loan = loan;
              of_mission = of_mission;
              evidence = inr shown;
              ended = subst (IsIn id closed) (sym kept) (record {
                row = there.row;
                found = there.found;
                is = there.is ∙ (same_state_iff state closed).0 y;
              });
            }
        | inr n ↦
            let (ended, evidence) = settle_loan-IsIn state loan tx s t keyed (rw n at h) in
            record { loan = loan; of_mission = of_mission; evidence = evidence; ended = ended }
      ]

  -- A run that answers with a transaction has closed the mission. Whatever others do to the tables while the
  -- signer's answer is awaited, if they keep the ids of missions unique, and those are unique at first: the
  -- mission has one loan, the transaction is the one that the signer has answered with or that stood in the
  -- loan's row, and the mission is closed at the end.
  pub run_locked-IsRepaid :
      (tx : String) (s t : Db)
      → IsKeyed mission_key s.missions
      → run_locked w id x s ≡ (ok (some tx), t)
      → IsRepaid tx s t
  unfolding run_locked
  run_locked-IsRepaid tx s t keyed h =
      let (found, u, read, rest) =
        >>=-eq-ok {A = Option PersistedMission} {B = Option String} (get_mission id)
          (λ found. do
            mission ← or_throw found missing
            loan ← loan_of_mission id
            with_loan w id x mission.mission.state loan)
          s h in
      read_on found u read rest
    where
      read_on :
          (found : Option PersistedMission) (u : Db)
          → get_mission id s ≡ (ok found, u)
          → (do
            mission ← or_throw found missing
            loan ← loan_of_mission id
            with_loan w id x mission.mission.state loan)
              u
            ≡ (ok (some tx), t)
          → IsRepaid tx s t
      read_on none u read rest = absurd (cc rest)
      read_on (some p) u read rest =
          let (o, v, loaned, last) =
            >>=-eq-ok {A = Option Loan} {B = Option String} (loan_of_mission id)
              (with_loan w id x p.mission.state) u rest in
          let (kept, there) = get_mission-IsIn id p s u read in
          let same : v ≡ s = loan_of_mission-state id o u v loaned ∙ kept in
          with_loan-IsRepaid p.mission.state o tx s t keyed there
            (subst (λ d. loan_of_mission id s ≡ (ok o, d)) same
              (subst (λ d. loan_of_mission id d ≡ (ok o, v)) kept loaned))
            (subst (λ d. with_loan w id x p.mission.state o d ≡ (ok (some tx), t)) same last)
