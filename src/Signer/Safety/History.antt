-- ===== src/Signer/Safety/History.antt =====
-- The store of services/restricted-signer/src/store.ts over a whole history: any calls, in any order,
-- from an empty database. An error is caught by the server and leaves the state that the call left.
use koven.Prelude.{
  ℕ, ◌≤◌, ◌≡◌, refl, String, Option, some, Bool, List, [], ◌∷◌, same_text, All, arith, eq_iff,
  if◌then◌else◌,
}
use koven.Domain.Credit.{Loan, UnsignedCreditRequest, CreditAcceptance, CreditOffer}
use koven.Sql.{has_key, sum}
use koven.Sql.Laws.{All-select, select-key}
use koven.Persistence.Db.{SessionRow, MissionRow, NonceRow}
use koven.Persistence.Missions.{mission_key, session_key, find_session}
use koven.Persistence.Budget.{
  amount_for, spent_in, MissionLedger, SessionLedger, SessionWithin, MissionWithin,
}
use koven.Signer.Types.{
  MissionPolicy, PolicyRow, StoredAuthorization, StoredCompletion, RepaymentStatus, SignerDb, empty,
}
use koven.Signer.Store.Policy.{find_policy, policy_key, register_mission_policy}
use koven.Signer.Store.Authorization.{reserve_authorization}
use koven.Signer.Store.Credit.{save_credit_request, save_acceptance}
use koven.Signer.Store.Loan.{register_funded_loan, mark_loan_repaid}
use koven.Signer.Store.Completion.{record_completion}
use koven.Signer.Store.Repayment.{PreparedRepayment, save_repayment, update_repayment}
use koven.Signer.Safety.{Mirrored, Backed, IsSafe, authorized_for}
use koven.Signer.Safety.Frame.{
  save_credit_request-Frame, save_acceptance-Frame, record_completion-Frame, save_repayment-Frame,
  update_repayment-Frame, mark_loan_repaid-Frame, register_funded_loan-Frame,
}
use koven.Signer.Safety.Keeps.{Frame-IsSafe, reserve_authorization-IsSafe}
use koven.Signer.Safety.Register.{register_mission_policy-IsSafe}

-- A call of the store that writes.
pub data Call : Type 0 where
  policy : MissionPolicy → String → Option (String → String) → Call
  authorization : StoredAuthorization → String → Call
  credit_request : UnsignedCreditRequest → String → Call
  acceptance : CreditOffer → CreditAcceptance → String → Call
  funded_loan : Loan → String → Call
  repaid_loan : String → String → Call
  completion : StoredCompletion → String → String → Call
  repayment : String → PreparedRepayment → Call
  repayment_status : String → RepaymentStatus → Option String → Call

-- `canonicalHash` on each kind of document, and the verdict of the policy's schema.
pub record Canonical : Type 0 where
  pub of_policy : MissionPolicy → String
  pub of_request : UnsignedCreditRequest → String
  pub of_acceptance : CreditAcceptance → String
  pub conforms : MissionPolicy → Bool

module _ (c : Canonical) where
  unfoldable pub step : Call → SignerDb → SignerDb
  step (policy p now root) s = (register_mission_policy c.of_policy c.conforms p now root s).1
  step (authorization a now) s = (reserve_authorization a now s).1
  step (credit_request r sig) s = (save_credit_request c.of_request r sig s).1
  step (acceptance o a sig) s = (save_acceptance c.of_acceptance o a sig s).1
  step (funded_loan l tx) s = (register_funded_loan l tx s).1
  step (repaid_loan loan_id tx) s = (mark_loan_repaid loan_id tx s).1
  step (completion d key request_hash) s = (record_completion d key request_hash s).1
  step (repayment loan_id p) s = (save_repayment loan_id p s).1
  step (repayment_status loan_id status detail) s = (update_repayment loan_id status detail s).1

  unfoldable pub run : List Call → SignerDb → SignerDb
  run [] s = s
  run (d ∷ ds) s = run ds (step d s)

  step-IsSafe : (d : Call) (s : SignerDb) → IsSafe s → IsSafe (step d s)
  unfolding step
  step-IsSafe (policy p now root) s h =
      register_mission_policy-IsSafe c.of_policy c.conforms p now root s h
  step-IsSafe (authorization a now) s h = reserve_authorization-IsSafe a now s h
  step-IsSafe (credit_request r sig) s h =
      Frame-IsSafe s _ (save_credit_request-Frame c.of_request r sig s) h
  step-IsSafe (acceptance o a sig) s h =
      Frame-IsSafe s _ (save_acceptance-Frame c.of_acceptance o a sig s) h
  step-IsSafe (funded_loan l tx) s h = Frame-IsSafe s _ (register_funded_loan-Frame l tx s) h
  step-IsSafe (repaid_loan i tx) s h = Frame-IsSafe s _ (mark_loan_repaid-Frame i tx s) h
  step-IsSafe (completion d key r) s h = Frame-IsSafe s _ (record_completion-Frame d key r s) h
  step-IsSafe (repayment i p) s h = Frame-IsSafe s _ (save_repayment-Frame i p s) h
  step-IsSafe (repayment_status i t d) s h = Frame-IsSafe s _ (update_repayment-Frame i t d s) h

  pub run-IsSafe : (ds : List Call) (s : SignerDb) → IsSafe s → IsSafe (run ds s)
  unfolding run
  run-IsSafe [] s h = h
  run-IsSafe (d ∷ ds) s h = run-IsSafe ds (step d s) (step-IsSafe d s h)

  empty-IsSafe : IsSafe empty
  empty-IsSafe = record {
    budgeted = record {
      missions_keyed = tt;
      sessions_keyed = tt;
      missions_within = tt;
      sessions_within = tt;
      mission_ledgers = tt;
      session_ledgers = tt;
      nonces_known = tt;
      sessions_known = tt;
      no_replay = tt;
    };
    mirrored = tt;
    policies_keyed = tt;
    policies_backed = tt;
  }

  -- After any history of calls the store is safe: every mission's and session's spending is what its
  -- nonces and missions add up to and within its cap, no nonce or commitment is consumed twice, each
  -- stored authorization has its nonce, and each policy has its mission with the policy's cap and session.
  pub history-IsSafe : (ds : List Call) → IsSafe (run ds empty)
  history-IsSafe ds = run-IsSafe ds empty empty-IsSafe

-- The authorizations add up to the nonces.
sum-Mirrored :
    (id : String) (auths : List StoredAuthorization) (ns : List NonceRow)
    → Mirrored auths ns
    → sum (authorized_for id) auths ≡ sum (amount_for id) ns
sum-Mirrored id [] [] h = refl
sum-Mirrored id (a ∷ auths) (n ∷ ns) h =
    ground (arith, sum-Mirrored id auths ns, eq_iff a.mission_id id, eq_iff n.mission_id id)
sum-Mirrored id [] (n ∷ ns) h = elim h [ ]
sum-Mirrored id (a ∷ auths) [] h = elim h [ ]

authorized-le-cap :
    (s : SignerDb) (id : String) (p : PolicyRow)
    → IsSafe s
    → find_policy id s ≡ some p
    → sum (authorized_for id) s.authorizations ≤ p.policy.spending_cap_tinybar
authorized-le-cap s id p h e =
    let k =
      All-select (Backed s.db.missions) (has_key policy_key id) s.policies h.policies_backed e in
    let within =
      All-select MissionWithin (has_key mission_key p.mission_id) s.db.missions
        h.budgeted.missions_within k.found in
    let ledger =
      All-select (MissionLedger s.db.nonces) (has_key mission_key p.mission_id) s.db.missions
        h.budgeted.mission_ledgers k.found in
    let row_id = select-key mission_key p.mission_id s.db.missions k.found in
    let policy_id = select-key policy_key id s.policies e in
    rw
      (
        sum-Mirrored id s.authorizations s.db.nonces h.mirrored,
        ← policy_id,
        ← row_id,
        ← ledger,
        ← k.cap,
      )
      within

-- Whatever calls reach the signer's store, the payments that it has authorized for a mission never add up to more than
-- the spending cap of the mission's registered policy.
pub history-cap :
    (c : Canonical) (ds : List Call) (id : String) (p : PolicyRow)
    → find_policy id (run c ds empty) ≡ some p
    → sum (authorized_for id) (run c ds empty).authorizations ≤ p.policy.spending_cap_tinybar
history-cap c ds id p e = authorized-le-cap (run c ds empty) id p (history-IsSafe c ds) e

-- What the missions of a session have been authorized to pay.
abbrev pub authorized_in : List StoredAuthorization → String → MissionRow → ℕ
authorized_in auths id m =
    if same_text m.session_id (some id) then sum (authorized_for m.id) auths else 0

sum-authorized_in :
    (id : String) (auths : List StoredAuthorization) (ns : List NonceRow) (ms : List MissionRow)
    → Mirrored auths ns
    → All (MissionLedger ns) ms
    → sum (authorized_in auths id) ms ≡ sum (spent_in id) ms
sum-authorized_in id auths ns [] h l = refl
sum-authorized_in id auths ns (m ∷ ms) h l =
    ground (arith, sum-authorized_in id auths ns ms h l.1, sum-Mirrored m.id auths ns h)

-- Whatever calls reach the signer's store, the payments that it has authorized for all the missions of a session together never
-- add up to more than the session's cap.
pub history-session_cap :
    (c : Canonical) (ds : List Call) (id : String) (r : SessionRow)
    → let s = run c ds empty in
      find_session id s.db ≡ some r
      → sum (authorized_in s.authorizations id) s.db.missions ≤ r.spending_cap
history-session_cap c ds id r e =
    let s = run c ds empty in
    let h = history-IsSafe c ds in
    let within =
      All-select SessionWithin (has_key session_key id) s.db.sessions h.budgeted.sessions_within
        e in
    let ledger =
      All-select (SessionLedger s.db.missions) (has_key session_key id) s.db.sessions
        h.budgeted.session_ledgers e in
    let row_id = select-key session_key id s.db.sessions e in
    rw
      (
        sum-authorized_in id s.authorizations s.db.nonces s.db.missions h.mirrored
            h.budgeted.mission_ledgers,
        ← row_id,
        ← ledger,
      )
      within
