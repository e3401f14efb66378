-- ===== src/Signer/Gate/Once.antt =====
-- What the payment gate of services/restricted-signer/src/gate.ts never authorizes twice.
use koven.Prelude.{
  ◌≡◌, refl, sym, ap, subst, ◌∙◌, ℕ, String, Option, none, some, Bool, true, false, List, [], ◌∷◌,
  ◌&&◌, ◌==◌, is_none, arith, eq_refl, Bool-cases, Option-cases, inl, inr,
}
use koven.Exec.{Result, ok, ◌>>=◌}
use koven.Exec.Laws.{transaction-keeps, >>=-keeps}
use koven.Sql.{select, exists, has_key}
use koven.Sql.Laws.{All-select, select-key}
use koven.Persistence.Db.{NonceRow}
use koven.Persistence.Nonces.{has_nonce}
use koven.Persistence.Nonces.Reserve.{reserve_spending-ok}
use koven.Signer.Types.{MissionPolicy, StoredAuthorization, SignerDb, empty, on_db}
use koven.Signer.Store.Policy.{
  find_policy, policy_key, get_mission_policy, register_mission_policy, register_body, register_row,
  insert_policy, ensure_session, store_policy, keep_policy, policy_mission, Registration,
}
use koven.Signer.Store.Codes.{with_codes}
use koven.Persistence.Missions.{SpendingSession, create_mission, get_spending_session}
use koven.Signer.Store.Authorization.{reserve_authorization, reserve_body, reservation}
use koven.Signer.Safety.{Mirrored, Backed, IsSafe}
use koven.Signer.Safety.Frame.{
  Frame, save_credit_request-Frame, save_acceptance-Frame, record_completion-Frame,
  save_repayment-Frame, update_repayment-Frame, mark_loan_repaid-Frame, register_funded_loan-Frame,
}
use koven.Signer.Safety.Keeps.{reserve_body-ok, reserve_authorization-IsSafe}
use koven.Signer.Safety.History.{
  Call, Canonical, policy, authorization, credit_request, acceptance, funded_loan, repaid_loan,
  completion, repayment, repayment_status, step, run, run-IsSafe, history-IsSafe,
}
use koven.Signer.Gate.{AuthorizeRequest, AuthorizeResponse, Gate, authorize}
use koven.Signer.Gate.Allowed.{authorize-halves, authorize_checked-IsAuthorized, row_of}
use koven.Signer.Gate.Refused.{reserve_authorization-ok}

-- An authorization with this mission and nonce.
abbrev is_of : String → String → StoredAuthorization → Bool
is_of mission nonce a = a.mission_id == mission && a.nonce == nonce

abbrev Held : String → String → SignerDb → Type 0
Held mission nonce s = exists (is_of mission nonce) s.authorizations ≡ true

-- Its nonce is consumed.
consumed-Held :
    (mission nonce : String) (auths : List StoredAuthorization) (ns : List NonceRow)
    → Mirrored auths ns
    → exists (is_of mission nonce) auths ≡ true
    → is_none (select (has_nonce mission nonce) ns) ≡ false
consumed-Held mission nonce [] [] m h = absurd (cc h)
consumed-Held mission nonce [] (n ∷ ns) m h = elim m [ ]
consumed-Held mission nonce (a ∷ auths) [] m h = elim m [ ]
consumed-Held mission nonce (a ∷ auths) (n ∷ ns) (same_mission, same_nonce, c, amount, rest) h =
    elim (Bool-cases (is_of mission nonce a)) [
      | inl y ↦ rw (same_mission, same_nonce, y) refl
      | inr f ↦
          rw (same_mission, same_nonce, f) (consumed-Held mission nonce auths ns rest (rw f at h))
    ]

module _ (c : Canonical) (mission nonce : String) where
  Frame-Held : (s s' : SignerDb) → Frame s s' → Held mission nonce s → Held mission nonce s'
  Frame-Held s s' f h = rw f.authorizations h

  ensure_session-authorizations :
      (p : MissionPolicy) (o : Option SpendingSession) (s : SignerDb)
      → (ensure_session p o s).1.authorizations ≡ s.authorizations
  unfolding ensure_session
  ensure_session-authorizations p none s = refl
  ensure_session-authorizations p (some session) s = refl

  store_policy-authorizations :
      (p : MissionPolicy) (now : String) (s : SignerDb)
      → (store_policy c.of_policy c.conforms p now s).1.authorizations ≡ s.authorizations
  unfolding store_policy keep_policy
  store_policy-authorizations p now s =
      >>=-keeps (λ (t : SignerDb). t.authorizations ≡ s.authorizations)
        (on_db (create_mission (policy_mission p now) (some p.session_id)))
        (λ u. keep_policy c.of_policy c.conforms p now) s refl (λ u t e k. k)

  insert_policy-authorizations :
      (p : MissionPolicy) (now : String) (s : SignerDb)
      → (insert_policy c.of_policy c.conforms p now s).1.authorizations ≡ s.authorizations
  unfolding insert_policy
  insert_policy-authorizations p now s =
      >>=-keeps (λ (t : SignerDb). t.authorizations ≡ s.authorizations)
        (on_db (get_spending_session p.session_id))
        (λ o. ensure_session p o >>= λ u. store_policy c.of_policy c.conforms p now) s refl
        (λ o t e k.
          >>=-keeps (λ (t' : SignerDb). t'.authorizations ≡ s.authorizations) (ensure_session p o)
            (λ u. store_policy c.of_policy c.conforms p now) t
            (ensure_session-authorizations p o t ∙ k)
            (λ u t' e' k'. store_policy-authorizations p now t' ∙ k'))

  register_body-authorizations :
      (p : MissionPolicy) (now : String) (s : SignerDb)
      → (register_body c.of_policy c.conforms p now s).1.authorizations ≡ s.authorizations
  unfolding register_body register_row
  register_body-authorizations p now s = elim (Option-cases (find_policy p.mission_id s)) [
    | inl missing ↦ rw missing (insert_policy-authorizations p now s)
    | inr (row, found) ↦ rw found refl
  ]

  register-authorizations :
      (p : MissionPolicy) (now : String) (root : Option (String → String)) (s : SignerDb)
      → (register_mission_policy c.of_policy c.conforms p now root s).1.authorizations
        ≡ s.authorizations
  unfolding register_mission_policy with_codes
  register-authorizations p now root s =
      let kept =
        transaction-keeps (λ (t : SignerDb). t.authorizations ≡ s.authorizations)
          (register_body c.of_policy c.conforms p now) s refl
          (λ r t e.
            sym (ap (λ (o : Result Registration × SignerDb). o.1.authorizations) e)
            ∙ register_body-authorizations p now s) in
      ground arith

  step-Held : (d : Call) (s : SignerDb) → Held mission nonce s → Held mission nonce (step c d s)
  unfolding step reserve_authorization
  step-Held (policy p now root) s h = rw (register-authorizations p now root s) h
  step-Held (authorization a now) s h =
      transaction-keeps (Held mission nonce) (reserve_body a now) s h (λ u s' e.
        let (db', spent, eq) = reserve_body-ok a now s s' e in
        rw eq (elim (Bool-cases (is_of mission nonce a)) [ inl y ↦ rw y refl | inr f ↦ rw f h ]))
  step-Held (credit_request r sig) s h =
      Frame-Held s _ (save_credit_request-Frame c.of_request r sig s) h
  step-Held (acceptance o a sig) s h =
      Frame-Held s _ (save_acceptance-Frame c.of_acceptance o a sig s) h
  step-Held (funded_loan l tx) s h = Frame-Held s _ (register_funded_loan-Frame l tx s) h
  step-Held (repaid_loan i tx) s h = Frame-Held s _ (mark_loan_repaid-Frame i tx s) h
  step-Held (completion d key r) s h = Frame-Held s _ (record_completion-Frame d key r s) h
  step-Held (repayment i p) s h = Frame-Held s _ (save_repayment-Frame i p s) h
  step-Held (repayment_status i t d) s h = Frame-Held s _ (update_repayment-Frame i t d s) h

  run-Held :
      (ds : List Call) (s : SignerDb) → Held mission nonce s → Held mission nonce (run c ds s)
  unfolding run
  run-Held [] s h = h
  run-Held (d ∷ ds) s h = run-Held ds (step c d s) (step-Held d s h)

-- A stored policy has the mission that it is stored for.
policy-mission :
    (id : String) (p : MissionPolicy) (s : SignerDb)
    → IsSafe s
    → get_mission_policy id s ≡ (ok (some p), s)
    → p.mission_id ≡ id
unfolding get_mission_policy
policy-mission id p s safe h = elim (Option-cases (find_policy id s)) [
  | inl missing ↦ absurd (cc (rw missing at h))
  | inr (row, found) ↦
      let backed =
        All-select (Backed s.db.missions) (has_key policy_key id) s.policies safe.policies_backed
          found in
      let same : row.policy ≡ p = ground arith in
      let key : row.mission_id ≡ id = select-key policy_key id s.policies found in
      rw (← same) (backed.of_mission ∙ key)
]

-- A nonce is authorized once. After a payment of a mission has been authorized, on the store that any calls have
-- left, then whatever calls reach the store afterwards, in any order, the gate never answers a request of the same
-- mission with the same nonce, at any time and whatever its requirements are.
pub authorize_once :
    {Key : Type 0} (g : Gate Key) (c : Canonical) (before after : List Call)
    (request request' : AuthorizeRequest) (now later : ℕ) (response response' : AuthorizeResponse)
    (s s' : SignerDb)
    → authorize g request now (run c before empty) ≡ (ok response, s)
    → request'.mission_id ≡ request.mission_id
    → request'.nonce ≡ request.nonce
    → ¬ (authorize g request' later (run c after s) ≡ (ok response', s'))
authorize_once g c before after request request' now later response response' s s' h same_mission
      same_nonce k =
    let first = run c before empty in
    let last = run c after s in
    let (payment, payable, rest) = authorize-halves g request now response first s h in
    let (payment', payable', rest') = authorize-halves g request' later response' last s' k in
    let signed = authorize_checked-IsAuthorized g request payment now response first s rest in
    let signed' =
      authorize_checked-IsAuthorized g request' payment' later response' last s' rest' in
    let row = row_of g request payment response signed.valid_until in
    let row' = row_of g request' payment' response' signed'.valid_until in
    let (db, spent, left) = reserve_authorization-ok row (g.iso now) first s signed.reserved in
    let (db', spent', left') =
      reserve_authorization-ok row' (g.iso later) last s' signed'.reserved in
    let safe_first = history-IsSafe c before in
    let safe : IsSafe s =
      subst IsSafe (ap (λ o. o.1) signed.reserved)
        (reserve_authorization-IsSafe row (g.iso now) first safe_first) in
    let safe_last = run-IsSafe c after s safe in
    let mission =
      policy-mission request.mission_id payment.policy first safe_first payable.provisioned in
    let mission' =
      policy-mission request'.mission_id payment'.policy last safe_last payable'.provisioned in
    let held : Held row'.mission_id row'.nonce s =
      rw
        (
          left,
          mission,
          mission',
          same_mission,
          same_nonce,
          eq_refl request.mission_id,
          eq_refl request.nonce,
        )
        refl in
    let used =
      consumed-Held row'.mission_id row'.nonce last.authorizations last.db.nonces safe_last.mirrored
        (run-Held c row'.mission_id row'.nonce after s held) in
    let new = (reserve_spending-ok (reservation row' (g.iso later)) last.db db' spent').new_nonce in
    cc (rw new at used)
