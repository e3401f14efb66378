-- ===== src/Signer/Gate/Allowed.antt =====
-- What the payment gate of services/restricted-signer/src/gate.ts has made sure of when it answers.
use koven.Prelude.{
  ℕ, ℤ, pos, ◌≤◌, ◌<◌, ◌≡◌, refl, sym, ◌∙◌, ap, subst, String, some, false, ◌≤ℤ◌, arith, eq_iff,
  ◌&&◌, is_none,
}
use koven.Exec.{ok}
use koven.Exec.Laws.{>>=-eq-ok}
use koven.X402.{PaymentRequirements, NormalizedChallenge}
use koven.X402.Bound.{IsNormalized, normalize_challenge-IsNormalized}
use koven.Signer.Types.{MissionPolicy, StoredAuthorization, SignerDb}
use koven.Signer.Store.Policy.{get_mission_policy}
use koven.Signer.Store.Credit.{get_acceptance}
use koven.Signer.Store.Authorization.{reserve_authorization}
use koven.Signer.Gate.{
  AuthorizeRequest, AuthorizeResponse, Inspected, Gate, Payment, scan_url, challenge_of,
  proven_commitment, check_payment, build_transfer, reserve_built, respond, authorize_checked,
  authorize, unsigned,
}

le_of_pos : (n cap : ℕ) (x : ℤ) → x ≡ pos n → x ≤ℤ pos cap → n ≤ cap
le_of_pos n cap x e h = let le = subst (λ y. y ≤ℤ pos cap) e h in omega arith

module _ {Key : Type 0} (g : Gate Key) (request : AuthorizeRequest) where
  -- What is checked before the lock.
  pub record IsPayable (payment : Payment) (s : SignerDb) : Type 0 where
    pub with_bundle : g.is_zk && is_none request.bundle ≡ false
    pub provisioned : get_mission_policy request.mission_id s ≡ (ok (some payment.policy), s)
    pub challenged : challenge_of g request payment.policy tt ≡ (ok payment.challenge, tt)
    pub committed :
        proven_commitment g g.is_zk g.proof_policy request.bundle payment.policy payment.challenge
          tt
        ≡ (ok payment.commitment, tt)
    pub approved : payment.challenge.recipient_account_id ≡ payment.policy.provider.account_id
    pub in_cap : payment.challenge.amount_tinybar ≤ℤ pos payment.policy.spending_cap_tinybar

  pub check_payment-IsPayable :
      (payment : Payment) (s s' : SignerDb)
      → check_payment g request s ≡ (ok payment, s')
      → (s' ≡ s) × IsPayable payment s
  unfolding check_payment get_mission_policy get_acceptance
  check_payment-IsPayable payment s s' h = (
    ground arith,
    record {
      with_bundle = ground arith;
      provisioned = ground arith;
      challenged = ground arith;
      committed = ground arith;
      approved =
          ground (
            arith,
            eq_iff payment.challenge.recipient_account_id payment.policy.provider.account_id,
          );
      in_cap = ground arith;
    },
  )

  -- The row that is kept for a payment.
  abbrev pub row_of : Payment → AuthorizeResponse → ℕ → StoredAuthorization
  row_of payment response valid_until = record {
    mission_id = payment.policy.mission_id;
    nonce = request.nonce;
    commitment = payment.commitment;
    transaction_base64 = response.transaction;
    authorization = response.payment_authorization;
    valid_until = valid_until;
  }

  -- A document that the gate has signed for a payment, and the row of it that it has reserved.
  pub record IsAuthorized (payment : Payment) (now : ℕ) (response : AuthorizeResponse)
      (s s' : SignerDb) : Type 0 where
    pub inspected : Inspected
    pub valid_until : ℕ
    pub in_time : now < valid_until
    pub fee_payer : inspected.transaction_id_account_id ≡ request.requirements.fee_payer
    pub document : response.payment_authorization ≡ (
        let d = unsigned g request payment.policy response.transaction inspected valid_until in
        d (g.sign d))
    pub reserved :
        reserve_authorization (row_of payment response valid_until) (g.iso now) s ≡ (ok tt, s')

  build_transfer-ok :
      (q : PaymentRequirements) (now : ℕ) (transaction : String) (inspected : Inspected)
      (valid_until : ℕ) (s s' : SignerDb)
      → build_transfer g q now s ≡ (ok (transaction, inspected, valid_until), s')
      → (s' ≡ s) × (inspected.transaction_id_account_id ≡ q.fee_payer) × (now < valid_until)
  unfolding build_transfer
  build_transfer-ok q now transaction inspected valid_until s s' h = (
    ground arith,
    ground (arith, eq_iff inspected.transaction_id_account_id q.fee_payer),
    ground arith,
  )

  -- What the gate answers with when it has built a transfer.
  abbrev pub answer : Payment → String → Inspected → ℕ → AuthorizeResponse
  answer payment transaction inspected valid_until =
      let document = unsigned g request payment.policy transaction inspected valid_until in
      record { transaction = transaction; payment_authorization = document (g.sign document) }

  reserve_built-ok :
      (payment : Payment) (now : ℕ) (transaction : String) (inspected : Inspected) (valid_until : ℕ)
      (response : AuthorizeResponse) (s s' : SignerDb)
      → reserve_built g request payment now (transaction, inspected, valid_until) s
        ≡ (ok response, s')
      → (response ≡ answer payment transaction inspected valid_until)
        × (reserve_authorization
              (row_of payment (answer payment transaction inspected valid_until) valid_until)
              (g.iso now)
              s
            ≡ (ok tt, s'))
  unfolding reserve_built respond
  reserve_built-ok payment now transaction inspected valid_until response s s' h =
      (ground arith, ground arith)

  pub authorize_checked-IsAuthorized :
      (payment : Payment) (now : ℕ) (response : AuthorizeResponse) (s s' : SignerDb)
      → authorize_checked g request payment now s ≡ (ok response, s')
      → IsAuthorized payment now response s s'
  unfolding authorize_checked reserve_built respond
  authorize_checked-IsAuthorized payment now response s s' h =
      let ((transaction, inspected, valid_until), t, built, rest) =
        >>=-eq-ok (build_transfer g request.requirements now) (reserve_built g request payment now)
          s h in
      let (kept, fee_payer, in_time) =
        build_transfer-ok request.requirements now transaction inspected valid_until s t built in
      let (same, reserved) =
        reserve_built-ok payment now transaction inspected valid_until response t s' rest in
      let row = row_of payment (answer payment transaction inspected valid_until) valid_until in
      subst (λ r. IsAuthorized payment now r s s') (sym same)
        (record {
          inspected = inspected;
          valid_until = valid_until;
          in_time = in_time;
          fee_payer = fee_payer;
          document = refl;
          reserved =
              subst (λ u. reserve_authorization row (g.iso now) u ≡ (ok tt, s')) kept reserved;
        })

  pub authorize-halves :
      (now : ℕ) (response : AuthorizeResponse) (s s' : SignerDb)
      → authorize g request now s ≡ (ok response, s')
      → (payment : Payment) × IsPayable payment s
        × (authorize_checked g request payment now s ≡ (ok response, s'))
  unfolding authorize
  authorize-halves now response s s' h =
      let (payment, t, found, rest) =
        >>=-eq-ok (check_payment g request) (λ p. authorize_checked g request p now) s h in
      let (kept, payable) = check_payment-IsPayable payment s t found in
      (
        payment,
        payable,
        subst (λ u. authorize_checked g request payment now u ≡ (ok response, s')) kept rest,
      )

  challenge_of-IsNormalized :
      (policy : MissionPolicy) (c : NormalizedChallenge)
      → challenge_of g request policy tt ≡ (ok c, tt)
      → IsNormalized g.formats request.requirements policy.mission_id policy.target_sha256
          request.nonce
          (scan_url g policy)
          (record { network = g.network; asset = "0.0.0" })
          c
  unfolding challenge_of
  challenge_of-IsNormalized policy c h =
      normalize_challenge-IsNormalized g.formats request.requirements policy.mission_id
        policy.target_sha256 request.nonce (scan_url g policy)
        (record { network = g.network; asset = "0.0.0" }) c (ground arith)

  -- When the gate authorizes a payment, the mission has a policy; the signed document pays that policy's provider, who
  -- is also the one that the requirements name, the positive amount of the requirements, within the policy's cap,
  -- and has the nonce of the request; and exactly this document has been reserved, for the mission and the nonce.
  pub authorize-pays :
      (now : ℕ) (response : AuthorizeResponse) (s s' : SignerDb)
      → authorize g request now s ≡ (ok response, s')
      → let a = response.payment_authorization in
        (payment : Payment) × (get_mission_policy request.mission_id s
          ≡ (ok (some payment.policy), s))
        × (a.provider_account_id ≡ payment.policy.provider.account_id)
        × (request.requirements.pay_to ≡ payment.policy.provider.account_id)
        × (a.amount_tinybar ≡ request.requirements.amount)
        × (0 < a.amount_tinybar)
        × (a.amount_tinybar ≤ payment.policy.spending_cap_tinybar)
        × (a.nonce ≡ request.nonce)
        × ((valid_until : ℕ) × (now < valid_until)
            × (reserve_authorization (row_of payment response valid_until) (g.iso now) s
                ≡ (ok tt, s')))
  authorize-pays now response s s' h =
      let (payment, payable, rest) = authorize-halves now response s s' h in
      let signed = authorize_checked-IsAuthorized payment now response s s' rest in
      let normal = challenge_of-IsNormalized payment.policy payment.challenge payable.challenged in
      let amount : response.payment_authorization.amount_tinybar ≡ request.requirements.amount =
        ap (λ a. a.amount_tinybar) signed.document in
      (
        payment,
        payable.provisioned,
        ap (λ a. a.provider_account_id) signed.document,
        sym normal.recipient ∙ payable.approved,
        amount,
        rw amount normal.positive,
        rw amount (
            le_of_pos request.requirements.amount payment.policy.spending_cap_tinybar
              payment.challenge.amount_tinybar normal.amount payable.in_cap),
        ap (λ a. a.nonce) signed.document,
        (signed.valid_until, signed.in_time, signed.reserved),
      )
