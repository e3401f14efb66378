-- ===== src/Signer/Gate/Refused.antt =====
-- What the payment gate of services/restricted-signer/src/gate.ts leaves behind when it throws, and what it
-- never authorizes twice.
use koven.Prelude.{
  ℕ, ◌≡◌, refl, sym, ap, subst, String, Option, none, some, true, false, ◌∷◌, ◌&&◌, is_none, arith,
  ◌⊎◌, inl, inr, ◌∙◌, Bool-cases,
}
use koven.Domain.Errors.{Error, zod_error}
use koven.Exec.{Result, ok, err, transaction}
use koven.Persistence.Db.{Db}
use koven.Persistence.Nonces.{reserve_spending}
use koven.Signer.Safety.Keeps.{reserve_body-ok}
use koven.Proof.{ProofBundle, Pinned, commitment_for}
use koven.Proof.Trusted.{IsProven, assert_proof-IsProven}
use koven.Signer.Types.{StoredAuthorization, SignerDb}
use koven.Signer.Store.Policy.{get_mission_policy}
use koven.Signer.Store.Credit.{get_acceptance}
use koven.Signer.Store.Codes.{with_codes}
use koven.Signer.Store.Authorization.{reserve_authorization, reservation}
use koven.Signer.Gate.{
  AuthorizeRequest, AuthorizeResponse, Inspected, Gate, Payment, challenge_of, proven_commitment,
  check_payment, build_transfer, reserve_built, respond, authorize_checked, authorize,
}
use koven.Signer.Gate.Allowed.{
  authorize-halves, authorize_checked-IsAuthorized, row_of, answer, IsPayable, IsAuthorized,
  check_payment-IsPayable,
}

pub reserve_authorization-ok :
    (a : StoredAuthorization) (now : String) (s s' : SignerDb)
    → reserve_authorization a now s ≡ (ok tt, s')
    → (db' : Db) × (reserve_spending (reservation a now) s.db ≡ (ok tt, db'))
      × (s' ≡ record s { db = db'; authorizations = a ∷ s.authorizations })
unfolding reserve_authorization with_codes transaction
reserve_authorization-ok a now s s' h = reserve_body-ok a now s s' (ground arith)

reserve_authorization_atomic :
    (a : StoredAuthorization) (now : String) (s s' : SignerDb) (e : Error)
    → reserve_authorization a now s ≡ (err e, s')
    → s' ≡ s
unfolding reserve_authorization with_codes transaction
reserve_authorization_atomic a now s s' e h = ground arith

module _ {Key : Type 0} (g : Gate Key) (request : AuthorizeRequest) where
  check_payment-state : (s : SignerDb) → (check_payment g request s).1 ≡ s
  unfolding check_payment get_mission_policy get_acceptance
  check_payment-state s = ground arith

  build_transfer-state :
      (now : ℕ) (s : SignerDb) → (build_transfer g request.requirements now s).1 ≡ s
  unfolding build_transfer
  build_transfer-state now s = ground arith

  -- What is left of a payment that has been reserved and whose answer the schema then refuses.
  pub record Unanswered (now : ℕ) (e : Error) (s s' : SignerDb) : Type 0 where
    pub payment : Payment
    pub payable : IsPayable g request payment s
    pub transaction : String
    pub inspected : Inspected
    pub valid_until : ℕ
    pub built :
        build_transfer g request.requirements now s ≡ (ok (transaction, inspected, valid_until), s)
    pub reserved :
        reserve_authorization
          (row_of g request payment
            (answer g request payment transaction inspected valid_until)
            valid_until)
          (g.iso now)
          s
        ≡ (ok tt, s')
    pub refused : g.is_response (answer g request payment transaction inspected valid_until) ≡ false
    pub thrown : e ≡ zod_error

  reserve_built-err :
      (payment : Payment) (now : ℕ) (built : String) (inspected : Inspected) (valid_until : ℕ)
      (s s' : SignerDb) (e : Error)
      → reserve_built g request payment now (built, inspected, valid_until) s ≡ (err e, s')
      → (s' ≡ s)
        ⊎ ((reserve_authorization
                (row_of g request payment
                  (answer g request payment built inspected valid_until)
                  valid_until)
                (g.iso now)
                s
              ≡ (ok tt, s'))
            × (g.is_response (answer g request payment built inspected valid_until) ≡ false)
            × (e ≡ zod_error))
  unfolding reserve_built respond
  reserve_built-err payment now built inspected valid_until s s' e h =
      reserving (reserve_authorization row (g.iso now) s) refl
    where
      row : StoredAuthorization
      row =
          row_of g request payment (answer g request payment built inspected valid_until)
            valid_until

      response : AuthorizeResponse
      response = answer g request payment built inspected valid_until

      reserving :
          (o : Result (Unit {0}) × SignerDb)
          → reserve_authorization row (g.iso now) s ≡ o
          → (s' ≡ s)
            ⊎ ((reserve_authorization row (g.iso now) s ≡ (ok tt, s'))
                × (g.is_response response ≡ false)
                × (e ≡ zod_error))
      reserving (err x, t) k =
          let kept : t ≡ s = reserve_authorization_atomic row (g.iso now) s t x k in
          inl (sym (ap (λ (o : Result AuthorizeResponse × SignerDb). o.1) (rw k at h)) ∙ kept)
      reserving (ok u, t) k = elim (Bool-cases (g.is_response response)) [
        | inl y ↦ absurd (cc (rw (k, y) at h))
        | inr n ↦
            let left = rw (k, n) at h in
            inr (
              k
                  ∙ ap (λ (v : SignerDb). (ok tt, v))
                      (ap (λ (o : Result AuthorizeResponse × SignerDb). o.1) left),
              n,
              ground arith,
            )
      ]

  authorize_checked-err :
      (payment : Payment) (now : ℕ) (s s' : SignerDb) (e : Error)
      → IsPayable g request payment s
      → authorize_checked g request payment now s ≡ (err e, s')
      → (s' ≡ s) ⊎ Unanswered now e s s'
  unfolding authorize_checked
  authorize_checked-err payment now s s' e payable h =
      building (build_transfer g request.requirements now s) refl
    where
      building :
          (o : Result (String × Inspected × ℕ) × SignerDb)
          → build_transfer g request.requirements now s ≡ o
          → (s' ≡ s) ⊎ Unanswered now e s s'
      building (err x, t) k =
          let kept : t ≡ s =
            sym (ap (λ (o : Result (String × Inspected × ℕ) × SignerDb). o.1) k)
            ∙ build_transfer-state now s in
          inl (sym (ap (λ (o : Result AuthorizeResponse × SignerDb). o.1) (rw k at h)) ∙ kept)
      building (ok (transaction, inspected, valid_until), t) k =
          let kept : t ≡ s =
            sym (ap (λ (o : Result (String × Inspected × ℕ) × SignerDb). o.1) k)
            ∙ build_transfer-state now s in
          let rest =
            subst
              (λ u.
                reserve_built g request payment now (transaction, inspected, valid_until) u
                ≡ (err e, s'))
              kept (rw k at h) in
          elim (reserve_built-err payment now transaction inspected valid_until s s' e rest) [
            | inl same ↦ inl same
            | inr (reserved, refused, thrown) ↦ inr (record {
              payment = payment;
              payable = payable;
              transaction = transaction;
              inspected = inspected;
              valid_until = valid_until;
              built = k ∙ ap (λ (v : SignerDb). (ok (transaction, inspected, valid_until), v)) kept;
              reserved = reserved;
              refused = refused;
              thrown = thrown;
            })
          ]

  -- A payment that the gate refuses reserves nothing: when the gate throws, the store is as it was, but for one
  -- case: the payment passed every check, its transfer was built and reserved, and then the schema of the answer
  -- refused the gate's own answer. That reservation stays, and the error is the schema's.
  pub authorize_atomic :
      (now : ℕ) (s s' : SignerDb) (e : Error)
      → authorize g request now s ≡ (err e, s')
      → (s' ≡ s) ⊎ Unanswered now e s s'
  unfolding authorize
  authorize_atomic now s s' e h = checking (check_payment g request s) refl
    where
      checking :
          (o : Result Payment × SignerDb)
          → check_payment g request s ≡ o
          → (s' ≡ s) ⊎ Unanswered now e s s'
      checking (err x, t) k =
          let kept : t ≡ s =
            sym (ap (λ (o : Result Payment × SignerDb). o.1) k) ∙ check_payment-state s in
          inl (sym (ap (λ (o : Result AuthorizeResponse × SignerDb). o.1) (rw k at h)) ∙ kept)
      checking (ok payment, t) k =
          let (kept, payable) = check_payment-IsPayable g request payment s t k in
          authorize_checked-err payment now s s' e payable
            (subst (λ u. authorize_checked g request payment now u ≡ (err e, s')) kept (rw k at h))

  proven :
      (p : Pinned Key) (o : Option ProofBundle) (payment : Payment)
      → request.bundle ≡ o
      → g.is_zk ≡ true
      → g.proof_policy ≡ some p
      → g.is_zk && is_none request.bundle ≡ false
      → proven_commitment g g.is_zk g.proof_policy request.bundle payment.policy payment.challenge
          tt
        ≡ (ok payment.commitment, tt)
      → (commitment_for p payment.challenge tt ≡ (ok payment.commitment, tt))
        × ((bundle : ProofBundle) × (o ≡ some bundle)
            × IsProven p bundle payment.policy.approved_recipients_root payment.commitment
                payment.policy.spending_cap_tinybar)
  unfolding proven_commitment
  proven p none payment e zk pinned given h = absurd (ground arith)
  proven p (some bundle) payment e zk pinned given h =
      let (computed, is) =
        assert_proof-IsProven p bundle payment.policy payment.challenge payment.commitment
          (rw (zk, pinned, e) at h) in
      (computed, (bundle, refl, is))

  -- In zk mode, what is authorized has been proven. The commitment that is reserved with the answer is the one that
  -- the gate computes from the challenge of the request's own requirements, and it is proven, in the bundle of the
  -- request and under the gate's own key, for the root that the mission's policy has stored and at exactly its cap.
  pub authorize-IsProven :
      (p : Pinned Key) (now : ℕ) (response : AuthorizeResponse) (s s' : SignerDb)
      → g.is_zk ≡ true
      → g.proof_policy ≡ some p
      → authorize g request now s ≡ (ok response, s')
      → (payment : Payment) × (get_mission_policy request.mission_id s
          ≡ (ok (some payment.policy), s))
        × (challenge_of g request payment.policy tt ≡ (ok payment.challenge, tt))
        × (commitment_for p payment.challenge tt ≡ (ok payment.commitment, tt))
        × ((bundle : ProofBundle) × (request.bundle ≡ some bundle)
            × IsProven p bundle payment.policy.approved_recipients_root payment.commitment
                payment.policy.spending_cap_tinybar)
        × IsAuthorized g request payment now response s s'
  authorize-IsProven p now response s s' zk pinned h =
      let (payment, payable, rest) = authorize-halves g request now response s s' h in
      let (computed, is) =
        proven p request.bundle payment refl zk pinned payable.with_bundle payable.committed in
      (
        payment,
        payable.provisioned,
        payable.challenged,
        computed,
        is,
        authorize_checked-IsAuthorized g request payment now response s s' rest,
      )
