-- ===== src/CreditProtocol/Lending.antt =====
-- What a lender of agents/lenders/src/policy.ts decides.
use koven.Prelude.{
  ℕ, ℤ, pos, negsuc, ◌+◌, ◌*◌, ◌≤◌, ◌<◌, ◌≡◌, ◌+ℤ◌, ◌≤ℤ◌, refl, String, some, Bool, true, arith,
}
use koven.Domain.Credit.{UnsignedCreditRequest}
use koven.Exec.{ok}
use koven.CreditProtocol.{
  LenderPolicyOptions, LenderPolicyDecision, evaluate_lender_policy, uint64_max, repayment_terms,
}

-- A decision to lend.
pub record Lends (o : LenderPolicyOptions) (request : UnsignedCreditRequest) (trusted : Bool)
    (d : LenderPolicyDecision) : Type 0 where
  pub is_trusted : trusted ≡ true
  pub principal : ℕ
  pub amount : request.principal_tinybar ≡ pos principal
  pub positive : 0 < principal
  pub in_limit : pos principal ≤ℤ o.max_principal_tinybar
  pub same_term : d.term_seconds ≡ request.requested_term_seconds
  pub in_term : d.term_seconds ≤ o.max_term_seconds
  pub enough : principal * o.fee_bps ≤ d.fee_tinybar * 10000
  pub least : d.fee_tinybar * 10000 < principal * o.fee_bps + 10000
  pub fits : principal + d.fee_tinybar ≤ uint64_max

decision-Lends :
    (o : LenderPolicyOptions) (request : UnsignedCreditRequest) (trusted : Bool)
    (d : LenderPolicyDecision) (x : ℤ)
    → request.principal_tinybar ≡ x
    → evaluate_lender_policy o request trusted ≡ some d
    → Lends o request trusted d
unfolding evaluate_lender_policy
decision-Lends o request trusted d (negsuc n) e h = ground arith
decision-Lends o request trusted d (pos p) e h = record {
  is_trusted = ground arith;
  principal = p;
  amount = e;
  positive = ground arith;
  in_limit = ground arith;
  same_term = ground arith;
  in_term = ground arith;
  enough = ground arith;
  least = ground arith;
  fits = ground arith;
}

-- A lender makes an offer only to a borrower with the reputation that it asks for, for a positive principal
-- within its limit and the term asked for, within its longest term; the fee is the principal's basis points, rounded up to a whole tinybar,
-- and the repayment fits in 64 bits.
pub evaluate_lender_policy-Lends :
    (o : LenderPolicyOptions) (request : UnsignedCreditRequest) (trusted : Bool)
    (d : LenderPolicyDecision)
    → evaluate_lender_policy o request trusted ≡ some d
    → Lends o request trusted d
evaluate_lender_policy-Lends o request trusted d h =
    decision-Lends o request trusted d request.principal_tinybar refl h

-- What a lender offers can be repaid: the terms of a repayment with the principal and the decided fee never throw.
pub repayment_terms-Lends :
    (o : LenderPolicyOptions) (request : UnsignedCreditRequest) (trusted : Bool)
    (d : LenderPolicyDecision) (lender : String)
    → evaluate_lender_policy o request trusted ≡ some d
    → repayment_terms lender request.principal_tinybar (pos d.fee_tinybar) tt ≡ (
      ok (record {
        lender_account_id = lender;
        amount_tinybar = request.principal_tinybar +ℤ pos d.fee_tinybar;
      }),
      tt,
    )
unfolding repayment_terms
repayment_terms-Lends o request trusted d lender h =
    let l = evaluate_lender_policy-Lends o request trusted d h in
    rw l.amount (ground (arith, l.fits))
