-- ===== src/Provider/Authorization/Bound.antt =====
-- What services/resource-server/src/authorization.ts has let through is a signed payment to this provider.
use koven.Prelude.{
  refl, sym, ap, ◌∙◌, none, ℕ, ℤ, pos, ◌+ℤ◌, eqb_ℤ, ◌≡◌, subst, String, Option, some, Bool, true,
  not, List, [], ◌∷◌, ◌==◌, ◌&&◌, All, eq_iff, arith, Option-cases, inl, inr, leb, eqb,
}
use koven.Domain.Errors.{Error}
use koven.Exec.{Result, ok, or_throw, throw_if}
use koven.Exec.Laws.{>>=-eq-ok}
use koven.Signer.Types.{WireAuthorization}
use koven.Provider.Types.{PaidScanRequest, PaymentPayload, PolicySnapshot, Attempt}
use koven.Provider.Authorization.{
  HederaTransaction, Libraries, all_are, or_default, is_for_scan, is_for_provider, is_authorized,
  assert_policy_binding, verify_signature, transaction_from_payload, assert_transaction_binding,
  valid_until_of, bind_attempt, validate_attempt, parse_base, invalid, mismatch,
}

-- The Hedera transaction of an attempt pays the provider the amount, which the borrower gives.
pub record Pays {Body : Type 0} (l : Libraries Body) (transaction : String) (w : WireAuthorization)
    (policy : PolicySnapshot) : Type 0 where
  pub bytes : l.bytes_hash transaction ≡ w.transaction_sha256
  pub inspected : HederaTransaction
  pub read : l.inspect transaction ≡ some inspected
  pub id : inspected.transaction_id ≡ w.transaction_id
  pub fee_payer : inspected.transaction_id_account_id ≡ policy.fee_payer_account_id
  pub debited :
      l.net_for_account inspected.hbar_transfers w.borrower_account_id +ℤ pos w.amount_tinybar
      ≡ pos 0
  pub credited :
      l.net_for_account inspected.hbar_transfers w.provider_account_id ≡ pos w.amount_tinybar
  pub receivers :
      All
        (λ account. account ≡ w.provider_account_id)
        (l.positive_receivers inspected.hbar_transfers)

eq_of_eqb : (a b : ℤ) → eqb_ℤ a b ≡ true → a ≡ b
eq_of_eqb a b h = ground arith

all_are-All :
    (account : String) (xs : List String) → all_are account xs ≡ true → All (λ x. x ≡ account) xs
all_are-All account [] h = tt
all_are-All account (x ∷ xs) h =
    ((eq_iff x account).0 (ground arith), all_are-All account xs (ground arith))

module _ {Body : Type 0} (l : Libraries Body) where
  authorized-Pays :
      (transaction : String) (w : WireAuthorization) (policy : PolicySnapshot)
      (x : HederaTransaction)
      → l.bytes_hash transaction == w.transaction_sha256 ≡ true
      → l.inspect transaction ≡ some x
      → is_authorized l x w policy ≡ true
      → Pays l transaction w policy
  unfolding is_authorized
  authorized-Pays transaction w policy x b e h = record {
    bytes = (eq_iff (l.bytes_hash transaction) w.transaction_sha256).0 b;
    inspected = x;
    read = e;
    id = (eq_iff x.transaction_id w.transaction_id).0 (ground arith);
    fee_payer = (eq_iff x.transaction_id_account_id policy.fee_payer_account_id).0 (ground arith);
    debited = eq_of_eqb _ (pos 0) (ground arith);
    credited = eq_of_eqb _ (pos w.amount_tinybar) (ground arith);
    receivers =
        all_are-All w.provider_account_id (l.positive_receivers x.hbar_transfers) (ground arith);
  }

  binding-Pays :
      (transaction : String) (w : WireAuthorization) (policy : PolicySnapshot) {until : ℕ}
      → assert_transaction_binding l transaction w policy tt ≡ (ok until, tt)
      → Pays l transaction w policy
  unfolding assert_transaction_binding
  binding-Pays transaction w policy h = elim (Option-cases (l.inspect transaction)) [
    | inl e ↦ absurd (ground arith)
    | inr (x, e) ↦ elim (Option-cases (valid_until_of l transaction x.transaction_id)) [
      | inl n ↦ absurd (ground arith)
      | inr (u, v) ↦ authorized-Pays transaction w policy x (ground arith) e (ground arith)
    ]
  ]

-- An attempt is of this provider's scan, on its terms, signed under a trusted key of the borrower.
pub record IsBound {Body : Type 0} (l : Libraries Body) (signer_keys : String → Option String)
    (a : Attempt) : Type 0 where
  pub mission : a.request.mission_id ≡ a.authorization.mission_id
  pub target : a.request.target_sha256 ≡ a.authorization.target_sha256
  pub provider : a.authorization.provider_account_id ≡ a.policy.provider_account_id
  pub amount : a.authorization.amount_tinybar ≡ a.policy.amount_tinybar
  pub pay_to : a.payment_payload.accepted.pay_to ≡ a.policy.provider_account_id
  pub key : String
  pub trusted : signer_keys a.authorization.borrower_account_id ≡ some key
  pub signed : l.verify key a.authorization ≡ true
  pub pays : Pays l a.transaction_base64 a.authorization a.policy

-- The attempt is what the body and the header of the request say, under the terms that the store keeps for its
-- transaction and fingerprint, and under the provider's own where the store keeps none.
pub record IsRead {Body : Type 0} (l : Libraries Body) (body : Body) (header : String)
    (policy : PolicySnapshot) (stored_policy : String → String → Option PolicySnapshot)
    (a : Attempt) : Type 0 where
  pub authorization : l.authorization_in body ≡ some a.authorization
  pub request : l.paid_request body ≡ some a.request
  pub payload : l.payload_in header ≡ some a.payment_payload
  pub transaction : a.payment_payload.transaction ≡ some a.transaction_base64
  pub fingerprint : a.fingerprint ≡ l.fingerprint a.request a.payment_payload
  pub terms :
      a.policy
      ≡ or_default
          (stored_policy a.authorization.transaction_id (l.fingerprint a.request a.payment_payload))
          policy

ok_inj :
    {A : Type 0} {a b : A} {u v : Unit {0}}
    → ◌≡◌ {A = Result A × Unit {0}} (ok a, u) (ok b, v)
    → a ≡ b
ok_inj h = cc

eq_of_eqb_ℕ : (m n : ℕ) → eqb m n ≡ true → m ≡ n
eq_of_eqb_ℕ m n h = ground arith

module _ {Body : Type 0} (l : Libraries Body) (signer_keys : String → Option String) where
  signed_by :
      (w : WireAuthorization)
      → verify_signature l w signer_keys tt ≡ (ok tt, tt)
      → (key : String) × (signer_keys w.borrower_account_id ≡ some key) × (l.verify key w ≡ true)
  unfolding verify_signature
  signed_by w h = elim (Option-cases (signer_keys w.borrower_account_id)) [
    | inl e ↦ absurd (ground arith)
    | inr (key, e) ↦ (key, e, ground arith)
  ]

  -- What the record says, from the tests.
  tests-IsBound :
      (a : Attempt) (key : String)
      → is_for_scan a.request a.authorization a.policy ≡ true
      → is_for_provider a.payment_payload a.policy ≡ true
      → signer_keys a.authorization.borrower_account_id ≡ some key
      → l.verify key a.authorization ≡ true
      → Pays l a.transaction_base64 a.authorization a.policy
      → IsBound l signer_keys a
  unfolding is_for_scan is_for_provider
  tests-IsBound a key scan here trusted signed pays = record {
    mission = (eq_iff a.request.mission_id a.authorization.mission_id).0 (ground arith);
    target = (eq_iff a.request.target_sha256 a.authorization.target_sha256).0 (ground arith);
    provider =
        (eq_iff a.authorization.provider_account_id a.policy.provider_account_id).0 (ground arith);
    amount = eq_of_eqb_ℕ a.authorization.amount_tinybar a.policy.amount_tinybar (ground arith);
    pay_to =
        (eq_iff a.payment_payload.accepted.pay_to a.policy.provider_account_id).0 (ground arith);
    key = key;
    trusted = trusted;
    signed = signed;
    pays = pays;
  }

  policy_tests :
      (request : PaidScanRequest) (w : WireAuthorization) (payload : PaymentPayload)
      (policy : PolicySnapshot)
      → assert_policy_binding request w payload policy tt ≡ (ok tt, tt)
      → (is_for_scan request w policy ≡ true) × (is_for_provider payload policy ≡ true)
  unfolding assert_policy_binding
  policy_tests request w payload policy h = (ground arith, ground arith)

  transaction-read :
      (payload : PaymentPayload) (t : String)
      → transaction_from_payload l payload tt ≡ (ok t, tt)
      → payload.transaction ≡ some t
  unfolding transaction_from_payload
  transaction-read payload t h = elim (Option-cases payload.transaction) [
    | inl e ↦ absurd (ground arith)
    | inr (x, e) ↦ e ∙ ap some (ground arith)
  ]

  -- The parts of an attempt that is bound.
  record Parts (request : PaidScanRequest) (w : WireAuthorization) (payload : PaymentPayload)
      (policy : PolicySnapshot) (a : Attempt) : Type 0 where
    pub same_request : a.request ≡ request
    pub same_authorization : a.authorization ≡ w
    pub same_payload : a.payment_payload ≡ payload
    pub same_policy : a.policy ≡ policy
    pub transaction : payload.transaction ≡ some a.transaction_base64
    pub fingerprint : a.fingerprint ≡ l.fingerprint request payload

  bind-IsBound :
      (request : PaidScanRequest) (w : WireAuthorization) (payload : PaymentPayload)
      (expired : Bool) (policy : PolicySnapshot) {a : Attempt}
      → verify_signature l w signer_keys tt ≡ (ok tt, tt)
      → bind_attempt l request w payload expired policy tt ≡ (ok a, tt)
      → IsBound l signer_keys a × Parts request w payload policy a
  unfolding bind_attempt
  bind-IsBound request w payload expired policy {a} v h =
      let (p, u, first, rest) = >>=-eq-ok (assert_policy_binding request w payload policy) _ tt h in
      let (tr, u', second, rest') = >>=-eq-ok (transaction_from_payload l payload) _ u rest in
      let (until, u'', third, last) =
        >>=-eq-ok (assert_transaction_binding l tr w policy) _ u' rest' in
      let (key, trusted, signed) = signed_by w v in
      let (scan, here) = policy_tests request w payload policy first in
      let same = ok_inj last in
      subst (λ a. IsBound l signer_keys a × Parts request w payload policy a) same
        (
          tests-IsBound _ key scan here trusted signed (binding-Pays l tr w policy third),
          record {
            same_request = refl;
            same_authorization = refl;
            same_payload = refl;
            same_policy = refl;
            transaction = transaction-read payload tr second;
            fingerprint = refl;
          },
        )

  or_throw-some :
      {A : Type 0} (o : Option A) (e : Error) {x : A} {u v : Unit {0}}
      → or_throw o e u ≡ (ok x, v)
      → o ≡ some x
  or_throw-some none e h = absurd (cc h)
  or_throw-some (some y) e h = ap some (ok_inj h)

  Parts-IsRead :
      (body : Body) (header : String) (policy : PolicySnapshot)
      (stored_policy : String → String → Option PolicySnapshot) (request : PaidScanRequest)
      (w : WireAuthorization) (payload : PaymentPayload) (a : Attempt)
      → l.authorization_in body ≡ some w
      → l.paid_request body ≡ some request
      → l.payload_in header ≡ some payload
      → Parts request w payload
          (or_default (stored_policy w.transaction_id (l.fingerprint request payload)) policy)
          a
      → IsRead l body header policy stored_policy a
  Parts-IsRead body header policy stored_policy request w payload a signed read paid parts =
      record {
        authorization = signed ∙ ap some (sym parts.same_authorization);
        request = read ∙ ap some (sym parts.same_request);
        payload = paid ∙ ap some (sym parts.same_payload);
        transaction =
            ap (λ (p : PaymentPayload). p.transaction) parts.same_payload ∙ parts.transaction;
        fingerprint = parts.fingerprint ∙ sym same;
        terms =
            parts.same_policy
            ∙ ap (λ (x : String × String). or_default (stored_policy x.0 x.1) policy)
                (λ i. (
                  sym (ap (λ (b : WireAuthorization). b.transaction_id) parts.same_authorization) i,
                  sym same i,
                ));
      }
    where
      same : l.fingerprint a.request a.payment_payload ≡ l.fingerprint request payload
      same =
          ap (λ r. l.fingerprint r a.payment_payload) parts.same_request
          ∙ ap (l.fingerprint request) parts.same_payload

pub validate_attempt-IsBound :
    {Body : Type 0} (l : Libraries Body) (body : Body) (header : String) (policy : PolicySnapshot)
    (signer_keys : String → Option String) (now : ℕ) (allow_expired : Bool)
    (stored_policy : String → String → Option PolicySnapshot) {a : Attempt}
    → validate_attempt l body header policy signer_keys now allow_expired stored_policy tt
      ≡ (ok a, tt)
    → IsRead l body header policy stored_policy a × IsBound l signer_keys a
unfolding validate_attempt
validate_attempt-IsBound l body header policy signer_keys now allow_expired stored_policy {a} h =
    let (r, u, h0, rest) = >>=-eq-ok (parse_base l body) _ tt h in
    let (w, u1, h1, rest1) = >>=-eq-ok (or_throw (l.authorization_in body) invalid) _ u rest in
    let (v, u2, verified, rest2) = >>=-eq-ok (verify_signature l w signer_keys) _ u1 rest1 in
    let expired = leb (l.millis w.expires_at) now in
    let (x, u3, h3, rest3) =
      >>=-eq-ok (throw_if (expired && not allow_expired) invalid) _ u2 rest2 in
    let (request, u4, h4, rest4) = >>=-eq-ok (or_throw (l.paid_request body) mismatch) _ u3 rest3 in
    let (payload, u5, h5, rest5) = >>=-eq-ok (or_throw (l.payload_in header) invalid) _ u4 rest4 in
    let terms =
      or_default (stored_policy w.transaction_id (l.fingerprint request payload)) policy in
    let (bound, parts) =
      bind-IsBound l signer_keys request w payload expired terms {a = a} verified rest5 in
    (
      Parts-IsRead l signer_keys body header policy stored_policy request w payload a
          (or_throw-some l signer_keys (l.authorization_in body) invalid h1)
          (or_throw-some l signer_keys (l.paid_request body) mismatch h4)
          (or_throw-some l signer_keys (l.payload_in header) invalid h5) parts,
      bound,
    )
