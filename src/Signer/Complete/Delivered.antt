-- ===== src/Signer/Complete/Delivered.antt =====
-- What a callback that services/restricted-signer/src/completion.ts accepts has proved.
use koven.Prelude.{
  ℕ, pos, ◌≤◌, ◌≡◌, sym, ap, ◌∙◌, subst, String, some, arith, eq_iff, ◌/◌, Option-cases, inl, inr,
}
use Prim.Native.String.{◌++◌}
use koven.Exec.{Result, ok, ◌>>=◌}
use koven.Exec.Laws.{>>=-eq-ok}
use koven.Signer.Types.{MissionPolicy, SignerDb}
use koven.Signer.Store.Policy.{get_mission_policy}
use koven.Signer.Store.Authorization.{get_authorization_by_transaction_id}
use koven.Signer.Store.Completion.{Replay, Outcome, accepted, completion_replay, record_completion}
use koven.Signer.Complete.{
  RawCallback, CallbackHeaders, TransferExpectation, CompletionService, Delivery, CallbackEnvelope,
  CompletionCallback, envelope_key, callback_clock_skew_seconds, distance, callback_signature,
  read_headers, authenticate, bind_report, expectation, completion_of, finish_delivery,
  accept_delivery, read_delivery, complete,
}

module _ {Json : Type 0} (c : CompletionService Json) (raw : RawCallback) where
  -- The body names a mission with this policy, and the policy's provider has signed these very bytes.
  pub record IsAuthentic (headers : CallbackHeaders) (json : Json) (policy : MissionPolicy)
      (s : SignerDb) : Type 0 where
    pub envelope : CallbackEnvelope
    pub names : c.parse_envelope json ≡ some envelope
    pub key : headers.idempotency_key ≡ envelope_key c envelope
    pub provisioned : get_mission_policy envelope.mission_id s ≡ (ok (some policy), s)
    pub secret : String
    pub pinned : c.secret_of policy.provider.id ≡ some secret
    pub signed :
        headers.signature
        ≡ callback_signature c secret headers.timestamp headers.idempotency_key raw.body

  -- The report is the body's, of the policy's mission, and its settlement is one that the signer has authorized
  -- for it.
  pub record IsBound (json : Json) (d : Delivery) (policy : MissionPolicy) (s : SignerDb)
      : Type 0 where
    pub callback : CompletionCallback
    pub parsed : c.parse_callback json ≡ some callback
    pub report : d.report ≡ callback.report
    pub names : callback.outcome.settlement_tx_id ≡ some d.settlement_tx_id
    pub same_policy : d.policy ≡ policy
    pub provider : d.report.provider_id ≡ policy.provider.id
    pub mission : d.report.mission_id ≡ policy.mission_id
    pub target : d.report.target_sha256 ≡ policy.target_sha256
    pub hash : c.report_hash d.report.unsigned ≡ d.report.report_sha256
    pub settlement :
        get_authorization_by_transaction_id d.settlement_tx_id s ≡ (ok (some d.authorization), s)
    pub authorized : d.authorization.mission_id ≡ policy.mission_id

  -- What the request's headers and body say, authenticated and bound.
  pub record IsDelivered (headers : CallbackHeaders) (d : Delivery) (s : SignerDb) : Type 0 where
    pub parsed : c.parse_headers raw ≡ some headers
    pub json : Json
    pub read : c.parse_json raw.body ≡ some json
    pub authentic : IsAuthentic headers json d.policy s
    pub bound : IsBound json d d.policy s

  read_headers-ok :
      (now : ℕ) (headers : CallbackHeaders) (s s' : SignerDb)
      → read_headers c raw now s ≡ (ok headers, s')
      → (s' ≡ s)
        × (c.parse_headers raw ≡ some headers)
        × (distance (now / 1000) (c.number headers.timestamp) ≤ callback_clock_skew_seconds)
  unfolding read_headers
  read_headers-ok now headers s s' h = (ground arith, ground arith, ground arith)

  authenticate-IsAuthentic :
      (headers : CallbackHeaders) (json : Json) (policy : MissionPolicy) (s s' : SignerDb)
      → authenticate c raw headers json s ≡ (ok policy, s')
      → (s' ≡ s) × IsAuthentic headers json policy s
  unfolding authenticate get_mission_policy
  authenticate-IsAuthentic headers json policy s s' h =
      elim (Option-cases (c.parse_envelope json)) [
        | inl missing ↦ absurd (ground arith)
        | inr (envelope, found) ↦ elim (Option-cases (c.secret_of policy.provider.id)) [
          | inl unpinned ↦ absurd (ground arith)
          | inr (secret, pinned) ↦ (
            ground arith,
            record {
              envelope = envelope;
              names = found;
              key = ground (arith, eq_iff headers.idempotency_key (envelope_key c envelope));
              provisioned = ground arith;
              secret = secret;
              pinned = pinned;
              signed = ground (
                arith,
                eq_iff
                    (callback_signature c secret headers.timestamp headers.idempotency_key raw.body)
                    headers.signature,
              );
            },
          )
        ]
      ]

  bind_report-IsBound :
      (policy : MissionPolicy) (json : Json) (d : Delivery) (s s' : SignerDb)
      → bind_report c policy json s ≡ (ok d, s')
      → (s' ≡ s) × IsBound json d policy s
  unfolding bind_report get_authorization_by_transaction_id
  bind_report-IsBound policy json d s s' h = elim (Option-cases (c.parse_callback json)) [
    | inl missing ↦ absurd (ground arith)
    | inr (callback, parsed) ↦ elim (Option-cases callback.outcome.settlement_tx_id) [
      | inl unnamed ↦ absurd (ground arith)
      | inr (settlement, named) ↦ (
        ground arith,
        record {
          callback = callback;
          parsed = parsed;
          report = ground arith;
          names = ground arith;
          same_policy = ground arith;
          provider = ground (arith, eq_iff d.report.provider_id policy.provider.id);
          mission = ground (arith, eq_iff d.report.mission_id policy.mission_id);
          target = ground (arith, eq_iff d.report.target_sha256 policy.target_sha256);
          hash = ground (arith, eq_iff (c.report_hash d.report.unsigned) d.report.report_sha256);
          settlement = ground arith;
          authorized = ground (arith, eq_iff d.authorization.mission_id policy.mission_id);
        },
      )
    ]
  ]

  -- The two halves of a delivery, on one state.
  joined :
      (headers : CallbackHeaders) (json : Json) (d : Delivery) (policy : MissionPolicy)
      (s t s' : SignerDb)
      → (t ≡ s) × IsAuthentic headers json policy s
      → (s' ≡ t) × IsBound json d policy t
      → (s' ≡ s) × IsAuthentic headers json d.policy s × IsBound json d d.policy s
  joined headers json d policy s t s' (kept, authentic) (left, bound) = (
    left ∙ kept,
    subst (λ p. IsAuthentic headers json p s) (sym bound.same_policy) authentic,
    subst (λ p. IsBound json d p s) (sym bound.same_policy)
        (subst (λ u. IsBound json d policy u) kept bound),
  )

  read_delivery-ok :
      (headers : CallbackHeaders) (d : Delivery) (s s' : SignerDb)
      → c.parse_headers raw ≡ some headers
      → read_delivery c raw headers s ≡ (ok d, s')
      → (s' ≡ s) × IsDelivered headers d s
  unfolding read_delivery
  read_delivery-ok headers d s s' parsed h = elim (Option-cases (c.parse_json raw.body)) [
    | inl missing ↦ absurd (ground arith)
    | inr (json, found) ↦
        let (policy, t, e, rest) =
          >>=-eq-ok (authenticate c raw headers json) (λ p. bind_report c p json) s {b = d}
            {s' = s'} (ground arith) in
        let (kept, authentic, bound) =
          joined headers json d policy s t s' (authenticate-IsAuthentic headers json policy s t e)
            (bind_report-IsBound policy json d t s' rest) in
        (
          kept,
          record {
            parsed = parsed;
            json = json;
            read = found;
            authentic = authentic;
            bound = bound;
          },
        )
  ]

  pub completion_replay-state :
      (mission_id report_sha256 key request_hash : String) (s : SignerDb)
      → (completion_replay mission_id report_sha256 key request_hash s).1 ≡ s
  unfolding completion_replay
  completion_replay-state mission_id report_sha256 key request_hash s = ground arith

  module _ (confirm : TransferExpectation → Result (Unit {0})) (now : ℕ) where
    finish_delivery-accepted :
        (d : Delivery) (key request_hash : String) (replay : Replay) (s s' : SignerDb)
        → finish_delivery c confirm d key request_hash now replay s ≡ (ok accepted, s')
        → (confirm (expectation c d) ≡ ok tt)
          × (record_completion (completion_of c d now) key request_hash s ≡ (ok accepted, s'))
    unfolding finish_delivery
    finish_delivery-accepted d key request_hash replay s s' h = (ground arith, ground arith)

    accept_delivery-accepted :
        (headers : CallbackHeaders) (d : Delivery) (s s' : SignerDb)
        → accept_delivery c confirm raw headers now d s ≡ (ok accepted, s')
        → (confirm (expectation c d) ≡ ok tt)
          × (record_completion
                (completion_of c d now)
                headers.idempotency_key
                (c.sha256_hex (headers.idempotency_key ++ ("." ++ raw.body)))
                s
              ≡ (ok accepted, s'))
    unfolding accept_delivery
    accept_delivery-accepted headers d s s' h =
        let request_hash = c.sha256_hex (headers.idempotency_key ++ ("." ++ raw.body)) in
        let key = headers.idempotency_key in
        let (replay, t, e, rest) =
          >>=-eq-ok (completion_replay d.policy.mission_id d.report.report_sha256 key request_hash)
            (finish_delivery c confirm d key request_hash now) s h in
        let kept : t ≡ s =
          sym (ap (λ r. r.1) e)
          ∙ completion_replay-state d.policy.mission_id d.report.report_sha256 key request_hash s in
        let (confirmed, recorded) = finish_delivery-accepted d key request_hash replay t s' rest in
        (
          confirmed,
          subst
              (λ u.
                record_completion (completion_of c d now) key request_hash u ≡ (ok accepted, s'))
              kept recorded,
        )

    complete-halves :
        (o : Outcome) (s s' : SignerDb)
        → complete c confirm raw now s ≡ (ok o, s')
        → (headers : CallbackHeaders) × (d : Delivery) × (distance
              (now / 1000)
              (c.number headers.timestamp)
            ≤ callback_clock_skew_seconds)
          × IsDelivered headers d s
          × (accept_delivery c confirm raw headers now d s ≡ (ok o, s'))
    unfolding complete
    complete-halves o s s' h =
        let (headers, t, e, rest) =
          >>=-eq-ok (read_headers c raw now)
            (λ hs. read_delivery c raw hs >>= accept_delivery c confirm raw hs now) s h in
        let (kept, parsed, in_time) = read_headers-ok now headers s t e in
        let (d, u, f, last) =
          >>=-eq-ok (read_delivery c raw headers) (accept_delivery c confirm raw headers now) t
            rest in
        let (left, delivered) = read_delivery-ok headers d t u parsed f in
        (
          headers,
          d,
          in_time,
          subst (IsDelivered headers d) kept delivered,
          subst (λ v. accept_delivery c confirm raw headers now d v ≡ (ok o, s')) (left ∙ kept)
              last,
        )

    -- A callback is answered, as accepted or as a duplicate, only when its headers and its body are well formed, its
    -- time is within five minutes of the clock, the provider of the policy of the mission that its body names has
    -- signed its bytes, the report in the body is of that mission, target and provider with the hash of its content,
    -- and the settlement that it names is one that the signer has authorized for the mission.
    pub complete-IsAuthentic :
        (o : Outcome) (s s' : SignerDb)
        → complete c confirm raw now s ≡ (ok o, s')
        → (headers : CallbackHeaders) × (d : Delivery) × (distance
              (now / 1000)
              (c.number headers.timestamp)
            ≤ callback_clock_skew_seconds)
          × IsDelivered headers d s
    complete-IsAuthentic o s s' h =
        let (headers, d, in_time, delivered, rest) = complete-halves o s s' h in
        (headers, d, in_time, delivered)

    -- A completion is accepted only after the ledger has confirmed the settlement that the authenticated body names,
    -- from the signer's account to the provider of the mission's stored policy with the authorized amount; and then
    -- the mission's completion is recorded with that report and settlement, under the request's key and hash.
    pub complete-accepted :
        (s s' : SignerDb)
        → complete c confirm raw now s ≡ (ok accepted, s')
        → (headers : CallbackHeaders) × (d : Delivery) × IsDelivered headers d s
          × (confirm (record {
            transaction_id = d.settlement_tx_id;
            payer_account_id = c.account_id;
            recipient_account_id = d.policy.provider.account_id;
            amount_tinybar = pos d.authorization.authorization.amount_tinybar;
          })
              ≡ ok tt)
          × (record_completion
                (record {
                  mission_id = d.policy.mission_id;
                  report_sha256 = d.report.report_sha256;
                  settlement_tx_id = d.settlement_tx_id;
                  accepted_at = c.iso now;
                })
                headers.idempotency_key
                (c.sha256_hex (headers.idempotency_key ++ ("." ++ raw.body)))
                s
              ≡ (ok accepted, s'))
    complete-accepted s s' h =
        let (headers, d, in_time, delivered, rest) = complete-halves accepted s s' h in
        let (confirmed, recorded) = accept_delivery-accepted headers d s s' rest in
        (headers, d, delivered, confirmed, recorded)
