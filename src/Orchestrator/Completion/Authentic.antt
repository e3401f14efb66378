-- ===== src/Orchestrator/Completion/Authentic.antt =====
-- What a callback has shown when apps/orchestrator/src/callbacks/completion.ts has checked it.
use koven.Prelude.{
  ℕ, ◌≤◌, ◌/◌, ◌≡◌, refl, ◌∙◌, subst, String, some, arith, eq_iff, Option-cases, inl, inr,
}
use koven.Exec.{Result, ok, err}
use koven.Signer.Complete.{
  RawCallback, CallbackHeaders, CallbackEnvelope, callback_clock_skew_seconds, distance,
}
use Prim.Native.String.{◌++◌}
use koven.Persistence.Db.{Db, PersistedMissionPolicy}
use koven.Persistence.Completions.{policy_of}
use koven.Orchestrator.Completion.{
  CompletionHandler, ReceivedCallback, envelope_key, completion_signature, read_callback_headers,
  authenticate_callback, read_callback, check_first,
}

module _ {Json : Type 0} (c : CompletionHandler Json) (raw : RawCallback) where
  -- The body names a mission with this policy, and the policy's provider has signed these very bytes.
  pub record IsAuthentic (headers : CallbackHeaders) (json : Json) (policy : PersistedMissionPolicy)
      (s : Db) : Type 0 where
    pub envelope : CallbackEnvelope
    pub names : c.parse_envelope json ≡ some envelope
    pub key : headers.idempotency_key ≡ envelope_key c envelope
    pub registered : policy_of envelope.mission_id s ≡ some policy
    pub secret : String
    pub pinned : c.secret_of policy.provider.id ≡ some secret
    pub signed :
        headers.signature
        ≡ completion_signature c secret headers.timestamp headers.idempotency_key raw.body

  authenticate_callback-IsAuthentic :
      (headers : CallbackHeaders) (json : Json) (policy : PersistedMissionPolicy) (s s' : Db)
      → authenticate_callback c raw headers json s ≡ (ok policy, s')
      → (s' ≡ s) × IsAuthentic headers json policy s
  unfolding authenticate_callback
  authenticate_callback-IsAuthentic headers json policy s s' h =
      elim (Option-cases (c.parse_envelope json)) [
        | inl missing ↦ absurd (ground arith)
        | inr (envelope, found) ↦ elim (Option-cases (c.secret_of policy.provider.id)) [
          | inl unpinned ↦ absurd (ground arith)
          | inr (secret, pinned) ↦ (
            ground arith,
            record {
              envelope = envelope;
              names = found;
              key = ground (arith, eq_iff headers.idempotency_key (envelope_key c envelope));
              registered = ground arith;
              secret = secret;
              pinned = pinned;
              signed = ground (
                arith,
                eq_iff
                    (completion_signature c secret headers.timestamp headers.idempotency_key
                      raw.body)
                    headers.signature,
              );
            },
          )
        ]
      ]

  pub read_callback_headers-ok :
      (now : ℕ) (headers : CallbackHeaders) (s s' : Db)
      → read_callback_headers c raw now s ≡ (ok headers, s')
      → (s' ≡ s)
        × (c.parse_headers raw ≡ some headers)
        × (distance (now / 1000) (c.number headers.timestamp) ≤ callback_clock_skew_seconds)
  unfolding read_callback_headers
  read_callback_headers-ok now headers s s' h = (ground arith, ground arith, ground arith)

  -- The callback that is handled is what the authenticated body says.
  pub record IsReceived (headers : CallbackHeaders) (d : ReceivedCallback) (s : Db) : Type 0 where
    pub json : Json
    pub read : c.parse_json raw.body ≡ some json
    pub authentic : IsAuthentic headers json d.policy s
    pub parsed : c.parse_callback json ≡ some d.callback
    pub keyed : d.key ≡ headers.idempotency_key
    pub hashed : d.request_hash ≡ c.sha256_hex (headers.idempotency_key ++ ("." ++ raw.body))

  pub read_callback-IsReceived :
      (headers : CallbackHeaders) (d : ReceivedCallback) (s s' : Db)
      → read_callback c raw headers s ≡ (ok d, s')
      → (s' ≡ s) × IsReceived headers d s
  unfolding read_callback
  read_callback-IsReceived headers d s s' h = elim (Option-cases (c.parse_json raw.body)) [
    | inl missing ↦ absurd (ground arith)
    | inr (json, found) ↦ checked json found (authenticate_callback c raw headers json s) refl
  ]
    where
      checked :
          (json : Json)
          → c.parse_json raw.body ≡ some json
          → (o : Result PersistedMissionPolicy × Db)
          → authenticate_callback c raw headers json s ≡ o
          → (s' ≡ s) × IsReceived headers d s
      checked json found (ok policy, u) e =
          let (kept, authentic) = authenticate_callback-IsAuthentic headers json policy s u e in
          let same : policy ≡ d.policy = ground arith in
          let left : s' ≡ u = ground arith in
          (
            left ∙ kept,
            record {
              json = json;
              read = found;
              authentic = subst (λ p. IsAuthentic headers json p s) same authentic;
              parsed = ground arith;
              keyed = ground arith;
              hashed = ground arith;
            },
          )
      checked json found (err x, u) e = absurd (ground arith)

  -- The report is the provider's of this mission, whose settlement it names, and the mission runs without a completion.
  pub record IsFirst (d : ReceivedCallback) (settlement : String) : Type 0 where
    pub mission : d.callback.report.mission_id ≡ d.policy.mission_id
    pub target : d.callback.report.target_sha256 ≡ d.policy.target_sha256
    pub provider : d.callback.report.provider_id ≡ d.policy.provider.id
    pub hash : c.report_hash d.callback.report.unsigned ≡ d.callback.report.report_sha256
    pub names : d.callback.outcome.settlement_tx_id ≡ some settlement

  pub check_first-IsFirst :
      (d : ReceivedCallback) (settlement : String) (s s' : Db)
      → check_first c d s ≡ (ok settlement, s')
      → IsFirst d settlement
  unfolding check_first
  check_first-IsFirst d settlement s s' h = record {
    mission = ground (arith, eq_iff d.callback.report.mission_id d.policy.mission_id);
    target = ground (arith, eq_iff d.callback.report.target_sha256 d.policy.target_sha256);
    provider = ground (arith, eq_iff d.callback.report.provider_id d.policy.provider.id);
    hash =
        ground (
          arith,
          eq_iff (c.report_hash d.callback.report.unsigned) d.callback.report.report_sha256,
        );
    names = ground arith;
  }

  pub check_first-state :
      (d : ReceivedCallback) (settlement : String) (s s' : Db)
      → check_first c d s ≡ (ok settlement, s')
      → s' ≡ s
  unfolding check_first
  check_first-state d settlement s s' h = ground arith
