-- ===== src/Orchestrator/Completion/Accepted.antt =====
-- What is so when apps/orchestrator/src/callbacks/completion.ts accepts a callback.
use koven.Prelude.{
  pos, ◌≤◌, ◌/◌, ◌≡◌, sym, ap, ◌∙◌, subst, String, Option, none, some, ◌==◌, Bool-cases, inl, inr,
}
use koven.Domain.Mission.{running, completed}
use koven.Domain.Errors.{Error}
use koven.Exec.{Result, ok, err, pure, lift, modify, caught, catch, ◌>>=◌, ◌>>◌}
use koven.Exec.Laws.{>>=-eq-ok}
use koven.Sql.{select, has_key, IsKeyed}
use koven.Signer.Complete.{callback_clock_skew_seconds, distance, RawCallback, CallbackHeaders}
use koven.Persistence.Db.{Db, IdempotencyResult}
use koven.Persistence.Missions.{mission_key, PersistedMission}
use koven.Persistence.Idempotency.{result_key}
use koven.Orchestrator.Machine.{transition, record_fact}
use koven.Orchestrator.Completion.{
  CompletionHandler, CallbackStatus, accepted, duplicate, Arrival, ReceivedCallback, confirming,
  expected_transfer, completion_row, accepted_result, persist, received_audit, complete_mission,
  after_failure, answer_duplicate, is_replay, duplicate_audit, accept_first, after_lookup,
  accept_callback, receive, read_callback_headers, read_callback, check_first,
}
use koven.Orchestrator.Completion.Recorded.{
  IsRecorded, IsCompleted, transition-IsRecorded, transition-IsCompleted,
}
use koven.Orchestrator.Completion.Authentic.{
  IsReceived, IsFirst, read_callback_headers-ok, check_first-state, read_callback-IsReceived,
  check_first-IsFirst,
}

-- Others keep the ids of missions unique.
abbrev pub KeepsKeys : (Db → Db) → Type 0
KeepsKeys f = (db : Db) → IsKeyed mission_key db.missions → IsKeyed mission_key (f db).missions

module _ {Json : Type 0} (c : CompletionHandler Json) (raw : RawCallback) (x : Arrival) where
  -- A callback that is accepted: signed by the provider of the mission's policy, its report that provider's of
  -- this mission, its settlement confirmed, the signer content, and the mission completed with them.
  pub record IsAccepted (s s' : Db) : Type 0 where
    pub headers : CallbackHeaders
    pub d : ReceivedCallback
    pub parsed : c.parse_headers raw ≡ some headers
    pub in_time : distance (x.now / 1000) (c.number headers.timestamp) ≤ callback_clock_skew_seconds
    pub received : IsReceived c raw headers d s
    pub settlement : String
    pub first : IsFirst c raw d settlement
    pub settled_at : String
    pub confirmed :
        x.confirm (record {
          transaction_id = settlement;
          payer_account_id = d.policy.borrower_account_id;
          recipient_account_id = d.policy.provider.account_id;
          amount_tinybar = pos d.policy.provider.price_tinybar;
        })
        ≡ ok settled_at
    pub acknowledged : x.signer ≡ ok tt
    pub ended : IsCompleted d.policy.mission_id s'
    pub recorded : IsRecorded d.policy.mission_id d.callback.report.report_sha256 settlement s'

  confirming-ok : (o : Result String) (at : String) → confirming o ≡ ok at → o ≡ ok at
  confirming-ok (ok a) at h = h
  confirming-ok (err e) at h = absurd (cc h)

  duplicate_not_accepted :
      (d : ReceivedCallback) (now : String) (s s' : Db)
      → answer_duplicate c d now s ≡ (ok accepted, s')
      → ⊥
  unfolding answer_duplicate
  duplicate_not_accepted d now s s' h =
      let (a, u, recorded, last) =
        >>=-eq-ok {A = Unit {0}} {B = CallbackStatus}
          (record_fact c.machine d.policy.mission_id (duplicate_audit c d) now)
          (λ a. pure duplicate) s h in
      cc last

  failure_not_accepted :
      (d : ReceivedCallback) (now : String) (e : Error) (s s' : Db)
      → after_failure c d now e s ≡ (ok accepted, s')
      → ⊥
  unfolding after_failure
  failure_not_accepted d now e s s' h =
      elim (Bool-cases (is_replay c d (select (has_key result_key d.key) s.idempotency_results))) [
        | inl y ↦ duplicate_not_accepted d now s s' (rw y at h)
        | inr n ↦ cc (rw n at h)
      ]

  caught-accepted :
      (d : ReceivedCallback) (now : String) (o : Result CallbackStatus × Db) (s' : Db)
      → caught (after_failure c d now) o ≡ (ok accepted, s')
      → o ≡ (ok accepted, s')
  caught-accepted d now (ok a, u) s' h = h
  caught-accepted d now (err e, u) s' h = absurd (failure_not_accepted d now e u s' h)

  complete_mission-IsCompleted :
      (d : ReceivedCallback) (settlement at now : String) (s s' : Db)
      → IsKeyed mission_key s.missions
      → complete_mission c raw d settlement at now s ≡ (ok accepted, s')
      → IsCompleted d.policy.mission_id s'
        × IsRecorded d.policy.mission_id d.callback.report.report_sha256 settlement s'
  unfolding complete_mission
  complete_mission-IsCompleted d settlement at now s s' keyed h =
      let id = d.policy.mission_id in
      let row = completion_row c raw d settlement at now in
      let (p, u, moved, last) =
        >>=-eq-ok {A = PersistedMission} {B = CallbackStatus}
          (transition c.machine id running completed (received_audit c d settlement) now
            (persist row (accepted_result c d now)))
          (λ p. pure accepted) s h in
      let same : u ≡ s' = ap (λ (o : Result CallbackStatus × Db). o.1) last in
      subst (λ v. IsCompleted id v × IsRecorded id d.callback.report.report_sha256 settlement v)
        same
        (
          transition-IsCompleted c.machine id (received_audit c d settlement) now row
              (accepted_result c d now) s u p keyed moved,
          transition-IsRecorded c.machine id running completed (received_audit c d settlement) now
              row (accepted_result c d now) s u p moved,
        )

  accept_first-IsAccepted :
      (headers : CallbackHeaders) (d : ReceivedCallback) (s s' : Db)
      → c.parse_headers raw ≡ some headers
      → distance (x.now / 1000) (c.number headers.timestamp) ≤ callback_clock_skew_seconds
      → IsKeyed mission_key s.missions
      → KeepsKeys x.while_confirming
      → KeepsKeys x.while_signing
      → IsReceived c raw headers d s
      → accept_first c raw x d s ≡ (ok accepted, s')
      → IsAccepted s s'
  unfolding accept_first
  accept_first-IsAccepted headers d s s' parsed in_time keyed during after received h =
      let (settlement, u1, first, rest1) =
        >>=-eq-ok {A = String} {B = CallbackStatus} (check_first c d)
          (λ settlement. do
            modify x.while_confirming
            settled_at ← lift (confirming (x.confirm (expected_transfer c d settlement)))
            modify x.while_signing
            lift x.signer
            catch (complete_mission c raw d settlement settled_at x.now_text)
                (after_failure c d x.now_text))
          s h in
      let (at, u2, agreed, rest2) =
        >>=-eq-ok {A = String} {B = CallbackStatus}
          (lift (confirming (x.confirm (expected_transfer c d settlement))))
          (λ at. do
            modify x.while_signing
            lift x.signer
            catch (complete_mission c raw d settlement at x.now_text)
                (after_failure c d x.now_text))
          (x.while_confirming u1) rest1 in
      let (b, u3, signed, rest3) =
        >>=-eq-ok {A = Unit {0}} {B = CallbackStatus} (lift x.signer)
          (λ b.
            catch (complete_mission c raw d settlement at x.now_text)
              (after_failure c d x.now_text))
          (x.while_signing u2) rest2 in
      let same : x.while_signing u2 ≡ u3 = ap (λ (o : Result (Unit {0}) × Db). o.1) signed in
      let kept : u1 ≡ s = check_first-state c raw d settlement s u1 first in
      let waited : x.while_confirming u1 ≡ u2 = ap (λ (o : Result String × Db). o.1) agreed in
      let keyed2 : IsKeyed mission_key u2.missions =
        subst (λ (v : Db). IsKeyed mission_key v.missions) waited
          (during u1 (subst (λ (v : Db). IsKeyed mission_key v.missions) (sym kept) keyed)) in
      let done =
        caught-accepted d x.now_text (complete_mission c raw d settlement at x.now_text u3) s'
          rest3 in
      let (ended, recorded) =
        complete_mission-IsCompleted d settlement at x.now_text u3 s'
          (subst (λ (v : Db). IsKeyed mission_key v.missions) same (after u2 keyed2)) done in
      record {
        headers = headers;
        d = d;
        parsed = parsed;
        in_time = in_time;
        received = received;
        settlement = settlement;
        first = check_first-IsFirst c raw d settlement s u1 first;
        settled_at = at;
        confirmed =
            confirming-ok (x.confirm (expected_transfer c d settlement)) at
              (ap (λ (o : Result String × Db). o.0) agreed);
        acknowledged = ap (λ (o : Result (Unit {0}) × Db). o.0) signed;
        ended = ended;
        recorded = recorded;
      }

  after_lookup-IsAccepted :
      (headers : CallbackHeaders) (d : ReceivedCallback) (o : Option IdempotencyResult) (s s' : Db)
      → c.parse_headers raw ≡ some headers
      → distance (x.now / 1000) (c.number headers.timestamp) ≤ callback_clock_skew_seconds
      → IsKeyed mission_key s.missions
      → KeepsKeys x.while_confirming
      → KeepsKeys x.while_signing
      → IsReceived c raw headers d s
      → after_lookup c raw x d o s ≡ (ok accepted, s')
      → IsAccepted s s'
  unfolding after_lookup
  after_lookup-IsAccepted headers d none s s' parsed in_time keyed during after received h =
      accept_first-IsAccepted headers d s s' parsed in_time keyed during after received h
  after_lookup-IsAccepted headers d (some r) s s' parsed in_time keyed during after received h =
      elim (Bool-cases (r.request_hash == d.request_hash)) [
        | inl y ↦ absurd (duplicate_not_accepted d x.now_text s s' (rw y at h))
        | inr n ↦ absurd (cc (rw n at h))
      ]

  -- A callback is accepted only with what it has shown. The ids of missions are unique, and whatever others do to
  -- the tables while the handler waits for the ledger and for the signer, they keep them so. Then when a callback is
  -- accepted, its headers are read from the request and in time, the provider of the registered policy of the
  -- mission that the body names has signed the body, the report in the body is that provider's of this mission and
  -- target, the transfer of the price from the borrower to the provider under the body's settlement is confirmed,
  -- the signer has accepted it, the mission is completed, and its completion is on record with this report and
  -- settlement.
  pub receive-IsAccepted :
      (s s' : Db)
      → IsKeyed mission_key s.missions
      → KeepsKeys x.while_confirming
      → KeepsKeys x.while_signing
      → receive c raw x s ≡ (ok accepted, s')
      → IsAccepted s s'
  unfolding receive accept_callback
  receive-IsAccepted s s' keyed during after h =
      let (headers, u, read, rest) =
        >>=-eq-ok {A = CallbackHeaders} {B = CallbackStatus} (read_callback_headers c raw x.now)
          (λ headers. read_callback c raw headers >>= accept_callback c raw x) s h in
      let (d, w, delivered, last) =
        >>=-eq-ok {A = ReceivedCallback} {B = CallbackStatus} (read_callback c raw headers)
          (accept_callback c raw x) u rest in
      let (kept, received) = read_callback-IsReceived c raw headers d u w delivered in
      let (left, parsed, in_time) = read_callback_headers-ok c raw x.now headers s u read in
      let same : w ≡ s = kept ∙ left in
      subst (λ v. IsAccepted v s') same
        (after_lookup-IsAccepted headers d (select (has_key result_key d.key) w.idempotency_results)
          w s' parsed in_time (subst (λ (v : Db). IsKeyed mission_key v.missions) (sym same) keyed)
          during after (subst (IsReceived c raw headers d) (sym kept) received) last)
