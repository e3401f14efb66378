-- ===== src/Orchestrator/Completion/Recorded.antt =====
-- What a transition that apps/orchestrator/src/callbacks/completion.ts makes leaves on record.
use koven.Prelude.{
  ◌≡◌, refl, sym, ap, ◌∙◌, subst, String, some, ◌∷◌, arith, eq_iff, eq_refl, Option-cases, inl, inr,
}
use koven.Domain.Mission.{MissionState, running, completed}
use koven.Persistence.Events.{LocalEvent, create_event}
use koven.Exec.{Result, ok, pure, ◌>>=◌}
use koven.Exec.Laws.{>>=-eq-ok, transaction-eq-ok}
use koven.Sql.{select, has_key, IsKeyed}
use koven.Persistence.Db.{Db, MissionRow, MissionCompletion, IdempotencyResult}
use koven.Persistence.Missions.{mission_key, find_mission, PersistedMission, transition_mission}
use koven.Persistence.Missions.Transition.{transition_mission-Moved}
use koven.Persistence.Idempotency.{create_idempotency_result}
use koven.Persistence.Completions.{
  completion_in, completion_key, save_mission_completion, insert_completion, same_completion,
}
use koven.Orchestrator.Machine.{
  Machine, TransitionAudit, event_of, transition, transition_body, after_move, read_again,
}
use koven.Orchestrator.Machine.Life.{KeepsMissions, transition-ok, read_again-state}
use koven.Orchestrator.Completion.{persist}

-- The completion of a mission is on record, with a report and a settlement.
pub record IsRecorded (mission_id report settlement : String) (s : Db) : Type 0 where
  pub row : MissionCompletion
  pub found : completion_in mission_id s ≡ some row
  pub report_is : row.report_sha256 ≡ report
  pub settlement_is : row.settlement_tx_id ≡ settlement

-- The mission is completed.
pub record IsCompleted (mission_id : String) (s : Db) : Type 0 where
  pub row : MissionRow
  pub found : find_mission mission_id s ≡ some row
  pub ended : row.state ≡ completed

save-IsRecorded :
    (x y : MissionCompletion) (s s' : Db)
    → save_mission_completion x s ≡ (ok y, s')
    → IsRecorded x.mission_id x.report_sha256 x.settlement_tx_id s'
unfolding save_mission_completion insert_completion same_completion
save-IsRecorded x y s s' h = elim (Option-cases (completion_in x.mission_id s)) [
  | inr (r, e) ↦
      let kept : s ≡ s' = ground arith in
      rw (← kept) (record {
        row = r;
        found = e;
        report_is = ground (arith, eq_iff r.report_sha256 x.report_sha256);
        settlement_is = ground (arith, eq_iff r.settlement_tx_id x.settlement_tx_id);
      })
  | inl e ↦
      let made : record s { mission_completions = x ∷ s.mission_completions } ≡ s' = ground arith in
      rw (← made) (record {
        row = x;
        found = rw (eq_refl x.mission_id) refl;
        report_is = refl;
        settlement_is = refl;
      })
]

create_result-completions :
    (r : IdempotencyResult) (s : Db)
    → (create_idempotency_result r s).1.mission_completions ≡ s.mission_completions
unfolding create_idempotency_result
create_result-completions r s = ground arith

persist-IsRecorded :
    (x : MissionCompletion) (r : IdempotencyResult) (s s' : Db)
    → persist x r s ≡ (ok tt, s')
    → IsRecorded x.mission_id x.report_sha256 x.settlement_tx_id s'
unfolding persist
persist-IsRecorded x r s s' h =
    let (y, u, saved, rest) =
      >>=-eq-ok {A = MissionCompletion} {B = Unit {0}} (save_mission_completion x)
        (λ y. create_idempotency_result r >>= λ z. pure tt) s h in
    let (z, w, made, last) =
      >>=-eq-ok {A = IdempotencyResult} {B = Unit {0}} (create_idempotency_result r) (λ z. pure tt)
        u rest in
    let kept : s'.mission_completions ≡ u.mission_completions =
      sym (ap (λ (o : Result (Unit {0}) × Db). o.1.mission_completions) last)
      ∙ sym (ap (λ (o : Result IdempotencyResult × Db). o.1.mission_completions) made)
      ∙ create_result-completions r u in
    let on_record = save-IsRecorded x y s u saved in
    record {
      row = on_record.row;
      found = ap (select (has_key completion_key x.mission_id)) kept ∙ on_record.found;
      report_is = on_record.report_is;
      settlement_is = on_record.settlement_is;
    }

persist-KeepsMissions :
    (m : Machine) (x : MissionCompletion) (r : IdempotencyResult) → KeepsMissions m (persist x r)
unfolding persist save_mission_completion insert_completion create_idempotency_result
persist-KeepsMissions m x r db = ground arith

-- A transition that goes through has made the writes beside it.
after_move-IsRecorded :
    (m : Machine) (id : String) (e : LocalEvent) (x : MissionCompletion) (r : IdempotencyResult)
    (s s' : Db) (p : PersistedMission)
    → after_move m id e (persist x r) s ≡ (ok p, s')
    → IsRecorded x.mission_id x.report_sha256 x.settlement_tx_id s'
unfolding after_move
after_move-IsRecorded m id e x r s s' p h =
    let (a, u, created, rest) =
      >>=-eq-ok {A = Unit {0}} {B = PersistedMission} (create_event m.texts e)
        (λ a. persist x r >>= λ b. read_again m id) s h in
    let (b, w, kept, last) =
      >>=-eq-ok {A = Unit {0}} {B = PersistedMission} (persist x r) (λ b. read_again m id) u rest in
    let same : s' ≡ w =
      sym (ap (λ (o : Result PersistedMission × Db). o.1) last) ∙ read_again-state m id w in
    subst (IsRecorded x.mission_id x.report_sha256 x.settlement_tx_id) (sym same)
      (persist-IsRecorded x r u w kept)

pub transition-IsRecorded :
    (m : Machine) (id : String) (from to : MissionState) (audit : TransitionAudit) (now : String)
    (x : MissionCompletion) (r : IdempotencyResult) (s s' : Db) (p : PersistedMission)
    → transition m id from to audit now (persist x r) s ≡ (ok p, s')
    → IsRecorded x.mission_id x.report_sha256 x.settlement_tx_id s'
unfolding transition transition_body
transition-IsRecorded m id from to audit now x r s s' p h =
    let e = event_of m id from to (m.payload_of from to audit.payload) audit now in
    let body =
      transaction-eq-ok (transition_body m id from to now e (persist x r)) s {a = p} {s' = s'}
        (ground arith) in
    let (a, u, found, rest) =
      >>=-eq-ok {A = PersistedMission} {B = PersistedMission} (read_again m id)
        (λ a. transition_mission id from to now >>= λ b. after_move m id e (persist x r)) s body in
    let (b, w, moved, last) =
      >>=-eq-ok {A = Unit {0}} {B = PersistedMission} (transition_mission id from to now)
        (λ b. after_move m id e (persist x r)) u rest in
    after_move-IsRecorded m id e x r w s' p last

pub transition-IsCompleted :
    (m : Machine) (id : String) (audit : TransitionAudit) (now : String) (x : MissionCompletion)
    (r : IdempotencyResult) (s s' : Db) (p : PersistedMission)
    → IsKeyed mission_key s.missions
    → transition m id running completed audit now (persist x r) s ≡ (ok p, s')
    → IsCompleted id s'
transition-IsCompleted m id audit now x r s s' p keyed h =
    let (moved, step, same) =
      transition-ok m id running completed audit now (persist x r) s s' p
        (persist-KeepsMissions m x r) h in
    let is = transition_mission-Moved id running completed now s {db' = moved} keyed step in
    record {
      row = record is.row { state = completed; updated_at = now };
      found = ap (select (has_key mission_key id)) same ∙ is.moved;
      ended = refl;
    }
