-- ===== src/Signer/Complete/Atomic.antt =====
-- What a callback that services/restricted-signer/src/completion.ts refuses leaves behind.
use koven.Prelude.{ℕ, ◌≡◌, refl, String, arith}
use koven.Domain.Errors.{Error}
use Prim.Native.String.{◌++◌}
use koven.Exec.{Result, err, lift, transaction, ◌>>=◌}
use koven.Exec.Laws.{read_atomic}
use koven.Signer.Types.{StoredCompletion, SignerDb}
use koven.Signer.Store.Codes.{with_codes}
use koven.Signer.Store.Completion.{Replay, completion_replay, record_completion}
use koven.Signer.Complete.{
  RawCallback, CallbackHeaders, TransferExpectation, CompletionService, Delivery, expectation,
  completion_of, read_headers, authenticate, bind_report, finish_delivery, accept_delivery,
  read_delivery, complete,
}
use koven.Signer.Complete.Delivered.{completion_replay-state}

record_completion_atomic :
    (c : StoredCompletion) (key request_hash : String) (s : SignerDb) {e : Error} {s' : SignerDb}
    → record_completion c key request_hash s ≡ (err e, s')
    → s' ≡ s
unfolding record_completion with_codes transaction
record_completion_atomic c key request_hash s h = ground arith

module _ {Json : Type 0} (c : CompletionService Json) (raw : RawCallback)
    (confirm : TransferExpectation → Result (Unit {0})) (now : ℕ) where
  read_headers-state : (s : SignerDb) → (read_headers c raw now s).1 ≡ s
  unfolding read_headers
  read_headers-state s = ground arith

  read_delivery-state :
      (headers : CallbackHeaders) (s : SignerDb) → (read_delivery c raw headers s).1 ≡ s
  unfolding read_delivery authenticate bind_report
  read_delivery-state headers s = ground arith

  finish_delivery_atomic :
      (d : Delivery) (key request_hash : String) (replay : Replay) (s : SignerDb) {e : Error}
      {s' : SignerDb}
      → finish_delivery c confirm d key request_hash now replay s ≡ (err e, s')
      → s' ≡ s
  unfolding finish_delivery
  finish_delivery_atomic d key request_hash Replay.duplicate s h = ground arith
  finish_delivery_atomic d key request_hash Replay.new s {e} {s'} h =
      read_atomic (lift (confirm (expectation c d)))
        (λ _. record_completion (completion_of c d now) key request_hash) s refl
        (λ u. record_completion_atomic (completion_of c d now) key request_hash s) h

  accept_delivery_atomic :
      (headers : CallbackHeaders) (d : Delivery) (s : SignerDb) {e : Error} {s' : SignerDb}
      → accept_delivery c confirm raw headers now d s ≡ (err e, s')
      → s' ≡ s
  unfolding accept_delivery
  accept_delivery_atomic headers d s h =
      let key = headers.idempotency_key in
      let request_hash = c.sha256_hex (key ++ ("." ++ raw.body)) in
      let id = d.policy.mission_id in
      let report = d.report.report_sha256 in
      read_atomic (completion_replay id report key request_hash)
        (finish_delivery c confirm d key request_hash now) s
        (completion_replay-state c raw id report key request_hash s)
        (λ replay. finish_delivery_atomic d key request_hash replay s) h

  -- A callback that is refused changes nothing, whatever the reason.
  pub complete_atomic :
      (s s' : SignerDb) (e : Error) → complete c confirm raw now s ≡ (err e, s') → s' ≡ s
  unfolding complete
  complete_atomic s s' e h =
      read_atomic (read_headers c raw now)
        (λ hs. read_delivery c raw hs >>= accept_delivery c confirm raw hs now) s
        (read_headers-state s)
        (λ hs.
          read_atomic (read_delivery c raw hs) (accept_delivery c confirm raw hs now) s
            (read_delivery-state hs s) (λ d. accept_delivery_atomic hs d s))
        h
