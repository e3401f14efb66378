-- ===== src/Provider/Scan.antt =====
-- services/resource-server/src/report.ts and the scan service of server.ts: a report of what the engine has
-- found. The engine, the clock, the schema and the hashes are parameters.
use koven.Prelude.{ℕ, String, Option, Bool, false, not, List, [], ◌∷◌, ◌||◌, ◌==◌, ltb, length}
use koven.Domain.Errors.{Error, ErrorCode, scan_service_error, zod_error, plain_error}
use koven.Domain.Scan.{Finding, UnsignedReport, ScanReport}
use koven.Exec.{pure, throw, throw_if, or_throw, ◌>>=◌, ◌>>◌}
use koven.X402.{Checked}
use koven.Provider.Authorization.{ScanRequest}

abbrev pub max_report_findings : ℕ
max_report_findings = 1000

abbrev pub max_finding_message_chars : ℕ
max_finding_message_chars = 4096

pub data ScanFailureMode : Type 0 where
  no_failure timeout malformed : ScanFailureMode

-- SHA-256 as hexadecimal text, canonical JSON, the schema of a report, and the length of a text.
pub record Reports : Type 0 where
  pub sha256 : String → String
  pub unsigned_json : UnsignedReport → String
  pub is_report : ScanReport → Bool
  pub chars : String → ℕ

abbrev pub scan_failed : Error
scan_failed = scan_service_error ErrorCode.internal_error

module _ (f : Reports) where
  abbrev pub any_oversized : List Finding → Bool
  any_oversized [] = false
  any_oversized (x ∷ xs) = ltb max_finding_message_chars (f.chars x.message) || any_oversized xs

  unfoldable pub assert_report_limits : List Finding → Checked (Unit {0})
  assert_report_limits findings = do
    throw_if (ltb max_report_findings (length findings)) scan_failed
    throw_if (any_oversized findings) scan_failed

  abbrev pub unsigned_report :
      ScanRequest → String → List Finding → String → String → UnsignedReport
  unsigned_report request provider_id findings started_at completed_at = record {
    mission_id = request.mission_id;
    target_sha256 = f.sha256 request.source;
    provider_id = provider_id;
    findings = findings;
    started_at = started_at;
    completed_at = completed_at;
  }

  abbrev pub report_of : UnsignedReport → ScanReport
  report_of u = record { unsigned = u; report_sha256 = f.sha256 (f.unsigned_json u) }

  unfoldable pub build_report :
      ScanRequest → String → List Finding → String → String → Checked ScanReport
  build_report request provider_id findings started_at completed_at = do
    let report = report_of (unsigned_report request provider_id findings started_at completed_at)
    throw_if (not (f.is_report report)) zod_error
    pure report

  unfoldable pub has_valid_report_hash : ScanReport → Bool
  has_valid_report_hash report = report.report_sha256 == f.sha256 (f.unsigned_json report.unsigned)

  abbrev pub fail_as : ScanFailureMode → Checked (Unit {0})
  fail_as no_failure = pure tt
  fail_as timeout = throw scan_failed
  fail_as malformed = throw scan_failed

  -- `scan`, with the request that has been parsed. `findings` is none where the engine throws.
  unfoldable pub scan :
      ScanRequest
      → String
      → ScanFailureMode
      → Option (List Finding)
      → String
      → String
      → Checked ScanReport
  unfolding assert_report_limits build_report
  scan request provider_id mode findings started_at completed_at = do
    fail_as mode
    found ← or_throw findings plain_error
    assert_report_limits found
    build_report request provider_id found started_at completed_at
