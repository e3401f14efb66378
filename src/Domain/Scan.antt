-- ===== src/Domain/Scan.antt =====
-- packages/domain/src/scan.ts and outcome.ts: what a provider reports of a scan.
use koven.Prelude.{ℕ, String, Bool, Option, List}

pub data Severity : Type 0 where
  info low medium high critical : Severity

pub record Finding : Type 0 where
  pub rule_id : String
  pub severity : Severity
  pub file : String
  pub line : ℕ
  pub message : String

-- The schema's version has one value. `UnsignedReport` is a report without its own hash.
pub record UnsignedReport : Type 0 where
  pub mission_id : String
  pub target_sha256 : String
  pub provider_id : String
  pub findings : List Finding
  pub started_at : String
  pub completed_at : String

pub record ScanReport : Type 0 where
  pub unsigned : UnsignedReport
  pub open unsigned use *
  pub report_sha256 : String

pub record MissionOutcome : Type 0 where
  pub mission_id : String
  pub delivered : Bool
  pub report_sha256 : Option String
  pub settlement_tx_id : Option String
  pub failure_reason : Option String
  pub observed_at : String
