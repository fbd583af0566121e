-- ===== src/Models/Domain.antt =====
-- backend/app/models/domain.py: the states and categories the system agrees on. A Python StrEnum
-- member is a constructor.
use scan_ledger.Prelude.{Bool, true, false, String}

pub data ScanStatus : Type 0 where
  queued running completed completed_with_warnings failed canceled : ScanStatus

-- `ScanStatus.is_terminal`
abbrev pub scan_is_terminal : ScanStatus → Bool
scan_is_terminal queued = false
scan_is_terminal running = false
scan_is_terminal completed = true
scan_is_terminal completed_with_warnings = true
scan_is_terminal failed = true
scan_is_terminal canceled = true

-- The members' texts.
abbrev pub scan_status_text : ScanStatus → String
scan_status_text queued = "queued"
scan_status_text running = "running"
scan_status_text completed = "completed"
scan_status_text completed_with_warnings = "completed_with_warnings"
scan_status_text failed = "failed"
scan_status_text canceled = "canceled"

pub data ModuleStatus : Type 0 where
  queued running done failed skipped not_applicable interrupted : ModuleStatus

-- `ModuleStatus.is_terminal`
abbrev pub module_is_terminal : ModuleStatus → Bool
module_is_terminal ModuleStatus.queued = false
module_is_terminal ModuleStatus.running = false
module_is_terminal done = true
module_is_terminal ModuleStatus.failed = true
module_is_terminal skipped = true
module_is_terminal not_applicable = true
module_is_terminal interrupted = true

abbrev pub module_status_text : ModuleStatus → String
module_status_text ModuleStatus.queued = "queued"
module_status_text ModuleStatus.running = "running"
module_status_text done = "done"
module_status_text ModuleStatus.failed = "failed"
module_status_text skipped = "skipped"
module_status_text not_applicable = "not_applicable"
module_status_text interrupted = "interrupted"

pub data TargetType : Type 0 where
  ip cidr host : TargetType

abbrev pub target_type_text : TargetType → String
target_type_text ip = "ip"
target_type_text cidr = "cidr"
target_type_text host = "host"

pub data Confidence : Type 0 where
  low medium high : Confidence

abbrev pub confidence_text : Confidence → String
confidence_text low = "low"
confidence_text medium = "medium"
confidence_text high = "high"

pub data FindingCategory : Type 0 where
  live_host port_service enumeration vulnerability : FindingCategory

abbrev pub category_text : FindingCategory → String
category_text live_host = "live_host"
category_text port_service = "port_service"
category_text enumeration = "enumeration"
category_text vulnerability = "vulnerability"

pub data ScanEventType : Type 0 where
  scan_status module_status footprint : ScanEventType
