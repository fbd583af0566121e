-- ===== src/Modules.antt =====
-- backend/app/modules/base.py and registry.py, as far as a scan's execution reads them.
pub mod Ports
pub mod Sweep
pub mod PortScan
pub mod HostDiscovery
pub mod OpenPorts
pub mod Fingerprints
pub mod Cpe
pub mod ServiceDetect
pub mod ProtocolEnum
use scan_ledger.Prelude.{
  ℕ, Bool, true, false, ◌||◌, none, some, List, [], ◌∷◌, String, string_eq, if◌then◌else◌, Dict,
  get, put, has, Outcome, returns, raises,
}
use scan_ledger.Models.Domain.{TargetType}
use scan_ledger.Db.{FindingRow}

-- `ModuleMetadata` of backend/app/modules/base.py, as far as the runner reads it.
pub record ModuleMetadata : Type 0 where
  pub name : String
  pub order : ℕ
  pub supported_targets : List TargetType
  pub timeout_text : String

abbrev pub same_target : TargetType → TargetType → Bool
same_target TargetType.ip TargetType.ip = true
same_target TargetType.cidr TargetType.cidr = true
same_target TargetType.host TargetType.host = true
same_target _ _ = false

-- `applies_to`
unfoldable pub applies_to : TargetType → List TargetType → Bool
applies_to t [] = false
applies_to t (s ∷ others) = same_target t s || applies_to t others

-- `ModuleResult`; a finding is the row that it becomes.
pub record ModuleResult : Type 0 where
  pub findings : List FindingRow
  pub cache_hit : Bool
  pub warnings : List String

pub data RegistryError : Type 0 where
  unknown_module already_registered : String → RegistryError

abbrev pub ModuleRegistry : Type 0
ModuleRegistry = Dict String ModuleMetadata

unfoldable pub register : ModuleMetadata → ModuleRegistry → Outcome RegistryError ModuleRegistry
register m registry =
    if has registry m.name
    then raises (already_registered m.name)
    else returns (put registry m.name m)

-- `ModuleRegistry.get`
unfoldable pub get_module : ModuleRegistry → String → Outcome RegistryError ModuleMetadata
get_module registry name = elim (get registry name) [
  | none ↦ raises (unknown_module name)
  | some m ↦ returns m
]
