-- ===== src/Modules/ProtocolEnum/Ran.antt =====
-- `run` of backend/app/modules/protocol_enum.py as a whole.
use scan_ledger.Prelude.{ℕ, ◌≡◌, any, List, [], ◌∷◌, map, All, String, if◌then◌else◌}
use scan_ledger.Net.{IpAddress}
use scan_ledger.Guard.Scope.{ScopeProfile}
use scan_ledger.Scan.Concurrency.{concat}
use scan_ledger.Modules.Sweep.{ProbeResult}
use scan_ledger.Modules.OpenPorts.{open_ports_by_host}
use scan_ledger.Modules.ServiceDetect.{host_ports}
use scan_ledger.Modules.ProtocolEnum.Reports.{EnumFacts}
use scan_ledger.Modules.ProtocolEnum.Run.{
  EnumContext, Readers, no_enum_ports_warning, enum_budget_warning,
}
use scan_ledger.Modules.ProtocolEnum.Learned.{meets_budget}
use scan_ledger.Modules.ProtocolEnum.Enumerated.{enumerated_at, Rests}

module _ {V R W : Type 0} (str_address : IpAddress → String) (readers : Readers)
    (context : EnumContext V R W) where
  -- The probes of a run: the ports that the earlier findings tell of, host by host.
  abbrev pub enum_probes : List (String × ℕ)
  enum_probes = host_ports (open_ports_by_host context.prior_findings)

  abbrev pub enum_warned : List (String × List ℕ) → List String
  enum_warned [] = no_enum_ports_warning ∷ []
  enum_warned (entry ∷ entries) =
      if any (host_ports (entry ∷ entries)) (meets_budget str_address readers context)
      then enum_budget_warning ∷ []
      else []

  pub record EnumerationRan (scope : ScopeProfile) (result : ProbeResult EnumFacts) : Type 0 where
    pub each_port :
        result.findings ≡ concat (map (enumerated_at str_address readers context) enum_probes)
    pub warned : result.warnings ≡ enum_warned (open_ports_by_host context.prior_findings)
    pub rests : All (Rests str_address readers context scope) enum_probes
