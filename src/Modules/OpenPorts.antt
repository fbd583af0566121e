-- ===== src/Modules/OpenPorts.antt =====
-- `ModuleContext.open_ports_by_host` of backend/app/modules/base.py.
pub mod Handed
pub mod Told
use scan_ledger.Prelude.{
  ℕ, Bool, Option, none, some, List, [], ◌∷◌, String, string_eq, ◌==◌, if◌then◌else◌, Dict, map,
}
use scan_ledger.Models.Findings.{Finding}
use scan_ledger.Modules.Sweep.{append_at, sorted}

-- One round of the loop, for the port if it is one.
abbrev pub take_port : Dict String (List ℕ) → String → Option ℕ → Dict String (List ℕ)
take_port found host none = found
take_port found host (some port) = append_at found host port

module _ {V : Type 0} where
  -- `finding.kind == "port.open" and finding.port is not None`, with the port
  unfoldable pub open_port_of : Finding V → Option ℕ
  open_port_of f = if f.kind == "port.open" then f.port else none

  unfoldable pub ports_found : Dict String (List ℕ) → List (Finding V) → Dict String (List ℕ)
  unfolding open_port_of
  ports_found found [] = found
  ports_found found (f ∷ findings) = ports_found (take_port found f.host (open_port_of f)) findings

  unfoldable pub open_ports_by_host : List (Finding V) → Dict String (List ℕ)
  unfolding ports_found sorted
  open_ports_by_host prior_findings =
      map (λ ((host, ports) : String × List ℕ). (host, sorted ports))
        (ports_found [] prior_findings)
