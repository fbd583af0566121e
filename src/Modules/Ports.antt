-- ===== src/Modules/Ports.antt =====
-- backend/app/modules/ports.py: port selections and the addresses of a target.
pub mod Covered
use scan_ledger.Prelude.{
  ℕ, zero, suc, ◌+◌, ◌-◌, ◌≤◌, Bool, true, false, not, ◌&&◌, Option, none, some, List, [], ◌∷◌,
  String, string_eq, ◌==◌, nat_eq, ltb, leb, any, map, if◌then◌else◌, Outcome, returns, raises,
  ◌>>=◌,
}
use scan_ledger.Net.{Version, v4, v6, IpAddress, IpNetwork, size}
use scan_ledger.Guard.ScanGuard.{ValidatedTarget}

abbrev pub top_100_ports : List ℕ
top_100_ports =
    21 ∷ 22 ∷ 23 ∷ 25 ∷ 53 ∷ 67 ∷ 68 ∷ 69 ∷ 80 ∷ 81 ∷ 88 ∷ 110 ∷ 111 ∷ 113 ∷ 119 ∷ 123 ∷ 135 ∷ 137
    ∷ 138 ∷ 139 ∷ 143 ∷ 161 ∷ 162 ∷ 179 ∷ 389 ∷ 427 ∷ 443 ∷ 445 ∷ 465 ∷ 500 ∷ 512 ∷ 513 ∷ 514 ∷ 515
    ∷ 543 ∷ 544 ∷ 548 ∷ 554 ∷ 587 ∷ 631 ∷ 636 ∷ 646 ∷ 873 ∷ 990 ∷ 993 ∷ 995 ∷ 1025 ∷ 1026 ∷ 1027
    ∷ 1080 ∷ 1099 ∷ 1194 ∷ 1433 ∷ 1434 ∷ 1521 ∷ 1723 ∷ 1883 ∷ 2049 ∷ 2082 ∷ 2083 ∷ 2181 ∷ 2375
    ∷ 2376 ∷ 2483 ∷ 3000 ∷ 3128 ∷ 3268 ∷ 3306 ∷ 3389 ∷ 3690 ∷ 4444 ∷ 4505 ∷ 4506 ∷ 4786 ∷ 5000
    ∷ 5060 ∷ 5432 ∷ 5555 ∷ 5601 ∷ 5672 ∷ 5900 ∷ 5901 ∷ 5985 ∷ 5986 ∷ 6000 ∷ 6379 ∷ 6667 ∷ 7001
    ∷ 8000 ∷ 8008 ∷ 8080 ∷ 8081 ∷ 8088 ∷ 8443 ∷ 8888 ∷ 9000 ∷ 9042 ∷ 9090 ∷ 9200 ∷ 9300 ∷ 11211
    ∷ 27017 ∷ []

abbrev pub default_discovery_ports : List ℕ
default_discovery_ports = 80 ∷ 443 ∷ 22 ∷ 445 ∷ 3389 ∷ 8080 ∷ 21 ∷ 3306 ∷ []

-- `range(start, start + n)`
unfoldable pub range_from : ℕ → ℕ → List ℕ
range_from start zero = []
range_from start (suc n) = start ∷ range_from (start + 1) n

abbrev pub max_expanded_addresses : ℕ
max_expanded_addresses = 65536

-- What `int(value)` makes of a value in the options: an error, or an integer.
pub data PortValue : Type 0 where
  not_a_number : PortValue
  below_zero number : ℕ → PortValue

-- The options that are read here: `none` for a missing key, and an empty list for what is no list.
pub record PortOptions : Type 0 where
  pub port_selection : Option String
  pub ports : Option (List PortValue)
  pub discovery_ports : Option (List PortValue)

pub data ModuleError : Type 0 where
  needs_ports bad_discovery_list : ModuleError
  invalid_port out_of_range : PortValue → ModuleError
  unknown_selection : String → ModuleError
  too_many_addresses : ℕ → ModuleError

-- One round of the loop over a custom list.
unfoldable pub check_port : PortValue → Outcome ModuleError ℕ
check_port not_a_number = raises (invalid_port not_a_number)
check_port (below_zero n) = raises (out_of_range (below_zero n))
check_port (number n) =
    if ltb 0 n && leb n 65535 then returns n else raises (out_of_range (number n))

-- `sorted(set(ports))`, one port at a time
unfoldable pub insert_port : ℕ → List ℕ → List ℕ
insert_port p [] = p ∷ []
insert_port p (q ∷ ports) =
    let rest = insert_port p ports in
    if ltb p q then p ∷ q ∷ ports else if p == q then q ∷ ports else q ∷ rest

unfoldable pub custom_ports : List PortValue → Outcome ModuleError (List ℕ)
unfolding check_port insert_port
custom_ports [] = returns []
custom_ports (value ∷ values) = do
  port ← check_port value
  ports ← custom_ports values
  returns (insert_port port ports)

abbrev pub or_else : {A : Type 0} → Option A → A → A
or_else none d = d
or_else (some a) d = a

unfoldable pub resolve_ports : PortOptions → Outcome ModuleError (List ℕ)
resolve_ports options =
    let selection = or_else options.port_selection "top-100" in
    if selection == "top-100"
    then returns top_100_ports
    else if selection == "well-known"
    then returns (range_from 1 1024)
    else if selection == "full"
    then returns (range_from 1 65535)
    else if selection == "custom"
    then (elim (or_else options.ports []) [
      | [] ↦ raises needs_ports
      | value ∷ values ↦ custom_ports (value ∷ values)
    ])
    else raises (unknown_selection selection)

abbrev is_invalid : PortValue → Bool
is_invalid not_a_number = true
is_invalid _ = false

-- Any integers pass here: their range is left to the guard.
unfoldable pub resolve_discovery_ports : PortOptions → Outcome ModuleError (List PortValue)
resolve_discovery_ports options = elim options.discovery_ports [
  | none ↦ returns (map number default_discovery_ports)
  | some [] ↦ raises bad_discovery_list
  | some (value ∷ values) ↦
      if any (value ∷ values) is_invalid
      then raises bad_discovery_list
      else returns (value ∷ values)
]

-- `network.hosts()` for more than two addresses: without the first one, and for IPv4 without the last.
unfoldable pub hosts_from : Version → ℕ → ℕ → List IpAddress
hosts_from v start zero = []
hosts_from v start (suc n) = record { version = v; ip = start } ∷ hosts_from v (start + 1) n

abbrev pub left_out : Version → ℕ
left_out v4 = 2
left_out v6 = 1

unfoldable pub hosts : IpNetwork → List IpAddress
unfolding hosts_from
hosts n = hosts_from n.version (n.base + 1) (size n - left_out n.version)

unfoldable pub iter_target_addresses : ValidatedTarget → Outcome ModuleError (List IpAddress)
unfolding hosts
iter_target_addresses target = elim target.network [
  | none ↦ returns target.addresses
  | some n ↦
      if ltb max_expanded_addresses (size n)
      then raises (too_many_addresses (size n))
      else if leb (size n) 2
      then returns (record { version = n.version; ip = n.base } ∷ [])
      else returns (hosts n)
]
