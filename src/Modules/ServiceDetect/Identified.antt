-- ===== src/Modules/ServiceDetect/Identified.antt =====
-- `_identify` of backend/app/modules/service_detect.py: what one finding rests on.
use mathlib.Core.Option.{some-injective}
use scan_ledger.Prelude.{
  ℕ, ◌≡◌, refl, sym, ap, subst, ◌∙◌, arith, Bool, true, false, not, ◌&&◌, any, inl, inr, ◌⊎◌,
  Option, none, some, if◌then◌else◌, Bool-cases, List, [], ◌∷◌, map, All, All-append, String,
  string_eq, Outcome, returns, raises,
}
use scan_ledger.Net.{IpAddress}
use scan_ledger.Text.{some_text}
use scan_ledger.Models.Domain.{Confidence}
use scan_ledger.Models.Findings.{Finding}
use scan_ledger.Guard.Scope.{ScopeProfile}
use scan_ledger.Guard.Connect.{
  Answer, ConnectError, over_budget, timeout_error, connection_refused, other_os_error,
}
use scan_ledger.Guard.Connect.Safety.{Cleared}
use scan_ledger.Guard.Stream.{Bytes, GuardedStream, Opening, StreamState, open_stream}
use scan_ledger.Guard.Stream.Opened.{open_stream-Cleared}
use scan_ledger.Scan.Concurrency.{concat}
use scan_ledger.Modules.Sweep.Collected.{kept_of, over_budget_of}
use scan_ledger.Modules.OpenPorts.Told.{told_by}
use scan_ledger.Modules.Fingerprints.{Re}
use scan_ledger.Modules.ServiceDetect.{
  ServiceContext, ServiceFacts, is_tls_port, address_for, request_to, read_banner, guess_for,
  service_finding, stated_guess, identify_stream, identify, host_ports,
}
use scan_ledger.Modules.Fingerprints.Stated.{States}
use scan_ledger.Modules.ServiceDetect.Honest.{guess_for-Honest}

module _ (P : String → ℕ → Type 0) where
  pub All-host_ports :
      (open_ports : List (String × List ℕ))
      → All (λ ((host, ports) : String × List ℕ). All (P host) ports) open_ports
      → All (λ ((host, p) : String × ℕ). P host p) (host_ports open_ports)
  unfolding host_ports
  All-host_ports [] a = tt
  All-host_ports ((host, ports) ∷ open_ports) a =
      All-append _ (map (λ p. (host, p)) ports) _ (row ports a.0) (All-host_ports open_ports a.1)
    where
      row :
          (ports : List ℕ)
          → All (P host) ports
          → All (λ ((h, p) : String × ℕ). P h p) (map (λ p. (host, p)) ports)
      row [] a = tt
      row (p ∷ ports) a = (a.0, row ports a.1)

module _ {V R W : Type 0} (str_address : IpAddress → String) (decode : Bytes → String) (re : Re)
    (context : ServiceContext V (GuardedStream R W)) where
  -- What the host said: what it volunteered, else what it answered when asked.
  abbrev pub Heard : GuardedStream R W → String → String → Type 0
  Heard stream host banner =
      ((b : ℕ) × (raw : Bytes) × (context.volunteered stream ≡ some (b ∷ raw))
        × (banner ≡ decode (b ∷ raw)))
      ⊎ (((context.volunteered stream ≡ none) ⊎ (context.volunteered stream ≡ some []))
          × (((raw : Bytes) × (context.replied stream (request_to host) ≡ some raw)
                × (banner ≡ decode raw))
              ⊎ ((context.replied stream (request_to host) ≡ none) × (banner ≡ ""))))

  read_banner-Heard :
      (stream : GuardedStream R W) (host : String)
      → Heard stream host (read_banner str_address decode re context stream host)
  unfolding read_banner
  read_banner-Heard stream host =
      of_reads (context.volunteered stream) refl (context.replied stream (request_to host)) refl
    where
      of_reads :
          (first : Option Bytes)
          → context.volunteered stream ≡ first
          → (asked : Option Bytes) → context.replied stream (request_to host) ≡ asked
          → Heard stream host (read_banner str_address decode re context stream host)
      of_reads none p none q = inr (inl p, inr (q, ground arith))
      of_reads none p (some raw) q = inr (inl p, inl (raw, q, ground arith))
      of_reads (some []) p none q = inr (inr p, inr (q, ground arith))
      of_reads (some []) p (some raw) q = inr (inr p, inl (raw, q, ground arith))
      of_reads (some (b ∷ raw)) p asked q = inl (b, raw, p, ground arith)

  guess_for-silent :
      (banner : String) (port : ℕ)
      → banner ≡ ""
      → let guess = guess_for re banner port in
        (guess.product ≡ none) × (guess.version ≡ none) × (guess.confidence ≡ Confidence.low)
  guess_for-silent banner port quiet =
      (guess_for-Honest re banner port).1
        (unfold stated_guess in subst (λ b. stated_guess re b port ≡ none) (sym quiet) refl)

  -- What one finding rests on.
  pub record Identified (scope : ScopeProfile) (f : Finding ServiceFacts) : Type 0 where
    pub host : String
    pub port : ℕ
    pub told_open : any context.prior_findings (told_by host port) ≡ true
    pub not_canceled : context.cancel_at host port ≡ false
    pub address : IpAddress
    pub named : address_for str_address context.target host ≡ some address
    pub cleared : Cleared scope context.target address port
    pub stream : GuardedStream R W
    pub stream_opened : context.stream_of address port (is_tls_port port) ≡ returns stream
    pub banner : String
    pub heard : Heard stream host banner
    pub same_host : f.host ≡ host
    pub same_port : f.port ≡ some port
    pub transport : f.normalized_value.transport ≡ (if is_tls_port port then "tls" else "tcp")
    pub version_read : (v : String) → f.normalized_value.version ≡ some v → States re banner v
    pub high_with_version :
        f.confidence ≡ some Confidence.high
        → (v : String) × (some_text f.normalized_value.version ≡ some v)
    pub silent_unversioned :
        banner ≡ ""
        → (f.normalized_value.product ≡ none)
          × (f.normalized_value.version ≡ none)
          × (f.confidence ≡ some Confidence.low)

  -- The finding of one port of one host: none or one.
  abbrev pub service_at : String × ℕ → List (Finding ServiceFacts)
  service_at f = kept_of (identify str_address decode re context f)

  -- Why a port yields no finding: a cancel, a host that is no address of the target, or a stream that did
  -- not open.
  pub data Missed (host : String) (port : ℕ) : Type 0 where
    is_canceled : context.cancel_at host port ≡ true → Missed host port
    has_no_address : address_for str_address context.target host ≡ none → Missed host port
    not_opened :
        (a : IpAddress) (x : ConnectError)
        → address_for str_address context.target host ≡ some a
        → context.stream_of a port (is_tls_port port) ≡ raises x
        → Missed host port

  abbrev pub Yields : String × ℕ → Type 0
  Yields (host, port) =
      ((service_at (host, port) ≡ []) × Missed host port)
      ⊎ ((f : Finding ServiceFacts) × (service_at (host, port) ≡ f ∷ []))

  pub service_at-Yields : (f : String × ℕ) → Yields f
  unfolding identify identify_stream
  service_at-Yields (host, port) = elim (Bool-cases (context.cancel_at host port)) [
    | inl canceled ↦ inl (rw canceled refl, is_canceled canceled)
    | inr live ↦ rw live (of_address (address_for str_address context.target host) refl)
  ]
    where
      found_by : Outcome ConnectError (Option (Finding ServiceFacts)) → Type 0
      found_by o =
          ((kept_of o ≡ []) × Missed host port)
          ⊎ ((f : Finding ServiceFacts) × (kept_of o ≡ f ∷ []))

      of_stream :
          (a : IpAddress) (o : Outcome ConnectError (GuardedStream R W))
          → address_for str_address context.target host ≡ some a
          → context.stream_of a port (is_tls_port port) ≡ o
          → found_by (identify_stream str_address decode re context host port o)
      of_stream a (returns stream) named e = inr (_, refl)
      of_stream a (raises timeout_error) named e = inl (refl, not_opened a _ named e)
      of_stream a (raises connection_refused) named e = inl (refl, not_opened a _ named e)
      of_stream a (raises other_os_error) named e = inl (refl, not_opened a _ named e)
      of_stream a (raises x) named e = inl (refl, not_opened a x named e)

      of_address :
          (o : Option IpAddress)
          → address_for str_address context.target host ≡ o
          → found_by (elim o [
            | none ↦ returns none
            | some a ↦
                identify_stream str_address decode re context host port
                  (context.stream_of a port (is_tls_port port))
          ])
      of_address none e = inl (refl, has_no_address e)
      of_address (some a) e = of_stream a (context.stream_of a port (is_tls_port port)) e refl

  -- A port whose stream met a used up budget.
  abbrev pub meets_budget : String × ℕ → Bool
  meets_budget (host, port) =
      not (context.cancel_at host port) && elim (address_for str_address context.target host) [
        | none ↦ false
        | some a ↦ elim (context.stream_of a port (is_tls_port port)) [
          | returns stream ↦ false
          | raises x ↦ elim x [ over_budget b ↦ true | _ ↦ false ]
        ]
      ]

  pub over_budget_of-identify :
      (f : String × ℕ) → over_budget_of (identify str_address decode re context f) ≡ meets_budget f
  unfolding identify identify_stream
  over_budget_of-identify (host, port) = ground arith

  -- The guard's part: each call of `open_stream` with this profile, in any state.
  module _ (scope : ScopeProfile) (answers : IpAddress → ℕ → Answer)
      (openings : IpAddress → ℕ → Bool → Opening R W) (states : IpAddress → ℕ → StreamState)
      (calls : (a : IpAddress) (p : ℕ) (use_tls : Bool)
        → context.stream_of a p use_tls
          ≡ (open_stream scope
              (answers a p)
              (openings a p)
              context.target
              a
              p
              use_tls
              (states a p)).0) where
    identify_stream-Identified :
        (host : String) (port : ℕ) (a : IpAddress)
        → any context.prior_findings (told_by host port) ≡ true
        → context.cancel_at host port ≡ false
        → address_for str_address context.target host ≡ some a
        → All (Identified scope) (
            kept_of (
              identify_stream str_address decode re context host port
                (context.stream_of a port (is_tls_port port))))
    unfolding identify_stream service_finding
    identify_stream-Identified host port a told live named =
        of_stream (context.stream_of a port (is_tls_port port)) refl
      where
        of_stream :
            (o : Outcome ConnectError (GuardedStream R W))
            → context.stream_of a port (is_tls_port port) ≡ o
            → All
                (Identified scope)
                (kept_of (identify_stream str_address decode re context host port o))
        of_stream (returns stream) e = (
          record {
            host = host;
            port = port;
            told_open = told;
            not_canceled = live;
            address = a;
            named = named;
            cleared =
                (open_stream-Cleared scope (answers a port) (openings a port) context.target a port
                  (is_tls_port port) (states a port) stream
                  (sym (calls a port (is_tls_port port)) ∙ e)).0;
            stream = stream;
            stream_opened = e;
            banner = read_banner str_address decode re context stream host;
            heard = read_banner-Heard stream host;
            same_host = refl;
            same_port = refl;
            transport = refl;
            version_read =
                (guess_for-Honest re (read_banner str_address decode re context stream host)
                  port).0.version_stated;
            high_with_version = λ h.
                (guess_for-Honest re (read_banner str_address decode re context stream host)
                    port).0.high_has_version
                  (some-injective _ _ h);
            silent_unversioned = λ quiet.
                let (product, version, confidence) = guess_for-silent _ port quiet in
                (product, version, ap some confidence);
          },
          tt,
        )
        of_stream (raises timeout_error) e = tt
        of_stream (raises connection_refused) e = tt
        of_stream (raises other_os_error) e = tt
        of_stream (raises x) e = tt

    service_at-Identified :
        (f : String × ℕ)
        → any context.prior_findings (told_by f.0 f.1) ≡ true
        → All (Identified scope) (service_at f)
    unfolding identify
    service_at-Identified (host, port) told = elim (Bool-cases (context.cancel_at host port)) [
      | inl canceled ↦ rw canceled tt
      | inr live ↦ rw live (of_address (address_for str_address context.target host) refl live)
    ]
      where
        of_address :
            (o : Option IpAddress)
            → address_for str_address context.target host ≡ o
            → context.cancel_at host port ≡ false
            → All (Identified scope) (
                kept_of (elim o [
                  | none ↦ returns none
                  | some a ↦
                      identify_stream str_address decode re context host port
                        (context.stream_of a port (is_tls_port port))
                ]))
        of_address none e live = tt
        of_address (some a) e live = identify_stream-Identified host port a told live e

    pub All-service_at :
        (probes : List (String × ℕ))
        → All
            (λ ((host, port) : String × ℕ). any context.prior_findings (told_by host port) ≡ true)
            probes
        → All (Identified scope) (concat (map service_at probes))
    All-service_at [] told = tt
    All-service_at (f ∷ probes) told =
        All-append (Identified scope) (service_at f) _ (service_at-Identified f told.0)
          (All-service_at probes told.1)
