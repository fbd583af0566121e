-- ===== src/Modules/ProtocolEnum/Enumerated.antt =====
-- `run` of backend/app/modules/protocol_enum.py: what its findings rest on.
use mathlib.Core.List.{append-nil}
use scan_ledger.Prelude.{
  ℕ, ◌≡◌, refl, sym, ◌∙◌, arith, Bool, true, false, any, ◌⊎◌, inl, inr, Option, none, some,
  Bool-cases, List, [], ◌++◌, String, Outcome, returns, raises, returns-injective, ◌>>=◌,
}
use scan_ledger.Net.{IpAddress}
use scan_ledger.Models.Findings.{Finding}
use scan_ledger.Guard.Scope.{ScopeProfile}
use scan_ledger.Guard.Connect.{
  Answer, ConnectError, timeout_error, connection_refused, other_os_error,
}
use scan_ledger.Guard.Connect.Safety.{Cleared}
use scan_ledger.Guard.Stream.{GuardedStream, Opening, StreamState, open_stream}
use scan_ledger.Guard.Stream.Opened.{open_stream-Cleared}
use scan_ledger.Scan.Concurrency.{concat}
use scan_ledger.Modules.Sweep.Collected.{kept_of}
use scan_ledger.Modules.OpenPorts.Told.{told_by}
use scan_ledger.Modules.ServiceDetect.{is_tls_port, address_for}
use scan_ledger.Modules.ProtocolEnum.{HttpResponse, content_of}
use scan_ledger.Text.Split.{text_length}
use scan_ledger.Modules.ProtocolEnum.Learned.{FirstRead, first_findings-FirstRead}
use scan_ledger.Modules.ProtocolEnum.Reports.{EnumFacts, robots_facts, robots_finding, robots_in}
use scan_ledger.Modules.ProtocolEnum.Run.{
  EnumContext, Readers, listed, fetch, fetch_path, first_findings, enumerate_stream, enumerate,
}

module _ {V R W : Type 0} (str_address : IpAddress → String) (readers : Readers)
    (context : EnumContext V R W) where
  -- robots.txt is reported only where a second stream answered it with status 200, with its length.
  abbrev pub RobotsRead : String → ℕ → IpAddress → Option (Finding EnumFacts) → Type 0
  RobotsRead host port a none = Unit
  RobotsRead host port a (some f) =
      (stream : GuardedStream R W) × (response : HttpResponse) × (context.stream_of "/robots.txt" a
          port (is_tls_port port)
        ≡ returns stream)
      × (fetch str_address readers context stream host "/robots.txt" ≡ some response)
      × (response.status ≡ 200)
      × (f.host ≡ host)
      × (f.port ≡ some port)
      × (f.normalized_value ≡ robots_facts port (text_length (content_of response.raw_head)))

  -- What the findings of one port rest on.
  pub record Enumerated (scope : ScopeProfile) (host : String) (port : ℕ)
      (found : List (Finding EnumFacts)) : Type 0 where
    pub told_open : any context.prior_findings (told_by host port) ≡ true
    pub not_canceled : context.cancel_at host port ≡ false
    pub address : IpAddress
    pub named : address_for str_address context.target host ≡ some address
    pub cleared : Cleared scope context.target address port
    pub stream : GuardedStream R W
    pub stream_opened : context.stream_of "/" address port (is_tls_port port) ≡ returns stream
    pub robots : Option (Finding EnumFacts)
    pub robots_read : RobotsRead host port address robots
    pub first_found : List (Finding EnumFacts)
    pub first_read : FirstRead str_address readers context host port stream first_found
    pub reported : found ≡ first_found ++ listed robots

  -- Why a port yields nothing: a cancel, a host that is no address of the target, or a stream that did not
  -- open.
  pub data Unread (host : String) (port : ℕ) : Type 0 where
    is_canceled : context.cancel_at host port ≡ true → Unread host port
    has_no_address : address_for str_address context.target host ≡ none → Unread host port
    not_opened :
        (a : IpAddress) (path : String) (x : ConnectError)
        → address_for str_address context.target host ≡ some a
        → (path ≡ "/") ⊎ (path ≡ "/robots.txt")
        → context.stream_of path a port (is_tls_port port) ≡ raises x
        → Unread host port

  fetch_path-RobotsRead :
      (host : String) (port : ℕ) (a : IpAddress) (robots : Option (Finding EnumFacts))
      → fetch_path str_address readers context host port "/robots.txt"
          (context.stream_of "/robots.txt" a port (is_tls_port port))
        ≡ returns robots
      → RobotsRead host port a robots
  unfolding fetch_path
  fetch_path-RobotsRead host port a robots h =
      of_stream (context.stream_of "/robots.txt" a port (is_tls_port port)) refl robots h
    where
      of_response :
          (stream : GuardedStream R W) (o : Option HttpResponse)
          (robots : Option (Finding EnumFacts))
          → context.stream_of "/robots.txt" a port (is_tls_port port) ≡ returns stream
          → fetch str_address readers context stream host "/robots.txt" ≡ o
          → robots_in host port o ≡ robots
          → RobotsRead host port a robots
      of_response stream o none opened e r = tt
      of_response stream none (some f) opened e r = unfold robots_in in ground arith
      of_response stream (some response) (some f) opened e r = (
        stream,
        response,
        opened,
        e,
        unfold robots_in in ground (arith, r),
        unfold robots_in robots_finding in ground (arith, r),
        unfold robots_in robots_finding in ground (arith, r),
        unfold robots_in robots_finding in ground (arith, r),
      )

      of_stream :
          (o : Outcome ConnectError (GuardedStream R W))
          → context.stream_of "/robots.txt" a port (is_tls_port port) ≡ o
          → (robots : Option (Finding EnumFacts))
          → fetch_path str_address readers context host port "/robots.txt" o ≡ returns robots
          → RobotsRead host port a robots
      of_stream (returns stream) e robots r =
          of_response stream (fetch str_address readers context stream host "/robots.txt") robots e
            refl (returns-injective r)
      of_stream o e none r = tt
      of_stream (raises x) e (some f) r = ground (arith, r)

  fetch_path-raises :
      (host : String) (port : ℕ) (a : IpAddress) (x : ConnectError)
      → fetch_path str_address readers context host port "/robots.txt"
          (context.stream_of "/robots.txt" a port (is_tls_port port))
        ≡ raises x
      → context.stream_of "/robots.txt" a port (is_tls_port port) ≡ raises x
  unfolding fetch_path
  fetch_path-raises host port a x h = ground arith

  -- The findings of one port of one host.
  abbrev pub enumerated_at : String × ℕ → List (Finding EnumFacts)
  enumerated_at f = concat (kept_of (enumerate str_address readers context f))

  -- A port yields nothing, or what `Enumerated` says.
  abbrev pub Rests : ScopeProfile → String × ℕ → Type 0
  Rests scope (host, port) =
      ((enumerated_at (host, port) ≡ []) × Unread host port)
      ⊎ Enumerated scope host port (enumerated_at (host, port))

  -- The guard's part: each call of `open_stream` with this profile, in any state.
  module _ (scope : ScopeProfile) (answers : IpAddress → ℕ → Answer)
      (openings : IpAddress → ℕ → Bool → Opening R W) (states : IpAddress → ℕ → StreamState)
      (calls : (a : IpAddress) (p : ℕ) (use_tls : Bool)
        → context.stream_of "/" a p use_tls
          ≡ (open_stream scope
              (answers a p)
              (openings a p)
              context.target
              a
              p
              use_tls
              (states a p)).0) where
    enumerate_stream-Enumerated :
        (host : String) (port : ℕ) (a : IpAddress)
        → any context.prior_findings (told_by host port) ≡ true
        → context.cancel_at host port ≡ false
        → address_for str_address context.target host ≡ some a
        → let found = concat (
            kept_of (
              enumerate_stream str_address readers context host port a
                (context.stream_of "/" a port (is_tls_port port)))) in
          ((found ≡ []) × Unread host port) ⊎ Enumerated scope host port found
    unfolding enumerate_stream
    enumerate_stream-Enumerated host port a told live named =
        of_stream (context.stream_of "/" a port (is_tls_port port)) refl
      where
        of_robots :
            (stream : GuardedStream R W) (o : Outcome ConnectError (Option (Finding EnumFacts)))
            → context.stream_of "/" a port (is_tls_port port) ≡ returns stream
            → fetch_path str_address readers context host port "/robots.txt"
                (context.stream_of "/robots.txt" a port (is_tls_port port))
              ≡ o
            → let found = concat (
                kept_of (
                  o >>= λ robots. returns (
                    some (
                      first_findings str_address readers context host port stream
                      ++ listed robots)))) in
              ((found ≡ []) × Unread host port) ⊎ Enumerated scope host port found
        of_robots stream (returns robots) e r = inr (record {
          told_open = told;
          not_canceled = live;
          address = a;
          named = named;
          cleared =
              (open_stream-Cleared scope (answers a port) (openings a port) context.target a port
                (is_tls_port port) (states a port) stream
                (sym (calls a port (is_tls_port port)) ∙ e)).0;
          stream = stream;
          stream_opened = e;
          robots = robots;
          first_found = first_findings str_address readers context host port stream;
          first_read = first_findings-FirstRead str_address readers context host port stream;
          robots_read = fetch_path-RobotsRead host port a robots r;
          reported = append-nil _;
        })
        of_robots stream (raises x) e r = inl (
          refl,
          not_opened a "/robots.txt" x named (inr refl) (fetch_path-raises host port a x r),
        )

        of_stream :
            (o : Outcome ConnectError (GuardedStream R W))
            → context.stream_of "/" a port (is_tls_port port) ≡ o
            → let found =
                concat (kept_of (enumerate_stream str_address readers context host port a o)) in
              ((found ≡ []) × Unread host port) ⊎ Enumerated scope host port found
        of_stream (returns stream) e = of_robots stream _ e refl
        of_stream (raises timeout_error) e = inl (refl, not_opened a "/" _ named (inl refl) e)
        of_stream (raises connection_refused) e = inl (refl, not_opened a "/" _ named (inl refl) e)
        of_stream (raises other_os_error) e = inl (refl, not_opened a "/" _ named (inl refl) e)
        of_stream (raises x) e = inl (refl, not_opened a "/" x named (inl refl) e)

    pub enumerate-Rests :
        (f : String × ℕ) → any context.prior_findings (told_by f.0 f.1) ≡ true → Rests scope f
    unfolding enumerate
    enumerate-Rests (host, port) told = elim (Bool-cases (context.cancel_at host port)) [
      | inl canceled ↦ inl (rw canceled refl, is_canceled canceled)
      | inr live ↦ rw live (of_address (address_for str_address context.target host) refl live)
    ]
      where
        of_address :
            (o : Option IpAddress)
            → address_for str_address context.target host ≡ o
            → context.cancel_at host port ≡ false
            → let found = concat (
                kept_of (elim o as (λ _. Outcome ConnectError (Option (List (Finding EnumFacts)))) [
                  | none ↦ returns (some [])
                  | some a ↦
                      enumerate_stream str_address readers context host port a
                        (context.stream_of "/" a port (is_tls_port port))
                ])) in
              ((found ≡ []) × Unread host port) ⊎ Enumerated scope host port found
        of_address none e live = inl (refl, has_no_address e)
        of_address (some a) e live = enumerate_stream-Enumerated host port a told live e
