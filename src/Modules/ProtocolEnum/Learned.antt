-- ===== src/Modules/ProtocolEnum/Learned.antt =====
-- `_enumerate` of backend/app/modules/protocol_enum.py: what the findings of the first stream say, and when
-- a port meets a used up budget.
use scan_ledger.Prelude.{
  ℕ, ◌≡◌, refl, arith, Bool, true, false, not, ◌&&◌, ◌||◌, inl, inr, ◌⊎◌, Option, none, some, List,
  [], ◌∷◌, ◌++◌, String, if◌then◌else◌, Outcome, returns, raises,
}
use scan_ledger.Net.{IpAddress}
use scan_ledger.Models.Findings.{Finding}
use scan_ledger.Guard.Connect.{ConnectError, over_budget}
use scan_ledger.Guard.Stream.{Bytes, GuardedStream, TlsInfo}
use scan_ledger.Modules.Sweep.Collected.{over_budget_of}
use scan_ledger.Modules.Ports.{or_else}
use scan_ledger.Modules.ServiceDetect.{is_tls_port, address_for}
use scan_ledger.Modules.ProtocolEnum.{
  HttpResponse, response_from, get_request, Certificate, CertificateDetails, parse_certificate,
}
use scan_ledger.Modules.ProtocolEnum.Reports.{
  EnumFacts, HttpFacts, http_facts, session_facts, certificate_facts, http_finding, session_finding,
  certificate_details_finding, certificate_finding,
}
use scan_ledger.Modules.ProtocolEnum.Run.{
  EnumContext, Readers, listed, fetch, fetch_path, first_findings, certificate_in, response_in,
  enumerate_stream, enumerate,
}

-- A call of `open_stream` that met a used up budget, and one that gave a stream.
abbrev pub spent : {S : Type 0} → Outcome ConnectError S → Bool
spent (raises (over_budget x)) = true
spent _ = false

abbrev pub opened : {S : Type 0} → Outcome ConnectError S → Bool
opened (returns stream) = true
opened (raises x) = false

module _ {V R W : Type 0} (str_address : IpAddress → String) (readers : Readers)
    (context : EnumContext V R W) where
  -- The first stream of a port met a used up budget, or it opened and the second one did.
  abbrev pub meets_budget : String × ℕ → Bool
  meets_budget (host, port) =
      not (context.cancel_at host port) && elim (address_for str_address context.target host) [
        | none ↦ false
        | some a ↦
            let first = context.stream_of "/" a port (is_tls_port port) in
            spent first
            || (opened first && spent (context.stream_of "/robots.txt" a port (is_tls_port port)))
      ]

  pub over_budget_of-enumerate :
      (f : String × ℕ) → over_budget_of (enumerate str_address readers context f) ≡ meets_budget f
  unfolding enumerate enumerate_stream fetch_path
  over_budget_of-enumerate (host, port) = ground arith

  -- The answer for "/", if there is one, with what it is reported as.
  abbrev pub ResponseRead : String → ℕ → GuardedStream R W → List (Finding EnumFacts) → Type 0
  ResponseRead host port stream found =
      let answer =
        response_from readers.lower readers.int readers.decode readers.re
          (context.fetched stream (get_request "/" host)) in
      ((answer ≡ none) × (found ≡ []))
      ⊎ ((response : HttpResponse) × (f : Finding EnumFacts) × (facts : HttpFacts) × (answer
            ≡ some response)
          × (found ≡ f ∷ [])
          × (f.host ≡ host)
          × (f.port ≡ some port)
          × (f.normalized_value ≡ http_facts facts)
          × (facts.port ≡ port)
          × (facts.status ≡ response.status)
          × (facts.scheme ≡ (if is_tls_port port then "https" else "http")))

  -- A certificate that was read says what stands in it; one that was not says so.
  abbrev pub CertificateShown : ℕ → TlsInfo → Bytes → EnumFacts → Type 0
  CertificateShown port tls der facts =
      ((readers.load der ≡ none) × (facts ≡ session_facts port tls.protocol tls.cipher))
      ⊎ ((c : Certificate) × (d : CertificateDetails) × (readers.load der ≡ some c)
          × (facts ≡ certificate_facts port tls.protocol tls.cipher d)
          × (d.subject ≡ c.subject_text)
          × (d.issuer ≡ c.issuer_text)
          × (d.not_before ≡ c.not_before_text)
          × (d.not_after ≡ c.not_after_text)
          × (d.self_signed ≡ c.same_names))

  abbrev pub DerRead : String → ℕ → TlsInfo → Option Bytes → List (Finding EnumFacts) → Type 0
  DerRead host port tls none found = found ≡ []
  DerRead host port tls (some der) found =
      (f : Finding EnumFacts) × (found ≡ f ∷ [])
      × (f.host ≡ host)
      × (f.port ≡ some port)
      × CertificateShown port tls der f.normalized_value

  abbrev pub CertificateRead : String → ℕ → Option TlsInfo → List (Finding EnumFacts) → Type 0
  CertificateRead host port none found = found ≡ []
  CertificateRead host port (some tls) found = DerRead host port tls tls.certificate_der found

  -- The findings of the first stream: what its certificate says, then the answer for "/".
  pub record FirstRead (host : String) (port : ℕ) (stream : GuardedStream R W)
      (found : List (Finding EnumFacts)) : Type 0 where
    pub of_certificate : List (Finding EnumFacts)
    pub of_answer : List (Finding EnumFacts)
    pub parts : found ≡ of_certificate ++ of_answer
    pub certificate_read : CertificateRead host port stream.tls of_certificate
    pub answer_read : ResponseRead host port stream of_answer

  response_in-ResponseRead :
      (host : String) (port : ℕ) (stream : GuardedStream R W)
      → ResponseRead host port stream (
          response_in str_address readers context host port
            (fetch str_address readers context stream host "/")
            (is_tls_port port))
  unfolding response_in fetch http_finding
  response_in-ResponseRead host port stream =
      of_answer
        (response_from readers.lower readers.int readers.decode readers.re
          (context.fetched stream (get_request "/" host)))
        refl
    where
      of_answer :
          (o : Option HttpResponse)
          → response_from readers.lower readers.int readers.decode readers.re
              (context.fetched stream (get_request "/" host))
            ≡ o
          → ((response_from readers.lower readers.int readers.decode readers.re
                  (context.fetched stream (get_request "/" host))
                ≡ none)
              × (response_in str_address readers context host port o (is_tls_port port) ≡ []))
            ⊎ ((response : HttpResponse) × (f : Finding EnumFacts) × (facts : HttpFacts)
                × (response_from readers.lower readers.int readers.decode readers.re
                      (context.fetched stream (get_request "/" host))
                    ≡ some response)
                × (response_in str_address readers context host port o (is_tls_port port) ≡ f ∷ [])
                × (f.host ≡ host)
                × (f.port ≡ some port)
                × (f.normalized_value ≡ http_facts facts)
                × (facts.port ≡ port)
                × (facts.status ≡ response.status)
                × (facts.scheme ≡ (if is_tls_port port then "https" else "http")))
      of_answer none e = inl (e, refl)
      of_answer (some response) e =
          inr (response, _, _, e, refl, refl, refl, refl, refl, refl, refl)

  shown :
      (host : String) (port : ℕ) (tls : TlsInfo) (der : Bytes) (o : Option Certificate)
      → readers.load der ≡ o
      → tls.certificate_der ≡ some der
      → DerRead host port tls (some der) (listed (certificate_finding readers.load host port tls))
  unfolding certificate_finding parse_certificate session_finding certificate_details_finding
  shown host port tls der none e there =
      (session_finding host port tls, ground (arith, there, e), refl, refl, inl (e, refl))
  shown host port tls der (some c) e there =
      let details : CertificateDetails = record {
        subject = c.subject_text;
        issuer = c.issuer_text;
        serial = c.serial_hex;
        not_before = c.not_before_text;
        not_after = c.not_after_text;
        san = or_else c.dns_names [];
        self_signed = c.same_names;
      } in
      (
        certificate_details_finding host port tls details,
        ground (arith, there, e),
        refl,
        refl,
        inr (c, details, e, refl, refl, refl, refl, refl, refl),
      )

  certificate_in-CertificateRead :
      (host : String) (port : ℕ) (tls : Option TlsInfo)
      → CertificateRead host port tls (certificate_in str_address readers context host port tls)
  unfolding certificate_in
  certificate_in-CertificateRead host port none = refl
  certificate_in-CertificateRead host port (some tls) = of_der tls.certificate_der refl
    where
      of_der :
          (o : Option Bytes)
          → tls.certificate_der ≡ o
          → DerRead host port tls o (listed (certificate_finding readers.load host port tls))
      of_der none e = unfold certificate_finding in rw e refl
      of_der (some der) e = shown host port tls der (readers.load der) refl e

  pub first_findings-FirstRead :
      (host : String) (port : ℕ) (stream : GuardedStream R W)
      → FirstRead host port stream (first_findings str_address readers context host port stream)
  unfolding first_findings
  first_findings-FirstRead host port stream = record {
    of_certificate = certificate_in str_address readers context host port stream.tls;
    of_answer =
        response_in str_address readers context host port
          (fetch str_address readers context stream host "/") (is_tls_port port);
    parts = refl;
    certificate_read = certificate_in-CertificateRead host port stream.tls;
    answer_read = response_in-ResponseRead host port stream;
  }
