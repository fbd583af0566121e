-- ===== src/Modules/ProtocolEnum/Reports.antt =====
-- The findings of backend/app/modules/protocol_enum.py.
use scan_ledger.Prelude.{
  ℕ, Bool, not, Option, none, some, List, [], ◌∷◌, ◌++◌, String, string_eq, ◌==◌, nat_eq, select,
  if◌then◌else◌, Dict, get, has,
}
use scan_ledger.Text.{strip, some_text, first_chars}
use scan_ledger.Text.Join.{join, f_string}
use scan_ledger.Text.Split.{text_length}
use scan_ledger.Text.Decimal.{str_of}
use scan_ledger.Models.Domain.{FindingCategory, Confidence}
use scan_ledger.Models.Findings.{Finding}
use scan_ledger.Guard.Stream.{Bytes, TlsInfo}
use scan_ledger.Services.Reports.{first_rows}
use scan_ledger.Modules.Ports.{or_else}
use scan_ledger.Modules.ProtocolEnum.{
  enum_name, security_headers, HttpResponse, head_of, content_of, CertificateDetails, Certificate,
  parse_certificate,
}

pub record HttpFacts : Type 0 where
  pub port : ℕ
  pub scheme : String
  pub status : ℕ
  pub server : Option String
  pub title : Option String
  pub security_headers_present : List String
  pub security_headers_missing : List String

pub data EnumFacts : Type 0 where
  http_facts : HttpFacts → EnumFacts
  -- the port and the length of robots.txt
  robots_facts : ℕ → ℕ → EnumFacts
  -- the port, the protocol and the cipher
  session_facts : ℕ → Option String → Option String → EnumFacts
  certificate_facts : ℕ → Option String → Option String → CertificateDetails → EnumFacts

abbrev pub has_header : Dict String String → String → Bool
has_header headers name = has headers name

-- A bit of the summary, if the value counts as true.
abbrev pub bit : String → Option String → List String
bit label value = elim (some_text value) [ none ↦ [] | some v ↦ f_string (label ∷ v ∷ []) ∷ [] ]

abbrev pub scheme_of : Bool → String
scheme_of use_tls = if use_tls then "https" else "http"

-- `_http_findings`
unfoldable pub http_finding : String → ℕ → HttpResponse → Bool → Finding EnumFacts
unfolding f_string join str_of some_text first_chars head_of
http_finding host port response use_tls = record {
  host = host;
  port = some port;
  category = FindingCategory.enumeration;
  kind = "http.response";
  title =
      f_string
        (host ∷ ":" ∷ str_of port ∷ " answered an HTTP request (" ∷ scheme_of use_tls ∷ ")" ∷ []);
  summary = f_string (
      join ". " (
        f_string ("HTTP " ∷ str_of response.status ∷ [])
          ∷ bit "Server: " (get response.headers "server")
        ++ bit "Title: " response.title)
      ∷ "."
      ∷ []);
  module_name = enum_name;
  identity_key = f_string ("http/" ∷ str_of port ∷ []);
  normalized_value = http_facts (record {
    port = port;
    scheme = scheme_of use_tls;
    status = response.status;
    server = get response.headers "server";
    title = response.title;
    security_headers_present = select security_headers (has_header response.headers);
    security_headers_missing =
        select security_headers (λ name. not (has_header response.headers name));
  });
  raw_evidence = some (first_chars 2000 (head_of response.raw_head));
  confidence = some Confidence.high;
}

unfoldable pub robots_finding : String → ℕ → String → Finding EnumFacts
unfolding f_string str_of first_chars text_length
robots_finding host port content = record {
  host = host;
  port = some port;
  category = FindingCategory.enumeration;
  kind = "http.robots";
  title = f_string (host ∷ ":" ∷ str_of port ∷ " publishes robots.txt" ∷ []);
  summary =
      f_string
        ("robots.txt returned " ∷ str_of (text_length content) ∷ " characters of directives." ∷ []);
  module_name = enum_name;
  identity_key = f_string ("robots/" ∷ str_of port ∷ []);
  normalized_value = robots_facts port (text_length content);
  raw_evidence = some (first_chars 2000 content);
  confidence = some Confidence.high;
}

-- The end of `_fetch_path`: robots.txt, if the answer has one.
unfoldable pub robots_in : String → ℕ → Option HttpResponse → Option (Finding EnumFacts)
unfolding robots_finding content_of strip
robots_in host port none = none
robots_in host port (some response) =
    if response.status == 200
    then (if strip (content_of response.raw_head) == ""
        then none
        else some (robots_finding host port (content_of response.raw_head)))
    else none

-- `text or default`
abbrev pub text_or : Option String → String → String
text_or value default = or_else (some_text value) default

unfoldable pub session_finding : String → ℕ → TlsInfo → Finding EnumFacts
unfolding f_string str_of some_text
session_finding host port tls = record {
  host = host;
  port = some port;
  category = FindingCategory.enumeration;
  kind = "tls.session";
  title = f_string (host ∷ ":" ∷ str_of port ∷ " negotiated TLS" ∷ []);
  summary = f_string (
      "Negotiated "
      ∷ text_or tls.protocol "TLS"
      ∷ " with cipher "
      ∷ text_or tls.cipher "unknown"
      ∷ ". "
      ∷ "The certificate could not be parsed and is reported as unreadable rather than assumed valid."
      ∷ []);
  module_name = enum_name;
  identity_key = f_string ("tls/" ∷ str_of port ∷ []);
  normalized_value = session_facts port tls.protocol tls.cipher;
  raw_evidence = none;
  confidence = some Confidence.medium;
}

abbrev pub san_text : List String → String
san_text [] = ""
san_text (name ∷ names) = f_string (", SAN: " ∷ join ", " (first_rows 5 (name ∷ names)) ∷ [])

unfoldable pub certificate_details_finding :
    String → ℕ → TlsInfo → CertificateDetails → Finding EnumFacts
unfolding f_string str_of some_text join first_rows
certificate_details_finding host port tls details = record {
  host = host;
  port = some port;
  category = FindingCategory.enumeration;
  kind = "tls.cert";
  title = f_string (
      host
      ∷ ":"
      ∷ str_of port
      ∷ " presents a TLS certificate for "
      ∷ text_or (some details.subject) "an unnamed subject"
      ∷ []);
  summary = f_string (
      "Issued by "
      ∷ text_or (some details.issuer) "an unnamed issuer"
      ∷ ", valid "
      ∷ details.not_before
      ∷ " to "
      ∷ details.not_after
      ∷ san_text details.san
      ∷ ". Negotiated "
      ∷ text_or tls.protocol "TLS"
      ∷ "."
      ∷ []);
  module_name = enum_name;
  identity_key = f_string ("tls/" ∷ str_of port ∷ []);
  normalized_value = certificate_facts port tls.protocol tls.cipher details;
  raw_evidence = none;
  confidence = some Confidence.high;
}

-- `_certificate_finding`
unfoldable pub certificate_finding :
    (Bytes → Option Certificate) → String → ℕ → TlsInfo → Option (Finding EnumFacts)
unfolding parse_certificate session_finding certificate_details_finding
certificate_finding load host port tls = elim tls.certificate_der [
  | none ↦ none
  | some der ↦ elim (parse_certificate load der) [
    | none ↦ some (session_finding host port tls)
    | some details ↦ some (certificate_details_finding host port tls details)
  ]
]
