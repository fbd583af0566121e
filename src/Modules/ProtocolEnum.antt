-- ===== src/Modules/ProtocolEnum.antt =====
-- backend/app/modules/protocol_enum.py: what is read from an HTTP answer and from a certificate. `lower` is
-- `str.lower`, `int` is Python's on three digits, `decode` and `re` are as for the service detection, and
-- what the x509 reader of `cryptography` makes of the bytes is an argument.
pub mod Reports
pub mod Learned
pub mod Run
pub mod Enumerated
pub mod Ran
use scan_ledger.Prelude.{
  ℕ, Bool, true, false, Option, none, some, List, [], ◌∷◌, String, string_eq, Dict, put,
}
use scan_ledger.Text.{strip, contains, first_chars}
use scan_ledger.Text.Join.{f_string}
use scan_ledger.Text.Split.{split_once, split_all}
use scan_ledger.Guard.Stream.{Bytes}
use scan_ledger.Modules.Ports.{or_else}
use scan_ledger.Modules.Fingerprints.{Pattern, ignore_case_dot_all, no_flags, Groups, group_1, Re}

abbrev pub enum_name : String
enum_name = "protocol_enum"

abbrev pub title_pattern : Pattern
title_pattern = record { text = "<title[^>]*>(.*?)</title>"; flags = ignore_case_dot_all }

abbrev pub status_pattern : Pattern
status_pattern = record { text = "^HTTP/[\\d.]+\\s+(\\d{3})"; flags = no_flags }

abbrev pub security_headers : List String
security_headers =
    "strict-transport-security" ∷ "content-security-policy" ∷ "x-frame-options"
    ∷ "x-content-type-options" ∷ "referrer-policy" ∷ "permissions-policy" ∷ []

abbrev pub head_end : String
head_end = "\r\n\r\n"

pub record HttpResponse : Type 0 where
  pub status : ℕ
  pub headers : Dict String String
  pub title : Option String
  pub raw_head : String

-- `text.split("\r\n\r\n", 1)[0]`
unfoldable pub head_of : String → String
unfolding split_once
head_of text = (split_once head_end text).0

-- The part after the head, or nothing.
unfoldable pub content_of : String → String
unfolding split_once
content_of text = or_else (split_once head_end text).1 ""

-- `head.split("\r\n")[1:]`
abbrev pub after_first : List String → List String
after_first [] = []
after_first (line ∷ lines) = lines

module _ (lower : String → String) where
  -- The loop over the lines of the head: a line without a colon is passed over.
  unfoldable pub headers_from : Dict String String → List String → Dict String String
  unfolding contains split_once strip
  headers_from headers [] = headers
  headers_from headers (line ∷ lines) =
      let (name, value) = split_once ":" line in
      elim (contains line b':') [
        | false ↦ headers_from headers lines
        | true ↦ headers_from (put headers (lower (strip name)) (strip (or_else value ""))) lines
      ]

  module _ (int : String → ℕ) (decode : Bytes → String) (re : Re) where
    -- `title_match.group(1).strip()[:200] if title_match else None`
    unfoldable pub title_of : String → Option String
    unfolding strip first_chars
    title_of text = elim (re.search title_pattern text) [
      | none ↦ none
      | some groups ↦ some (first_chars 200 (strip (or_else (group_1 groups) "")))
    ]

    -- The response in a text that starts with a status line.
    unfoldable pub response_of : String → Groups → HttpResponse
    unfolding headers_from head_of title_of split_all
    response_of text groups = record {
      status = int (or_else (group_1 groups) "");
      headers = headers_from [] (after_first (split_all "\r\n" (head_of text)));
      title = title_of text;
      raw_head = text;
    }

    -- `_fetch`, of what the read gave: `none` for a TimeoutError or an OSError.
    unfoldable pub response_from : Option Bytes → Option HttpResponse
    unfolding response_of
    response_from none = none
    response_from (some []) = none
    response_from (some (b ∷ raw)) = elim (re.match_start status_pattern (decode (b ∷ raw))) [
      | none ↦ none
      | some groups ↦ some (response_of (decode (b ∷ raw)) groups)
    ]

-- The request that `_fetch` writes.
unfoldable pub get_request : String → String → String
unfolding f_string
get_request path host = f_string (
    "GET " ∷ path ∷ " HTTP/1.1\r\nHost: " ∷ host ∷ "\r\nUser-Agent: ScanLedger\r\n"
    ∷ "Accept: */*\r\nConnection: close\r\n\r\n" ∷ [])

pub record CertificateDetails : Type 0 where
  pub subject : String
  pub issuer : String
  pub serial : String
  pub not_before : String
  pub not_after : String
  pub san : List String
  pub self_signed : Bool

-- What the reader gives of a certificate: the texts of its parts, whether its subject is its issuer, and the
-- DNS names of its extension, `none` if it has no such extension.
pub record Certificate : Type 0 where
  pub subject_text : String
  pub issuer_text : String
  pub serial_hex : String
  pub not_before_text : String
  pub not_after_text : String
  pub same_names : Bool
  pub dns_names : Option (List String)

-- `_parse_certificate`; `load` gives `none` where reading raises.
unfoldable pub parse_certificate : (Bytes → Option Certificate) → Bytes → Option CertificateDetails
parse_certificate load der = elim (load der) [
  | none ↦ none
  | some c ↦ some (record {
    subject = c.subject_text;
    issuer = c.issuer_text;
    serial = c.serial_hex;
    not_before = c.not_before_text;
    not_after = c.not_after_text;
    san = or_else c.dns_names [];
    self_signed = c.same_names;
  })
]
