-- ===== src/Models/Findings.antt =====
-- backend/app/models/findings.py: what a module returns. `observed_at` and the JSON text are left out;
-- `V` is the type of a module's normalized values, and the SHA-256 digest is an argument.
use scan_ledger.Prelude.{ℕ, Option, none, some, [], ◌∷◌, String}
use scan_ledger.Text.Join.{join}
use scan_ledger.Text.Decimal.{str_of}
use scan_ledger.Models.Domain.{Confidence, FindingCategory}

pub record Finding (V : Type 0) : Type 0 where
  pub host : String
  pub category : FindingCategory
  pub kind : String
  pub title : String
  pub summary : String
  pub module_name : String
  pub identity_key : String
  pub port : Option ℕ
  pub normalized_value : V
  pub raw_evidence : Option String
  pub confidence : Option Confidence

abbrev pub port_text : Option ℕ → String
port_text none = ""
port_text (some p) = str_of p

unfoldable pub compute_fingerprint :
    (String → String) → String → String → String → Option ℕ → String → String
unfolding join
compute_fingerprint sha256 module_name kind host port identity_key =
    sha256 (join "|" (module_name ∷ kind ∷ host ∷ port_text port ∷ identity_key ∷ []))

-- `Finding.fingerprint`
unfoldable pub fingerprint : {V : Type 0} → (String → String) → Finding V → String
unfolding compute_fingerprint
fingerprint sha256 f = compute_fingerprint sha256 f.module_name f.kind f.host f.port f.identity_key
