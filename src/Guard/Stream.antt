-- ===== src/Guard/Stream.antt =====
-- `TlsInfo`, `GuardedStream` and `ScanGuard.open_stream` of backend/app/guard/scanguard.py. What asyncio and
-- ssl make of the connected socket is an argument; `R` and `W` are asyncio's reader and writer.
pub mod Opened
use scan_ledger.Prelude.{
  ℕ, Bool, true, false, Option, none, some, List, [], ◌∷◌, ◌++◌, String, map, if◌then◌else◌,
  Outcome, returns, raises,
}
use scan_ledger.Net.{IpAddress}
use scan_ledger.Guard.Scope.{ScopeProfile}
use scan_ledger.Guard.ScanGuard.{ValidatedTarget}
use scan_ledger.Guard.Connect.{
  Answer, ConnectError, timeout_error, other_os_error, GuardState, connect,
}

abbrev pub Bytes : Type 0
Bytes = List ℕ

pub record TlsInfo : Type 0 where
  pub certificate_der : Option Bytes
  pub protocol : Option String
  pub cipher : Option String

pub record GuardedStream (R W : Type 0) : Type 0 where
  pub reader : R
  pub writer : W
  pub tls : Option TlsInfo

-- What ssl tells of a connection: `getpeercert(binary_form=True)`, `version()`, and `cipher()`, of which
-- the first part is read.
pub record SslObject : Type 0 where
  pub peer_certificate : Option Bytes
  pub version : Option String
  pub cipher_name : Option (Option String)

-- How `asyncio.open_connection` ends: with a reader, a writer and `get_extra_info("ssl_object")`, or with an
-- exception. `ssl.SSLError` is an OSError.
pub data Opening (R W : Type 0) : Type 0 where
  opened : R → W → Option SslObject → Opening R W
  handshake_timed_out handshake_failed : Opening R W

pub record StreamState : Type 0 where
  pub guard : GuardState
  -- the sockets that `connect` made and nothing has closed
  pub sockets : List (IpAddress × ℕ)
  -- NETWORK_GUARD_ACTIVE
  pub guard_active : Bool

-- `(ssl_object.cipher() or (None,))[0]`
abbrev pub cipher_of : SslObject → Option String
cipher_of ssl = elim ssl.cipher_name [ none ↦ none | some name ↦ name ]

unfoldable pub tls_info : Option SslObject → TlsInfo
tls_info none = record { certificate_der = none; protocol = none; cipher = none }
tls_info (some ssl) = record {
  certificate_der = ssl.peer_certificate;
  protocol = ssl.version;
  cipher = cipher_of ssl;
}

module _ {R W : Type 0} where
  -- The body of the `try`.
  unfoldable pub wrap : Bool → Opening R W → Outcome ConnectError (GuardedStream R W)
  unfolding tls_info
  wrap use_tls (opened r w ssl) =
      returns
        (record { reader = r; writer = w; tls = if use_tls then some (tls_info ssl) else none })
  wrap use_tls handshake_timed_out = raises timeout_error
  wrap use_tls handshake_failed = raises other_os_error

  -- After `connect` has given the socket: it is closed again when the body raises, and the token is reset
  -- either way. `opening` is told what the flag is while asyncio works.
  unfoldable pub upgrade :
      Bool
      → (Bool → Opening R W)
      → IpAddress
      → ℕ
      → StreamState
      → Outcome ConnectError (GuardedStream R W) × StreamState
  unfolding wrap
  upgrade use_tls opening a port s =
      let active : StreamState = record s { guard_active = true } in
      elim (wrap use_tls (opening active.guard_active)) [
        | returns stream ↦ (
          returns stream,
          record active { sockets = s.sockets ++ (a, port) ∷ []; guard_active = s.guard_active },
        )
        | raises x ↦ (raises x, record active { guard_active = s.guard_active })
      ]

  -- `open_stream`
  unfoldable pub open_stream :
      ScopeProfile
      → Answer
      → (Bool → Opening R W)
      → ValidatedTarget
      → IpAddress
      → ℕ
      → Bool
      → StreamState
      → Outcome ConnectError (GuardedStream R W) × StreamState
  unfolding upgrade
  open_stream scope answer opening target a port use_tls s =
      let (connected, t) = connect scope answer target a port s.guard in
      elim connected [
        | raises x ↦ (raises x, record s { guard = t })
        | returns _ ↦ upgrade use_tls opening a port (record s { guard = t })
      ]
