-- ===== src/Services/Outbound.antt =====
-- backend/app/services/outbound.py: the gateway to the providers of CVE data. Times are in milliseconds.
-- What urlsplit and `lower` make of a text, what a provider replies and what random.uniform draws are
-- arguments.
pub mod Grants
pub mod Window
pub mod Retries
use scan_ledger.Prelude.{
  ℕ, zero, suc, ◌+◌, ◌-◌, ◌*◌, ◌^◌, min, Bool, true, false, ◌&&◌, ◌||◌, Option, none, some, List,
  [], ◌∷◌, ◌++◌, String, string_eq, nat_eq, ◌==◌, ltb, leb, any, select, length, if◌then◌else◌, ◌⊎◌,
  inl, inr, Outcome, returns, raises,
}

abbrev pub nvd_host : String
nvd_host = "services.nvd.nist.gov"

abbrev pub kev_host : String
kev_host = "www.cisa.gov"

abbrev pub allowed_provider_hosts : List String
allowed_provider_hosts = nvd_host ∷ kev_host ∷ []

abbrev pub public_requests_per_window : ℕ
public_requests_per_window = 5

abbrev pub keyed_requests_per_window : ℕ
keyed_requests_per_window = 50

abbrev pub rate_window : ℕ
rate_window = 30 * 1000

abbrev pub max_attempts : ℕ
max_attempts = 4

abbrev pub base_backoff : ℕ
base_backoff = 1000

abbrev pub max_backoff : ℕ
max_backoff = 30 * 1000

pub record SlidingWindowLimiter : Type 0 where
  pub limit : ℕ
  pub window : ℕ
  pub timestamps : List ℕ

-- `now - t < self._window`
abbrev pub is_recent : ℕ → ℕ → ℕ → Bool
is_recent window now t = ltb (now - t) window

unfoldable pub expire : SlidingWindowLimiter → ℕ → SlidingWindowLimiter
expire l now = record l { timestamps = select l.timestamps (is_recent l.window now) }

-- The time to sleep, from the oldest timestamp that is left. The limit is positive, so where this is
-- reached there is one.
unfoldable pub pause : SlidingWindowLimiter → ℕ → ℕ
pause l now = elim l.timestamps [ [] ↦ 0 | oldest ∷ _ ↦ l.window - (now - oldest) + 50 ]

module _ (wake : ℕ → ℕ → ℕ) where
  -- `acquire`, which holds the lock while it sleeps: the time of the grant and the limiter after it, or
  -- `none` if the rounds run out. `wake` gives the time at which a sleeper goes on.
  unfoldable pub acquire : ℕ → SlidingWindowLimiter → ℕ → Option (ℕ × SlidingWindowLimiter)
  unfolding expire pause
  acquire zero l now = none
  acquire (suc rounds) l now =
      let l' = expire l now in
      let later = acquire rounds l' (wake now (pause l' now)) in
      if ltb (length l'.timestamps) l'.limit
      then some (now, record l' { timestamps = l'.timestamps ++ now ∷ [] })
      else later

-- What urlsplit reads from a URL.
pub record SplitUrl : Type 0 where
  pub scheme : String
  pub hostname : Option String

-- The reply to one request: a transport error, or a status with its JSON, `none` if it is unreadable, and
-- the seconds of Retry-After in milliseconds, `none` if that is absent or unreadable.
pub data Reply : Type 0 where
  unreachable : Reply
  replied : ℕ → Option String → Option ℕ → Reply

pub data GatewayError : Type 0 where
  not_https not_allowlisted : GatewayError
  provider_unavailable : Option ℕ → GatewayError
  provider_rate_limited : ℕ → GatewayError

pub record ProviderResponse : Type 0 where
  pub status_code : ℕ
  pub payload : String

-- What the gateway does: a request to a URL with or without the API key, or a sleep.
pub data Action : Type 0 where
  requests : String → Option String → Action
  sleeps : ℕ → Action

pub record OutboundGateway : Type 0 where
  pub nvd_api_key : Option String
  pub limiter : SlidingWindowLimiter

abbrev pub has_key : Option String → Bool
has_key none = false
has_key (some key) = if key == "" then false else true

-- `OutboundGateway.__init__`
unfoldable pub create : Option String → OutboundGateway
create key = record {
  nvd_api_key = key;
  limiter = record {
    limit = if has_key key then keyed_requests_per_window else public_requests_per_window;
    window = rate_window;
    timestamps = [];
  };
}

abbrev pub hostname_or : Option String → String → String
hostname_or none d = d
hostname_or (some h) d = h

abbrev pub is_server_error : ℕ → Bool
is_server_error status = leb 500 status && ltb status 600

abbrev pub and_then :
    List Action
    → Outcome GatewayError ProviderResponse × List Action
    → Outcome GatewayError ProviderResponse × List Action
and_then first (result, others) = (result, first ++ others)

module _ (urlsplit : String → SplitUrl) (lower : String → String) where
  unfoldable pub check_url : String → Outcome GatewayError String
  check_url url =
      let parts = urlsplit url in
      let host = lower (hostname_or parts.hostname "") in
      if parts.scheme == "https"
      then (if any allowed_provider_hosts (λ h. host == h)
          then returns url
          else raises not_allowlisted)
      else raises not_https

  -- The API key among the headers of a request, if it is there.
  unfoldable pub key_header : OutboundGateway → String → Option String
  key_header gateway url =
      if has_key gateway.nvd_api_key && hostname_or (urlsplit url).hostname "" == nvd_host
      then gateway.nvd_api_key
      else none

  module _ (reply : ℕ → Reply) (uniform : ℕ → ℕ → ℕ) where
    -- `_sleep_before_retry`
    unfoldable pub sleep_before_retry : ℕ → Option ℕ → ℕ
    sleep_before_retry attempt retry_after = elim retry_after [
      | some wait ↦ min wait max_backoff
      | none ↦ uniform attempt (min (base_backoff * 2 ^ (attempt - 1)) max_backoff)
    ]

    -- The body of the loop once the request was answered: the error that is kept for the end, with what
    -- is done before the next attempt, or the result.
    unfoldable pub handle_reply :
        ℕ → Reply → (GatewayError × List Action) ⊎ Outcome GatewayError ProviderResponse
    unfolding sleep_before_retry
    handle_reply attempt unreachable = inl (
      provider_unavailable none,
      if ltb attempt max_attempts then sleeps (sleep_before_retry attempt none) ∷ [] else [],
    )
    handle_reply attempt (replied status body retry_after) =
        if status == 200
        then (elim body [
          | none ↦ inr (raises (provider_unavailable (some 200)))
          | some payload ↦ inr (returns (record { status_code = 200; payload = payload }))
        ])
        else if status == 403 || status == 429
        then inl
            (provider_rate_limited status, sleeps (sleep_before_retry attempt retry_after) ∷ [])
        else if is_server_error status
        then inl (
          provider_unavailable (some status),
          sleeps (sleep_before_retry attempt retry_after) ∷ [],
        )
        else inr (raises (provider_unavailable (some status)))

    -- The loop with `left` attempts left, and what it raises if there is none.
    unfoldable pub attempts_from :
        OutboundGateway
        → String
        → ℕ
        → ℕ
        → GatewayError
        → Outcome GatewayError ProviderResponse × List Action
    unfolding handle_reply key_header
    attempts_from gateway url zero attempt last = (raises last, [])
    attempts_from gateway url (suc left) attempt last =
        elim (handle_reply attempt (reply attempt)) [
          | inr result ↦ (result, requests url (key_header gateway url) ∷ [])
          | inl (x, pauses) ↦
              and_then (requests url (key_header gateway url) ∷ pauses)
                (attempts_from gateway url left (attempt + 1) x)
        ]

    -- `get_json`: the result and what was done. The limiter only delays the requests.
    unfoldable pub get_json :
        OutboundGateway → String → Outcome GatewayError ProviderResponse × List Action
    unfolding check_url attempts_from
    get_json gateway url = elim (check_url url) [
      | raises x ↦ (raises x, [])
      | returns _ ↦ attempts_from gateway url max_attempts 1 (provider_unavailable none)
    ]
