-- ===== src/Services/Outbound/Retries.antt =====
-- What `get_json` of backend/app/services/outbound.py sends, and what it makes of the replies.
use scan_ledger.Prelude.{
  ℕ, zero, suc, ◌+◌, ◌-◌, ◌≤◌, ◌≡◌, ◌⊎◌, inl, inr, refl, sym, ◌∙◌, Bool, true, false, ◌&&◌, ◌||◌,
  Option, none, some, List, [], ◌∷◌, arith, String, string_eq, nat_eq, ◌==◌, any, count_if,
  count_if-append, All-append, ◌*◌, ◌^◌, All, if◌then◌else◌, Bool-cases, Outcome, returns, raises,
  Outcome-cases, min, beq_sound,
}
use scan_ledger.Services.Outbound.{
  nvd_host, allowed_provider_hosts, max_backoff, base_backoff, SplitUrl, Reply, unreachable,
  replied, GatewayError, provider_unavailable, provider_rate_limited, ProviderResponse, Action,
  requests, sleeps, OutboundGateway, has_key, hostname_or, check_url, key_header,
  sleep_before_retry, is_server_error, handle_reply, attempts_from, get_json,
}

⊎-cases : {A B : Type 0} (s : A ⊎ B) → ((a : A) × (s ≡ inl a)) ⊎ ((b : B) × (s ≡ inr b))
⊎-cases (inl a) = inl (a, refl)
⊎-cases (inr b) = inr (b, refl)

-- What one reply decides: nothing, so that another attempt is due, with the error to raise if there is
-- none; or the result.
unfoldable pub decide : Reply → GatewayError ⊎ Outcome GatewayError ProviderResponse
decide unreachable = inl (provider_unavailable none)
decide (replied status body retry_after) =
    if status == 200
    then (elim body [
      | none ↦ inr (raises (provider_unavailable (some 200)))
      | some payload ↦ inr (returns (record { status_code = 200; payload = payload }))
    ])
    else if status == 403 || status == 429
    then inl (provider_rate_limited status)
    else if is_server_error status
    then inl (provider_unavailable (some status))
    else inr (raises (provider_unavailable (some status)))

-- The result of a list of replies: the first that decides, or else the error of the last.
abbrev pub outcome_of : GatewayError → List Reply → Outcome GatewayError ProviderResponse
outcome_of last [] = raises last
outcome_of last (r ∷ replies) = elim (decide r) [
  | inl x ↦ outcome_of x replies
  | inr result ↦ result
]

abbrev pub replies_from : (ℕ → Reply) → ℕ → ℕ → List Reply
replies_from reply zero attempt = []
replies_from reply (suc left) attempt = reply attempt ∷ replies_from reply left (attempt + 1)

abbrev pub is_request : Action → Bool
is_request (requests url key) = true
is_request (sleeps wait) = false

-- A request goes to a host of the list over HTTPS, and carries a key only if that host is NVD's; a sleep
-- is at most the longest backoff.
abbrev pub IsSafe : (String → SplitUrl) → (String → String) → Action → Type 0
IsSafe urlsplit lower (sleeps wait) = wait ≤ max_backoff
IsSafe urlsplit lower (requests url key) =
    ((urlsplit url).scheme ≡ "https")
    × (any allowed_provider_hosts (λ h. lower (hostname_or (urlsplit url).hostname "") == h) ≡ true)
    × ((key ≡ none) ⊎ (hostname_or (urlsplit url).hostname "" ≡ nvd_host))

module _ (urlsplit : String → SplitUrl) (lower : String → String) (reply : ℕ → Reply)
    (uniform : ℕ → ℕ → ℕ) (gateway : OutboundGateway) (url : String) where
  abbrev handled : ℕ → Reply → (GatewayError × List Action) ⊎ Outcome GatewayError ProviderResponse
  handled = handle_reply urlsplit lower reply uniform

  abbrev forget :
      (GatewayError × List Action) ⊎ Outcome GatewayError ProviderResponse
      → GatewayError ⊎ Outcome GatewayError ProviderResponse
  forget (inl (x, pauses)) = inl x
  forget (inr result) = inr result

  decide-handle_reply : (attempt : ℕ) (r : Reply) → decide r ≡ forget (handled attempt r)
  unfolding handle_reply decide
  decide-handle_reply attempt unreachable = refl
  decide-handle_reply attempt (replied status none retry_after) = ground arith
  decide-handle_reply attempt (replied status (some payload) retry_after) = ground arith

  attempts-outcome :
      (left attempt : ℕ) (last : GatewayError)
      → (attempts_from urlsplit lower reply uniform gateway url left attempt last).0
        ≡ outcome_of last (replies_from reply left attempt)
  unfolding attempts_from
  attempts-outcome zero attempt last = refl
  attempts-outcome (suc left) attempt last = elim (⊎-cases (handled attempt (reply attempt))) [
    | inl ((x, pauses), e) ↦ ground (
      arith,
      e,
      decide-handle_reply attempt (reply attempt),
      attempts-outcome left (attempt + 1) x,
    )
    | inr (result, e) ↦ ground (arith, e, decide-handle_reply attempt (reply attempt))
  ]

  -- A handled reply leads to sleeps only.
  pauses-requests :
      (attempt : ℕ) (r : Reply) (x : GatewayError) (pauses : List Action)
      → handled attempt r ≡ inl (x, pauses)
      → count_if pauses is_request ≡ 0
  unfolding handle_reply
  pauses-requests attempt unreachable x pauses h = ground arith
  pauses-requests attempt (replied status none retry_after) x pauses h = ground arith
  pauses-requests attempt (replied status (some payload) retry_after) x pauses h = ground arith

  attempts-requests :
      (left attempt : ℕ) (last : GatewayError)
      → count_if
          (attempts_from urlsplit lower reply uniform gateway url left attempt last).1
          is_request
        ≤ left
  unfolding attempts_from
  attempts-requests zero attempt last = omega arith
  attempts-requests (suc left) attempt last = elim (⊎-cases (handled attempt (reply attempt))) [
    | inl ((x, pauses), e) ↦
        let after =
          (attempts_from urlsplit lower reply uniform gateway url left (attempt + 1) x).1 in
        ground (
          arith,
          e,
          pauses-requests attempt (reply attempt) x pauses e,
          count_if-append pauses after is_request,
          attempts-requests left (attempt + 1) x,
        )
    | inr (result, e) ↦ ground (arith, e)
  ]

  module _ (draws : (attempt ceiling : ℕ) → uniform attempt ceiling ≤ ceiling) where
    abbrev Safe : List Action → Type 0
    Safe = All (IsSafe urlsplit lower)

    wait_bound :
        (attempt : ℕ) (retry_after : Option ℕ)
        → sleep_before_retry urlsplit lower reply uniform attempt retry_after ≤ max_backoff
    unfolding sleep_before_retry
    wait_bound attempt none =
        omega (arith, draws attempt (min (base_backoff * 2 ^ (attempt - 1)) max_backoff))
    wait_bound attempt (some wait) = omega arith

    pauses-Safe :
        (attempt : ℕ) (r : Reply) (x : GatewayError) (pauses : List Action)
        → handled attempt r ≡ inl (x, pauses)
        → Safe pauses
    unfolding handle_reply
    pauses-Safe attempt unreachable x pauses h = ground (arith, wait_bound attempt none)
    pauses-Safe attempt (replied status none retry_after) x pauses h =
        ground (arith, wait_bound attempt retry_after)
    pauses-Safe attempt (replied status (some payload) retry_after) x pauses h =
        ground (arith, wait_bound attempt retry_after)

    key_header-host :
        (key_header urlsplit lower gateway url ≡ none)
        ⊎ (hostname_or (urlsplit url).hostname "" ≡ nvd_host)
    unfolding key_header
    key_header-host = elim (Bool-cases (hostname_or (urlsplit url).hostname "" == nvd_host)) [
      | inl same ↦ inr (beq_sound _ _ same)
      | inr other ↦ inl (rw other (both (has_key gateway.nvd_api_key)))
    ]
      where
        both : (b : Bool) → (if b && false then gateway.nvd_api_key else none) ≡ none
        both b = ground arith

    checked :
        {u : String}
        → check_url urlsplit lower url ≡ returns u
        → IsSafe urlsplit lower (requests url (key_header urlsplit lower gateway url))
    unfolding check_url
    checked h = (
      beq_sound _ _ (unfold check_url in ground arith),
      unfold check_url in ground arith,
      key_header-host,
    )

    attempts-Safe :
        (left attempt : ℕ) (last : GatewayError)
        → IsSafe urlsplit lower (requests url (key_header urlsplit lower gateway url))
        → Safe (attempts_from urlsplit lower reply uniform gateway url left attempt last).1
    unfolding attempts_from
    attempts-Safe zero attempt last ok = tt
    attempts-Safe (suc left) attempt last ok = elim (⊎-cases (handled attempt (reply attempt))) [
      | inl ((x, pauses), e) ↦
          rw (e, attempts_from)
            (
              ok,
              All-append (IsSafe urlsplit lower) pauses _
                  (pauses-Safe attempt (reply attempt) x pauses e)
                  (attempts-Safe left (attempt + 1) x ok),
            )
      | inr (result, e) ↦ rw (e, attempts_from) (ok, tt)
    ]

    -- A URL that is refused leads to no request. For any other at most four requests are made, all to a
    -- host of the list over HTTPS, with the API key only if the host is NVD's, and no sleep is longer
    -- than the longest backoff; the result is that of the first reply that is neither a transport error,
    -- nor 403, 429 or a status from 500 to 599, and the error of the last if there is none.
    pub get_json-Safe :
        let (result, actions) = get_json urlsplit lower reply uniform gateway url in
        Safe actions
        × (count_if actions is_request ≤ 4)
        × (((x : GatewayError) × (check_url urlsplit lower url ≡ raises x)
              × (result ≡ raises x)
              × (actions ≡ []))
            ⊎ ((check_url urlsplit lower url ≡ returns url)
                × (result ≡ outcome_of (provider_unavailable none) (replies_from reply 4 1))))
    unfolding get_json
    get_json-Safe = elim (Outcome-cases (check_url urlsplit lower url)) [
      | inr (x, e) ↦ rw (e, get_json) (tt, omega arith, inl (x, refl, refl, refl))
      | inl (u, e) ↦
          rw (e, get_json)
            (
              attempts-Safe 4 1 (provider_unavailable none) (checked e),
              attempts-requests 4 1 (provider_unavailable none),
              inr (sym e ∙ returned e, attempts-outcome 4 1 (provider_unavailable none)),
            )
    ]
      where
        returned :
            {u : String}
            → check_url urlsplit lower url ≡ returns u
            → check_url urlsplit lower url ≡ returns url
        returned h = unfold check_url in ground arith
