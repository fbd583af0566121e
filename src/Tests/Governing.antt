-- ===== src/Tests/Governing.antt =====
-- The theorems about the governor, the token bucket and the events at concrete inputs.
use scan_ledger.Prelude.{
  ℕ, ◌+◌, ◌-◌, ◌*◌, ◌≤◌, ◌<◌, ◌≡◌, refl, none, some, [], ◌∷◌, arith, get, count_if, length, returns,
  string_eq,
}
use scan_ledger.Net.{IpAddress, address_eq}
use scan_ledger.Models.Domain.{ScanStatus, scan_status}
use scan_ledger.Db.{of_scan}
use scan_ledger.Scan.Governor.{
  create, with_limits, intensity_profiles, validate_against, validate_fields, check_field,
  probes_made_against,
}
use scan_ledger.Scan.Governor.Tasks.{
  fresh, task, is_connecting, is_open, connects_to, Reach, here, next, next_wave,
}
use scan_ledger.Scan.Governor.Reachable.{idle, concurrency_bounded, budgets_bounded}
use scan_ledger.Scan.Bucket.{TokenBucket, one_token, capacity, refill, acquire, acquire_all}
use scan_ledger.Scan.Bucket.Rate.{acquire_all_rate, acquire_starved}
use scan_ledger.Scan.Events.{Draft, highest, events_since}
use scan_ledger.Scan.Events.Replay.{publish_all, numbered_from, events_since_published}
use scan_ledger.Tests.Lab.{bench, governor}

normal_made : create {K = IpAddress} intensity_profiles "normal" ≡ returns governor
unfolding create get with_limits validate_against validate_fields check_field
normal_made = refl

one_wave :
    Reach 2
      (idle governor)
      (record { governor = governor; tasks = task bench fresh ∷ task bench fresh ∷ [] })
one_wave =
    next here
      (next_wave (idle governor) (task bench fresh ∷ task bench fresh ∷ []) refl refl (omega arith))

concurrency_bounded_example :
    (count_if (task bench fresh ∷ task bench fresh ∷ []) is_connecting
      ≤ governor.limits.global_concurrency)
    × (governor.limits.global_concurrency ≤ 200)
    × ((h : IpAddress)
        → (count_if (task bench fresh ∷ task bench fresh ∷ []) (connects_to h)
            ≤ governor.limits.per_host_concurrency)
          × (governor.limits.per_host_concurrency ≤ 20))
    × (count_if (task bench fresh ∷ task bench fresh ∷ []) is_open ≤ 2)
concurrency_bounded_example =
    concurrency_bounded intensity_profiles "normal" 2 normal_made (omega arith) one_wave

budgets_bounded_example :
    (governor.scan_count < governor.limits.per_scan_budget + 2)
    × ((h : IpAddress) → probes_made_against governor h < governor.limits.per_host_budget + 2)
budgets_bounded_example =
    budgets_bounded intensity_profiles "normal" 2 normal_made (omega arith) one_wave

abbrev prompt : ℕ → ℕ → ℕ
prompt now wait = now + wait

abbrev full : TokenBucket
full = record { rate = 2000; tokens = 2000000; updated = 0 }

abbrev spent : TokenBucket
spent = record { rate = 2000; tokens = 0; updated = 0 }

two_granted : acquire_all prompt 2 full (0 ∷ 0 ∷ []) ≡ some spent
unfolding acquire_all acquire refill
two_granted = refl

acquire_all_rate_example :
    (full.updated ≤ spent.updated)
    × (one_token * length {A = ℕ} (0 ∷ 0 ∷ [])
        ≤ capacity full.rate + (spent.updated - full.updated) * full.rate)
acquire_all_rate_example =
    acquire_all_rate prompt (λ now wait. omega arith) 2 full spent (0 ∷ 0 ∷ []) (omega arith)
      two_granted

acquire_starved_example :
    acquire prompt 10 (record { rate = 500; tokens = 500000; updated = 0 }) 0 ≡ none
acquire_starved_example =
    acquire_starved prompt (λ now wait. omega arith) 10
      (record { rate = 500; tokens = 500000; updated = 0 }) 0 (omega arith)

abbrev draft : Draft
draft = record {
  event_type = scan_status;
  module_name = none;
  payload = of_scan ScanStatus.running none;
}

events_since_published_example :
    events_since (publish_all [] "s1" (draft ∷ draft ∷ [])) "s1" (highest [] "s1")
    ≡ numbered_from "s1" (highest [] "s1" + 1) (draft ∷ draft ∷ [])
events_since_published_example = events_since_published [] "s1" (draft ∷ draft ∷ [])
