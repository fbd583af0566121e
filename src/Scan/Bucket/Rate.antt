-- ===== src/Scan/Bucket/Rate.antt =====
-- The token bucket keeps its rate over every period, and grants each request if the rate is at least
-- one connection per second.
use mathlib.Core.Option.{some-injective}
use native.Mathlib.Nat.{add-zero, add-suc, suc-add, mul-le-mul_right, lt-div-mul-add}
use scan_ledger.Prelude.{
  ℕ, zero, suc, ◌+◌, ◌-◌, ◌*◌, ◌/◌, ◌≤◌, ◌<◌, ◌≡◌, refl, true, inl, inr, arith, Option, none, some,
  List, [], ◌∷◌, leb, length, Bool-cases, Option-cases, subst,
}
use scan_ledger.Scan.Bucket.{
  TokenBucket, one_token, capacity, refill, shortfall, acquire, acquire_all,
}

-- What `granted` tokens and those left may come to since the bucket was `b`.
pub record Spent (b : TokenBucket) (granted : ℕ) (b' : TokenBucket) : Type 0 where
  pub same_rate : b'.rate ≡ b.rate
  pub forward : b.updated ≤ b'.updated
  pub paid : b'.tokens + one_token * granted ≤ capacity b.rate + (b'.updated - b.updated) * b.rate
  pub capped : b'.tokens ≤ capacity b.rate

-- Waiting from `v` to `now` adds as much to both sides of `Spent.paid`.
paid_later :
    (t n cap r u v now : ℕ)
    → u ≤ v
    → v ≤ now
    → t + n ≤ cap + (v - u) * r
    → t + (now - v) * r + n ≤ cap + (now - u) * r
paid_later t n cap r u v now p q h =
    let split : now - u ≡ now - v + (v - u) = omega arith in rw split (omega arith)

module _ (b c : TokenBucket) (n : ℕ) where
  refill-Spent : (now : ℕ) → Spent b n c → c.updated ≤ now → Spent b n (refill c now)
  unfolding refill
  refill-Spent now h le = ground (
    arith,
    paid_later c.tokens (one_token * n) (capacity b.rate) b.rate b.updated c.updated now h.forward
        le h.paid,
  )

  take-Spent :
      Spent b n c
      → leb one_token c.tokens ≡ true
      → Spent b (suc n) (record c { tokens = c.tokens - one_token })
  take-Spent h enough = ground arith

module _ (wake : ℕ → ℕ → ℕ) (wakes : (now wait : ℕ) → now + wait ≤ wake now wait) where
  acquire-Spent :
      (rounds : ℕ) (b c c' : TokenBucket) (n now : ℕ)
      → Spent b n c
      → c.updated ≤ now
      → acquire wake rounds c now ≡ some c'
      → Spent b (suc n) c'
  unfolding acquire
  acquire-Spent zero b c c' n now h le e = cc
  acquire-Spent (suc rounds) b c c' n now h le e =
      elim (Bool-cases (leb one_token (refill c now).tokens)) [
        | inl enough ↦
            subst (Spent b (suc n)) (ground arith)
              (take-Spent b (refill c now) n (refill-Spent b c n now h le) enough)
        | inr short ↦
            acquire-Spent rounds b (refill c now) c' n _ (refill-Spent b c n now h le)
              (waited c now) (ground arith)
      ]
    where
      waited :
          (c : TokenBucket) (now : ℕ) → (refill c now).updated ≤ wake now (shortfall (refill c now))
      waited c now = unfold refill in omega (arith, wakes now (shortfall (refill c now)))

  acquire_all-Spent :
      (rounds : ℕ) (b c c' : TokenBucket) (n : ℕ) (delays : List ℕ)
      → Spent b n c
      → acquire_all wake rounds c delays ≡ some c'
      → Spent b (n + length delays) c'
  unfolding acquire_all
  acquire_all-Spent rounds b c c' n [] h e =
      subst (Spent b (n + 0)) (some-injective _ _ e) (rw add-zero h)
  acquire_all-Spent rounds b c c' n (d ∷ ds) h e = elim (Option-cases granted) [
    | inl p ↦ absurd (stuck p)
    | inr (c1, p) ↦
        rw (add-suc, ← suc-add)
          (acquire_all-Spent rounds b c1 c' (suc n) ds
            (acquire-Spent rounds b c c1 n (c.updated + d) h (omega arith) p) (goes_on c1 p))
  ]
    where
      granted : Option TokenBucket
      granted = acquire wake rounds c (c.updated + d)

      stuck : granted ≡ none → ⊥
      stuck p = ground arith

      goes_on : (c1 : TokenBucket) → granted ≡ some c1 → acquire_all wake rounds c1 ds ≡ some c'
      goes_on c1 p = ground arith

  -- From any bucket that holds no more than its capacity, however the requests are spaced: the
  -- connections granted by a time cost no more than the tokens of one second and those of the time
  -- that has passed, so k connections take at least k / rate - 1 seconds.
  pub acquire_all_rate :
      (rounds : ℕ) (b b' : TokenBucket) (delays : List ℕ)
      → b.tokens ≤ capacity b.rate
      → acquire_all wake rounds b delays ≡ some b'
      → (b.updated ≤ b'.updated)
        × (one_token * length delays ≤ capacity b.rate + (b'.updated - b.updated) * b.rate)
  acquire_all_rate rounds b b' delays full e =
      omega (arith, acquire_all-Spent rounds b b b' 0 delays (fresh b full) e)
    where
      fresh : (b : TokenBucket) → b.tokens ≤ capacity b.rate → Spent b 0 b
      fresh b full = omega arith

  shortfall_enough : (t r : ℕ) → 0 < r → one_token - t ≤ (one_token - t + r - 1) / r * r
  shortfall_enough t r pos = omega (arith, lt-div-mul-add {a = one_token - t + r - 1} pos)

  refilled :
      (c : TokenBucket) (now : ℕ)
      → 1000 ≤ c.rate
      → c.updated ≤ now
      → leb one_token (refill c (wake now (shortfall c))).tokens ≡ true
  unfolding refill
  refilled c now fast le =
      let slept : shortfall c ≤ wake now (shortfall c) - c.updated =
        omega (arith, wakes now (shortfall c)) in
      ground (arith, shortfall_enough c.tokens c.rate (omega arith), mul-le-mul_right c.rate slept)

  -- At a rate of at least one connection per second, two rounds of the loop grant the request.
  pub acquire_total :
      (c : TokenBucket) (now : ℕ)
      → 1000 ≤ c.rate
      → (c' : TokenBucket) × (acquire wake 2 c now ≡ some c')
  acquire_total c now fast = elim (Option-cases (acquire wake 2 c now)) [
    | inl e ↦ absurd (granted e)
    | inr r ↦ r
  ]
    where
      ready :
          leb one_token (refill (refill c now) (wake now (shortfall (refill c now)))).tokens ≡ true
      ready = refilled (refill c now) now (unfold refill in fast) (unfold refill in omega arith)

      granted : acquire wake 2 c now ≡ none → ⊥
      granted e = unfold acquire in ground (arith, ready)

  -- A positive rate below one connection per second is never granted a connection, however long the
  -- loop goes on: the bucket cannot hold a whole token.
  pub acquire_starved :
      (rounds : ℕ) (c : TokenBucket) (now : ℕ) → c.rate < 1000 → acquire wake rounds c now ≡ none
  unfolding acquire refill
  acquire_starved zero c now slow = refl
  acquire_starved (suc rounds) c now slow =
      ground (arith, acquire_starved rounds (refill c now) (wake now (shortfall (refill c now))))
