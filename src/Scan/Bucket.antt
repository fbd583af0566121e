-- ===== src/Scan/Bucket.antt =====
-- `_TokenBucket` of backend/app/scan/governor.py. The rate is in thousandths of a connection per
-- second, the clock in milliseconds and a token in millionths, so the arithmetic is exact. `wake`
-- stands for the clock after `asyncio.sleep`: the time at which a sleeper that was told to wait goes on.
pub mod Rate
use scan_ledger.Prelude.{
  ℕ, zero, suc, ◌+◌, ◌-◌, ◌*◌, ◌/◌, ◌≤◌, Option, none, some, List, [], ◌∷◌, leb, min, if◌then◌else◌,
}

pub record TokenBucket : Type 0 where
  pub rate : ℕ
  pub tokens : ℕ
  pub updated : ℕ

abbrev pub one_token : ℕ
one_token = 1000000

-- The most that the bucket holds: the tokens of one second.
abbrev pub capacity : ℕ → ℕ
capacity rate = rate * 1000

unfoldable pub create : ℕ → ℕ → TokenBucket
create rate now = record { rate = rate; tokens = capacity rate; updated = now }

unfoldable pub refill : TokenBucket → ℕ → TokenBucket
refill b now = record b {
  tokens = min (capacity b.rate) (b.tokens + (now - b.updated) * b.rate);
  updated = now;
}

-- `(1.0 - self._tokens) / self._rate`, rounded up to the clock.
abbrev pub shortfall : TokenBucket → ℕ
shortfall b = (one_token - b.tokens + b.rate - 1) / b.rate

module _ (wake : ℕ → ℕ → ℕ) where
  -- `acquire`, which holds the lock: the bucket after it, or `none` if the rounds run out.
  unfoldable pub acquire : ℕ → TokenBucket → ℕ → Option TokenBucket
  acquire zero b now = none
  acquire (suc rounds) b now =
      let b' = refill b now in
      let later = acquire rounds b' (wake now (shortfall b')) in
      if leb one_token b'.tokens then some (record b' { tokens = b'.tokens - one_token }) else later

  -- Acquisitions in a row, each asked for some time after the one before it was granted.
  unfoldable pub acquire_all : ℕ → TokenBucket → List ℕ → Option TokenBucket
  acquire_all rounds b [] = some b
  acquire_all rounds b (delay ∷ delays) = elim (acquire rounds b (b.updated + delay)) [
    | none ↦ none
    | some b' ↦ acquire_all rounds b' delays
  ]
