-- ===== src/Services/Outbound/Window.antt =====
-- The limiter of backend/app/services/outbound.py against the list of all grants.
use mathlib.Core.Option.{some-injective}
use mathlib.Core.List.{append-nil, append_assoc}
use scan_ledger.Prelude.{
  ℕ, zero, suc, ◌+◌, ◌-◌, ◌≤◌, ◌<◌, ◌≡◌, refl, sym, ◌∙◌, subst, Bool, true, false, Option, none,
  some, List, [], ◌∷◌, ◌++◌, arith, ltb, ltb→lt, lt→ltb, select, length, length-append, All,
  Bool-cases, Option-cases, inl, inr,
}
use scan_ledger.Services.Outbound.{SlidingWindowLimiter, is_recent, expire, pause, acquire}
use scan_ledger.Services.Outbound.Grants.{Holds, Within, expire-Holds, grant-Holds, grant-Within}

module _ (wake : ℕ → ℕ → ℕ) (wakes : (now wait : ℕ) → now + wait ≤ wake now wait) where
  move :
      {m n v w : ℕ} → m ≡ n → v ≡ w → (history : List ℕ) → Within m v history → Within n w history
  move {m} {n} {v} {w} e f history h =
      subst (λ k. Within k w history) e (subst (λ k. Within m k history) f h)

  record Granted (history : List ℕ) (now : ℕ) (l : SlidingWindowLimiter) (g : ℕ)
      (l' : SlidingWindowLimiter) : Type 0 where
    later : now ≤ g
    holds : Holds (history ++ g ∷ []) g l'
    limit_kept : l'.limit ≡ l.limit
    window_kept : l'.window ≡ l.window
    within : Within l.limit l.window (history ++ g ∷ [])

  grant_now :
      (rounds now : ℕ) (l : SlidingWindowLimiter)
      → ltb (length (expire l now).timestamps) l.limit ≡ true
      → acquire wake (suc rounds) l now
        ≡ some (now, record l { timestamps = (expire l now).timestamps ++ now ∷ [] })
  unfolding acquire expire
  grant_now rounds now l room = rw room

  wait_first :
      (rounds now : ℕ) (l : SlidingWindowLimiter)
      → ltb (length (expire l now).timestamps) l.limit ≡ false
      → acquire wake (suc rounds) l now
        ≡ acquire wake rounds (expire l now) (wake now (pause (expire l now) now))
  unfolding acquire expire
  wait_first rounds now l full = rw full

  acquire-Granted :
      (rounds : ℕ) (history : List ℕ) (last now : ℕ) (l l' : SlidingWindowLimiter) (g : ℕ)
      → last ≤ now
      → Holds history last l
      → Within l.limit l.window history
      → acquire wake rounds l now ≡ some (g, l')
      → Granted history now l g l'
  unfolding expire
  acquire-Granted zero history last now l l' g h a w e = unfold acquire in cc
  acquire-Granted (suc rounds) history last now l l' g h a w e =
      let a' = expire-Holds history last now l h a in
      elim (Bool-cases (ltb (length (expire l now).timestamps) l.limit)) [
        | inl room ↦
            subst (λ r. Granted history now l r.0 r.1)
              (some-injective _ _ (sym (grant_now rounds now l room) ∙ e))
              (record {
                later = omega arith;
                holds = grant-Holds history now (expire l now) a';
                limit_kept = refl;
                window_kept = refl;
                within = grant-Within history now (expire l now) a' (ltb→lt _ _ room) w;
              })
        | inr full ↦
            let waited = wakes now (pause (expire l now) now) in
            let next =
              acquire-Granted rounds history now (wake now (pause (expire l now) now))
                (expire l now) l' g (omega arith) a' w (sym (wait_first rounds now l full) ∙ e) in
            record {
              later = omega (arith, next.later);
              holds = next.holds;
              limit_kept = next.limit_kept;
              window_kept = next.window_kept;
              within = next.within;
            }
      ]

  select-le : (window now : ℕ) (ts : List ℕ) → length (select ts (is_recent window now)) ≤ length ts
  select-le window now [] = omega arith
  select-le window now (t ∷ ts) = ground (arith, select-le window now ts)

  -- After the sleep the oldest timestamp is not recent any more.
  makes_room :
      (l : SlidingWindowLimiter) (now : ℕ)
      → All (λ t. t ≤ now) l.timestamps
      → 0 < length l.timestamps
      → length (expire l (wake now (pause l now))).timestamps < length l.timestamps
  unfolding expire pause
  makes_room l now a pos = go l.timestamps a pos
    where
      go :
          (ts : List ℕ)
          → All (λ t. t ≤ now) ts
          → 0 < length ts
          → length
              (expire
                (record l { timestamps = ts })
                (wake now (pause (record l { timestamps = ts }) now))).timestamps
            < length ts
      go [] a pos = absurd (omega arith)
      go (t ∷ ts) a pos = ground (
        arith,
        wakes now (l.window - (now - t) + 50),
        select-le l.window (wake now (l.window - (now - t) + 50)) ts,
        a.0,
      )

  -- Acquisitions in a row, each asked for some time after the grant before it: the times of the grants.
  unfoldable pub acquire_all : ℕ → SlidingWindowLimiter → ℕ → List ℕ → Option (List ℕ)
  acquire_all rounds l now [] = some []
  acquire_all rounds l now (delay ∷ delays) = elim (acquire wake rounds l (now + delay)) [
    | none ↦ none
    | some (g, l') ↦ elim (acquire_all rounds l' g delays) [ none ↦ none | some gs ↦ some (g ∷ gs) ]
  ]

  all-Within :
      (rounds : ℕ) (history : List ℕ) (now : ℕ) (l : SlidingWindowLimiter) (delays grants : List ℕ)
      → Holds history now l
      → Within l.limit l.window history
      → acquire_all rounds l now delays ≡ some grants
      → Within l.limit l.window (history ++ grants)
  unfolding acquire_all
  all-Within rounds history now l [] grants a w e =
      subst (λ gs. Within l.limit l.window (history ++ gs)) (some-injective _ _ e)
        (rw (append-nil history) w)
  all-Within rounds history now l (delay ∷ delays) grants a w e =
      elim (Option-cases (acquire wake rounds l (now + delay))) [
        | inl stuck ↦ ground arith
        | inr ((g, l'), first) ↦ elim (Option-cases (acquire_all rounds l' g delays)) [
          | inl stuck ↦ ground arith
          | inr (gs, rest) ↦
              let s =
                acquire-Granted rounds history now (now + delay) l l' g (omega arith) a w first in
              let ih =
                all-Within rounds (history ++ g ∷ []) g l' delays gs s.holds
                  (move (sym s.limit_kept) (sym s.window_kept) _ s.within) rest in
              let same : g ∷ gs ≡ grants = ground arith in
              subst (λ rest_of. Within l.limit l.window (history ++ rest_of)) same
                (subst (Within l.limit l.window) (append_assoc history (g ∷ []) gs)
                  (move s.limit_kept s.window_kept _ ih))
        ]
      ]

  All-select :
      (xs : List ℕ) (p : ℕ → Bool) (now : ℕ)
      → All (λ t. t ≤ now) xs
      → All (λ t. t ≤ now) (select xs p)
  All-select [] p now a = tt
  All-select (x ∷ xs) p now a = ground (arith, All-select xs p now a.1, a.0)

  expire-le :
      (l : SlidingWindowLimiter) (now : ℕ) → length (expire l now).timestamps ≤ length l.timestamps
  unfolding expire
  expire-le l now = select-le l.window now l.timestamps

  -- Two rounds are enough.
  acquire_two :
      (history : List ℕ) (last now : ℕ) (l : SlidingWindowLimiter)
      → last ≤ now
      → Holds history last l
      → 0 < l.limit
      → length l.timestamps ≤ l.limit
      → (r : ℕ × SlidingWindowLimiter) × (acquire wake 2 l now ≡ some r)
        × (length r.1.timestamps ≤ r.1.limit)
  acquire_two history last now l h a pos few =
      elim (Bool-cases (ltb (length (expire l now).timestamps) l.limit)) [
        | inl room ↦ (
          (now, record l { timestamps = (expire l now).timestamps ++ now ∷ [] }),
          grant_now 1 now l room,
          ground (arith, length-append (expire l now).timestamps (now ∷ [])),
        )
        | inr full ↦
            let kept = expire l now in
            let later = wake now (pause kept now) in
            let room : ltb (length (expire kept later).timestamps) l.limit ≡ true = lt→ltb _ _ (
              omega (
                arith,
                expire-le l now,
                makes_room kept now (stamps_past history last now l h a) (full_pos l now pos full),
              )) in
            (
              (later, record kept { timestamps = (expire kept later).timestamps ++ later ∷ [] }),
              wait_first 1 now l full ∙ grant_now 0 later kept (room_at l now later room),
              ground (
                arith,
                length-append (expire kept later).timestamps (later ∷ []),
                room_at l now later room,
              ),
            )
      ]
    where
      stamps_past :
          (history : List ℕ) (last now : ℕ) (l : SlidingWindowLimiter)
          → last ≤ now
          → Holds history last l
          → All (λ t. t ≤ now) (expire l now).timestamps
      stamps_past history last now l h a =
          let b = expire-Holds history last now l h a in
          subst (All (λ t. t ≤ now)) (sym b.held) (All-select history _ now b.past)

      full_pos :
          (l : SlidingWindowLimiter) (now : ℕ)
          → 0 < l.limit
          → ltb (length (expire l now).timestamps) l.limit ≡ false
          → 0 < length (expire l now).timestamps
      full_pos l now pos full = ground arith

      room_at :
          (l : SlidingWindowLimiter) (now later : ℕ)
          → ltb (length (expire (expire l now) later).timestamps) l.limit ≡ true
          → ltb (length (expire (expire l now) later).timestamps) (expire l now).limit ≡ true
      room_at l now later room = unfold expire in room

  all_step :
      (l l' : SlidingWindowLimiter) (now g delay : ℕ) (delays gs : List ℕ)
      → acquire wake 2 l (now + delay) ≡ some (g, l')
      → acquire_all 2 l' g delays ≡ some gs
      → acquire_all 2 l now (delay ∷ delays) ≡ some (g ∷ gs)
  unfolding acquire_all
  all_step l l' now g delay delays gs first rest = ground arith

  all_total :
      (history : List ℕ) (now : ℕ) (l : SlidingWindowLimiter) (delays : List ℕ)
      → Holds history now l
      → Within l.limit l.window history
      → 0 < l.limit
      → length l.timestamps ≤ l.limit
      → (grants : List ℕ) × (acquire_all 2 l now delays ≡ some grants)
  unfolding acquire_all
  all_total history now l [] a w pos few = ([], refl)
  all_total history now l (delay ∷ delays) a w pos few =
      let ((g, l'), first, fits) =
        acquire_two history now (now + delay) l (omega arith) a pos few in
      let s = acquire-Granted 2 history now (now + delay) l l' g (omega arith) a w first in
      let (gs, rest) =
        all_total (history ++ g ∷ []) g l' delays s.holds
          (move (sym s.limit_kept) (sym s.window_kept) _ s.within) (omega (arith, s.limit_kept))
          fits in
      (g ∷ gs, all_step l l' now g delay delays gs first rest)

  -- A limiter that starts empty grants every request in at most two rounds of its loop, and whatever
  -- the delays between the requests, no window of its length, wherever it starts, contains more grants
  -- than the limit.
  pub limiter_window :
      (limit window start : ℕ) (delays : List ℕ)
      → 0 < limit
      → 0 < window
      → (grants : List ℕ) × (acquire_all 2
            (record { limit = limit; window = window; timestamps = [] })
            start
            delays
          ≡ some grants)
        × Within limit window grants
  limiter_window limit window start delays pos wide =
      let l : SlidingWindowLimiter = record { limit = limit; window = window; timestamps = [] } in
      let a : Holds [] start l = record { held = refl; past = tt; positive = wide } in
      let none_yet : Within limit window [] = λ x. omega arith in
      let (grants, e) = all_total [] start l delays a none_yet pos (omega arith) in
      (grants, e, all-Within 2 [] start l delays grants a none_yet e)
