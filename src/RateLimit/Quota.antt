-- ===== src/RateLimit/Quota.antt =====
-- What `remaining_calls` and `reset_time` say of the next `acquire`.
use eventful.Base.{
  true, false, ℕ, suc, length-keep_if-le, ◌+◌, ◌-◌, ◌≤◌, ◌<◌, List, [], ◌∷◌, ◌++◌, ◌≡◌, ◌↔◌, refl,
  arith, ltb, leb, keep_if, length, length-append, Bool-cases, inl, inr,
}
use eventful.RateLimit.{RateLimiter, recent, acquire, remaining_calls, reset_time, minimum}
use eventful.RateLimit.Window.{recent-recent, recent-append}

recent_now :
    (now period : ℕ) (ts : List ℕ)
    → 0 < period
    → length (recent now period (recent now period ts ++ now ∷ []))
      ≡ suc (length (recent now period ts))
unfolding recent keep_if
recent_now now period ts positive =
    rw (recent-append, recent-recent now now period ts (omega arith), length-append)
      (ground (arith, positive))

-- An attempt at this moment is refused exactly when no calls remain, and after it one call less
-- remains, if any did; the period is positive.
pub remaining_calls-acquire :
    (now : ℕ) (s : RateLimiter)
    → 0 < s.period
    → (((acquire now s).0 ≡ false) ↔ ((remaining_calls now s).0 ≡ 0))
      × ((remaining_calls now (acquire now s).1).0 ≡ (remaining_calls now s).0 - 1)
unfolding acquire remaining_calls
remaining_calls-acquire now s positive =
    let times = recent now s.period s.call_times in
    elim (Bool-cases (leb s.calls (length times))) [
      | inl full ↦
          rw (full, recent-recent now now s.period s.call_times (omega arith))
            ((λ h. ground (arith, full), λ h. refl), ground (arith, full))
      | inr free ↦
          rw (free, recent_now now s.period s.call_times positive)
            ((λ h. cc, λ h. absurd (ground (arith, free, h))), omega arith)
    ]

minimum-le : (t : ℕ) (ts : List ℕ) → minimum t ts ≤ t
unfolding minimum
minimum-le t [] = omega arith
minimum-le t (u ∷ us) = ground (arith, minimum-le u us)

-- A time that the list has and that is not recent makes the recent ones fewer.
recent-minimum :
    (period at t : ℕ) (ts : List ℕ)
    → minimum t ts + period ≤ at
    → length (recent at period (t ∷ ts)) ≤ length ts
unfolding recent keep_if minimum
recent-minimum period at t [] e = ground (arith, e)
recent-minimum period at t (u ∷ us) e = elim (Bool-cases (ltb (minimum u us) t)) [
  | inl y ↦ ground (arith, recent-minimum period at u us (ground (arith, y, e)))
  | inr n ↦
      let past : t + period ≤ at = ground (arith, n, e) in
      ground (arith, past, length-keep_if-le (λ x. ltb at (x + period)) (u ∷ us))
]

abbrev pub limiter : (calls period : ℕ) → List ℕ → RateLimiter
limiter calls period times = record { calls = calls; period = period; call_times = times }

acquire-limiter :
    (now calls period : ℕ) (times : List ℕ)
    → length (recent now period times) < calls
    → (acquire now (limiter calls period times)).0 ≡ true
unfolding acquire
acquire-limiter now calls period times free = ground (arith, free)

-- The sum of floats, and how far below the exact sum it can be.
module _ (add : ℕ → ℕ → ℕ) (ε : ℕ) (close : (t p : ℕ) → t + p ≤ add t p + ε) where
  after_recent :
      (now at calls period first : ℕ) (others times : List ℕ)
      → recent now period (first ∷ others) ≡ times
      → 0 < calls
      → length times ≤ calls
      → let s = limiter calls period (first ∷ others) in
        (reset_time add now s).0 + ε ≤ at → (acquire at (reset_time add now s).1).0 ≡ true
  unfolding reset_time recent keep_if
  after_recent now at calls period first others [] e positive within =
      rw (reset_time, e) (λ late. acquire-limiter at calls period [] positive)
  after_recent now at calls period first others (t ∷ ts) e positive within =
      rw (reset_time, e)
        (λ late. acquire-limiter at calls period (t ∷ ts) (
          let past : minimum t ts + period ≤ at =
            omega (arith, close (minimum t ts) period, late) in
          omega (arith, recent-minimum period at t ts past, within)))

  -- An attempt at the moment that `reset_time` gives, or later, succeeds, if the limiter allows any
  -- calls and holds no more than it allows, and if the moment is late enough to make up for the
  -- rounding: the sum of floats is at most `ε` below the exact sum, and the attempt is at least `ε`
  -- after the moment. Where sums are exact, `ε` is 0.
  pub acquire-reset_time :
      (now at calls period : ℕ) (times : List ℕ)
      → 0 < calls
      → length times ≤ calls
      → let s = limiter calls period times in
        (reset_time add now s).0 + ε ≤ at → (acquire at (reset_time add now s).1).0 ≡ true
  unfolding reset_time recent keep_if
  acquire-reset_time now at calls period [] positive within =
      λ late. acquire-limiter at calls period [] positive
  acquire-reset_time now at calls period (first ∷ others) positive within =
      after_recent now at calls period first others (recent now period (first ∷ others)) refl
        positive
        (omega (arith, within, length-keep_if-le (λ t. ltb now (t + period)) (first ∷ others)))
