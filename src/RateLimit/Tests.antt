-- ===== src/RateLimit/Tests.antt =====
-- Runs of a rate limiter, and its theorems at concrete inputs.
use eventful.Base.{
  true, false, ℕ, ◌-◌, ◌+◌, ◌≤◌, none, List, [], ◌∷◌, ◌≡◌, ◌↔◌, refl, arith, keep_if,
}
use eventful.RateLimit.{new_limiter, recent, acquire, wrapper, remaining_calls, reset_time, minimum}
use eventful.RateLimit.Window.{admitted, count, count-admitted-le}
use eventful.RateLimit.Quota.{limiter, remaining_calls-acquire, acquire-reset_time}

abbrev attempts : List ℕ
attempts = 0 ∷ 1 ∷ 2 ∷ 10 ∷ 11 ∷ 12 ∷ []

admitted_run : admitted attempts (new_limiter 2 10) ≡ 0 ∷ 1 ∷ 10 ∷ 11 ∷ []
unfolding admitted acquire recent keep_if
admitted_run = refl

wrapper_run : (wrapper (λ (n : ℕ). n - 1) 4 20 (limiter 2 10 (15 ∷ 16 ∷ []))).0 ≡ none
unfolding wrapper recent keep_if
wrapper_run = refl

count-admitted-le_example : count 1 10 (admitted attempts (new_limiter 2 10)) ≤ 2
count-admitted-le_example =
    count-admitted-le 2 10 0 attempts
      (
        ground arith,
        (ground arith, (ground arith, (ground arith, (ground arith, (ground arith, tt))))),
      )
      1

remaining_calls-acquire_example :
    (((acquire 7 (new_limiter 2 10)).0 ≡ false) ↔ ((remaining_calls 7 (new_limiter 2 10)).0 ≡ 0))
    × ((remaining_calls 7 (acquire 7 (new_limiter 2 10)).1).0
        ≡ (remaining_calls 7 (new_limiter 2 10)).0 - 1)
remaining_calls-acquire_example = remaining_calls-acquire 7 (new_limiter 2 10) (omega arith)

-- Sums that are rounded down by a tick.
abbrev low_sum : ℕ → ℕ → ℕ
low_sum t p = (t + p) - 1

low_sum-close : (t p : ℕ) → t + p ≤ low_sum t p + 1
low_sum-close t p = omega arith

late_enough : let s = limiter 2 10 (15 ∷ 16 ∷ []) in (reset_time low_sum 20 s).0 + 1 ≤ 25
unfolding reset_time recent keep_if minimum
late_enough = omega arith

-- An attempt at the rounded moment itself is refused.
refused_at_reset :
    let s = limiter 2 10 (15 ∷ 16 ∷ []) in
    (acquire (reset_time low_sum 20 s).0 (reset_time low_sum 20 s).1).0 ≡ false
unfolding reset_time acquire recent keep_if minimum
refused_at_reset = refl

acquire-reset_time_example :
    let s = limiter 2 10 (15 ∷ 16 ∷ []) in (acquire 25 (reset_time low_sum 20 s).1).0 ≡ true
acquire-reset_time_example =
    acquire-reset_time low_sum 1 low_sum-close 20 25 2 10 (15 ∷ 16 ∷ []) (omega arith) (omega arith)
      late_enough
