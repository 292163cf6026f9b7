-- ===== src/RateLimit.antt =====
-- src/eventful/utilities/rate_limit.py: a sliding window of call times. Times are floats in the source
-- and ticks here, multiples of a power of two that is small enough for every time that occurs. The
-- difference of two floats that lie within a factor of two is exact, as the times of a clock do, so
-- `current_time - t < period` is `current_time < t + period`, written without the subtraction, which
-- stops at 0 on ℕ. The sum in `reset_time` is rounded, and is a parameter. The lock makes each
-- operation one step.
pub mod Window
pub mod Quota
pub mod Tests
use eventful.Base.{
  Bool, true, false, ℕ, ◌+◌, ◌-◌, Option, none, some, List, [], ◌∷◌, ◌++◌, ltb, leb, if◌then◌else◌,
  keep_if, length,
}

-- The class, and the closure of the decorator, which has the same three variables.
pub record RateLimiter : Type 0 where
  pub calls : ℕ
  pub period : ℕ
  pub call_times : List ℕ

abbrev pub new_limiter : (calls period : ℕ) → RateLimiter
new_limiter calls period = record { calls = calls; period = period; call_times = [] }

-- `[t for t in self.call_times if current_time - t < self.period]`
unfoldable pub recent : (current_time : ℕ) → (period : ℕ) → List ℕ → List ℕ
unfolding keep_if
recent current_time period times = keep_if (λ t. ltb current_time (t + period)) times

-- `acquire`
unfoldable pub acquire : (current_time : ℕ) → RateLimiter → Bool × RateLimiter
unfolding recent
acquire current_time s =
    let times = recent current_time s.period s.call_times in
    if leb s.calls (length times)
    then (false, record s { call_times = times })
    else (true, record s { call_times = times ++ current_time ∷ [] })

-- The wrapper around a listener, of the decorator and of the class: `none` is a call that is refused.
unfoldable pub wrapper {ℓ κ} :
    {E : Type ℓ} {A : Type κ}
    → (E → A)
    → E
    → (current_time : ℕ) → RateLimiter
    → Option A × RateLimiter
unfolding recent
wrapper func event current_time s =
    let times = recent current_time s.period s.call_times in
    if leb s.calls (length times)
    then (none, record s { call_times = times })
    else (some (func event), record s { call_times = times ++ current_time ∷ [] })

-- `remaining_calls`; subtraction on ℕ is the `max(0, ...)`.
unfoldable pub remaining_calls : (current_time : ℕ) → RateLimiter → ℕ × RateLimiter
unfolding recent
remaining_calls current_time s =
    let times = recent current_time s.period s.call_times in
    (s.calls - length times, record s { call_times = times })

-- `min` of a list that has this first element
unfoldable pub minimum : ℕ → List ℕ → ℕ
minimum t [] = t
minimum t (u ∷ us) = let rest = minimum u us in if ltb rest t then rest else t

-- `reset_time`; `add` is the sum of two floats, which is rounded.
unfoldable pub reset_time : (add : ℕ → ℕ → ℕ) (current_time : ℕ) → RateLimiter → ℕ × RateLimiter
unfolding recent minimum
reset_time add current_time s = elim s.call_times [
  | [] ↦ (current_time, s)
  | first ∷ others ↦
      let times = recent current_time s.period (first ∷ others) in
      elim times [
        | [] ↦ (current_time, record s { call_times = [] })
        | t ∷ ts ↦ (add (minimum t ts) s.period, record s { call_times = t ∷ ts })
      ]
]
