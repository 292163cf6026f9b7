-- ===== src/RateLimit/Window.antt =====
-- How many calls a rate limiter admits in any window of time.
use eventful.Base.{
  Bool, true, false, ℕ, ◌+◌, ◌≤◌, ◌<◌, List, [], ◌∷◌, ◌++◌, ◌≡◌, refl, sym, ◌∙◌, ap, arith, ltb,
  leb, if◌then◌else◌, keep_if, keep_if-append, length, Bool-cases, inl, inr, ◌&&◌,
}
use mathlib.Core.List.{append-nil, append_assoc}
use eventful.RateLimit.{RateLimiter, new_limiter, recent, acquire}

-- The times at which `acquire` succeeds, of the times at which it is called.
unfoldable pub admitted : List ℕ → RateLimiter → List ℕ
unfolding acquire
admitted [] s = []
admitted (now ∷ times) s =
    let (success, s') = acquire now s in
    let rest = admitted times s' in if success then now ∷ rest else rest

-- The clock does not go back.
abbrev pub IsClock : ℕ → List ℕ → Type 0
IsClock now [] = Unit
IsClock now (t ∷ ts) = (now ≤ t) × IsClock t ts

unfoldable pub in_window : (start period : ℕ) → ℕ → Bool
in_window start period t = leb start t && ltb t (start + period)

-- How many of the times lie in the window.
abbrev pub count : (start period : ℕ) → List ℕ → ℕ
count start period ts = length (keep_if (in_window start period) ts)

count-append :
    (start period : ℕ) (xs ys : List ℕ)
    → count start period (xs ++ ys) ≡ count start period xs + count start period ys
unfolding keep_if
count-append start period [] ys = omega arith
count-append start period (x ∷ xs) ys = ground (arith, count-append start period xs ys)

-- A window that reaches beyond `now` has only recent times.
count-recent :
    (start period now : ℕ) (ts : List ℕ)
    → in_window start period now ≡ true
    → count start period ts ≤ length (recent now period ts)
unfolding recent keep_if in_window
count-recent start period now [] h = omega arith
count-recent start period now (t ∷ ts) h = ground (arith, count-recent start period now ts h)

pub recent-recent :
    (now later period : ℕ) (ts : List ℕ)
    → now ≤ later
    → recent later period (recent now period ts) ≡ recent later period ts
unfolding recent keep_if
recent-recent now later period [] h = refl
recent-recent now later period (t ∷ ts) h = ground (arith, recent-recent now later period ts h)

pub recent-append :
    (now period : ℕ) (xs ys : List ℕ)
    → recent now period (xs ++ ys) ≡ recent now period xs ++ recent now period ys
unfolding recent
recent-append now period xs ys = keep_if-append _ xs ys

module _ (s : RateLimiter) where
  -- The limiter's list has the recent ones of all admitted times `past`, now and later.
  Remembers : ℕ → List ℕ → List ℕ → Type 0
  Remembers now past times =
      (later : ℕ) → now ≤ later → recent later s.period past ≡ recent later s.period times

  Within : List ℕ → Type 0
  Within past = (start : ℕ) → count start s.period past ≤ s.calls

  Remembers-recent :
      (now t : ℕ) (past times : List ℕ)
      → now ≤ t
      → Remembers now past times
      → Remembers t past (recent t s.period times)
  unfolding Remembers
  Remembers-recent now t past times le h later after =
      h later (omega (arith, le, after)) ∙ sym (recent-recent t later s.period times after)

  Remembers-append :
      (t : ℕ) (past times : List ℕ)
      → Remembers t past times
      → Remembers t (past ++ t ∷ []) (times ++ t ∷ [])
  unfolding Remembers
  Remembers-append t past times h later after =
      recent-append later s.period past (t ∷ [])
      ∙ ap (λ x. x ++ recent later s.period (t ∷ [])) (h later after)
      ∙ sym (recent-append later s.period times (t ∷ []))

  count-admit :
      (t start : ℕ) (past : List ℕ)
      → length (recent t s.period past) < s.calls
      → count start s.period past ≤ s.calls
      → count start s.period (past ++ t ∷ []) ≤ s.calls
  unfolding keep_if
  count-admit t start past free within = elim (Bool-cases (in_window start s.period t)) [
    | inl y ↦ rw (count-append, y) (omega (arith, free, count-recent start s.period t past y))
    | inr n ↦ rw (count-append, n) (omega (arith, within))
  ]

room :
    (s : RateLimiter) (now t : ℕ) (past times : List ℕ)
    → leb s.calls (length (recent t s.period times)) ≡ false
    → now ≤ t
    → Remembers s now past times
    → length (recent t s.period past) < s.calls
unfolding Remembers
room s now t past times free le h = rw (h t le) (ground arith)

Within-admitted :
    (s : RateLimiter) (now : ℕ) (past times : List ℕ)
    → IsClock now times
    → Remembers s now past s.call_times
    → Within s past
    → Within s (past ++ admitted times s)
unfolding admitted Within Remembers
Within-admitted s now past [] clock h within start = rw append-nil (within start)
Within-admitted s now past (t ∷ ts) clock h within start =
    let times = recent t s.period s.call_times in
    let h' = Remembers-recent s now t past s.call_times clock.0 h in
    elim (Bool-cases (leb s.calls (length times))) [
      | inl full ↦
          rw full
            (Within-admitted (record s { call_times = times }) t past ts clock.1 h' within start)
      | inr free ↦
          rw (free, ← append_assoc past (t ∷ []) _)
            (Within-admitted (record s { call_times = times ++ t ∷ [] }) t (past ++ t ∷ []) ts
              clock.1 (Remembers-append s t past times h')
              (λ start.
                count-admit s t start past (room s now t past s.call_times free clock.0 h)
                  (within start))
              start)
    ]

-- A rate limiter admits at most `calls` calls in any window of length `period`, whenever the window
-- starts and however the attempts fall, if the clock does not go back.
pub count-admitted-le :
    (calls period now : ℕ) (times : List ℕ)
    → IsClock now times
    → (start : ℕ) → count start period (admitted times (new_limiter calls period)) ≤ calls
unfolding Within Remembers keep_if
count-admitted-le calls period now times clock start =
    Within-admitted (new_limiter calls period) now [] times clock (λ later after. refl)
      (λ start. omega arith) start
