-- ===== src/Agent/Backoff.antt =====
-- cmd/agent/main.go: `retrySeconds`. Its product is an int64 that wraps; `/` and `%` of Go truncate
-- towards zero, and here only a positive jitter is used.
use native.Mathlib.Nat.{mod-lt}
use pingmon.Prelude.{
  ap, ◌∙◌, Bool-cases, inl, inr, ℕ, zero, suc, ◌+◌, ◌-◌, ◌*◌, ◌/◌, ◌%◌, ◌^◌, ◌≤◌, ◌<◌, ◌≡◌, arith,
  ltb, if◌then◌else◌,
}
use pingmon.Prelude.Int.{ℤ, pos, pos_part, ◌+ℤ◌, ◌-ℤ◌, ◌*ℤ◌, leb_ℤ, ltb_ℤ, wrap64, wrap64_pos}

-- The jitter, for a number of seconds and what time.Now().UnixNano() returns.
unfoldable pub jitter_seconds : ℤ → ℕ → ℤ
jitter_seconds seconds nanos =
    let jitter = pos_part seconds / 5 in
    let jittered =
      if ltb 0 jitter then seconds +ℤ pos (nanos % (jitter * 2 + 1)) -ℤ pos jitter else seconds in
    if ltb_ℤ jittered (pos 1) then pos 1 else jittered

-- The shift is at most 4.
unfoldable pub shift_for : ℤ → ℕ
shift_for failures = let shift = pos_part (failures -ℤ pos 1) in if ltb 4 shift then 4 else shift

-- `1 << shift`.
unfoldable pub backoff_factor : ℤ → ℕ
unfolding shift_for
backoff_factor failures = 2 ^ shift_for failures

unfoldable pub retry_seconds : ℤ → ℤ → ℕ → ℤ
retry_seconds base failures nanos =
    let base' = if leb_ℤ base (pos 0) then pos 30 else base in
    let seconds = wrap64 (base' *ℤ pos (backoff_factor failures)) in
    if ltb_ℤ failures (pos 1)
    then base'
    else jitter_seconds (if ltb_ℤ (pos 300) seconds then pos 300 else seconds) nanos

-- The interval before the jitter: the base, doubled with each further failure up to sixteen times,
-- and never above 300 seconds.
abbrev pub doubled : ℕ → ℕ → ℕ
doubled base zero = base
doubled base (suc zero) = base
doubled base (suc (suc zero)) = base * 2
doubled base (suc (suc (suc zero))) = base * 4
doubled base (suc (suc (suc (suc zero)))) = base * 8
doubled base (suc (suc (suc (suc (suc n))))) = base * 16

abbrev pub backoff : ℕ → ℕ → ℕ
backoff base failures = if ltb 300 (doubled base failures) then 300 else doubled base failures

-- A product that fits does not wrap.
seconds_are : (base k : ℕ) → base < 2 ^ 59 → k ≤ 16 → wrap64 (pos base *ℤ pos k) ≡ pos (base * k)
unfolding ◌*ℤ◌
seconds_are base k h j =
    let fits : base * k < 2 ^ 63 = grind arith in
    let product : pos base *ℤ pos k ≡ pos (base * k) = ground arith in
    rw product (wrap64_pos (base * k) fits)

shift_for_many : (n : ℕ) → shift_for (pos (suc (suc (suc (suc (suc n)))))) ≡ 4
unfolding shift_for ◌-ℤ◌
shift_for_many n = ground arith

doubled_lem :
    (base n : ℕ)
    → base < 2 ^ 59
    → wrap64 (pos base *ℤ pos (backoff_factor (pos (suc n)))) ≡ pos (doubled base (suc n))
unfolding backoff_factor ◌-ℤ◌
doubled_lem base zero h = seconds_are base 1 h (omega arith) ∙ ap pos (omega arith)
doubled_lem base (suc zero) h = seconds_are base 2 h (omega arith)
doubled_lem base (suc (suc zero)) h = seconds_are base 4 h (omega arith)
doubled_lem base (suc (suc (suc zero))) h = seconds_are base 8 h (omega arith)
doubled_lem base (suc (suc (suc (suc n)))) h =
    rw (shift_for_many n) (seconds_are base 16 h (omega arith))

jitter_bounds :
    (s nanos : ℕ)
    → 0 < s
    → (r : ℕ) × (jitter_seconds (pos s) nanos ≡ pos r) × (s ≤ r + s / 5) × (r ≤ s + s / 5) × (0 < r)
unfolding jitter_seconds ◌+ℤ◌ ◌-ℤ◌
jitter_bounds s nanos h =
    let j = s / 5 in
    let k = nanos % (j * 2 + 1) in
    let below : k < j * 2 + 1 = mod-lt nanos (omega arith) in
    elim (Bool-cases (ltb 0 j)) [
      | inr none' ↦ (s, ground (arith, none'), omega arith, omega arith, h)
      | inl some' ↦ (
        s + k - j,
        ground (arith, some', below),
        omega (arith, below),
        omega (arith, below),
        ground (arith, some', below),
      )
    ]

doubled_pos : (base n : ℕ) → 0 < base → 0 < doubled base n
doubled_pos base zero h = h
doubled_pos base (suc zero) h = h
doubled_pos base (suc (suc zero)) h = omega arith
doubled_pos base (suc (suc (suc zero))) h = omega arith
doubled_pos base (suc (suc (suc (suc zero)))) h = omega arith
doubled_pos base (suc (suc (suc (suc (suc n))))) h = omega arith

retry_seconds-jitter :
    (base n nanos : ℕ)
    → 0 < base
    → base < 2 ^ 59
    → retry_seconds (pos base) (pos (suc n)) nanos
      ≡ jitter_seconds (pos (backoff base (suc n))) nanos
unfolding retry_seconds
retry_seconds-jitter base n nanos positive small =
    elim (Bool-cases (ltb 300 (doubled base (suc n)))) [
      | inl large ↦ ground (arith, doubled_lem base n small, large)
      | inr fits ↦ ground (arith, doubled_lem base n small, fits)
    ]

-- After `n + 1` failures in a row, with a positive base interval below 2^59 seconds, the agent waits
-- at least a second and within a fifth of the interval that doubles up to sixteen times the base and
-- 300 seconds at most, whatever the clock reads.
pub retry_seconds_bounds :
    (base n nanos : ℕ)
    → 0 < base
    → base < 2 ^ 59
    → let s = backoff base (suc n) in
      (r : ℕ) × (retry_seconds (pos base) (pos (suc n)) nanos ≡ pos r)
      × (s ≤ r + s / 5)
      × (r ≤ s + s / 5)
      × (0 < r)
retry_seconds_bounds base n nanos positive small =
    let s = backoff base (suc n) in
    let some_wait : 0 < s = ground (arith, doubled_pos base (suc n) positive) in
    rw (retry_seconds-jitter base n nanos positive small) (jitter_bounds s nanos some_wait)
