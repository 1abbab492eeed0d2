-- ===== src/Prelude/Decimal.antt =====
-- `strconv.Itoa` of Go, and that `strconv.Atoi` reads it back.
use native.Mathlib.Numerals.{unary_clauses}
use Prim.Native.Nat.{ℕ, zero, suc, ◌+◌, ◌-◌, ◌*◌, ◌/◌, ◌%◌, ◌^◌, ◌≤◌, ◌<◌}
use mathlib.Core.Path.{◌≡◌, refl}
use mathlib.Core.Logic.{inl, inr}
use mathlib.Core.Bool.{false}
use mathlib.Core.List.{[], ◌∷◌, ◌++◌}
use mathlib.Core.Option.{none, some}
use native.Mathlib.Omega.{arith}
use pingmon.Prelude.Tests.{ltb, if◌then◌else◌, Bool-cases}
use pingmon.Prelude.Int.{ℤ, pos, negsuc}
use pingmon.Prelude.Text.{Text, is_empty, digits_value, magnitude, in_range, atoi}

-- `strconv.Itoa` on an int64, whose magnitude has at most 19 digits: the digits, the last ones first
-- to be split off.
unfoldable digits : ℕ → ℕ → Text
digits zero n = []
digits (suc fuel) n =
    let rest = digits fuel (n / 10) in
    if ltb n 10 then (0x30 + n) ∷ [] else rest ++ (0x30 + n % 10) ∷ []

unfoldable pub itoa : ℤ → Text
unfolding digits
itoa (pos n) = digits 19 n
itoa (negsuc n) = 0x2d ∷ digits 19 (suc n)

digits_value-snoc :
    (acc d : ℕ) (s : Text)
    → d < 10
    → digits_value acc (s ++ (0x30 + d) ∷ [])
      ≡ elim (digits_value acc s) [ none ↦ none | some v ↦ some (v * 10 + d) ]
unfolding digits_value
digits_value-snoc acc d [] h = ground arith
digits_value-snoc acc d (c ∷ s) h = ground (arith, digits_value-snoc (acc * 10 + (c - 0x30)) d s h)

digits_value-digits : (fuel n : ℕ) → n < 10 ^ fuel → digits_value 0 (digits fuel n) ≡ some n
unfolding digits digits_value
digits_value-digits zero n h = ground arith
digits_value-digits (suc fuel) n h = elim (Bool-cases (ltb n 10)) [
  | inl small ↦ ground arith
  | inr large ↦
      let h' : n < 10 ^ fuel * 10 = simp unary_clauses at h in
      let shorter : n / 10 < 10 ^ fuel = omega arith in
      ground (
        arith,
        digits_value-digits fuel (n / 10) shorter,
        digits_value-snoc 0 (n % 10) (digits fuel (n / 10)),
      )
]

-- The first character is no sign.
Starts : Text → Type 0
Starts [] = Unit
Starts (c ∷ s) = 0x30 ≤ c

append-Starts : (s t : Text) → Starts s → Starts t → Starts (s ++ t)
unfolding Starts
append-Starts [] t h k = k
append-Starts (c ∷ s) t h k = h

digits-Starts : (fuel n : ℕ) → Starts (digits fuel n)
unfolding digits Starts
digits-Starts zero n = tt
digits-Starts (suc fuel) n = elim (Bool-cases (ltb n 10)) [
  | inl small ↦ rw small (omega arith)
  | inr large ↦ rw large (
      append-Starts (digits fuel (n / 10)) ((0x30 + n % 10) ∷ []) (digits-Starts fuel (n / 10))
        (omega arith))
]

atoi_unsigned :
    (s : Text) (n : ℕ)
    → Starts s
    → is_empty s ≡ false
    → digits_value 0 s ≡ some n
    → n < 2 ^ 63
    → atoi s ≡ some (pos n)
unfolding atoi magnitude in_range Starts
atoi_unsigned [] n h k e b = absurd (ground arith)
atoi_unsigned (c ∷ s) n h k e b = ground (arith, e)

append-nonempty : (s : Text) (c : ℕ) → is_empty (s ++ c ∷ []) ≡ false
append-nonempty [] c = refl
append-nonempty (d ∷ s) c = refl

digits-nonempty : (fuel n : ℕ) → is_empty (digits (suc fuel) n) ≡ false
unfolding digits
digits-nonempty fuel n = ground (arith, append-nonempty (digits fuel (n / 10)) (0x30 + n % 10))

-- An int64 that is not negative is read back from its decimal text.
pub atoi-itoa : (n : ℕ) → n < 2 ^ 63 → atoi (itoa (pos n)) ≡ some (pos n)
unfolding itoa
atoi-itoa n h =
    atoi_unsigned (digits 19 n) n (digits-Starts 19 n) (digits-nonempty 18 n)
      (digits_value-digits 19 n (omega arith)) h
