-- ===== src/Prelude/Trim.antt =====
-- Go's `strings.TrimSpace`: trimming twice is trimming once.
use mathlib.Core.Path.{◌≡◌, refl}
use mathlib.Core.Logic.{◌⊎◌, inl, inr}
use mathlib.Core.Bool.{Bool, false, ◌&&◌}
use mathlib.Core.List.{[], ◌∷◌}
use native.Mathlib.Omega.{arith}
use Prim.Native.Nat.{ℕ}
use pingmon.Prelude.Tests.{Bool-cases}
use pingmon.Prelude.Text.{Text, is_empty, is_space, trim_left, trim_right, trim, trim_space}

module _ (p : ℕ → Bool) where
  trim_left-head :
      (s : Text)
      → (trim_left p s ≡ []) ⊎ ((c : ℕ) × (t : Text) × (trim_left p s ≡ c ∷ t) × (p c ≡ false))
  unfolding trim_left
  trim_left-head [] = inl refl
  trim_left-head (c ∷ s) = elim (Bool-cases (p c)) [
    | inl space ↦ rw space (trim_left-head s)
    | inr other ↦ rw other (inr (c, s, refl, other))
  ]

  trim_right-trim_right : (s : Text) → trim_right p (trim_right p s) ≡ trim_right p s
  unfolding trim_right
  trim_right-trim_right [] = refl
  trim_right-trim_right (c ∷ s) = elim (Bool-cases (p c && is_empty (trim_right p s))) [
    | inl gone ↦ rw gone refl
    | inr kept ↦ ground (arith, trim_right-trim_right s)
  ]

  trim-trim : (s : Text) → trim p (trim p s) ≡ trim p s
  unfolding trim trim_left trim_right
  trim-trim s = elim (trim_left-head s) [
    | inl nothing ↦ ground (arith, nothing)
    | inr (c, t, head, other) ↦ ground (arith, head, other, trim_right-trim_right t)
  ]

pub trim_space-trim_space : (s : Text) → trim_space (trim_space s) ≡ trim_space s
unfolding trim_space
trim_space-trim_space s = trim-trim is_space s
