-- ===== src/Storage/Stamps.antt =====
-- internal/storage: instants are stored and compared as RFC3339Nano texts. The texts of two instants
-- of the years 1 to 9999 in UTC agree in width up to the seconds, and differ from there by the
-- fraction, whose trailing zeros Go leaves out, and a final `Z`.
use pingmon.Prelude.{
  ℕ, zero, suc, ◌+◌, ◌/◌, ◌%◌, ◌^◌, ◌<◌, Bool, true, false, ◌&&◌, ◌||◌, [], ◌∷◌, ◌++◌, ◌≡◌, ◌≢◌,
  ◌↔◌, arith, ltb, ◌==◌, if◌then◌else◌,
}
use pingmon.Prelude.Text.{Text, trim_right}
use pingmon.Model.{Time, second}

-- The last `k` decimal digits of a number.
digits : ℕ → ℕ → Text
digits zero n = []
digits (suc k) n = (b'0' + n / 10 ^ k % 10) ∷ digits k n

-- What follows the seconds in the text of an instant.
unfoldable pub suffix : Time → Text
unfolding digits trim_right
suffix t =
    if t % second == 0
    then b'Z' ∷ []
    else b'.' ∷ (trim_right (λ c. c == b'0') (digits 9 (t % second)) ++ b'Z' ∷ [])

-- The order of texts in SQLite, byte by byte.
unfoldable pub text_lt : Text → Text → Bool
text_lt [] [] = false
text_lt [] (d ∷ t) = true
text_lt (c ∷ s) [] = false
text_lt (c ∷ s) (d ∷ t) =
    let rest = text_lt s t in if ltb c d then true else if c == d then rest else false

-- `checked_at < ?`, of the texts of two instants.
unfoldable pub stamp_lt : Time → Time → Bool
unfolding suffix text_lt
stamp_lt a b =
    ltb (a / second) (b / second) || ((a / second) == (b / second) && text_lt (suffix a) (suffix b))

pub stamp_lt_whole :
    (a b : Time) → a % second ≡ 0 → b % second ≡ 0 → (stamp_lt a b ≡ true) ↔ (a < b)
unfolding stamp_lt
stamp_lt_whole a b h k = ground arith

pub stamp_lt_earlier : (a b : Time) → a / second < b / second → stamp_lt a b ≡ true
unfolding stamp_lt
stamp_lt_earlier a b h = ground arith

pub stamp_lt_later : (a b : Time) → b / second < a / second → stamp_lt a b ≡ false
unfolding stamp_lt
stamp_lt_later a b h = ground arith

-- An instant with a fraction of a second sorts before the whole second that it follows.
pub stamp_lt_fraction :
    (a b : Time)
    → b % second ≡ 0
    → a / second ≡ b / second
    → a % second ≢ 0
    → (stamp_lt a b ≡ true) × (b < a)
unfolding stamp_lt
stamp_lt_fraction a b whole same fraction = (ground arith, ground arith)
