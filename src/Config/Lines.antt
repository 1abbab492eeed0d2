-- ===== src/Config/Lines.antt =====
-- internal/config/config.go: which line a parse error names, and which lines do not matter.
use pingmon.Prelude.{
  ℕ, suc, ◌+◌, ◌<◌, List, [], ◌∷◌, ◌++◌, Option, none, some, ◌≡◌, refl, ap, arith, leb, length,
  Bool-cases, inl, inr, false, ◌⊎◌,
}
use pingmon.Prelude.Text.{Text, byte_len}
use pingmon.Config.Defs.{Config}
use pingmon.Config.Values.{Reason, Outcome, ok, err, strip_comment}
use pingmon.Config.Toml.{
  Parser, top, step_line, Parsed, done, at_line, scan_error, scan_limit, run_lines, scan_lines,
  parse_supervisor_toml,
}

pub Outcome-cases :
    {A : Type 0} (o : Outcome A) → ((a : A) × (o ≡ ok a)) ⊎ ((r : Reason) × (o ≡ err r))
Outcome-cases (ok a) = inl (a, refl)
Outcome-cases (err r) = inr (r, refl)

abbrev pub start : Config → Parser
start cfg = record { section = top; current_target = none; cfg = cfg }

module _ {P : Type 0} (step : P → Text → Outcome P) where
  -- `lines` splits at the line of number `n`: the lines before it were taken, and it was refused.
  pub record FailsAt (k : ℕ) (p : P) (lines : List Text) (n : ℕ) (r : Reason) : Type 0 where
    pub before : List Text
    pub line : Text
    pub after : List Text
    pub last : P
    pub splits : lines ≡ before ++ line ∷ after
    pub number_is : n ≡ k + length before + 1
    pub taken : run_lines step k p before ≡ done last
    pub refused : step last (strip_comment line) ≡ err r

  FailsAt-cons :
      (k : ℕ) (p q : P) (line : Text) (lines : List Text) {n : ℕ} {r : Reason}
      → leb scan_limit (byte_len line) ≡ false
      → step p (strip_comment line) ≡ ok q
      → FailsAt (suc k) q lines n r
      → FailsAt k p (line ∷ lines) n r
  unfolding run_lines
  FailsAt-cons k p q line lines fits s f = record {
    before = line ∷ f.before;
    line = f.line;
    after = f.after;
    last = f.last;
    splits = ap (◌∷◌ line) f.splits;
    number_is = omega (arith, f.number_is);
    taken = ground (arith, f.taken);
    refused = f.refused;
  }

  pub run_lines-FailsAt :
      (k : ℕ) (p : P) (lines : List Text) {n : ℕ} {r : Reason}
      → run_lines step k p lines ≡ at_line n r
      → FailsAt k p lines n r
  unfolding run_lines
  run_lines-FailsAt k p [] h = cc
  run_lines-FailsAt k p (line ∷ lines) {n} {r} h =
      elim (Bool-cases (leb scan_limit (byte_len line))) [
        | inl long ↦ absurd (ground arith)
        | inr fits ↦ elim (Outcome-cases (step p (strip_comment line))) [
          | inl (q, s) ↦
              FailsAt-cons k p q line lines fits s
                (run_lines-FailsAt (suc k) q lines (ground arith))
          | inr (r', s) ↦ record {
            before = [];
            line = line;
            after = lines;
            last = p;
            splits = refl;
            number_is = ground arith;
            taken = refl;
            refused = ground arith;
          }
        ]
      ]

  -- The result, with the place of an error forgotten.
  abbrev pub config_of : Parsed P → Option P
  config_of (done a) = some a
  config_of (at_line n r) = none
  config_of (scan_error r) = none

  pub config_of-renumber :
      (k j : ℕ) (p : P) (lines : List Text)
      → config_of (run_lines step k p lines) ≡ config_of (run_lines step j p lines)
  unfolding run_lines
  config_of-renumber k j p [] = refl
  config_of-renumber k j p (line ∷ lines) = elim (Outcome-cases (step p (strip_comment line))) [
    | inl (q, s) ↦ ground (arith, config_of-renumber (suc k) (suc j) q lines)
    | inr (r, s) ↦ ground arith
  ]

  pub config_of-skip :
      (k : ℕ) (p : P) (a b : List Text) (line : Text)
      → ((q : P) → step q (strip_comment line) ≡ ok q)
      → byte_len line < scan_limit
      → config_of (run_lines step k p (a ++ line ∷ b)) ≡ config_of (run_lines step k p (a ++ b))
  unfolding run_lines
  config_of-skip k p [] b line skips fits =
      ground (arith, skips p, config_of-renumber (suc k) k p b)
  config_of-skip k p (l ∷ a) b line skips fits = elim (Outcome-cases (step p (strip_comment l))) [
    | inl (q, s) ↦ ground (arith, config_of-skip (suc k) q a b line skips fits)
    | inr (r, s) ↦ ground arith
  ]

-- An error names the first line that is refused: all lines before it were taken, from the state that
-- they lead to the line itself is refused for the reason given, and the number counts from one.
pub parse_supervisor_toml-FailsAt :
    (input : Text) (cfg : Config) (n : ℕ) (r : Reason)
    → parse_supervisor_toml input cfg ≡ at_line n r
    → FailsAt step_line 0 (start cfg) (scan_lines input) n r
unfolding parse_supervisor_toml
parse_supervisor_toml-FailsAt input cfg n r h =
    run_lines-FailsAt step_line 0 (start cfg) (scan_lines input) (ground arith)

-- A line of blanks or comment may stand anywhere, within the scanner's limit: the state after the
-- lines is the same as without it, and is refused exactly when it was.
pub run_lines_comment :
    (p : Parser) (a b : List Text) (line : Text)
    → strip_comment line ≡ []
    → byte_len line < scan_limit
    → config_of step_line (run_lines step_line 0 p (a ++ line ∷ b))
      ≡ config_of step_line (run_lines step_line 0 p (a ++ b))
unfolding step_line
run_lines_comment p a b line blank fits =
    config_of-skip step_line 0 p a b line (λ q. ground arith) fits
