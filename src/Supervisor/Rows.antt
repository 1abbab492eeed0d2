-- ===== src/Supervisor/Rows.antt =====
-- cmd/supervisor/dashboard_cache.go: a result as a row of JSON text, by strconv.AppendQuote and
-- AppendInt. `is_print` is strconv.IsPrint, and the decimal text of a float64 and the RFC3339Nano text
-- of an instant are parameters.
use pingmon.Prelude.{
  ℕ, zero, suc, ◌+◌, ◌-◌, ◌/◌, ◌%◌, Bool, ◌||◌, List, [], ◌∷◌, ◌++◌, ltb, ◌==◌, if◌then◌else◌,
}
use pingmon.Prelude.Text.{Text, codes}
use pingmon.Prelude.Decimal.{itoa}
use pingmon.Model.{Time, Result}

-- What the rows use of strconv and of package time.
pub record Printing (F : Type 0) : Type 0 where
  pub is_print : ℕ → Bool
  pub format_float : F → Text
  pub format_time : Time → Text

abbrev hex_digit : ℕ → ℕ
hex_digit d = if ltb d 10 then b'0' + d else b'a' + (d - 10)

-- The last digits of a number in base 16.
unfoldable hex : ℕ → ℕ → Text
hex zero n = []
hex (suc width) n = hex width (n / 16) ++ hex_digit (n % 16) ∷ []

-- A character that is not printed as it is; a text is valid UTF-8.
unfoldable pub escape : ℕ → Text
unfolding hex
escape c =
    if c == 0x07
    then codes "\\a"
    else if c == 0x08
    then codes "\\b"
    else if c == 0x0c
    then codes "\\f"
    else if c == 0x0a
    then codes "\\n"
    else if c == 0x0d
    then codes "\\r"
    else if c == 0x09
    then codes "\\t"
    else if c == 0x0b
    then codes "\\v"
    else if ltb c 0x20 || c == 0x7f
    then codes "\\x" ++ hex 2 c
    else if ltb c 0x10000
    then codes "\\u" ++ hex 4 c
    else codes "\\U" ++ hex 8 c

module _ {F : Type 0} (printing : Printing F) where
  -- A character inside the quotes.
  unfoldable pub quote_char : ℕ → Text
  quote_char c =
      if c == b'"' || c == 0x5c
      then 0x5c ∷ c ∷ []
      else if printing.is_print c
      then c ∷ []
      else escape c

  unfoldable pub quote_chars : Text → Text
  quote_chars [] = []
  quote_chars (c ∷ s) = quote_char c ++ quote_chars s

  unfoldable pub append_json_string : Text → Text → Text
  append_json_string buf value = buf ++ b'"' ∷ quote_chars value ++ b'"' ∷ []

  -- The labels after the first.
  unfoldable pub more_labels : Text → List Text → Text
  more_labels buf [] = buf
  more_labels buf (label ∷ labels) =
      more_labels (append_json_string (buf ++ b',' ∷ []) label) labels

  unfoldable pub append_labels : Text → List Text → Text
  append_labels buf [] = buf ++ b'[' ∷ b']' ∷ []
  append_labels buf (label ∷ labels) =
      more_labels (append_json_string (buf ++ b'[' ∷ []) label) labels ++ b']' ∷ []

  unfoldable pub marshal_dashboard_result : Result F → Text
  marshal_dashboard_result result =
      let buf = append_json_string (b'[' ∷ []) result.agent in
      let buf = append_json_string (buf ++ b',' ∷ []) result.agent_ip in
      let buf = append_json_string (buf ++ b',' ∷ []) result.target_name in
      let buf = append_json_string (buf ++ b',' ∷ []) result.address in
      let buf = buf ++ b',' ∷ itoa result.port in
      let buf = append_labels (buf ++ b',' ∷ []) result.labels in
      let buf = append_json_string (buf ++ b',' ∷ []) (printing.format_time result.checked_at) in
      let buf = buf ++ b',' ∷ itoa result.success_count in
      let buf = buf ++ b',' ∷ itoa result.failure_count in
      let buf = buf ++ b',' ∷ printing.format_float result.average_latency_ms in
      let buf = buf ++ b',' ∷ printing.format_float result.success_rate in
      append_json_string (buf ++ b',' ∷ []) result.error ++ b']' ∷ []
