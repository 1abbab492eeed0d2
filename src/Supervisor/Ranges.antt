-- ===== src/Supervisor/Ranges.antt =====
-- cmd/supervisor/main.go: `parseRangeDuration`, `rangeDuration`, `rangeInList`, `selectedRange` and
-- `agentOfflineAfterSeconds`. A duration is an int64 of nanoseconds, and its product wraps.
use pingmon.Prelude.{
  ℕ, ◌*◌, Bool, true, false, ◌||◌, List, [], ◌∷◌, reverse, Option, none, some, ◌==◌, if◌then◌else◌,
}
use pingmon.Prelude.Int.{ℤ, pos, ◌*ℤ◌, leb_ℤ, wrap64}
use pingmon.Prelude.Text.{
  Text, codes, is_empty, text_eq, trim_space, to_lower, has_suffix, trim_suffix, atoi,
}
use pingmon.Model.{second}
use pingmon.Config.Defs.{Config}

abbrev pub minute : ℕ
minute = 60 * second

abbrev pub hour : ℕ
hour = 60 * minute

-- The switch on the unit, the last byte. A rune outside ASCII is no unit.
unfoldable pub unit_nanos : ℕ → Option ℕ
unit_nanos c =
    if c == b'm'
    then some minute
    else if c == b'h'
    then some hour
    else if c == b'd'
    then some (24 * hour)
    else if c == b'w'
    then some (7 * 24 * hour)
    else none

-- The last rune, and what stands before it, of a reversed text.
split_last : Text → Option (ℕ × Text)
split_last [] = none
split_last (c ∷ s) = some (c, reverse s)

-- The multiplier and the text of the number.
unfoldable pub range_parts : Text → Option (ℕ × Text)
unfolding split_last unit_nanos
range_parts raw =
    if has_suffix raw (codes "mo")
    then some (30 * 24 * hour, trim_suffix raw (codes "mo"))
    else elim (split_last (reverse raw)) [
      | none ↦ none
      | some (unit, value_text) ↦ elim (unit_nanos unit) [
        | none ↦ none
        | some multiplier ↦ some (multiplier, value_text)
      ]
    ]

-- `none` is the source's `(0, false)`.
unfoldable pub parse_range_duration : Text → Option ℤ
unfolding range_parts
parse_range_duration raw = elim (range_parts (trim_space (to_lower raw))) [
  | none ↦ none
  | some (multiplier, value_text) ↦ elim (atoi value_text) [
    | none ↦ none
    | some n ↦ if leb_ℤ n (pos 0) then none else some (wrap64 (n *ℤ pos multiplier))
  ]
]

unfoldable pub range_duration : Text → ℤ
range_duration raw = elim (parse_range_duration raw) [
  | none ↦ pos (24 * hour)
  | some duration ↦ duration
]

unfoldable pub range_in_list : Text → List Text → Bool
range_in_list raw [] = false
range_in_list raw (allowed ∷ ranges) = text_eq raw allowed || range_in_list raw ranges

-- The range of a request: `query` and `cookie` are the two values, empty where absent.
unfoldable pub requested_range : Config → Text → Text → Text
requested_range cfg query cookie =
    let raw = if is_empty query then cookie else query in
    if is_empty raw then cfg.default_range else raw

head_or : {A : Type 0} → A → List A → A
head_or d [] = d
head_or d (x ∷ xs) = x

is_some : {A : Type 0} → Option A → Bool
is_some none = false
is_some (some a) = true

unfoldable pub selected_range : Config → Text → Text → Text
unfolding requested_range head_or is_some range_in_list
selected_range cfg query cookie =
    let raw = requested_range cfg query cookie in
    if range_in_list raw cfg.dashboard_ranges
    then raw
    else if is_some (parse_range_duration raw)
    then trim_space (to_lower raw)
    else head_or (codes "24h") cfg.dashboard_ranges

unfoldable pub agent_offline_after_seconds : Config → ℤ
agent_offline_after_seconds cfg =
    let seconds = cfg.params.schedule_seconds in
    let seconds' = if leb_ℤ seconds (pos 0) then cfg.task_interval_seconds else seconds in
    let seconds'' = if leb_ℤ seconds' (pos 0) then pos 30 else seconds' in
    wrap64 (seconds'' *ℤ pos 3)
