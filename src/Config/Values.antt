-- ===== src/Config/Values.antt =====
-- internal/config/config.go: comments and values of the TOML subset.
use pingmon.Prelude.{
  ℕ, Bool, false, not, ◌&&◌, List, [], ◌∷◌, map, Option, none, some, ◌==◌, if◌then◌else◌,
}
use pingmon.Prelude.Int.{ℤ}
use pingmon.Prelude.Text.{
  Text, codes, is_empty, text_eq, trim, trim_space, trim_prefix, trim_suffix, split, to_lower, atoi,
}

pub data Reason : Type 0 where
  invalid_toml : Text → Reason
  invalid_integer : Text → Text → Reason
  unknown_config_key : Text → Reason
  unknown_params_key : Text → Reason
  unknown_target_key : Text → Reason
  orphan_target_key : Reason
  token_too_long : Reason

pub data Outcome (A : Type 0) : Type 0 where
  ok : A → Outcome A
  err : Reason → Outcome A

infixl 5 ◌>>=◌
abbrev pub ◌>>=◌ : {A B : Type 0} → Outcome A → (A → Outcome B) → Outcome B
ok a >>= f = f a
err r >>= f = err r

abbrev pub is_quote : ℕ → Bool
is_quote c = c == b'"'

-- The part of a line before a `#` that stands outside quotes, if there is one.
unfoldable pub before_comment : Bool → Text → Option Text
before_comment in_string [] = none
before_comment in_string (c ∷ s) =
    let in_string' = if is_quote c then not in_string else in_string in
    let rest = before_comment in_string' s in
    if c == b'#' && not in_string'
    then some []
    else elim rest [ none ↦ none | some t ↦ some (c ∷ t) ]

unfoldable pub strip_comment : Text → Text
unfolding before_comment
strip_comment line =
    let line' = trim_space line in
    elim (before_comment false line') [ none ↦ line' | some t ↦ trim_space t ]

unfoldable pub parse_string : Text → Text
parse_string value = trim is_quote (trim_space value)

unfoldable pub parse_string_array : Text → List Text
unfolding parse_string
parse_string_array value =
    let inner = trim_suffix (trim_prefix (trim_space value) (codes "[")) (codes "]") in
    if is_empty (trim_space inner)
    then []
    else map (λ part. parse_string (trim_space part)) (split b',' inner)

-- `strings.EqualFold(s, "true")`: no letter of "true" has a case variant outside ASCII.
unfoldable pub parse_bool : Text → Bool
parse_bool value = text_eq (to_lower (trim_space value)) (codes "true")

unfoldable pub parse_int : Text → Text → Outcome ℤ
parse_int key value = elim (atoi (trim_space value)) [
  | none ↦ err (invalid_integer key (trim_space value))
  | some n ↦ ok n
]
