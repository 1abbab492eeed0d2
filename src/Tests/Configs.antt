-- ===== src/Tests/Configs.antt =====
-- Tests of internal/config/config.go.
use pingmon.Prelude.{false, List, [], ◌∷◌, ◌++◌, Option, none, some, ◌≡◌, ◌≢◌, refl, arith}
use pingmon.Prelude.Int.{pos, negsuc}
use pingmon.Prelude.Text.{
  Text, codes, text_eq, byte_len, trim, trim_space, trim_prefix, trim_suffix, has_prefix,
  has_suffix, cut, split, to_lower, atoi,
}
use pingmon.Model.{PingTarget}
use pingmon.Config.Defs.{Config, default_config, apply_defaults}
use pingmon.Config.Defaults.{IsReady, load-IsReady, apply_defaults_ready, apply_defaults-IsReady}
use pingmon.Config.Values.{
  invalid_toml, orphan_target_key, strip_comment, parse_string, parse_string_array, parse_bool,
  parse_int,
}
use pingmon.Config.Toml.{
  done, at_line, set_config_value, set_params_value, set_target_value, set_value, step_line,
  run_lines, scan_lines, parse_supervisor_toml,
}
use pingmon.Config.Load.{loaded, detect_format, decode, load}
use pingmon.Config.Lines.{
  FailsAt, start, config_of, parse_supervisor_toml-FailsAt, run_lines_comment,
}
use pingmon.Config.Orphans.{parse_supervisor_toml-ne-orphan}

-- Unfolds what a parse runs through.
program : Unit {0}
unfolding text_eq byte_len trim trim_space trim_prefix trim_suffix has_prefix has_suffix cut split
    to_lower atoi strip_comment parse_string parse_string_array parse_bool parse_int
    set_config_value set_params_value set_target_value set_value step_line run_lines
    parse_supervisor_toml default_config apply_defaults load decode detect_format
program = tt

abbrev file : Text
file =
    codes
      "retention_days = 7 # a week\n\n[params]\nenable_ipv6 = FALSE\n[[targets]]\nname = \"a#b\"\nport = 53\nlabels = [\"x\", \"y\"]\n"

abbrev target : PingTarget
target = record {
  name = codes "a#b";
  address = [];
  port = pos 53;
  labels = codes "x" ∷ codes "y" ∷ [];
}

abbrev parsed : Config
parsed = record default_config {
  retention_days = pos 7;
  params = record (default_config.params) { enable_ipv6 = false };
  targets = target ∷ [];
}

parse_file : parse_supervisor_toml file default_config ≡ done parsed
unfolding program
parse_file = refl

abbrev broken : Text
broken = codes "listen = \":1\"\n# note\nnonsense\n"

parse_broken :
    parse_supervisor_toml broken default_config ≡ at_line 3 (invalid_toml (codes "nonsense"))
unfolding program
parse_broken = refl

numbers :
    (atoi (codes "+12") ≡ some (pos 12))
    × (atoi (codes "-12") ≡ some (negsuc 11))
    × (atoi (codes "9223372036854775808") ≡ none)
    × (atoi (codes "1_0") ≡ none)
unfolding program
numbers = (refl, refl, refl, refl)

formats :
    (detect_format (codes "etc/a.b/conf.TOML") [] ≡ codes "toml")
    × (detect_format (codes "etc/a.toml/conf") [] ≡ codes "json")
    × (detect_format (codes "x") (codes "TOML") ≡ codes "toml")
unfolding program
formats = (refl, refl, refl)

-- The raw results are kept no longer than the aggregates.
abbrev read_file : Text → Option Text
read_file path = some file

abbrev no_json : Text → Config → Option Config
no_json b cfg = none

load_file : load read_file no_json (codes "c.toml") [] ≡ loaded (apply_defaults parsed)
unfolding program
load_file = refl

raw_capped : (apply_defaults parsed).raw_retention_days ≡ pos 7
unfolding program
raw_capped = refl

load-IsReady_example : IsReady (apply_defaults parsed)
load-IsReady_example =
    load-IsReady read_file no_json (codes "c.toml") [] (apply_defaults parsed) load_file

defaults_twice : apply_defaults (apply_defaults parsed) ≡ apply_defaults parsed
defaults_twice = apply_defaults_ready (apply_defaults parsed) (apply_defaults-IsReady parsed)

parse_supervisor_toml-FailsAt_example :
    FailsAt step_line 0
      (start default_config)
      (scan_lines broken)
      3
      (invalid_toml (codes "nonsense"))
parse_supervisor_toml-FailsAt_example =
    parse_supervisor_toml-FailsAt broken default_config 3 (invalid_toml (codes "nonsense"))
      parse_broken

never_orphan : parse_supervisor_toml broken default_config ≢ at_line 3 orphan_target_key
never_orphan = parse_supervisor_toml-ne-orphan broken default_config 3

abbrev above : List Text
above = codes "listen = \":1\"" ∷ []

abbrev below : List Text
below = codes "[params]" ∷ []

comment_blank : strip_comment (codes "  # \"note\"") ≡ []
unfolding program
comment_blank = refl

comment_may_stand :
    config_of step_line
      (run_lines step_line 0 (start default_config) (above ++ codes "  # \"note\"" ∷ below))
    ≡ config_of step_line (run_lines step_line 0 (start default_config) (above ++ below))
unfolding byte_len
comment_may_stand =
    run_lines_comment (start default_config) above below (codes "  # \"note\"") comment_blank
      (omega arith)
