-- ===== src/Config/Load.antt =====
-- internal/config/config.go: `detectFormat`, `Load` and `LoadAgent`.
use pingmon.Prelude.{ℕ, [], ◌∷◌, reverse, Option, none, some, ◌==◌, if◌then◌else◌}
use pingmon.Prelude.Text.{Text, codes, is_empty, text_eq, to_lower}
use pingmon.Config.Defs.{
  Config, AgentConfig, default_config, default_agent_config, apply_defaults, agent_defaults,
}
use pingmon.Config.Values.{Reason}
use pingmon.Config.Toml.{Parsed, done, at_line, scan_error, parse_supervisor_toml, parse_agent_toml}

-- `filepath.Ext`, on the reversed path: what stands from the last dot on, unless a slash comes first.
ext_onto : Text → Text → Text
ext_onto acc [] = []
ext_onto acc (c ∷ s) =
    let rest = ext_onto (c ∷ acc) s in if c == b'.' then c ∷ acc else if c == b'/' then [] else rest

ext : Text → Text
unfolding ext_onto
ext path = ext_onto [] (reverse path)

unfoldable pub detect_format : Text → Text → Text
unfolding ext
detect_format path format =
    if is_empty format
    then (let e = to_lower (ext path) in
        if text_eq e (codes ".json")
        then codes "json"
        else if text_eq e (codes ".toml")
        then codes "toml"
        else codes "json")
    else to_lower format

-- Why a load fails.
pub data LoadError : Type 0 where
  unreadable : LoadError
  bad_json : LoadError
  bad_line : ℕ → Reason → LoadError
  bad_scan : Reason → LoadError
  unsupported_format : Text → LoadError

pub data Loaded (A : Type 0) : Type 0 where
  loaded : A → Loaded A
  failed : LoadError → Loaded A

abbrev from_parsed : {A : Type 0} → Parsed A → Loaded A
from_parsed (done a) = loaded a
from_parsed (at_line n r) = failed (bad_line n r)
from_parsed (scan_error r) = failed (bad_scan r)

abbrev pub map_loaded : {A B : Type 0} → (A → B) → Loaded A → Loaded B
map_loaded f (loaded a) = loaded (f a)
map_loaded f (failed e) = failed e

-- The switch on the format; `json` is json.Unmarshal onto a config, which keeps absent fields.
unfoldable pub decode :
    {A : Type 0} → (Text → A → Option A) → (Text → A → Parsed A) → Text → Text → A → Loaded A
decode json toml format bytes cfg =
    if text_eq format (codes "json")
    then elim (json bytes cfg) [ none ↦ failed bad_json | some c ↦ loaded c ]
    else if text_eq format (codes "toml")
    then from_parsed (toml bytes cfg)
    else failed (unsupported_format format)

module _ (read : Text → Option Text) where
  unfoldable pub load : (Text → Config → Option Config) → Text → Text → Loaded Config
  load json path format = if is_empty path then loaded default_config else elim (read path) [
    | none ↦ failed unreadable
    | some b ↦
        map_loaded apply_defaults
          (decode json parse_supervisor_toml (detect_format path format) b default_config)
  ]

  unfoldable pub load_agent :
      (Text → AgentConfig → Option AgentConfig) → Text → Text → Text → Loaded AgentConfig
  load_agent json hostname path format =
      if is_empty path then loaded (default_agent_config hostname) else elim (read path) [
        | none ↦ failed unreadable
        | some b ↦ map_loaded (agent_defaults hostname) (
            decode json parse_agent_toml (detect_format path format) b
              (default_agent_config hostname))
      ]
