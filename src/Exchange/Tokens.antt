-- ===== src/Exchange/Tokens.antt =====
-- cmd/agent/main.go with cmd/supervisor/main.go: the token that an agent sends, as the supervisor
-- reads it.
use pingmon.Prelude.{true, ◌||◌, [], ◌∷◌, ◌++◌, ◌≡◌, refl, arith, Bool-cases, inl, inr}
use pingmon.Prelude.Text.{
  Text, codes, text_eq, is_empty, has_prefix, strip, trim_prefix, trim_left, trim_right, trim,
  trim_space,
}
use pingmon.Prelude.Trim.{trim_space-trim_space}
use pingmon.Config.Defs.{Config}
use pingmon.Supervisor.Session.{require_agent_auth}
use pingmon.Agent.Requests.{set_bearer_token}

trim_prefix-bearer :
    (token : Text) → trim_prefix (codes "Bearer " ++ token) (codes "Bearer ") ≡ token
unfolding trim_prefix has_prefix strip
trim_prefix-bearer token = refl

no_header : trim_space (trim_prefix [] (codes "Bearer ")) ≡ []
unfolding trim_prefix has_prefix trim_space trim trim_left trim_right
no_header = refl

text_eq_none : (s t : Text) → is_empty s ≡ true → (is_empty t || text_eq s t) ≡ is_empty t
unfolding text_eq
text_eq_none [] [] e = refl
text_eq_none [] (c ∷ t) e = refl
text_eq_none (c ∷ s) t e = absurd (ground arith)

-- A request with the token of an agent is passed on just where the supervisor has no token, or the two
-- are the same, each without the spaces around it.
pub require_agent_auth-set_bearer_token :
    (cfg : Config) (token : Text)
    → require_agent_auth cfg (set_bearer_token token) ≡ (
        is_empty (trim_space cfg.agent_token)
        || text_eq (trim_space token) (trim_space cfg.agent_token))
unfolding require_agent_auth set_bearer_token
require_agent_auth-set_bearer_token cfg token = elim (Bool-cases (is_empty (trim_space token))) [
  | inl blank ↦
      rw (blank, no_header, text_eq_none (trim_space token) (trim_space cfg.agent_token) blank)
        (ground arith)
  | inr given ↦
      rw (given, trim_prefix-bearer (trim_space token), trim_space-trim_space token, given) refl
]
