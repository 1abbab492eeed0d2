-- ===== src/Supervisor/Session.antt =====
-- cmd/supervisor/main.go: the sessions of the dashboard and the tokens of the agents. Bytes are numbers,
-- as the characters of a text are. The encoding in base64, HMAC and SHA-256 are parameters.
pub mod Cookies
use pingmon.Prelude.{
  ℕ, ◌+◌, ◌-◌, ◌*◌, ◌/◌, Bool, true, false, not, ◌&&◌, ◌||◌, List, [], ◌∷◌, ◌++◌, Option, none,
  some, if◌then◌else◌,
}
use pingmon.Prelude.Int.{ℤ, pos, ◌-ℤ◌, ltb_ℤ}
use pingmon.Prelude.Text.{
  Text, codes, text_eq, is_empty, trim_space, has_prefix, trim_prefix, cut, atoi,
}
use pingmon.Prelude.Decimal.{itoa}
use pingmon.Model.{Time, second, day}
use pingmon.Config.Defs.{Config}

pub record Crypto : Type 0 where
  pub encode : Text → Text
  pub decode : Text → Option Text
  pub mac : Text → Text → Text
  pub sha256 : Text → Text

-- `Time.Unix`.
abbrev unix_epoch : ℕ
unix_epoch = 62_135_596_800

unfoldable pub unix : Time → ℤ
unix t = pos (t / second) -ℤ pos unix_epoch

abbrev pub dashboard_session_lifetime : ℕ
dashboard_session_lifetime = 12 * 3600 * second

abbrev pub newline : ℕ
newline = 0x0a

abbrev pub dot : ℕ
dot = 0x2e

unfoldable pub safe_redirect_path : Text → Text
safe_redirect_path raw =
    if is_empty raw || not (has_prefix raw (codes "/")) || has_prefix raw (codes "//")
    then codes "/dashboard"
    else raw

-- Whether the request is passed on.
unfoldable pub require_agent_auth : Config → Text → Bool
require_agent_auth cfg authorization =
    let token = trim_space cfg.agent_token in
    let provided = trim_space (trim_prefix authorization (codes "Bearer ")) in
    is_empty token || (not (is_empty provided) && text_eq provided token)

-- The answers of `handleLogin`: a redirection with the cookie that is set, if any, or a page.
pub data LoginReply : Type 0 where
  redirected : Text → Option Text → LoginReply
  login_page : Text → LoginReply
  wrong_credentials : Text → LoginReply
  login_not_allowed invalid_form : LoginReply

pub data LoginRequest : Type 0 where
  get_login : LoginRequest
  post_login : Option (Text × Text) → LoginRequest
  other_login : LoginRequest

module _ (crypto : Crypto) where
  unfoldable pub dashboard_auth_key : Config → Text
  dashboard_auth_key cfg =
      crypto.sha256
        (codes "pingmon dashboard session" ++ 0 ∷ cfg.dashboard_user ++ 0 ∷ cfg.dashboard_password)

  abbrev pub session_payload : Text → Time → Text
  session_payload user expires = user ++ newline ∷ itoa (unix expires)

  unfoldable pub dashboard_session : Text → Text → Time → Text
  dashboard_session key user expires =
      let payload = session_payload user expires in
      crypto.encode payload ++ dot ∷ crypto.encode (crypto.mac key payload)

  -- From the comparison of the signatures on.
  unfoldable pub valid_payload : Text → Config → Time → Text → Text → Bool
  valid_payload key cfg now payload signature =
      text_eq signature (crypto.mac key payload) && elim (cut newline payload) [
        | none ↦ false
        | some (user, expires) ↦
            text_eq user cfg.dashboard_user
            && elim (atoi expires) [ none ↦ false | some n ↦ ltb_ℤ (unix now) n ]
      ]

  unfoldable pub valid_dashboard_cookie : Text → Config → Time → Text → Bool
  unfolding valid_payload
  valid_dashboard_cookie key cfg now value = elim (cut dot value) [
    | none ↦ false
    | some (encoded_payload, encoded_signature) ↦ elim (crypto.decode encoded_payload) [
      | none ↦ false
      | some payload ↦ elim (crypto.decode encoded_signature) [
        | none ↦ false
        | some signature ↦ valid_payload key cfg now payload signature
      ]
    ]
  ]

  unfoldable pub any_valid : Text → Config → Time → List Text → Bool
  any_valid key cfg now [] = false
  any_valid key cfg now (value ∷ values) =
      valid_dashboard_cookie key cfg now value || any_valid key cfg now values

  -- `basic` is what Request.BasicAuth finds.
  unfoldable pub dashboard_authenticated :
      Text → Config → Time → Option (Text × Text) → List Text → Bool
  dashboard_authenticated key cfg now none cookies = any_valid key cfg now cookies
  dashboard_authenticated key cfg now (some (user, pass)) cookies =
      (text_eq user cfg.dashboard_user && text_eq pass cfg.dashboard_password)
      || any_valid key cfg now cookies

  -- A form that does not parse is `post_login none`.
  unfoldable pub handle_login :
      Text → Config → Time → Option (Text × Text) → List Text → Text → LoginRequest → LoginReply
  handle_login key cfg now basic cookies next get_login =
      if dashboard_authenticated key cfg now basic cookies
      then redirected (safe_redirect_path next) none
      else login_page (safe_redirect_path next)
  handle_login key cfg now basic cookies next other_login = login_not_allowed
  handle_login key cfg now basic cookies next (post_login none) = invalid_form
  handle_login key cfg now basic cookies next (post_login (some (user, pass))) =
      if not (text_eq user cfg.dashboard_user) || not (text_eq pass cfg.dashboard_password)
      then wrong_credentials (safe_redirect_path next)
      else redirected (safe_redirect_path next)
          (some (dashboard_session key user (now + dashboard_session_lifetime)))
