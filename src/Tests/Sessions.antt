-- ===== src/Tests/Sessions.antt =====
-- Tests of the sessions of cmd/supervisor. The encoding moves the characters up, and the signature is
-- the key before the payload.
use pingmon.Prelude.{
  ◌+◌, ◌-◌, ◌*◌, true, false, [], ◌∷◌, ◌++◌, none, some, ◌≡◌, ◌⊎◌, refl, arith, ◌&&◌,
}
use pingmon.Prelude.Int.{ltb_ℤ, ◌-ℤ◌}
use pingmon.Prelude.Text.{Text, codes, text_eq, trim_space, has_prefix, trim_prefix, cut, atoi}
use pingmon.Prelude.Decimal.{itoa}
use pingmon.Model.{Time, second}
use pingmon.Config.Defs.{Config, default_config}
use pingmon.Supervisor.Session.{
  Crypto, unix, dashboard_session_lifetime, dot, redirected, wrong_credentials, post_login,
  safe_redirect_path, require_agent_auth, dashboard_session, valid_payload, valid_dashboard_cookie,
  any_valid, dashboard_authenticated, handle_login,
}
use pingmon.Supervisor.Session.Cookies.{
  Free, IsCodec, AreRight, Signed, valid_dashboard_cookie-session, valid_dashboard_cookie-Signed,
  handle_login-cases,
}

abbrev up : Text → Text
up [] = []
up (c ∷ s) = (c + 64) ∷ up s

abbrev down : Text → Text
down [] = []
down (c ∷ s) = (c - 64) ∷ down s

abbrev crypto : Crypto
crypto = record {
  encode = up;
  decode = λ s. some (down s);
  mac = λ key payload. key ++ payload;
  sha256 = λ s. s;
}

down-up : (s : Text) → down (up s) ≡ s
down-up [] = refl
down-up (c ∷ s) = ground (arith, down-up s)

up-Free : (s : Text) → Free dot (up s)
up-Free [] = tt
up-Free (c ∷ s) = (ground arith, up-Free s)

crypto-IsCodec : IsCodec crypto
crypto-IsCodec = record { decode_encode = λ s. ground (arith, down-up s); no_dot = up-Free }

abbrev cfg : Config
cfg = record default_config { dashboard_user = codes "admin"; dashboard_password = codes "secret" }

abbrev now : Time
now = (62_135_596_800 + 1_000_000) * second

abbrev key : Text
key = codes "k"

-- Unfolds what the tests run through.
program : Unit {0}
unfolding text_eq trim_space has_prefix trim_prefix cut atoi itoa unix ◌-ℤ◌ safe_redirect_path
    require_agent_auth dashboard_session valid_payload valid_dashboard_cookie any_valid
    dashboard_authenticated handle_login default_config
program = tt

redirects :
    (safe_redirect_path (codes "//evil") ≡ codes "/dashboard")
    × (safe_redirect_path (codes "/?range=1h") ≡ codes "/?range=1h")
    × (safe_redirect_path (codes "/\\evil") ≡ codes "/\\evil")
unfolding program
redirects = (refl, refl, refl)

tokens :
    (require_agent_auth (record cfg { agent_token = codes " t " }) (codes "Bearer t") ≡ true)
    × (require_agent_auth (record cfg { agent_token = codes "t" }) (codes "Bearer ") ≡ false)
    × (require_agent_auth (record cfg { agent_token = codes " " }) [] ≡ true)
unfolding program
tokens = (refl, refl, refl)

accepted :
    valid_dashboard_cookie crypto key cfg now
      (dashboard_session crypto key (codes "admin") (now + second))
    ≡ true
unfolding program
accepted = refl

expired :
    valid_dashboard_cookie crypto key cfg
      (now + second)
      (dashboard_session crypto key (codes "admin") (now + second))
    ≡ false
unfolding program
expired = refl

valid_dashboard_cookie-session_example :
    valid_dashboard_cookie crypto key cfg now
      (dashboard_session crypto key (codes "root") (now + second))
    ≡ (text_eq (codes "root") (codes "admin") && ltb_ℤ (unix now) (unix (now + second)))
valid_dashboard_cookie-session_example =
    valid_dashboard_cookie-session crypto key cfg now (now + second) (codes "root") crypto-IsCodec
      (refl, (refl, (refl, (refl, tt)))) (omega arith, omega arith)

valid_dashboard_cookie-Signed_example :
    Signed crypto key cfg now (dashboard_session crypto key (codes "admin") (now + second))
valid_dashboard_cookie-Signed_example =
    valid_dashboard_cookie-Signed crypto key cfg now
      (dashboard_session crypto key (codes "admin") (now + second)) accepted

handle_login-cases_example :
    ((¬ AreRight cfg (codes "admin") (codes "secret"))
      × (handle_login crypto key cfg now none []
            (codes "/x")
            (post_login (some (codes "admin", codes "secret")))
          ≡ wrong_credentials (safe_redirect_path (codes "/x"))))
    ⊎ (AreRight cfg (codes "admin") (codes "secret")
        × ((cookie : Text) × (handle_login crypto key cfg now none []
                (codes "/x")
                (post_login (some (codes "admin", codes "secret")))
              ≡ redirected (safe_redirect_path (codes "/x")) (some cookie))
            × (dashboard_authenticated crypto key cfg (now + second) none (cookie ∷ [])
                ≡ ltb_ℤ (unix (now + second)) (unix (now + dashboard_session_lifetime)))))
handle_login-cases_example =
    handle_login-cases crypto key cfg now (now + second) none [] (codes "/x") (codes "admin")
      (codes "secret") crypto-IsCodec (refl, (refl, (refl, (refl, (refl, tt)))))
      (omega arith, omega arith)
