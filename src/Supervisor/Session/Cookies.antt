-- ===== src/Supervisor/Session/Cookies.antt =====
-- cmd/supervisor/main.go: which cookies of the dashboard are accepted, and which a login sets.
use pingmon.Prelude.{
  ℕ, ◌+◌, ◌-◌, ◌/◌, ◌^◌, ◌≤◌, ◌<◌, true, false, ◌&&◌, List, [], ◌∷◌, ◌++◌, Option, none, some, ◌==◌,
  ◌≡◌, ◌⊎◌, inl, inr, refl, arith, All, Bool-cases, Option-cases,
}
use pingmon.Prelude.Int.{ℤ, pos, ◌-ℤ◌, ltb_ℤ}
use pingmon.Prelude.Text.{Text, text_eq, text_eq_iff, cut, atoi}
use pingmon.Prelude.Decimal.{itoa, atoi-itoa}
use pingmon.Model.{Time, second}
use pingmon.Config.Defs.{Config}
use pingmon.Supervisor.Session.{
  Crypto, unix_epoch, unix, dashboard_session_lifetime, newline, dot, redirected, wrong_credentials,
  post_login, safe_redirect_path, session_payload, dashboard_session, valid_payload,
  valid_dashboard_cookie, any_valid, dashboard_authenticated, handle_login,
}

-- The character does not occur.
abbrev pub Free : ℕ → Text → Type 0
Free c s = All (λ d. (d == c) ≡ false) s

-- What is used of base64: it is read back, and has no dot.
pub record IsCodec (crypto : Crypto) : Type 0 where
  pub decode_encode : (s : Text) → crypto.decode (crypto.encode s) ≡ some s
  pub no_dot : (s : Text) → Free dot (crypto.encode s)

-- The second of the instant is an int64 that is not negative.
abbrev pub IsUnix : Time → Type 0
IsUnix t = (unix_epoch ≤ t / second) × (t / second < 2 ^ 63)

cut-append : (c : ℕ) (a b : Text) → Free c a → cut c (a ++ c ∷ b) ≡ some (a, b)
unfolding cut
cut-append c [] b h = ground arith
cut-append c (d ∷ a) b h = ground (arith, cut-append c a b h.1)

cut_sound : (c : ℕ) (s a b : Text) → cut c s ≡ some (a, b) → s ≡ a ++ c ∷ b
unfolding cut
cut_sound c [] a b h = absurd (ground arith)
cut_sound c (d ∷ s) a b h = elim (Bool-cases (d == c)) [
  | inl found ↦ ground arith
  | inr other ↦ elim (Option-cases (cut c s)) [
    | inl missing ↦ absurd (ground arith)
    | inr ((a', b'), there) ↦ ground (arith, cut_sound c s a' b' there)
  ]
]

unix_read : (t : Time) → IsUnix t → atoi (itoa (unix t)) ≡ some (unix t)
unfolding unix ◌-ℤ◌
unix_read t h =
    let n = t / second - unix_epoch in
    let is_pos : unix t ≡ pos n = ground arith in rw is_pos (atoi-itoa n (omega arith))

text_eq-same : (s : Text) → text_eq s s ≡ true
text_eq-same s = (text_eq_iff s s).1 refl

-- Both are the configured ones.
abbrev pub AreRight : Config → Text → Text → Type 0
AreRight cfg user pass = (user ≡ cfg.dashboard_user) × (pass ≡ cfg.dashboard_password)

module _ (crypto : Crypto) where
  valid_payload-session :
      (key : Text) (cfg : Config) (now expires : Time) (user : Text)
      → Free newline user
      → IsUnix expires
      → valid_payload crypto key cfg now
          (session_payload crypto user expires)
          (crypto.mac key (session_payload crypto user expires))
        ≡ (text_eq user cfg.dashboard_user && ltb_ℤ (unix now) (unix expires))
  unfolding valid_payload
  valid_payload-session key cfg now expires user h u =
      rw
        (
          text_eq-same (crypto.mac key (session_payload crypto user expires)),
          cut-append newline user (itoa (unix expires)) h,
          unix_read expires u,
        )
        refl

  -- A session that is made for a user with no line break, and an expiry in the range of Unix time, is
  -- accepted under the same key exactly if the user is the configured one and the expiry has not
  -- passed, whatever the signature is, if base64 reads back what it encodes and has no dot.
  pub valid_dashboard_cookie-session :
      (key : Text) (cfg : Config) (now expires : Time) (user : Text)
      → IsCodec crypto
      → Free newline user
      → IsUnix expires
      → valid_dashboard_cookie crypto key cfg now (dashboard_session crypto key user expires)
        ≡ (text_eq user cfg.dashboard_user && ltb_ℤ (unix now) (unix expires))
  unfolding valid_dashboard_cookie dashboard_session
  valid_dashboard_cookie-session key cfg now expires user c h u =
      let payload = session_payload crypto user expires in
      let signature = crypto.mac key payload in
      ground (
        arith,
        cut-append dot (crypto.encode payload) (crypto.encode signature) (c.no_dot payload),
        c.decode_encode payload,
        c.decode_encode signature,
        valid_payload-session key cfg now expires user h u,
      )

  -- What an accepted cookie is made of.
  pub record Signed (key : Text) (cfg : Config) (now : Time) (value : Text) : Type 0 where
    pub encoded_payload : Text
    pub encoded_signature : Text
    pub expires_text : Text
    pub expires : ℤ
    pub value_is : value ≡ encoded_payload ++ dot ∷ encoded_signature
    pub payload_is :
        crypto.decode encoded_payload ≡ some (cfg.dashboard_user ++ newline ∷ expires_text)
    pub signature_is :
        crypto.decode encoded_signature
        ≡ some (crypto.mac key (cfg.dashboard_user ++ newline ∷ expires_text))
    pub expires_is : atoi expires_text ≡ some expires
    pub in_time : ltb_ℤ (unix now) expires ≡ true

  -- The same of the payload and the signature.
  record Fits (key : Text) (cfg : Config) (now : Time) (payload signature : Text) : Type 0 where
    expires_text : Text
    expires : ℤ
    payload_is : payload ≡ cfg.dashboard_user ++ newline ∷ expires_text
    signature_is : signature ≡ crypto.mac key payload
    expires_is : atoi expires_text ≡ some expires
    in_time : ltb_ℤ (unix now) expires ≡ true

  valid_payload-Fits :
      (key : Text) (cfg : Config) (now : Time) (payload signature : Text)
      → valid_payload crypto key cfg now payload signature ≡ true
      → Fits key cfg now payload signature
  unfolding valid_payload
  valid_payload-Fits key cfg now payload signature h = elim (Option-cases (cut newline payload)) [
    | inl missing ↦ absurd (ground arith)
    | inr ((user, expires_text), found) ↦ elim (Option-cases (atoi expires_text)) [
      | inl missing ↦ absurd (ground arith)
      | inr (n, read) ↦ record {
        expires_text = expires_text;
        expires = n;
        payload_is = ground (
          arith,
          cut_sound newline payload user expires_text found,
          text_eq_iff user cfg.dashboard_user,
        );
        signature_is = ground (arith, text_eq_iff signature (crypto.mac key payload));
        expires_is = read;
        in_time = ground arith;
      }
    ]
  ]

  -- An accepted cookie is two parts around a dot: the second decodes to the signature, under the key,
  -- of what the first decodes to, and that is the configured user, a line break and the decimal text of
  -- a Unix time that has not come yet.
  pub valid_dashboard_cookie-Signed :
      (key : Text) (cfg : Config) (now : Time) (value : Text)
      → valid_dashboard_cookie crypto key cfg now value ≡ true
      → Signed key cfg now value
  unfolding valid_dashboard_cookie
  valid_dashboard_cookie-Signed key cfg now value h = elim (Option-cases (cut dot value)) [
    | inl missing ↦ absurd (ground arith)
    | inr ((encoded_payload, encoded_signature), found) ↦
        elim (Option-cases (crypto.decode encoded_payload)) [
          | inl missing ↦ absurd (ground arith)
          | inr (payload, decoded) ↦ elim (Option-cases (crypto.decode encoded_signature)) [
            | inl missing ↦ absurd (ground arith)
            | inr (signature, signed) ↦
                let fits = valid_payload-Fits key cfg now payload signature (ground arith) in
                record {
                  encoded_payload = encoded_payload;
                  encoded_signature = encoded_signature;
                  expires_text = fits.expires_text;
                  expires = fits.expires;
                  value_is = cut_sound dot value encoded_payload encoded_signature found;
                  payload_is = ground (arith, fits.payload_is);
                  signature_is = ground (arith, fits.payload_is, fits.signature_is);
                  expires_is = fits.expires_is;
                  in_time = fits.in_time;
                }
          ]
        ]
  ]

  -- A posted login with both credentials right, and no line break in the configured user, redirects
  -- and sets a cookie with which a request is authenticated exactly while the Unix time is before that
  -- of 12 hours after the login; with any other credentials it sets none. It is assumed that base64
  -- reads back what it encodes and has no dot, and that the expiry is in the range of Unix time.
  pub handle_login-cases :
      (key : Text) (cfg : Config) (now later : Time) (basic : Option (Text × Text))
      (cookies : List Text) (next user pass : Text)
      → IsCodec crypto
      → Free newline cfg.dashboard_user
      → IsUnix (now + dashboard_session_lifetime)
      → ((¬ AreRight cfg user pass)
          × (handle_login crypto key cfg now basic cookies next (post_login (some (user, pass)))
              ≡ wrong_credentials (safe_redirect_path next)))
        ⊎ (AreRight cfg user pass
            × ((cookie : Text) × (handle_login crypto key cfg now basic cookies next
                    (post_login (some (user, pass)))
                  ≡ redirected (safe_redirect_path next) (some cookie))
                × (dashboard_authenticated crypto key cfg later none (cookie ∷ [])
                    ≡ ltb_ℤ (unix later) (unix (now + dashboard_session_lifetime)))))
  unfolding handle_login dashboard_authenticated any_valid
  handle_login-cases key cfg now later basic cookies next user pass c h u =
      let expires = now + dashboard_session_lifetime in
      elim (Bool-cases (text_eq user cfg.dashboard_user && text_eq pass cfg.dashboard_password)) [
        | inr wrong ↦ inl (
          λ same. absurd (
              ground (
                arith,
                text_eq_iff user cfg.dashboard_user,
                text_eq_iff pass cfg.dashboard_password,
              )),
          ground arith,
        )
        | inl right ↦
            let user_is : user ≡ cfg.dashboard_user =
              (text_eq_iff user cfg.dashboard_user).0 (ground arith) in
            let pass_is : pass ≡ cfg.dashboard_password =
              (text_eq_iff pass cfg.dashboard_password).0 (ground arith) in
            inr (
              (user_is, pass_is),
              (
                dashboard_session crypto key user expires,
                ground arith,
                ground (
                  arith,
                  valid_dashboard_cookie-session key cfg later expires cfg.dashboard_user c h u,
                  text_eq-same cfg.dashboard_user,
                ),
              ),
            )
      ]
