-- ===== src/Agent/Address/Lookups.antt =====
-- cmd/agent/main.go: what the lookups of `fetchAgentIP` give is an address.
use pingmon.Prelude.{
  Bool, true, false, [], ◌∷◌, ◌++◌, Option, none, some, ◌==◌, ◌≡◌, ◌⊎◌, inl, inr, refl, arith,
  Bool-cases,
}
use pingmon.Prelude.Text.{Text, codes, is_empty, trim_space}
use pingmon.Config.Defs.{AgentConfig}
use pingmon.Agent.Address.{
  Answer, joined, ip_or_empty, parse_body, parse_answer, fetch_public_ip, looked_up,
}

module _ (parse_ip : Text → Bool) (cfg : AgentConfig) where
  -- An address, or one of each kind.
  abbrev pub IsAddress : Text → Type 0
  IsAddress value =
      (parse_ip value ≡ true)
      ⊎ ((ipv4 : Text) × (ipv6 : Text) × (parse_ip ipv4 ≡ true)
          × (parse_ip ipv6 ≡ true)
          × (value ≡ ipv4 ++ codes " / " ++ ipv6))

  -- What the lookups of a call give.
  abbrev pub found : (Text → Option Answer) → Text
  found get =
      joined (looked_up get parse_ip cfg.public_ipv4_url)
        (looked_up get parse_ip cfg.public_ipv6_url)

  parse_body-cases :
      (body : Option Text)
      → (ip_or_empty (parse_body parse_ip body) ≡ [])
        ⊎ (parse_ip (ip_or_empty (parse_body parse_ip body)) ≡ true)
  parse_body-cases none = inl refl
  parse_body-cases (some text) = elim (Bool-cases (parse_ip (trim_space text))) [
    | inl valid ↦ inr (rw (valid, valid) refl)
    | inr wrong ↦ inl (rw wrong refl)
  ]

  parse_answer-cases :
      (answer : Option Answer)
      → (ip_or_empty (parse_answer parse_ip answer) ≡ [])
        ⊎ (parse_ip (ip_or_empty (parse_answer parse_ip answer)) ≡ true)
  parse_answer-cases none = inl refl
  parse_answer-cases (some answer) = elim (Bool-cases (answer.status == 200)) [
    | inl fine ↦ rw fine (parse_body-cases answer.body)
    | inr bad ↦ inl (rw bad refl)
  ]

  looked_up-cases :
      (get : Text → Option Answer) (endpoint : Text)
      → (looked_up get parse_ip endpoint ≡ []) ⊎ (parse_ip (looked_up get parse_ip endpoint) ≡ true)
  unfolding fetch_public_ip
  looked_up-cases get endpoint = elim (Bool-cases (is_empty (trim_space endpoint))) [
    | inl unset ↦ inl (rw unset refl)
    | inr given ↦ rw given (parse_answer-cases (get (trim_space endpoint)))
  ]

  joined-IsAddress :
      (ipv4 ipv6 : Text)
      → (ipv4 ≡ []) ⊎ (parse_ip ipv4 ≡ true)
      → (ipv6 ≡ []) ⊎ (parse_ip ipv6 ≡ true)
      → is_empty (joined ipv4 ipv6) ≡ false
      → IsAddress (joined ipv4 ipv6)
  unfolding joined
  joined-IsAddress [] [] four six given = absurd (ground arith)
  joined-IsAddress [] (d ∷ ipv6) four (inl none_found) given = absurd (ground arith)
  joined-IsAddress [] (d ∷ ipv6) four (inr valid) given = inl valid
  joined-IsAddress (c ∷ ipv4) [] (inl none_found) six given = absurd (ground arith)
  joined-IsAddress (c ∷ ipv4) [] (inr valid) six given = inl valid
  joined-IsAddress (c ∷ ipv4) (d ∷ ipv6) (inl none_found) six given = absurd (ground arith)
  joined-IsAddress (c ∷ ipv4) (d ∷ ipv6) (inr valid) (inl none_found) given = absurd (ground arith)
  joined-IsAddress (c ∷ ipv4) (d ∷ ipv6) (inr valid) (inr valid') given =
      inr (c ∷ ipv4, d ∷ ipv6, valid, valid', refl)

  pub found-IsAddress :
      (get : Text → Option Answer) → is_empty (found get) ≡ false → IsAddress (found get)
  found-IsAddress get =
      joined-IsAddress (looked_up get parse_ip cfg.public_ipv4_url)
        (looked_up get parse_ip cfg.public_ipv6_url) (looked_up-cases get cfg.public_ipv4_url)
        (looked_up-cases get cfg.public_ipv6_url)
