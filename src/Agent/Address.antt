-- ===== src/Agent/Address.antt =====
-- cmd/agent/main.go: `fetchPublicIP` and `fetchAgentIP` with its cache. What an endpoint answers, and
-- net.ParseIP, are arguments. The two lookups do not depend on each other and are made one after the
-- other here. One goroutine fetches, so that a call is one step.
pub mod Lookups
pub mod Known
use pingmon.Prelude.{
  ℕ, ◌+◌, ◌*◌, Bool, true, false, not, ◌&&◌, List, [], ◌∷◌, ◌++◌, Option, none, some, ltb, ◌==◌,
  if◌then◌else◌,
}
use pingmon.Prelude.Text.{Text, codes, text_eq, is_empty, trim_space}
use pingmon.Model.{Time, second}
use pingmon.Config.Defs.{AgentConfig}

abbrev pub agent_ip_cache_ttl : ℕ
agent_ip_cache_ttl = 15 * 60 * second

-- What an endpoint answers: the status, and the body unless reading it fails.
pub record Answer : Type 0 where
  pub status : ℕ
  pub body : Option Text

pub record AgentIpCache : Type 0 where
  pub ipv4_url : Text
  pub ipv6_url : Text
  pub value : Text
  pub expires_at : Time

abbrev pub empty_ip_cache : AgentIpCache
empty_ip_cache = record { ipv4_url = []; ipv6_url = []; value = []; expires_at = 0 }

-- The cases of `switch`; the empty text is the default.
unfoldable pub joined : Text → Text → Text
joined ipv4 ipv6 =
    if not (is_empty ipv4) && not (is_empty ipv6)
    then ipv4 ++ codes " / " ++ ipv6
    else if not (is_empty ipv4)
    then ipv4
    else ipv6

abbrev pub ip_or_empty : Option Text → Text
ip_or_empty none = []
ip_or_empty (some ip) = ip

-- Whether the cache is for the endpoints.
abbrev pub is_for : AgentConfig → AgentIpCache → Bool
is_for cfg c = text_eq c.ipv4_url cfg.public_ipv4_url && text_eq c.ipv6_url cfg.public_ipv6_url

module _ (parse_ip : Text → Bool) where
  -- The address in a body, and in an answer; `none` is an error.
  abbrev pub parse_body : Option Text → Option Text
  parse_body none = none
  parse_body (some text) = let ip = trim_space text in if parse_ip ip then some ip else none

  abbrev pub parse_answer : Option Answer → Option Text
  parse_answer none = none
  parse_answer (some answer) = if answer.status == 200 then parse_body answer.body else none

module _ (get : Text → Option Answer) (parse_ip : Text → Bool) where
  -- Nothing is asked for without an endpoint.
  unfoldable pub fetch_public_ip : Text → Option Text
  fetch_public_ip raw =
      let endpoint = trim_space raw in
      if is_empty endpoint then some [] else parse_answer parse_ip (get endpoint)

  -- `ip, _ := fetchPublicIP(endpoint)`: an error comes with an empty address.
  abbrev pub looked_up : Text → Text
  looked_up endpoint = ip_or_empty (fetch_public_ip endpoint)

  -- The lookups, and what they leave in the cache.
  unfoldable pub refresh_agent_ip : AgentConfig → Time → AgentIpCache → Text × AgentIpCache
  unfolding fetch_public_ip joined
  refresh_agent_ip cfg now c =
      let stale = if is_for cfg c then c.value else [] in
      let ipv4 = looked_up cfg.public_ipv4_url in
      let ipv6 = looked_up cfg.public_ipv6_url in
      let value = joined ipv4 ipv6 in
      if is_empty value
      then (stale, if is_empty stale then c else record c { expires_at = now + agent_ip_cache_ttl })
      else (
        value,
        record {
          ipv4_url = cfg.public_ipv4_url;
          ipv6_url = cfg.public_ipv6_url;
          value = value;
          expires_at = now + agent_ip_cache_ttl;
        },
      )

  unfoldable pub fetch_agent_ip : AgentConfig → Time → AgentIpCache → Text × AgentIpCache
  unfolding refresh_agent_ip
  fetch_agent_ip cfg now c =
      let found = refresh_agent_ip cfg now c in
      if is_for cfg c && not (is_empty c.value) && ltb now c.expires_at then (c.value, c) else found
