-- ===== src/Agent/Address/Known.antt =====
-- cmd/agent/main.go: which address `fetchAgentIP` returns in the course of the agent.
use pingmon.Prelude.{
  ◌+◌, ◌<◌, Bool, true, false, not, ◌&&◌, List, [], ◌∷◌, Option, ltb, All, ◌≡◌, ◌⊎◌, inl, inr, refl,
  ap, sym, arith, Bool-cases,
}
use pingmon.Prelude.Text.{Text, text_eq, text_eq_iff, is_empty}
use pingmon.Model.{Time}
use pingmon.Config.Defs.{AgentConfig}
use pingmon.Agent.Address.{
  agent_ip_cache_ttl, Answer, AgentIpCache, empty_ip_cache, is_for, refresh_agent_ip,
  fetch_agent_ip,
}
use pingmon.Agent.Address.Lookups.{IsAddress, found, found-IsAddress}

-- The calls of an agent, the last one first: the instant and what the endpoints answer.
abbrev pub Calls : Type 0
Calls = List (Time × (Text → Option Answer))

text_eq_refl : (s : Text) → text_eq s s ≡ true
text_eq_refl s = (text_eq_iff s s).1 refl

is_empty_nil : (s : Text) → is_empty s ≡ true → s ≡ []
is_empty_nil [] e = refl
is_empty_nil (c ∷ s) e = absurd (ground arith)

module _ (parse_ip : Text → Bool) (cfg : AgentConfig) where
  -- The address and the cache after the calls.
  unfoldable pub run_fetches : Calls → Text × AgentIpCache
  unfolding fetch_agent_ip
  run_fetches [] = ([], empty_ip_cache)
  run_fetches ((now, get) ∷ earlier) = fetch_agent_ip get parse_ip cfg now (run_fetches earlier).1

  -- A call made less than the lifetime of the cache before.
  abbrev pub IsRecent : Time → Calls → Type 0
  IsRecent now [] = ⊥
  IsRecent now (call ∷ earlier) = (now < call.0 + agent_ip_cache_ttl) ⊎ IsRecent now earlier

  -- The address is what a call found, and since then every call found none or came soon after another.
  abbrev pub IsKnown : Text → Calls → Type 0
  IsKnown value [] = ⊥
  IsKnown value ((now, get) ∷ earlier) =
      (found parse_ip cfg get ≡ value)
      ⊎ (((found parse_ip cfg get ≡ []) ⊎ IsRecent now earlier) × IsKnown value earlier)

  abbrev pub FindsNone : Time × (Text → Option Answer) → Type 0
  FindsNone call = found parse_ip cfg call.1 ≡ []

  -- The lifetime of the cache was set by one of the calls.
  abbrev IsSetBy : Time → Calls → Type 0
  IsSetBy expires [] = ⊥
  IsSetBy expires (call ∷ earlier) =
      (expires ≡ call.0 + agent_ip_cache_ttl) ⊎ IsSetBy expires earlier

  IsSetBy-IsRecent :
      (now expires : Time) (calls : Calls)
      → now < expires
      → IsSetBy expires calls
      → IsRecent now calls
  IsSetBy-IsRecent now expires [] before set = elim set [ ]
  IsSetBy-IsRecent now expires (call ∷ earlier) before (inl set) = inl (omega arith)
  IsSetBy-IsRecent now expires (call ∷ earlier) before (inr set) =
      inr (IsSetBy-IsRecent now expires earlier before set)

  -- The cache is empty as nothing was found, or has the address.
  record Remembers (calls : Calls) (c : AgentIpCache) : Type 0 where
    pub given : is_empty c.value ≡ false
    pub same_urls : is_for cfg c ≡ true
    pub known : IsKnown c.value calls
    pub address : IsAddress parse_ip cfg c.value
    pub set_by : IsSetBy c.expires_at calls

  abbrev IsExplained : Calls → AgentIpCache → Type 0
  IsExplained calls c = ((c.value ≡ []) × All FindsNone calls) ⊎ Remembers calls c

  fetch_agent_ip_none :
      (now : Time) (get : Text → Option Answer) (c : AgentIpCache)
      → c.value ≡ []
      → is_empty (found parse_ip cfg get) ≡ true
      → fetch_agent_ip get parse_ip cfg now c ≡ ([], c)
  unfolding fetch_agent_ip refresh_agent_ip
  fetch_agent_ip_none now get c none_yet nothing =
      let empty : is_empty c.value ≡ true = ap is_empty none_yet in
      elim (Bool-cases (is_for cfg c)) [
        | inl same ↦ rw (same, empty, nothing) (ap (λ value. (value, c)) none_yet)
        | inr other ↦ rw (other, nothing) refl
      ]

  fetch_agent_ip_renewed :
      (now : Time) (get : Text → Option Answer) (c : AgentIpCache)
      → (is_for cfg c && not (is_empty c.value) && ltb now c.expires_at) ≡ false
      → is_empty (found parse_ip cfg get) ≡ false
      → fetch_agent_ip get parse_ip cfg now c ≡ (
        found parse_ip cfg get,
        record {
          ipv4_url = cfg.public_ipv4_url;
          ipv6_url = cfg.public_ipv6_url;
          value = found parse_ip cfg get;
          expires_at = now + agent_ip_cache_ttl;
        },
      )
  unfolding fetch_agent_ip refresh_agent_ip
  fetch_agent_ip_renewed now get c stale something = rw (stale, something) refl

  fetch_agent_ip_cached :
      (now : Time) (get : Text → Option Answer) (c : AgentIpCache)
      → is_for cfg c ≡ true
      → is_empty c.value ≡ false
      → ltb now c.expires_at ≡ true
      → fetch_agent_ip get parse_ip cfg now c ≡ (c.value, c)
  unfolding fetch_agent_ip
  fetch_agent_ip_cached now get c same given fresh = rw (same, given, fresh) refl

  fetch_agent_ip_kept :
      (now : Time) (get : Text → Option Answer) (c : AgentIpCache)
      → is_for cfg c ≡ true
      → is_empty c.value ≡ false
      → ltb now c.expires_at ≡ false
      → is_empty (found parse_ip cfg get) ≡ true
      → fetch_agent_ip get parse_ip cfg now c
        ≡ (c.value, record c { expires_at = now + agent_ip_cache_ttl })
  unfolding fetch_agent_ip refresh_agent_ip
  fetch_agent_ip_kept now get c same given expired nothing = rw (same, given, expired, nothing) refl

  just_found :
      (now : Time) (get : Text → Option Answer) (earlier : Calls)
      → is_empty (found parse_ip cfg get) ≡ false
      → Remembers ((now, get) ∷ earlier) (record {
        ipv4_url = cfg.public_ipv4_url;
        ipv6_url = cfg.public_ipv6_url;
        value = found parse_ip cfg get;
        expires_at = now + agent_ip_cache_ttl;
      })
  just_found now get earlier something = record {
    given = something;
    same_urls = rw (text_eq_refl cfg.public_ipv4_url, text_eq_refl cfg.public_ipv6_url) refl;
    known = inl refl;
    address = found-IsAddress parse_ip cfg get something;
    set_by = inl refl;
  }

  fetch_agent_ip-IsExplained :
      (now : Time) (get : Text → Option Answer) (earlier : Calls) (c : AgentIpCache)
      → IsExplained earlier c
      → ((fetch_agent_ip get parse_ip cfg now c).0
          ≡ (fetch_agent_ip get parse_ip cfg now c).1.value)
        × IsExplained ((now, get) ∷ earlier) (fetch_agent_ip get parse_ip cfg now c).1
  fetch_agent_ip-IsExplained now get earlier c (inl (none_yet, none_found)) =
      elim (Bool-cases (is_empty (found parse_ip cfg get))) [
        | inl nothing ↦ rw (fetch_agent_ip_none now get c none_yet nothing) (
          sym none_yet,
          inl (none_yet, (is_empty_nil (found parse_ip cfg get) nothing, none_found)),
        )
        | inr something ↦
            let empty : is_empty c.value ≡ true = ap is_empty none_yet in
            rw (fetch_agent_ip_renewed now get c (ground arith) something)
              (refl, inr (just_found now get earlier something))
      ]
  fetch_agent_ip-IsExplained now get earlier c (inr m) = elim (Bool-cases (ltb now c.expires_at)) [
    | inl fresh ↦ rw (fetch_agent_ip_cached now get c m.same_urls m.given fresh) (
      refl,
      inr (record {
        given = m.given;
        same_urls = m.same_urls;
        known =
            inr (inr (IsSetBy-IsRecent now c.expires_at earlier (ground arith) m.set_by), m.known);
        address = m.address;
        set_by = inr m.set_by;
      }),
    )
    | inr expired ↦ elim (Bool-cases (is_empty (found parse_ip cfg get))) [
      | inl nothing ↦ rw (fetch_agent_ip_kept now get c m.same_urls m.given expired nothing) (
        refl,
        inr (record {
          given = m.given;
          same_urls = m.same_urls;
          known = inr (inl (is_empty_nil (found parse_ip cfg get) nothing), m.known);
          address = m.address;
          set_by = inl refl;
        }),
      )
      | inr something ↦
          rw (fetch_agent_ip_renewed now get c (ground arith) something)
            (refl, inr (just_found now get earlier something))
    ]
  ]

  run_fetches-IsExplained :
      (calls : Calls)
      → ((run_fetches calls).0 ≡ (run_fetches calls).1.value)
        × IsExplained calls (run_fetches calls).1
  unfolding run_fetches
  run_fetches-IsExplained [] = (refl, inl (refl, tt))
  run_fetches-IsExplained ((now, get) ∷ earlier) =
      fetch_agent_ip-IsExplained now get earlier (run_fetches earlier).1
        (run_fetches-IsExplained earlier).1

  -- After any calls of `fetchAgentIP` from the empty cache, with the URLs of one configuration and
  -- whatever the endpoints answer: the address is empty, and then no call has found one; or it is one
  -- address or one of each kind, as net.ParseIP accepts them, that one of the calls found, and each call
  -- since either found none or came less than 15 minutes after another.
  pub run_fetches-IsKnown :
      (calls : Calls)
      → (((run_fetches calls).0 ≡ []) × All FindsNone calls)
        ⊎ ((is_empty (run_fetches calls).0 ≡ false)
            × IsAddress parse_ip cfg (run_fetches calls).0
            × IsKnown (run_fetches calls).0 calls)
  run_fetches-IsKnown calls =
      let (same, explained) = run_fetches-IsExplained calls in
      rw same
        (elim explained [ inl nothing ↦ inl nothing | inr m ↦ inr (m.given, m.address, m.known) ])
