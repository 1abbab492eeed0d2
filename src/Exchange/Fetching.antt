-- ===== src/Exchange/Fetching.antt =====
-- cmd/agent/main.go with cmd/supervisor/main.go: what an agent gets when it fetches its tasks from a
-- supervisor, and what the supervisor keeps of it.
use mathlib.Core.Path.{subst}
use pingmon.Prelude.{
  Bool, true, false, List, [], ◌++◌, Option, none, some, ◌≡◌, ◌⊎◌, inl, inr, refl, ap, ◌∙◌, sym,
  arith, Bool-cases, Option-cases,
}
use pingmon.Prelude.Text.{Text, codes, is_empty, trim_space}
use pingmon.Prelude.Eq.{text_is_eq}
use pingmon.Model.{Time, Task}
use pingmon.Config.Defs.{Config}
use pingmon.Storage.Store.{Store}
use pingmon.Supervisor.Tasks.{all_tasks, seen_ip, serve_tasks}
use pingmon.Supervisor.Tasks.Heartbeats.{Beats, serve_tasks-cases}
use pingmon.Agent.Requests.{query_values, decode_response, fetch_tasks}
use pingmon.Exchange.{
  Fate, request_lost, reply_lost, answered, Wire, read_request, write_reply, supervisor_client,
}
use pingmon.Exchange.Tokens.{require_agent_auth-set_bearer_token}
use pingmon.Exchange.Sending.{
  value_after, value_after_agent, value_after_agent_ip, tokens_match, kept_ip, tasks_request,
  identity_sent, seen_sent, fetch_tasks_answered, fetch_tasks_unmade, fetch_tasks_refused,
  fetch_tasks_lost,
}

module _ {F : Type 0} (wire : Wire F) where
  -- Why a fetch gives nothing.
  abbrev pub FailsWith : Bool → Config → Text → Text → Text → Text → Type 0
  FailsWith fails cfg base agent agent_ip token =
      (wire.with_query base (query_values agent agent_ip) ≡ none)
      ⊎ ((url : Text) × (wire.with_query base (query_values agent agent_ip) ≡ some url)
          × ((wire.new_request url ≡ false)
              ⊎ ((tokens_match cfg token ≡ false)
                  ⊎ ((fails ≡ true)
                      ⊎ ((wire.fate (tasks_request wire url token) ≡ request_lost)
                          ⊎ (wire.fate (tasks_request wire url token) ≡ reply_lost))))))

  module _ (fails : Bool) (cfg : Config) (now : Time) where
    -- What a fetch that succeeds gives, and leaves of the supervisor's store.
    abbrev pub Succeeds :
        Text → Text → Text → Text → Store F → Option (List Task) × Store F → Type 0
    Succeeds agent agent_ip token other s got =
        (got.0 ≡ some (all_tasks cfg))
        × (tokens_match cfg token ≡ true)
        × (((is_empty (trim_space agent) ≡ true) × (got.1 ≡ s))
            ⊎ ((is_empty (trim_space agent) ≡ false)
                × Beats (trim_space agent) (kept_ip wire agent_ip) now other s got.1))

    answered-cases :
        (supervisor agent agent_ip token url other : Text) (s : Store F)
        → wire.decode_tasks (wire.encode_tasks (all_tasks cfg)) ≡ some (all_tasks cfg)
        → wire.with_query (supervisor ++ codes "/api/tasks") (query_values agent agent_ip)
          ≡ some url
        → wire.query_get url (codes "agent") ≡ agent
        → wire.query_get url (codes "agent_ip") ≡ agent_ip
        → let served =
            serve_tasks wire.split_host_port fails cfg now
              (read_request wire (tasks_request wire url token))
              s in
          let got : Option (List Task) × Store F = (
            decode_response
                (supervisor_client wire fails cfg now)
                (some (write_reply wire served.1)),
            served.0,
          ) in
          ((got.0 ≡ none) × ((tokens_match cfg token ≡ false) ⊎ (fails ≡ true)))
          ⊎ Succeeds agent agent_ip token other s got
    unfolding read_request write_reply
    answered-cases supervisor agent agent_ip token url other s decodes is_url is_agent is_ip =
        let request = read_request wire (tasks_request wire url token) in
        let served = (serve_tasks wire.split_host_port fails cfg now request s).0 in
        let auth = require_agent_auth-set_bearer_token cfg token in
        elim (serve_tasks-cases wire.split_host_port fails cfg now request other s) [
          | inl (inl (refused, unmatched)) ↦ inl (rw refused refl, inl (sym auth ∙ unmatched))
          | inl (inr (inl (refused, posted))) ↦ absurd (ground arith)
          | inl (inr (inr (refused, failed))) ↦ inl (rw refused refl, inr failed)
          | inr (sent, matched, inl (unnamed, same)) ↦ inr (
            rw (sent, decodes) refl,
            sym auth ∙ matched,
            inl (
              sym (
                    ap (λ identity. is_empty identity.0)
                      (identity_sent wire url agent agent_ip token is_agent is_ip))
                  ∙ unnamed,
              same,
            ),
          )
          | inr (sent, matched, inr (named, beats)) ↦ inr (
            rw (sent, decodes) refl,
            sym auth ∙ matched,
            inr (
              sym (
                    ap (λ identity. is_empty identity.0)
                      (identity_sent wire url agent agent_ip token is_agent is_ip))
                  ∙ named,
              subst (λ ip. Beats (trim_space agent) ip now other s served)
                  (seen_sent wire url agent agent_ip token is_agent is_ip)
                  (subst
                    (λ name. Beats name (seen_ip wire.split_host_port request) now other s served)
                    (ap (λ identity. identity.0)
                      (identity_sent wire url agent agent_ip token is_agent is_ip))
                    beats),
            ),
          )
        ]

    fate-cases : (fate : Fate) → (fate ≡ answered) ⊎ ((fate ≡ request_lost) ⊎ (fate ≡ reply_lost))
    fate-cases request_lost = inr (inl refl)
    fate-cases reply_lost = inr (inr refl)
    fate-cases answered = inl refl

    -- Where net/url reads from a URL the query of the one that it was made of, with each value that was
    -- set in the place of what its key had, the URL of the supervisor has no query, and encoding/json
    -- decodes the tasks of the configuration as they were encoded: an agent that fetches its tasks gets
    -- exactly those of the supervisor's configuration, or nothing. It gets them only with the token of
    -- the supervisor, if that has one; the store is then unchanged if the agent has no name, and else
    -- the status of that name has the agent's address, or that of the connection, and is last seen now.
    -- It gets nothing only if no request can be made, the tokens differ, the database fails, or the
    -- network loses the request or the reply.
    pub fetch_tasks-cases :
        (supervisor agent agent_ip token other : Text) (s : Store F)
        → ((base url key : Text) (values : List (Text × Text))
            → wire.with_query base values ≡ some url
            → wire.query_get url key ≡ value_after (wire.query_get base key) key values)
        → ((key : Text) → wire.query_get (supervisor ++ codes "/api/tasks") key ≡ [])
        → wire.decode_tasks (wire.encode_tasks (all_tasks cfg)) ≡ some (all_tasks cfg)
        → let got =
            fetch_tasks (supervisor_client wire fails cfg now) supervisor agent agent_ip token s in
          ((got.0 ≡ none)
            × FailsWith fails cfg (supervisor ++ codes "/api/tasks") agent agent_ip token)
          ⊎ Succeeds agent agent_ip token other s got
    fetch_tasks-cases supervisor agent agent_ip token other s reads plain decodes =
        let base = supervisor ++ codes "/api/tasks" in
        let values = query_values agent agent_ip in
        elim (Option-cases (wire.with_query base values)) [
          | inl bad ↦
              inl (
                fetch_tasks_unmade wire fails cfg now supervisor agent agent_ip token s bad,
                inl bad,
              )
          | inr (url, is_url) ↦ elim (Bool-cases (wire.new_request url)) [
            | inr refused ↦ inl (
              fetch_tasks_refused wire fails cfg now supervisor agent agent_ip token url s is_url
                  refused,
              inr (url, is_url, inl refused),
            )
            | inl makes ↦ elim (fate-cases (wire.fate (tasks_request wire url token))) [
              | inr lost ↦ inl (
                fetch_tasks_lost wire fails cfg now supervisor agent agent_ip token url s is_url
                    lost,
                inr (url, is_url, inr (inr (inr lost))),
              )
              | inl arrives ↦
                  rw
                    (fetch_tasks_answered wire fails cfg now supervisor agent agent_ip token url s
                      is_url makes arrives)
                    (elim (answered-cases supervisor agent agent_ip token url other s decodes is_url
                      (reads base url (codes "agent") values is_url
                        ∙ ap (λ old. value_after old (codes "agent") values) (plain (codes "agent"))
                        ∙ value_after_agent agent agent_ip)
                      (reads base url (codes "agent_ip") values is_url
                        ∙ ap (λ old. value_after old (codes "agent_ip") values)
                            (plain (codes "agent_ip"))
                        ∙ value_after_agent_ip agent agent_ip)) [
                          | inl (nothing, inl unmatched) ↦
                              inl (nothing, inr (url, is_url, inr (inl unmatched)))
                          | inl (nothing, inr failed) ↦
                              inl (nothing, inr (url, is_url, inr (inr (inl failed))))
                          | inr got ↦ inr got
                        ])
            ]
          ]
        ]
