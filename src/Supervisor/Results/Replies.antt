-- ===== src/Supervisor/Results/Replies.antt =====
-- cmd/supervisor/main.go: what a request for results is answered, and again while it is in the cache.
use pingmon.Prelude.{
  ◌+◌, ◌≤◌, true, false, ltb, List, [], ◌∷◌, Option, none, some, length, ◌≡◌, refl, sym, ap, ◌∙◌,
  arith, Bool-cases, inl, inr,
}
use pingmon.Prelude.Text.{Text, codes, text_eq}
use pingmon.Prelude.Eq.{lookup, lookup-insert}
use pingmon.Model.{Time, Result}
use pingmon.Storage.Rows.{FloatOps}
use pingmon.Supervisor.Cache.{
  CacheKey, key_eq_iff, key_is_eq, CacheEntry, ResultsCache, get, is_accepted, make_room, set,
}
use pingmon.Supervisor.Results.{
  ResultsReply, not_allowed, failed, json, ResultsRequest, Database, answer, request_key,
  write_dashboard_results, handle_results,
}

lookup-set :
    (now : Time) (key : CacheKey) (bytes : Text) (c : ResultsCache)
    → is_accepted c bytes ≡ true
    → lookup key (set now key bytes c).entries
      ≡ some (record { bytes = bytes; expires_at = now + c.ttl })
unfolding set
lookup-set now key bytes c taken =
    let entry : CacheEntry = record { bytes = bytes; expires_at = now + c.ttl } in
    let room = make_room now key (length bytes) c in
    ground (arith, lookup-insert key key entry room.entries, key_eq_iff key key)

get_held :
    (now : Time) (key : CacheKey) (c : ResultsCache) (entry : CacheEntry)
    → lookup key c.entries ≡ some entry
    → ltb entry.expires_at now ≡ false
    → get now key c ≡ (some entry.bytes, c)
unfolding get
get_held now key c entry held fresh = rw (get, held, fresh) refl

answer_held :
    (now : Time) (key : CacheKey) (fresh : Option Text) (c : ResultsCache) (bytes : Text)
    → get now key c ≡ (some bytes, c)
    → answer now key fresh c ≡ (json bytes, c)
unfolding answer
answer_held now key fresh c bytes e = rw (answer, ap (λ x. x.0) e) (ap (λ x. (json bytes, x.1)) e)

abbrev payload : ResultsReply → Option Text
payload not_allowed = none
payload failed = none
payload (json bytes) = some bytes

abbrev or_empty : Option Text → Text
or_empty none = []
or_empty (some bytes) = bytes

answer-failed :
    (now : Time) (key : CacheKey) (c : ResultsCache)
    → (get now key c).0 ≡ none
    → answer now key none c ≡ (failed, (get now key c).1)
unfolding answer
answer-failed now key c e = rw (answer, e) refl

answer-json :
    (now : Time) (key : CacheKey) (bytes : Text) (c : ResultsCache)
    → (get now key c).0 ≡ none
    → answer now key (some bytes) c ≡ (json bytes, set now key bytes (get now key c).1)
unfolding answer
answer-json now key bytes c e = rw (answer, e) refl

-- An answer that was not in the cache is stored in it.
answer-miss :
    (now : Time) (key : CacheKey) (fresh : Option Text) (c : ResultsCache) (bytes : Text)
    → (get now key c).0 ≡ none
    → (answer now key fresh c).0 ≡ json bytes
    → (answer now key fresh c).1 ≡ set now key bytes (get now key c).1
answer-miss now key none c bytes e h =
    let impossible : none ≡ some bytes =
      ap payload (ap (λ x. x.0) (sym (answer-failed now key c e)) ∙ h) in
    absurd (ground arith)
answer-miss now key (some b) c bytes e h =
    let same : b ≡ bytes =
      ap (λ x. or_empty (payload x)) (ap (λ x. x.0) (sym (answer-json now key b c e)) ∙ h) in
    ap (λ x. x.1) (answer-json now key b c e) ∙ ap (λ x. set now key x (get now key c).1) same

module _ {F : Type 0} (ops : FloatOps F) (row_text : Result F → Text)
    (marshal_results : List (Result F) → Option Text) (r : ResultsRequest) where
  -- What a GET answers comes from the cache, or is stored in it, under the key of the request.
  handle_results-answer :
      (db : Database F) (now raw_cutoff : Time) (c : ResultsCache)
      → r.is_get ≡ true
      → (fresh : Option Text) × (handle_results ops row_text marshal_results db now raw_cutoff r c
          ≡ answer now (request_key r) fresh c)
  unfolding handle_results write_dashboard_results
  handle_results-answer db now raw_cutoff c g =
      elim (Bool-cases (text_eq r.dashboard (codes "1"))) [
        | inl dashboard ↦ rw (g, dashboard) (_, refl)
        | inr plain ↦ rw (g, plain) (_, refl)
      ]

  -- The same request again and again: at each instant, with what the database is then and the cutoff.
  abbrev pub repeats :
      List (Time × Database F × Time)
      → ResultsCache
      → ResultsReply × ResultsCache
      → ResultsReply × ResultsCache
  repeats [] c reply = reply
  repeats ((now, db, raw_cutoff) ∷ requests) c reply =
      let next = handle_results ops row_text marshal_results db now raw_cutoff r c in
      repeats requests next.1 next

  -- Every one of the requests comes within the lifetime.
  abbrev pub AreBefore : Time → List (Time × Database F × Time) → Type 0
  AreBefore end [] = Unit
  AreBefore end ((now, db, raw_cutoff) ∷ requests) = (now ≤ end) × AreBefore end requests

  handle_results-hit :
      (db : Database F) (now raw_cutoff : Time) (c : ResultsCache) (entry : CacheEntry)
      → r.is_get ≡ true
      → lookup (request_key r) c.entries ≡ some entry
      → now ≤ entry.expires_at
      → handle_results ops row_text marshal_results db now raw_cutoff r c ≡ (json entry.bytes, c)
  unfolding get answer
  handle_results-hit db now raw_cutoff c entry g held soon =
      let first = handle_results-answer db now raw_cutoff c g in
      let fresh : ltb entry.expires_at now ≡ false = ground arith in
      first.1
      ∙ answer_held now (request_key r) first.0 c entry.bytes
          (get_held now (request_key r) c entry held fresh)

  repeats-hit :
      (requests : List (Time × Database F × Time)) (c : ResultsCache) (entry : CacheEntry)
      → r.is_get ≡ true
      → lookup (request_key r) c.entries ≡ some entry
      → AreBefore entry.expires_at requests
      → repeats requests c (json entry.bytes, c) ≡ (json entry.bytes, c)
  repeats-hit [] c entry g held soon = refl
  repeats-hit ((now, db, raw_cutoff) ∷ requests) c entry g held soon =
      rw (handle_results-hit db now raw_cutoff c entry g held soon.0)
        (repeats-hit requests c entry g held soon.1)

  reply_is :
      (x : ResultsReply × ResultsCache) (bytes : Text) → x.0 ≡ json bytes → x ≡ (json bytes, x.1)
  reply_is x bytes e = ap (λ reply. (reply, x.1)) e

  -- A GET that was not in the cache and is answered with bytes that the cache accepts is answered with
  -- the same bytes each time it is repeated within the lifetime of the cache from then, at whatever
  -- instants and whatever the database has become each time, as long as nothing else uses the cache
  -- in between.
  pub handle_results_again :
      (db : Database F) (now raw_cutoff : Time) (c : ResultsCache) (bytes : Text)
      (requests : List (Time × Database F × Time))
      → let first = handle_results ops row_text marshal_results db now raw_cutoff r c in
        r.is_get ≡ true
        → (get now (request_key r) c).0 ≡ none
        → first.0 ≡ json bytes
        → is_accepted (get now (request_key r) c).1 bytes ≡ true
        → AreBefore (now + (get now (request_key r) c).1.ttl) requests
        → repeats requests first.1 first ≡ (json bytes, first.1)
  handle_results_again db now raw_cutoff c bytes requests g miss reply taken soon =
      let key = request_key r in
      let first = handle_results ops row_text marshal_results db now raw_cutoff r c in
      let computed = handle_results-answer db now raw_cutoff c g in
      let before = (get now key c).1 in
      let entry : CacheEntry = record { bytes = bytes; expires_at = now + before.ttl } in
      let stored : first.1 ≡ set now key bytes before =
        ap (λ x. x.1) computed.1
        ∙ answer-miss now key computed.0 c bytes miss (ap (λ x. x.0) (sym computed.1) ∙ reply) in
      let held : lookup key first.1.entries ≡ some entry =
        ap (λ x. lookup key x.entries) stored ∙ lookup-set now key bytes before taken in
      ap (repeats requests first.1) (reply_is first bytes reply)
      ∙ repeats-hit requests first.1 entry g held soon
