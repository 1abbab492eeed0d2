-- ===== src/Supervisor/Cache/Reads.antt =====
-- cmd/supervisor/main.go: what `resultsCache.get` can return, against the calls made before.
use pingmon.Prelude.{
  ℕ, ◌+◌, ◌≤◌, true, ◌&&◌, List, [], ◌∷◌, Option, none, some, ◌≡◌, ◌≢◌, ◌⊎◌, inl, inr, refl, arith,
  if◌then◌else◌, length, Bool-cases, Option-cases,
}
use pingmon.Prelude.Text.{Text}
use pingmon.Prelude.Eq.{lookup, lookup-insert}
use pingmon.Model.{Time}
use pingmon.Supervisor.Cache.{
  CacheKey, key_eq, key_eq_iff, key_is_eq, CacheEntry, ResultsCache, no_key, get, is_accepted,
  make_room, set, clear, new_results_cache,
}
use pingmon.Supervisor.Cache.Lookups.{drop_key-Shrinks, make_room-Shrinks}
use pingmon.Supervisor.Cache.Bounds.{
  IsValid, SameLimits, get-IsValid, set-IsValid, get-SameLimits, make_room_lem,
}

pub data CacheCall : Type 0 where
  get_call : Time → CacheKey → CacheCall
  set_call : Time → CacheKey → Text → CacheCall
  clear_call : CacheCall

abbrev pub apply_call : CacheCall → ResultsCache → ResultsCache
apply_call (get_call now key) c = (get now key c).1
apply_call (set_call now key bytes) c = set now key bytes c
apply_call clear_call c = clear c

abbrev pub run_calls : List CacheCall → ResultsCache → ResultsCache
run_calls [] c = c
run_calls (call ∷ calls) c = run_calls calls (apply_call call c)

-- The last bytes that a cache like `c` was given for the key and accepted since it was last cleared,
-- with the time: a record of the calls that forgets nothing else.
abbrev pub latest :
    ResultsCache → CacheKey → Option (Time × Text) → List CacheCall → Option (Time × Text)
latest c key found [] = found
latest c key found (get_call now k ∷ calls) = latest c key found calls
latest c key found (set_call now k bytes ∷ calls) =
    latest c key (if is_accepted c bytes && key_eq k key then some (now, bytes) else found) calls
latest c key found (clear_call ∷ calls) = latest c key none calls

-- What is stored for the key is what was last given, with its expiry.
Backed : ResultsCache → CacheKey → Option (Time × Text) → Type 0
Backed c key found =
    (e : CacheEntry)
    → lookup key c.entries ≡ some e
    → (t : Time) × (found ≡ some (t, e.bytes)) × (e.expires_at ≡ t + c.ttl)

set-SameLimits :
    (now : Time) (key : CacheKey) (bytes : Text) (c : ResultsCache)
    → IsValid c
    → SameLimits (set now key bytes c) c
set-SameLimits now key bytes c v = elim (Bool-cases (is_accepted c bytes)) [
  | inr refused ↦ unfold set in ground arith
  | inl taken ↦
      let lem = make_room_lem now key (length bytes) c v (unfold is_accepted in ground arith) in
      unfold set in ground (arith, lem.2)
]

get-Backed :
    (now : Time) (k key : CacheKey) (c : ResultsCache) (found : Option (Time × Text))
    → Backed c key found
    → Backed (get now k c).1 key found
unfolding Backed get
get-Backed now k key c found h e there =
    ground (arith, h e, drop_key-Shrinks k c key, get-SameLimits now k c)

set-Backed :
    (now : Time) (k : CacheKey) (bytes : Text) (key : CacheKey) (c : ResultsCache)
    (found : Option (Time × Text))
    → IsValid c
    → Backed c key found
    → Backed
        (set now k bytes c)
        key
        (if is_accepted c bytes && key_eq k key then some (now, bytes) else found)
unfolding Backed
set-Backed now k bytes key c found v h e there =
    let entry : CacheEntry = record { bytes = bytes; expires_at = now + c.ttl } in
    let room = make_room now k (length bytes) c in
    let limits = set-SameLimits now k bytes c v in
    let stored = lookup-insert k key entry room.entries in
    elim (Bool-cases (is_accepted c bytes)) [
      | inr refused ↦
          let (t, was, until) = h e (unfold set in ground arith) in (t, ground arith, ground arith)
      | inl taken ↦ elim (Bool-cases (key_eq k key)) [
        | inl same ↦ (
          now,
          unfold set in ground (arith, stored),
          unfold set in ground (arith, stored, limits),
        )
        | inr other ↦
            let kept = make_room-Shrinks now k (length bytes) c v.distinct key in
            let (t, was, until) = h e (unfold set in ground (arith, stored, kept)) in
            (t, ground arith, ground (arith, limits))
      ]
    ]

clear-IsValid : (c : ResultsCache) → IsValid (clear c)
unfolding clear
clear-IsValid c = record {
  size_is = refl;
  distinct = tt;
  entries_le = inr (omega arith);
  size_le = inr (omega arith);
}

clear-SameLimits : (c : ResultsCache) → SameLimits (clear c) c
unfolding clear
clear-SameLimits c = (refl, refl, refl)

clear-Backed : (c : ResultsCache) (key : CacheKey) → Backed (clear c) key none
unfolding Backed clear lookup
clear-Backed c key e there = absurd (ground arith)

run_calls-Backed :
    (calls : List CacheCall) (start c : ResultsCache) (key : CacheKey)
    (found : Option (Time × Text))
    → IsValid c
    → SameLimits c start
    → Backed c key found
    → IsValid (run_calls calls c)
      × SameLimits (run_calls calls c) start
      × Backed (run_calls calls c) key (latest start key found calls)
run_calls-Backed [] start c key found v l h = (v, l, h)
run_calls-Backed (get_call now k ∷ calls) start c key found v l h =
    run_calls-Backed calls start (get now k c).1 key found (get-IsValid now k c v)
      (ground (arith, get-SameLimits now k c)) (get-Backed now k key c found h)
run_calls-Backed (set_call now k bytes ∷ calls) start c key found v l h =
    let same : is_accepted c bytes ≡ is_accepted start bytes = unfold is_accepted in ground arith in
    run_calls-Backed calls start (set now k bytes c) key
      (if is_accepted start bytes && key_eq k key then some (now, bytes) else found)
      (set-IsValid now k bytes c v) (ground (arith, set-SameLimits now k bytes c v))
      (rw same at (set-Backed now k bytes key c found v h))
run_calls-Backed (clear_call ∷ calls) start c key found v l h =
    run_calls-Backed calls start (clear c) key none (clear-IsValid c)
      (ground (arith, clear-SameLimits c)) (clear-Backed c key)

new_results_cache-IsValid : (ttl max : ℕ) → IsValid (new_results_cache ttl max)
unfolding new_results_cache
new_results_cache-IsValid ttl max = record {
  size_is = refl;
  distinct = tt;
  entries_le = inr (omega arith);
  size_le = inr (omega arith);
}

run_calls_new :
    (ttl max : ℕ) (calls : List CacheCall) (key : CacheKey)
    → let c = run_calls calls (new_results_cache ttl max) in
      let start = new_results_cache ttl max in
      IsValid c × SameLimits c start × Backed c key (latest start key none calls)
run_calls_new ttl max calls key =
    let start = new_results_cache ttl max in
    run_calls-Backed calls start start key none (new_results_cache-IsValid ttl max)
      (refl, refl, refl)
      (unfold Backed lookup new_results_cache in λ e there. absurd (ground arith))

-- After any calls on a new cache the byte counter is the size of what is stored, no key is stored
-- twice, and neither the limit on entries nor the limit on bytes is exceeded.
pub run_calls-IsValid :
    (ttl max : ℕ) (calls : List CacheCall) → IsValid (run_calls calls (new_results_cache ttl max))
run_calls-IsValid ttl max calls = (run_calls_new ttl max calls no_key).0

-- After any calls on a new cache, what `get` returns for a key is what was last accepted for it since
-- the last `clear`, and it was stored no longer ago than the lifetime of an entry.
pub get-run_calls :
    (ttl max : ℕ) (calls : List CacheCall) (now : Time) (key : CacheKey) (bytes : Text)
    → (get now key (run_calls calls (new_results_cache ttl max))).0 ≡ some bytes
    → (t : Time) × (latest (new_results_cache ttl max) key none calls ≡ some (t, bytes))
      × (now ≤ t + ttl)
unfolding Backed new_results_cache
get-run_calls ttl max calls now key bytes h =
    let c = run_calls calls (new_results_cache ttl max) in
    let (valid, limits, backed) = run_calls_new ttl max calls key in
    elim (Option-cases (lookup key c.entries)) [
      | inl missing ↦ absurd (unfold get in ground (arith, missing))
      | inr (e, found) ↦
          let (t, was, until) = backed e found in
          (
            t,
            unfold get in ground (arith, found, was),
            unfold get in ground (arith, found, until, limits),
          )
    ]

-- What has been stored and accepted is returned until it expires, and the methods between touch no
-- entry of another key but by taking it away: a `get` of it returns nothing or what it returned before.
pub get-set :
    (now later : Time) (key other : CacheKey) (bytes : Text) (c : ResultsCache)
    → IsValid c
    → is_accepted c bytes ≡ true
    → later ≤ now + c.ttl
    → other ≢ key
    → ((get later key (set now key bytes c)).0 ≡ some bytes)
      × (((get later other (set now key bytes c)).0 ≡ none)
          ⊎ ((get later other (set now key bytes c)).0 ≡ (get later other c).0))
unfolding get set
get-set now later key other bytes c v taken soon ne =
    let entry : CacheEntry = record { bytes = bytes; expires_at = now + c.ttl } in
    let room = make_room now key (length bytes) c in
    (
      ground (arith, lookup-insert key key entry room.entries, key_eq_iff key key),
      ground (
        arith,
        lookup-insert key other entry room.entries,
        key_eq_iff key other,
        make_room-Shrinks now key (length bytes) c v.distinct other,
      ),
    )
