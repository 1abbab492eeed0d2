-- ===== src/Supervisor/Cache.antt =====
-- cmd/supervisor/main.go: `resultsCache`, the cache of marshalled results. The map is an association
-- list, whose order stands for the order in which Go ranges over it; a limit of 0 is none. The locks
-- make each method one step, and `now` is what time.Now returns in it.
pub mod Lookups
pub mod Bounds
pub mod Reads
use pingmon.Prelude.{
  ℕ, zero, suc, ◌+◌, ◌-◌, ◌*◌, ◌^◌, Bool, true, false, ◌&&◌, ◌||◌, List, [], ◌∷◌, Option, none,
  some, ltb, leb, ◌==◌, if◌then◌else◌, length, ◌≡◌, ◌↔◌, arith,
}
use pingmon.Prelude.Text.{Text, text_eq, text_eq_iff}
use pingmon.Prelude.Eq.{Eq, lookup, insert, remove}
use pingmon.Model.{Time}

pub record CacheKey : Type 0 where
  pub selected_range : Text
  pub agent : Text
  pub dashboard : Bool

abbrev bool_eq : Bool → Bool → Bool
bool_eq true b = b
bool_eq false true = false
bool_eq false false = true

unfoldable pub key_eq : CacheKey → CacheKey → Bool
key_eq j k =
    text_eq j.selected_range k.selected_range
    && text_eq j.agent k.agent
    && bool_eq j.dashboard k.dashboard

pub key_eq_iff : (j k : CacheKey) → (key_eq j k ≡ true) ↔ (j ≡ k)
unfolding key_eq
key_eq_iff j k =
    ground (arith, text_eq_iff j.selected_range k.selected_range, text_eq_iff j.agent k.agent)

instance abbrev pub key_is_eq : Eq CacheKey
key_is_eq = record { beq = key_eq; beq_iff = key_eq_iff }

pub record CacheEntry : Type 0 where
  pub bytes : Text
  pub expires_at : Time

abbrev pub Entries : Type 0
Entries = List (CacheKey × CacheEntry)

pub record ResultsCache : Type 0 where
  pub ttl : ℕ
  pub max_entries : ℕ
  pub max_bytes : ℕ
  pub size : ℕ
  pub entries : Entries

abbrev pub results_cache_max_bytes : ℕ
results_cache_max_bytes = 16 * 2 ^ 20

unfoldable pub new_results_cache : ℕ → ℕ → ResultsCache
new_results_cache ttl max = record {
  ttl = ttl;
  max_entries = max;
  max_bytes = results_cache_max_bytes;
  size = 0;
  entries = [];
}

-- `c.bytes -= len(c.entries[key].data); delete(c.entries, key)`.
unfoldable pub drop_key : CacheKey → ResultsCache → ResultsCache
drop_key key c = elim (lookup key c.entries) [
  | none ↦ c
  | some e ↦ record c { size = c.size - length e.bytes; entries = remove key c.entries }
]

unfoldable pub get : Time → CacheKey → ResultsCache → Option Text × ResultsCache
get now key c = elim (lookup key c.entries) [
  | none ↦ (none, c)
  | some e ↦ if ltb e.expires_at now then (none, drop_key key c) else (some e.bytes, c)
]

-- The first loop of `set`: the size and the entries without those that have expired.
unfoldable pub purge : Time → ℕ → Entries → ℕ × Entries
purge now size [] = (size, [])
purge now size ((k, e) ∷ m) =
    let expired = leb e.expires_at now in
    let (size', m') = purge now (if expired then size - length e.bytes else size) m in
    (size', if expired then m' else (k, e) ∷ m')

-- The inner loop of the eviction, over the key and the expiry found so far; at the start both are
-- the zero value.
unfoldable pub oldest_from : CacheKey → Time → Entries → CacheKey
oldest_from key expiry [] = key
oldest_from key expiry ((k, e) ∷ m) =
    let older = expiry == 0 || ltb e.expires_at expiry in
    oldest_from (if older then k else key) (if older then e.expires_at else expiry) m

abbrev pub no_key : CacheKey
no_key = record { selected_range = []; agent = []; dashboard = false }

unfoldable pub oldest : Entries → CacheKey
unfolding oldest_from
oldest m = oldest_from no_key 0 m

-- The test of the eviction loop, for `n` bytes to come.
unfoldable pub is_full : ResultsCache → ℕ → Bool
is_full c n =
    (ltb 0 c.max_entries && leb c.max_entries (length c.entries))
    || (ltb 0 c.max_bytes && ltb c.max_bytes (c.size + n))

-- The eviction loop, on fuel.
unfoldable pub evict : ℕ → ℕ → ResultsCache → ResultsCache
evict zero n c = c
evict (suc fuel) n c =
    let rest = evict fuel n (drop_key (oldest c.entries) c) in if is_full c n then rest else c

unfoldable pub is_accepted : ResultsCache → Text → Bool
is_accepted c bytes = ltb 0 c.ttl && (c.max_bytes == 0 || leb (length bytes) c.max_bytes)

-- The cache before the new entry is stored.
unfoldable pub make_room : Time → CacheKey → ℕ → ResultsCache → ResultsCache
make_room now key n c =
    let (size, entries) = purge now c.size c.entries in
    let fresh = drop_key key (record c { size = size; entries = entries }) in
    evict (length fresh.entries) n fresh

unfoldable pub set : Time → CacheKey → Text → ResultsCache → ResultsCache
set now key bytes c =
    let room = make_room now key (length bytes) c in
    if is_accepted c bytes
    then record room {
      size = room.size + length bytes;
      entries = insert key (record { bytes = bytes; expires_at = now + c.ttl }) room.entries;
    }
    else c

unfoldable pub clear : ResultsCache → ResultsCache
clear c = record c { size = 0; entries = [] }
