-- ===== src/Supervisor/Cache/Bounds.antt =====
-- cmd/supervisor/main.go: the accounting and the limits of `resultsCache`.
use pingmon.Prelude.{
  ℕ, zero, suc, ◌+◌, ◌-◌, ◌≤◌, true, false, ◌||◌, [], ◌∷◌, none, some, ◌≡◌, ◌≢◌, ◌⊎◌, inl, inr,
  refl, arith, ltb, leb, ◌==◌, if◌then◌else◌, length, Bool-cases, Option-cases,
}
use pingmon.Prelude.Text.{Text}
use pingmon.Prelude.Eq.{lookup, insert, remove, lookup-remove, Distinct, insert-Distinct}
use pingmon.Model.{Time}
use pingmon.Supervisor.Cache.Lookups.{lookup-purge, lookup-make_room_self}
use pingmon.Supervisor.Cache.{
  CacheKey, key_eq, key_eq_iff, key_is_eq, CacheEntry, Entries, ResultsCache, drop_key, get, purge,
  oldest_from, oldest, is_full, evict, is_accepted, make_room, set,
}

abbrev pub total : Entries → ℕ
total [] = 0
total ((k, e) ∷ m) = length e.bytes + total m

-- The counter is the size of what is stored, no key is stored twice, and the limits are kept.
pub record IsValid (c : ResultsCache) : Type 0 where
  pub size_is : c.size ≡ total c.entries
  pub distinct : Distinct c.entries
  pub entries_le : (c.max_entries ≡ 0) ⊎ (length c.entries ≤ c.max_entries)
  pub size_le : (c.max_bytes ≡ 0) ⊎ (c.size ≤ c.max_bytes)

remove-absent : (k : CacheKey) (m : Entries) → lookup k m ≡ none → remove k m ≡ m
unfolding lookup remove
remove-absent k [] h = refl
remove-absent k ((j, e) ∷ m) h = ground (arith, remove-absent k m)

remove_sizes :
    (k : CacheKey) (m : Entries) (e : CacheEntry)
    → Distinct m
    → lookup k m ≡ some e
    → (total (remove k m) + length e.bytes ≡ total m) × (length (remove k m) + 1 ≡ length m)
unfolding lookup remove
remove_sizes k [] e d h = absurd (ground arith)
remove_sizes k ((j, f) ∷ m) e d h = elim (Bool-cases (key_eq j k)) [
  | inl same ↦ ground (arith, remove-absent k m, key_eq_iff j k, d.0)
  | inr other ↦ ground (arith, remove_sizes k m e d.1)
]

remove-Distinct : (k : CacheKey) (m : Entries) → Distinct m → Distinct (remove k m)
unfolding remove
remove-Distinct k [] d = d
remove-Distinct k ((j, f) ∷ m) d = elim (Bool-cases (key_eq j k)) [
  | inl same ↦ ground (arith, remove-Distinct k m d.1)
  | inr other ↦ ground (arith, remove-Distinct k m d.1, lookup-remove k j m)
]

-- What is kept inside `set`: all but the limits.
pub record IsCounted (c : ResultsCache) : Type 0 where
  pub size_is : c.size ≡ total c.entries
  pub distinct : Distinct c.entries

drop_key-IsCounted : (k : CacheKey) (c : ResultsCache) → IsCounted c → IsCounted (drop_key k c)
unfolding drop_key
drop_key-IsCounted k c v = elim (Option-cases (lookup k c.entries)) [
  | inl missing ↦ rw (missing, drop_key) v
  | inr (e, found) ↦
      rw (found, drop_key)
        (record {
          size_is = omega (arith, v.size_is, remove_sizes k c.entries e v.distinct found);
          distinct = remove-Distinct k c.entries v.distinct;
        })
]

drop_key_le :
    (k : CacheKey) (c : ResultsCache)
    → IsCounted c
    → (length (drop_key k c).entries ≤ length c.entries) × ((drop_key k c).size ≤ c.size)
unfolding drop_key
drop_key_le k c v = elim (Option-cases (lookup k c.entries)) [
  | inl missing ↦ ground arith
  | inr (e, found) ↦ ground (arith, remove_sizes k c.entries e v.distinct found)
]

purge-IsCounted :
    (now : Time) (size : ℕ) (m : Entries) (rest : ℕ)
    → size ≡ total m + rest
    → Distinct m
    → ((purge now size m).0 ≡ total (purge now size m).1 + rest)
      × Distinct (purge now size m).1
      × (length (purge now size m).1 ≤ length m)
unfolding purge
purge-IsCounted now size [] rest h d = (h, tt, omega arith)
purge-IsCounted now size ((k, e) ∷ m) rest h d = elim (Bool-cases (leb e.expires_at now)) [
  | inl dead ↦ ground (arith, purge-IsCounted now (size - length e.bytes) m rest (omega arith) d.1)
  | inr alive ↦ ground (
    arith,
    purge-IsCounted now size m (rest + length e.bytes) (omega arith) d.1,
    lookup-purge now size m k d.1,
    d.0,
  )
]

oldest_from-mem :
    (key : CacheKey) (expiry : Time) (m : Entries)
    → (oldest_from key expiry m ≡ key)
      ⊎ ((e : CacheEntry) × (lookup (oldest_from key expiry m) m ≡ some e))
unfolding oldest_from lookup
oldest_from-mem key expiry [] = inl refl
oldest_from-mem key expiry ((k, e) ∷ m) =
    let older = expiry == 0 || ltb e.expires_at expiry in
    elim (oldest_from-mem (if older then k else key) (if older then e.expires_at else expiry) m) [
      | inl same ↦ elim (Bool-cases older) [
        | inl yes' ↦ inr (e, ground (arith, key_eq_iff k k))
        | inr no' ↦ inl (ground arith)
      ]
      | inr (f, found) ↦ elim (Bool-cases (key_eq k (oldest_from key expiry ((k, e) ∷ m)))) [
        | inl here ↦ inr (e, ground arith)
        | inr there ↦ inr (f, ground arith)
      ]
    ]

oldest-mem :
    (k : CacheKey) (e : CacheEntry) (m : Entries)
    → (f : CacheEntry) × (lookup (oldest ((k, e) ∷ m)) ((k, e) ∷ m) ≡ some f)
unfolding oldest
oldest-mem k e m = elim (oldest_from-mem k e.expires_at m) [
  | inl same ↦ (e, unfold lookup oldest_from in ground (arith, key_eq_iff k k))
  | inr (f, found) ↦ elim (Bool-cases (key_eq k (oldest_from k e.expires_at m))) [
    | inl here ↦ (e, unfold lookup oldest_from in ground arith)
    | inr there ↦ (f, unfold lookup oldest_from in ground arith)
  ]
]

-- One round of the eviction loop takes one entry out.
evict_step :
    (c : ResultsCache) (m : Entries)
    → c.entries ≡ m
    → IsCounted c
    → m ≢ []
    → length (drop_key (oldest c.entries) c).entries + 1 ≡ length c.entries
evict_step c [] e v ne = absurd (ne refl)
evict_step c ((k, f) ∷ m) e v ne =
    let (g, found) = oldest-mem k f m in
    let there : lookup (oldest c.entries) c.entries ≡ some g = rw e found in
    let sizes = remove_sizes (oldest c.entries) c.entries g v.distinct there in
    unfold drop_key in ground (arith, there, sizes.1)

-- What no operation but the constructor sets.
abbrev pub SameLimits : ResultsCache → ResultsCache → Type 0
SameLimits c d = (c.ttl ≡ d.ttl) × (c.max_entries ≡ d.max_entries) × (c.max_bytes ≡ d.max_bytes)

drop_key-SameLimits : (k : CacheKey) (c : ResultsCache) → SameLimits (drop_key k c) c
unfolding drop_key
drop_key-SameLimits k c = ground arith

not_full_empty :
    (c : ResultsCache) (n : ℕ)
    → IsCounted c
    → length c.entries ≡ 0
    → (c.max_bytes ≡ 0) ⊎ (n ≤ c.max_bytes)
    → is_full c n ≡ false
unfolding is_full
not_full_empty c n v e fits = go c.entries refl
  where
    go : (m : Entries) → c.entries ≡ m → is_full c n ≡ false
    go [] h = ground (arith, v.size_is)
    go ((k, f) ∷ m) h = absurd (ground arith)

-- With fuel for every entry the loop ends by its test, with the accounting kept.
evict_lem :
    (fuel n : ℕ) (c : ResultsCache)
    → length c.entries ≤ fuel
    → IsCounted c
    → (c.max_bytes ≡ 0) ⊎ (n ≤ c.max_bytes)
    → IsCounted (evict fuel n c)
      × (is_full (evict fuel n c) n ≡ false)
      × SameLimits (evict fuel n c) c
unfolding evict
evict_lem zero n c h v fits = (v, not_full_empty c n v (omega arith) fits, (refl, refl, refl))
evict_lem (suc fuel) n c h v fits = elim (Bool-cases (is_full c n)) [
  | inr room ↦ rw (room, evict) (v, room, (refl, refl, refl))
  | inl full ↦
      let c' = drop_key (oldest c.entries) c in
      let same = drop_key-SameLimits (oldest c.entries) c in
      let less = evict_step c c.entries refl v (not_empty full) in
      let (v', room, same') =
        evict_lem fuel n c' (omega (arith, less)) (drop_key-IsCounted (oldest c.entries) c v)
          (ground (arith, same)) in
      rw (full, evict) (v', room, ground (arith, same, same'))
]
  where
    not_empty : is_full c n ≡ true → c.entries ≢ []
    not_empty full e = cc (full, not_full_empty c n v (rw e refl) fits)

-- The cache before the new entry: counted, with room for `n` bytes and one entry.
pub make_room_lem :
    (now : Time) (key : CacheKey) (n : ℕ) (c : ResultsCache)
    → IsValid c
    → (c.max_bytes ≡ 0) ⊎ (n ≤ c.max_bytes)
    → IsCounted (make_room now key n c)
      × (is_full (make_room now key n c) n ≡ false)
      × SameLimits (make_room now key n c) c
unfolding make_room
make_room_lem now key n c v fits =
    let kept = purge-IsCounted now c.size c.entries 0 (omega (arith, v.size_is)) v.distinct in
    let p = purge now c.size c.entries in
    let d : ResultsCache = record c { size = p.0; entries = p.1 } in
    let counted : IsCounted d = record { size_is = omega (arith, kept.0); distinct = kept.1 } in
    let same = drop_key-SameLimits key d in
    let (v', room, same') =
      evict_lem (length (drop_key key d).entries) n (drop_key key d) (omega arith)
        (drop_key-IsCounted key d counted) (ground (arith, same)) in
    (v', room, ground (arith, same, same'))

-- `insert` of a key adds one entry at most.
length-insert : (k : CacheKey) (e : CacheEntry) (m : Entries) → length (insert k e m) ≤ length m + 1
unfolding insert
length-insert k e [] = omega arith
length-insert k e ((j, f) ∷ m) = ground (arith, length-insert k e m)

total-insert :
    (k : CacheKey) (e : CacheEntry) (m : Entries)
    → lookup k m ≡ none
    → total (insert k e m) ≡ total m + length e.bytes
unfolding insert lookup
total-insert k e [] h = omega arith
total-insert k e ((j, f) ∷ m) h = ground (arith, total-insert k e m)

-- Every method keeps the accounting and the limits, whatever it returns.
pub set-IsValid :
    (now : Time) (key : CacheKey) (bytes : Text) (c : ResultsCache)
    → IsValid c
    → IsValid (set now key bytes c)
unfolding set is_accepted
set-IsValid now key bytes c v = elim (Bool-cases (is_accepted c bytes)) [
  | inr refused ↦ rw (refused, set) v
  | inl taken ↦
      let entry : CacheEntry = record { bytes = bytes; expires_at = now + c.ttl } in
      let room = make_room now key (length bytes) c in
      let (counted, free, same) =
        make_room_lem now key (length bytes) c v (unfold is_accepted in ground arith) in
      let gone = lookup-make_room_self now key (length bytes) c in
      let longer = length-insert key entry room.entries in
      let larger = total-insert key entry room.entries gone in
      rw (taken, set)
        (record {
          size_is = omega (arith, counted.size_is, larger);
          distinct = insert-Distinct key entry room.entries counted.distinct;
          entries_le = unfold is_full in ground (arith, free, longer, same);
          size_le = unfold is_full in ground (arith, free, same);
        })
]

get-cases :
    (now : Time) (key : CacheKey) (c : ResultsCache)
    → ((get now key c).1 ≡ c) ⊎ ((get now key c).1 ≡ drop_key key c)
unfolding get
get-cases now key c = ground arith

pub get-IsValid :
    (now : Time) (key : CacheKey) (c : ResultsCache) → IsValid c → IsValid (get now key c).1
get-IsValid now key c v =
    let counted =
      drop_key-IsCounted key c (record { size_is = v.size_is; distinct = v.distinct }) in
    let le = drop_key_le key c (record { size_is = v.size_is; distinct = v.distinct }) in
    let same = drop_key-SameLimits key c in
    let dropped : IsValid (drop_key key c) = record {
      size_is = counted.size_is;
      distinct = counted.distinct;
      entries_le = ground (arith, v.entries_le, le, same);
      size_le = ground (arith, v.size_le, le, same);
    } in
    elim (get-cases now key c) [ inl e ↦ rw e v | inr e ↦ rw e dropped ]

pub get-SameLimits :
    (now : Time) (key : CacheKey) (c : ResultsCache) → SameLimits (get now key c).1 c
get-SameLimits now key c = ground (arith, get-cases now key c, drop_key-SameLimits key c)
