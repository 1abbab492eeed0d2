-- ===== src/Supervisor/Cache/Lookups.antt =====
-- cmd/supervisor/main.go: which entries the steps of `resultsCache` take away. None adds one or
-- changes one, but for the last step of `set`.
use pingmon.Prelude.{
  ℕ, zero, suc, ◌-◌, [], ◌∷◌, none, some, ◌≡◌, ◌⊎◌, inr, refl, arith, leb, if◌then◌else◌, length,
}
use pingmon.Prelude.Eq.{lookup, lookup-remove, Distinct}
use pingmon.Model.{Time}
use pingmon.Supervisor.Cache.{
  CacheKey, key_eq, key_eq_iff, key_is_eq, Entries, ResultsCache, drop_key, purge, oldest, evict,
  make_room,
}

-- What a lookup gives, it gave before.
abbrev pub Shrinks : Entries → Entries → Type 0
Shrinks m m' = (q : CacheKey) → (lookup q m ≡ none) ⊎ (lookup q m ≡ lookup q m')

pub Shrinks-trans : (l m n : Entries) → Shrinks l m → Shrinks m n → Shrinks l n
Shrinks-trans l m n h k q = ground (arith, h q, k q)

pub lookup-drop_key :
    (k q : CacheKey) (c : ResultsCache)
    → lookup q (drop_key k c).entries ≡ (if key_eq k q then none else lookup q c.entries)
unfolding drop_key
lookup-drop_key k q c = ground (arith, lookup-remove k q c.entries, key_eq_iff k q)

pub drop_key-Shrinks : (k : CacheKey) (c : ResultsCache) → Shrinks (drop_key k c).entries c.entries
drop_key-Shrinks k c q = ground (arith, lookup-drop_key k q c)

-- `purge` keeps what has not expired, and takes the rest away.
pub lookup-purge :
    (now : Time) (size : ℕ) (m : Entries) (q : CacheKey)
    → Distinct m
    → lookup q (purge now size m).1
      ≡ elim (lookup q m) [ none ↦ none | some e ↦ if leb e.expires_at now then none else some e ]
unfolding purge lookup
lookup-purge now size [] q d = refl
lookup-purge now size ((j, e) ∷ m) q d = ground (
  arith,
  lookup-purge now (if leb e.expires_at now then size - length e.bytes else size) m q d.1,
  key_eq_iff j q,
  d.0,
)

pub evict-Shrinks : (fuel n : ℕ) (c : ResultsCache) → Shrinks (evict fuel n c).entries c.entries
unfolding evict
evict-Shrinks zero n c q = inr refl
evict-Shrinks (suc fuel) n c q =
    let k = oldest c.entries in
    ground (arith, evict-Shrinks fuel n (drop_key k c) q, drop_key-Shrinks k c q)

-- After `make_room` the key is gone, and every other is gone or as before.
pub lookup-make_room_self :
    (now : Time) (key : CacheKey) (n : ℕ) (c : ResultsCache)
    → lookup key (make_room now key n c).entries ≡ none
unfolding make_room
lookup-make_room_self now key n c =
    let p = purge now c.size c.entries in
    let d : ResultsCache = record c { size = p.0; entries = p.1 } in
    let e = drop_key key d in
    ground (
      arith,
      evict-Shrinks (length e.entries) n e key,
      lookup-drop_key key key d,
      key_eq_iff key key,
    )

pub make_room-Shrinks :
    (now : Time) (key : CacheKey) (n : ℕ) (c : ResultsCache)
    → Distinct c.entries
    → Shrinks (make_room now key n c).entries c.entries
unfolding make_room
make_room-Shrinks now key n c distinct q =
    let p = purge now c.size c.entries in
    let d : ResultsCache = record c { size = p.0; entries = p.1 } in
    let e = drop_key key d in
    ground (
      arith,
      evict-Shrinks (length e.entries) n e q,
      drop_key-Shrinks key d q,
      lookup-purge now c.size c.entries q distinct,
    )
