-- ===== src/Infra/Cache/Laws.antt =====
-- What a reader of the cache sees.
use ferum_board.Prelude.{
  ℕ, ◌+◌, ◌≤◌, ◌<◌, String, ◌≡◌, refl, Bool, true, Option, none, some, [], ◌∷◌, arith, str_eq,
  eq_iff, ltb, if◌then◌else◌, Bool-cases, inl, inr,
}
use ferum_board.Infra.Cache.{
  CacheEntry, Entries, lookup, insert, remove_if, remove, get, set, set_nx, del_prefix,
  incr_with_ttl, is_expired, u64_mod, counted,
}

self_eq : (k : String) → str_eq k k ≡ true
self_eq k = (eq_iff k k).1 refl

pub lookup-insert :
    (key asked : String) (new : CacheEntry) (store : Entries)
    → lookup asked (insert key new store)
      ≡ (if str_eq key asked then some new else lookup asked store)
unfolding lookup insert
lookup-insert key asked new [] = refl
lookup-insert key asked new ((other, old) ∷ store) = ground (
  arith,
  lookup-insert key asked new store,
  eq_iff other key,
  eq_iff other asked,
  eq_iff key asked,
)

pub lookup-remove_if :
    (p : String → Bool) (j : String) (m : Entries)
    → lookup j (remove_if p m) ≡ (if p j then none else lookup j m)
unfolding lookup remove_if
lookup-remove_if p j [] = ground arith
lookup-remove_if p j ((i, w) ∷ m) = elim (Bool-cases (str_eq i j)) [
  | inl same ↦ let e = (eq_iff i j).0 same in ground (arith, same, e, lookup-remove_if p j m)
  | inr other ↦ ground (arith, other, lookup-remove_if p j m)
]

-- What a client reads at a key and a time.
abbrev pub shown : String → ℕ → Entries → Option String
shown key now store = (get key now store).0

-- A value that is set is read under its key up to the end of its time to live and not after, and a
-- reader of another key sees no change.
pub get-set :
    (key other value : String) (ttl now later : ℕ) (store : Entries)
    → now ≤ later
    → shown other later (set key value ttl now store) ≡ (
        if str_eq key other
        then (if ltb (now + ttl) later then none else some value)
        else shown other later store)
unfolding get set
get-set key other value ttl now later store h = ground (
  arith,
  lookup-insert key other (record { value = value; expires_at = now + ttl }) store,
  eq_iff key other,
)

-- A read changes nothing that a reader at the same time or later can see: the entry that it drops has
-- expired.
pub get-get :
    (key other : String) (now later : ℕ) (store : Entries)
    → now ≤ later
    → shown other later (get key now store).1 ≡ shown other later store
unfolding get remove
get-get key other now later store h =
    ground (arith, lookup-remove_if (λ j. str_eq j key) other store, eq_iff other key)

-- The key claimed by a successful `set_nx` cannot be claimed again before its time to live has ended,
-- and can be once it has.
pub claim_once :
    (key value again : String) (ttl ttl' now later : ℕ) (store : Entries)
    → (set_nx key value ttl now store).0 ≡ true
    → (set_nx key again ttl' later (set_nx key value ttl now store).1).0 ≡ ltb (now + ttl) later
unfolding set_nx
claim_once key value again ttl ttl' now later store h = ground (
  arith,
  lookup-insert key key (record { value = value; expires_at = now + ttl }) store,
  self_eq key,
)

-- After `del_prefix` no key with the prefix is read, and every other key is read as before.
pub get-del_prefix :
    (starts : String → Bool) (key : String) (now : ℕ) (store : Entries)
    → shown key now (del_prefix starts store) ≡ (if starts key then none else shown key now store)
unfolding get del_prefix
get-del_prefix starts key now store = ground (arith, lookup-remove_if starts key store)

-- Counting a live entry whose value reads as `n` answers `n + 1`, stores it and keeps the time of
-- expiry; an expired key starts again at one, with a new time to live. `n + 1` fits a `u64`.
pub incr_with_ttl_counts :
    (parse : String → Option ℕ) (print : ℕ → String) (key : String) (ttl now n : ℕ) (e : CacheEntry)
    (store : Entries)
    → lookup key store ≡ some e
    → parse e.value ≡ some n
    → n + 1 < u64_mod
    → ((incr_with_ttl parse print key ttl now store).0 ≡ (if is_expired e now then 1 else n + 1))
      × (lookup key (incr_with_ttl parse print key ttl now store).1
          ≡ some (
              if is_expired e now
              then record { value = "1"; expires_at = now + ttl }
              else record e { value = print (n + 1) }))
unfolding incr_with_ttl
incr_with_ttl_counts parse print key ttl now n e store found reads small =
    let inserted = lookup-insert key key (counted parse print (lookup key store) ttl now).0 store in
    (ground arith, ground (arith, inserted, self_eq key))
