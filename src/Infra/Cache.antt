-- ===== src/Infra/Cache.antt =====
-- backend/crates/ferum-infrastructure/src/cache/in_memory.rs: values with an expiry. The clock is the
-- argument `now`, in the unit of the times to live. A `DashMap` is an association list with one entry
-- for each key.
pub mod Laws
use ferum_board.Prelude.{
  ℕ, ◌+◌, String, Bool, true, false, not, Option, none, some, List, [], ◌∷◌, str_eq, ltb,
  if◌then◌else◌, is_some, unwrap_or, ◌%◌,
}

pub record CacheEntry : Type 0 where
  pub value : String
  pub expires_at : ℕ

abbrev pub Entries : Type 0
Entries = List (String × CacheEntry)

unfoldable pub lookup : String → Entries → Option CacheEntry
lookup k [] = none
lookup k ((j, e) ∷ m) = if str_eq j k then some e else lookup k m

unfoldable pub insert : String → CacheEntry → Entries → Entries
insert k v [] = (k, v) ∷ []
insert k v ((j, e) ∷ m) = if str_eq j k then (k, v) ∷ m else (j, e) ∷ insert k v m

-- Removes every entry whose key passes the test.
unfoldable pub remove_if : (String → Bool) → Entries → Entries
remove_if p [] = []
remove_if p ((j, e) ∷ m) = let rest = remove_if p m in if p j then rest else (j, e) ∷ rest

unfoldable pub remove : String → Entries → Entries
unfolding remove_if
remove k = remove_if (λ j. str_eq j k)

unfoldable pub is_expired : CacheEntry → ℕ → Bool
is_expired e now = ltb e.expires_at now

-- The entry of a read, dropped where it has expired.
abbrev read : Option CacheEntry → String → ℕ → Entries → Option String × Entries
read none key now store = (none, store)
read (some e) key now store =
    if ltb e.expires_at now then (none, remove key store) else (some e.value, store)

unfoldable pub get : String → ℕ → Entries → Option String × Entries
unfolding lookup remove is_expired
get key now store = read (lookup key store) key now store

unfoldable pub set : String → String → ℕ → ℕ → Entries → Entries
unfolding insert
set key value ttl now store = insert key (record { value = value; expires_at = now + ttl }) store

abbrev free : Option CacheEntry → ℕ → Bool
free none now = true
free (some e) now = ltb e.expires_at now

-- Sets the value only where the key is vacant or has expired; the result says whether it did.
unfoldable pub set_nx : String → String → ℕ → ℕ → Entries → Bool × Entries
unfolding lookup insert
set_nx key value ttl now store =
    if free (lookup key store) now
    then (true, insert key (record { value = value; expires_at = now + ttl }) store)
    else (false, store)

unfoldable pub del : String → Entries → Entries
unfolding remove
del key store = remove key store

-- The prefix test of `str::starts_with` is the argument.
unfoldable pub del_prefix : (String → Bool) → Entries → Entries
unfolding remove_if
del_prefix starts store = remove_if starts store

unfoldable pub exists : String → ℕ → Entries → Bool
unfolding get
exists key now store = is_some (get key now store).0

abbrev pub u64_mod : ℕ
u64_mod = 18446744073709551616

-- The entry after a count, and the answer. `parse::<u64>` and `to_string` are the arguments.
abbrev pub counted : (String → Option ℕ) → (ℕ → String) → Option CacheEntry → ℕ → ℕ → CacheEntry × ℕ
counted parse print none ttl now = (record { value = "1"; expires_at = now + ttl }, 1)
counted parse print (some e) ttl now =
    if ltb e.expires_at now then (record { value = "1"; expires_at = now + ttl }, 1) else (
      record e { value = print ((unwrap_or (parse e.value) 0 + 1) % u64_mod) },
      (unwrap_or (parse e.value) 0 + 1) % u64_mod,
    )

unfoldable pub incr_with_ttl :
    (String → Option ℕ) → (ℕ → String) → String → ℕ → ℕ → Entries → ℕ × Entries
unfolding lookup insert is_expired
incr_with_ttl parse print key ttl now store =
    let (e, answer) = counted parse print (lookup key store) ttl now in (answer, insert key e store)
