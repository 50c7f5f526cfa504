-- ===== src/Infra/RateLimit/Limits.antt =====
-- How many calls a window lets through.
use ferum_board.Prelude.{
  ℕ, suc, ◌+◌, ◌-◌, ◌≤◌, ◌<◌, String, ◌≡◌, refl, ◌≢◌, true, Option, none, some, List, [], ◌∙◌,
  subst, ◌∷◌, length, arith, ltb, if◌then◌else◌, min, str_eq, eq_iff, Bool-cases, inl, inr,
}
use ferum_board.Infra.RateLimit.{
  allowed, limited, Window, Windows, u32_mod, lookup, insert, bumped, verdict, check, evict,
}

pub lookup-insert :
    (key asked : String) (new : Window) (store : Windows)
    → lookup asked (insert key new store)
      ≡ (if str_eq key asked then some new else lookup asked store)
unfolding lookup insert
lookup-insert key asked new [] = refl
lookup-insert key asked new ((other, old) ∷ store) = ground (
  arith,
  lookup-insert key asked new store,
  eq_iff other key,
  eq_iff other asked,
  eq_iff key asked,
)

self_eq : (k : String) → str_eq k k ≡ true
self_eq k = (eq_iff k k).1 refl

-- A check of one key leaves the windows of every other key alone.
pub check-lookup_ne :
    (key other : String) (limit window now : ℕ) (store : Windows)
    → key ≢ other
    → lookup other (check key limit window now store).1 ≡ lookup other store
unfolding check
check-lookup_ne key other limit window now store h =
    rw lookup-insert (ground (arith, eq_iff key other))

check-lookup_self :
    (key : String) (limit window now : ℕ) (store : Windows)
    → lookup key (check key limit window now store).1 ≡ some (bumped (lookup key store) now window)
unfolding check
check-lookup_self key limit window now store = rw (lookup-insert, self_eq key) refl

-- The calls that are let through among checks of one key at the given times.
unfoldable pub allowed_among : String → ℕ → ℕ → List ℕ → Windows → ℕ
allowed_among key limit window [] store = 0
allowed_among key limit window (t ∷ ts) store =
    let rest = allowed_among key limit window ts (check key limit window t store).1 in
    elim ((check key limit window t store).0) [ allowed _ ↦ suc rest | limited _ ↦ rest ]

abbrev pub AllUpTo : ℕ → List ℕ → Type 0
AllUpTo bound [] = Unit
AllUpTo bound (t ∷ ts) = (t ≤ bound) × AllUpTo bound ts

step_in_window :
    (key : String) (limit window t : ℕ) (store : Windows) (w : Window)
    → lookup key store ≡ some w
    → t ≤ w.reset_at
    → w.count + 1 < u32_mod
    → (lookup key (check key limit window t store).1 ≡ some (record w { count = w.count + 1 }))
      × ((check key limit window t store).0 ≡ verdict (record w { count = w.count + 1 }) limit t)
unfolding check
step_in_window key limit window t store w h k m =
    (check-lookup_self key limit window t store ∙ ground arith, ground arith)

fill_window :
    (key : String) (limit window : ℕ) (ts : List ℕ) (store : Windows) (w : Window)
    → lookup key store ≡ some w
    → AllUpTo w.reset_at ts
    → w.count + length ts < u32_mod
    → allowed_among key limit window ts store ≡ min (length ts) (limit - w.count)
unfolding allowed_among
fill_window key limit window [] store w h late m = omega arith
fill_window key limit window (t ∷ ts) store w h late m =
    let (kept, said) = step_in_window key limit window t store w h late.0 (omega arith) in
    ground (
      arith,
      said,
      fill_window key limit window ts (check key limit window t store).1
          (record w { count = w.count + 1 }) kept late.1 (omega arith),
    )

-- From a key that has no window, the checks made at a time and then at times up to the end of the
-- window that it starts let exactly the first `limit` through. There are fewer checks than a `u32`
-- counts.
pub allowed_in_window :
    (key : String) (limit window t : ℕ) (ts : List ℕ) (store : Windows)
    → lookup key store ≡ none
    → AllUpTo (t + window) ts
    → length (t ∷ ts) < u32_mod
    → allowed_among key limit window (t ∷ ts) store ≡ min (length (t ∷ ts)) limit
unfolding allowed_among
allowed_in_window key limit window t ts store absent late m =
    let w : Window = record { count = 1; reset_at = t + window } in
    let kept : lookup key (check key limit window t store).1 ≡ some w =
      check-lookup_self key limit window t store ∙ ground arith in
    let rest =
      fill_window key limit window ts (check key limit window t store).1 w kept late
        (omega arith) in
    unfold check in ground (arith, rest)

-- A caller who is refused, and who then waits longer than the time that the refusal reports while no
-- other check of the key is made, is let through, where the limit is not zero.
pub retry_succeeds :
    (key : String) (limit window now retry_after later : ℕ) (store : Windows)
    → 0 < limit
    → (check key limit window now store).0 ≡ limited retry_after
    → now + retry_after < later
    → (check key limit window later (check key limit window now store).1).0 ≡ allowed (limit - 1)
unfolding check
retry_succeeds key limit window now retry_after later store h denied wait =
    rw (lookup-insert, self_eq key) (ground arith)

-- The keys of the map are distinct.
abbrev pub IsNewKey : String → Windows → Type 0
IsNewKey k [] = Unit
IsNewKey k ((j, w) ∷ m) = (j ≢ k) × IsNewKey k m

abbrev pub HasDistinctKeys : Windows → Type 0
HasDistinctKeys [] = Unit
HasDistinctKeys ((j, w) ∷ m) = IsNewKey j m × HasDistinctKeys m

-- What is left of a window after an eviction.
abbrev survives : ℕ → Option Window → Option Window
survives now none = none
survives now (some w) = if ltb now w.reset_at then some w else none

lookup_new : (k : String) (now : ℕ) (m : Windows) → IsNewKey k m → lookup k (evict now m) ≡ none
unfolding lookup evict
lookup_new k now [] h = refl
lookup_new k now ((j, w) ∷ m) h = ground (arith, eq_iff j k, lookup_new k now m h.1)

lookup-evict :
    (k : String) (now : ℕ) (m : Windows)
    → HasDistinctKeys m
    → lookup k (evict now m) ≡ survives now (lookup k m)
unfolding lookup evict
lookup-evict k now [] h = refl
lookup-evict k now ((j, w) ∷ m) h = elim (Bool-cases (str_eq j k)) [
  | inl same ↦
      let gone : lookup k (evict now m) ≡ none =
        lookup_new k now m (subst (λ i. IsNewKey i m) ((eq_iff j k).0 same) h.0) in
      ground (arith, same, gone)
  | inr other ↦ ground (arith, other, lookup-evict k now m h.1)
]

-- Evicting the windows that have passed does not change the answer of a check made at a later time.
pub check-evict :
    (key : String) (limit window now later : ℕ) (store : Windows)
    → HasDistinctKeys store
    → now < later
    → (check key limit window later (evict now store)).0 ≡ (check key limit window later store).0
unfolding check
check-evict key limit window now later store distinct h =
    ground (arith, lookup-evict key now store distinct)
