-- ===== src/CategoryUseCase/Grouping.antt =====
-- A hash map from identifiers to lists, as the index of the forum builds and empties it: the list of its
-- entries.
use ferum_board.Prelude.{
  ℕ, ◌≡◌, refl, sym, ◌∙◌, Bool, false, not, Option, none, some, List, [], ◌∷◌, ◌++◌, ◌==◌, keep,
  arith, if◌then◌else◌,
}
use mathlib.Core.List.{append_assoc, append-nil}

abbrev pub Groups : Type 0 → Type 0
Groups A = List (ℕ × List A)

module _ {A : Type 0} where
  -- `entry(k).or_default().push(v)`.
  unfoldable pub push : ℕ → A → Groups A → Groups A
  push k v [] = (k, v ∷ []) ∷ []
  push k v ((j, vs) ∷ m) = if j == k then (j, vs ++ v ∷ []) ∷ m else (j, vs) ∷ push k v m

  -- `get(&k).unwrap_or_default()`.
  unfoldable pub get : ℕ → Groups A → List A
  get k [] = []
  get k ((j, vs) ∷ m) = if j == k then vs else get k m

  -- The map after `remove(&k)`.
  unfoldable pub without : ℕ → Groups A → Groups A
  without k m = keep (λ e. not (e.0 == k)) m

  abbrev push_to : Option ℕ → A → Groups A → Groups A
  push_to none v m = m
  push_to (some k) v m = push k v m

  -- The loop that pushes each element under its key, if it has one.
  unfoldable pub grouped : (A → Option ℕ) → List A → Groups A → Groups A
  unfolding push
  grouped key [] m = m
  grouped key (x ∷ xs) m = grouped key xs (push_to (key x) x m)

  -- Whether an element has a key.
  abbrev pub has_key : (A → Option ℕ) → ℕ → A → Bool
  has_key key k x = elim (key x) [ none ↦ false | some j ↦ j == k ]

  get-push :
      (k j : ℕ) (v : A) (m : Groups A)
      → get k (push j v m) ≡ (if j == k then get k m ++ v ∷ [] else get k m)
  unfolding get push
  get-push k j v [] = ground arith
  get-push k j v ((i, vs) ∷ m) = ground (arith, get-push k j v m)

  get-push_to :
      (k : ℕ) (o : Option ℕ) (v : A) (m : Groups A)
      → get k (push_to o v m)
        ≡ get k m ++ (if elim o [ none ↦ false | some j ↦ j == k ] then v ∷ [] else [])
  get-push_to k none v m = sym (append-nil (get k m))
  get-push_to k (some j) v m = ground (arith, get-push k j v m, append-nil (get k m))

  -- A group has the elements with its key, in order.
  pub get-grouped :
      (key : A → Option ℕ) (k : ℕ) (xs : List A) (m : Groups A)
      → get k (grouped key xs m) ≡ get k m ++ keep (has_key key k) xs
  unfolding grouped
  get-grouped key k [] m = sym (append-nil (get k m))
  get-grouped key k (x ∷ xs) m =
      get-grouped key k xs (push_to (key x) x m)
      ∙ ground (
        arith,
        get-push_to k (key x) x m,
        append-nil (get k m),
        append_assoc (get k m) (x ∷ []) (keep (has_key key k) xs),
      )

  pub get-without : (k j : ℕ) (m : Groups A) → (j == k) ≡ false → get k (without j m) ≡ get k m
  unfolding get without
  get-without k j [] h = refl
  get-without k j ((i, vs) ∷ m) h = ground (arith, get-without k j m h)
