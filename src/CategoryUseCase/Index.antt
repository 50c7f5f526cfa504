-- ===== src/CategoryUseCase/Index.antt =====
-- The index of the forum lists every visible category of the top with its visible subcategories.
use ferum_board.Prelude.{
  ℕ, ◌≡◌, refl, ◌∙◌, ap, Bool, true, false, not, ◌&&◌, none, some, List, [], ◌∷◌, ◌==◌, any, keep,
  map, arith,
}
use ferum_board.Domain.Forum.{Category, Thread}
use ferum_board.CategoryUseCase.{item, items_from, index_items, is_top, parent_key, category_key}
use ferum_board.CategoryUseCase.Grouping.{Groups, get, without, grouped, get-grouped, get-without}

abbrev pub same_id : ℕ → Category → Bool
same_id id c = c.id == id

-- No two rows have one identifier.
abbrev pub distinct_ids : List Category → Bool
distinct_ids [] = true
distinct_ids (c ∷ cs) = not (any (same_id c.id) cs) && distinct_ids cs

any-keep :
    (p q : Category → Bool) (cs : List Category) → any p cs ≡ false → any p (keep q cs) ≡ false
any-keep p q [] h = refl
any-keep p q (c ∷ cs) h = ground (arith, any-keep p q cs)

distinct-keep :
    (q : Category → Bool) (cs : List Category)
    → distinct_ids cs ≡ true
    → distinct_ids (keep q cs) ≡ true
distinct-keep q [] h = refl
distinct-keep q (c ∷ cs) h = ground (arith, any-keep (same_id c.id) q cs, distinct-keep q cs)

-- Taking a category's groups out leaves those of the others.
items-without :
    (counts : List (ℕ × ℕ)) (id : ℕ) (cs : List Category) (subs : Groups Category)
    (threads : Groups Thread)
    → any (same_id id) cs ≡ false
    → map
        (λ (c : Category).
          item counts c (get c.id (without id subs)) (get c.id (without id threads)))
        cs
      ≡ map (λ (c : Category). item counts c (get c.id subs) (get c.id threads)) cs
items-without counts id [] subs threads h = refl
items-without counts id (c ∷ cs) subs threads h = ground (
  arith,
  get-without c.id id subs,
  get-without c.id id threads,
  items-without counts id cs subs threads,
)

items_from-map :
    (counts : List (ℕ × ℕ)) (cs : List Category) (subs : Groups Category) (threads : Groups Thread)
    → distinct_ids cs ≡ true
    → items_from counts cs subs threads
      ≡ map (λ (c : Category). item counts c (get c.id subs) (get c.id threads)) cs
unfolding items_from
items_from-map counts [] subs threads h = refl
items_from-map counts (c ∷ cs) subs threads h = ground (
  arith,
  items_from-map counts cs (without c.id subs) (without c.id threads),
  items-without counts c.id cs subs threads,
)

-- A subcategory of a category.
abbrev pub is_sub : ℕ → Category → Bool
is_sub id s = elim s.parent_id [ none ↦ false | some p ↦ p == id ]

keep-subs :
    (id : ℕ) (cs : List Category)
    → keep (is_sub id) (keep (λ c. not (is_top c)) cs) ≡ keep (is_sub id) cs
keep-subs id [] = refl
keep-subs id (c ∷ cs) = ground (arith, keep-subs id cs)

map-eq : {A B : Type 0} (f g : A → B) (xs : List A) → ((x : A) → f x ≡ g x) → map f xs ≡ map g xs
map-eq f g [] h = refl
map-eq f g (x ∷ xs) h = ground (arith, h x, map-eq f g xs h)

-- Where identifiers are distinct, the two maps that the index is made with, and that its loop empties,
-- come to this: an entry for each visible category of the top, in order, with the visible categories
-- whose parent it is, and the threads of the query that are of it.
pub index_items_lem :
    (counts : List (ℕ × ℕ)) (visible : List Category) (recent : List Thread)
    → distinct_ids visible ≡ true
    → index_items counts visible recent
      ≡ map
          (λ (c : Category).
            item counts c (keep (is_sub c.id) visible) (keep (λ t. t.category_id == c.id) recent))
          (keep is_top visible)
unfolding index_items get
index_items_lem counts visible recent h =
    items_from-map counts (keep is_top visible) _ _ (distinct-keep is_top visible h)
    ∙ map-eq _ _ (keep is_top visible)
        (λ c. ap (λ (s : List Category × List Thread). item counts c s.0 s.1) (pair c))
  where
    pair :
        (c : Category)
        → ◌≡◌ {A = List Category × List Thread}
            (
              get c.id (grouped parent_key (keep (λ x. not (is_top x)) visible) []),
              get c.id (grouped category_key recent []),
            )
            (keep (is_sub c.id) visible, keep (λ t. t.category_id == c.id) recent)
    pair c = λ i. (
      (get-grouped parent_key c.id (keep (λ x. not (is_top x)) visible) [] ∙ keep-subs c.id visible)
          i,
      get-grouped category_key c.id recent [] i,
    )
