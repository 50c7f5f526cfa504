-- ===== src/AdminUseCase/Tree.antt =====
-- Categories stand on two levels, whatever the administrators do but to change a parent.
use ferum_board.Prelude.{
  ℕ, ◌≡◌, refl, ◌∙◌, ap, Bool, true, false, not, Option, none, some, List, [], ◌∷◌, arith, all, any,
  keep, find_row, update_rows, ◌==◌, is_none,
}
use ferum_board.Domain.Forum.{Category}
use ferum_board.Repo.Categories.{has_id, is_child, UpdateCategory, patched}

abbrev at_top : Option Category → Bool
at_top none = false
at_top (some c) = is_none c.parent_id

-- No parent, or one that is there and has none itself.
abbrev pub placed : List Category → Option ℕ → Bool
placed cs none = true
placed cs (some p) = at_top (find_row (has_id p) cs)

-- Every category is placed.
abbrev pub is_forest : List Category → Bool
is_forest cs = all (λ c. placed cs c.parent_id) cs

all_mono :
    {A : Type 0} (p q : A → Bool) (xs : List A)
    → ((x : A) → p x ≡ true → q x ≡ true)
    → all p xs ≡ true
    → all q xs ≡ true
all_mono p q [] h a = refl
all_mono p q (x ∷ xs) h a = ground (arith, h x, all_mono p q xs h)

find-none :
    (id : ℕ) (cs : List Category) → any (has_id id) cs ≡ false → find_row (has_id id) cs ≡ none
unfolding find_row
find-none id [] h = refl
find-none id (c ∷ cs) h = ground (arith, find-none id cs)

placed-cons :
    (c : Category) (cs : List Category) (p : Option ℕ)
    → any (has_id c.id) cs ≡ false
    → placed cs p ≡ true
    → placed (c ∷ cs) p ≡ true
unfolding find_row
placed-cons c cs none f h = refl
placed-cons c cs (some p) f h = ground (arith, find-none c.id cs f)

pub insert-is_forest :
    (c : Category) (cs : List Category)
    → any (has_id c.id) cs ≡ false
    → placed cs c.parent_id ≡ true
    → is_forest cs ≡ true
    → is_forest (c ∷ cs) ≡ true
insert-is_forest c cs f h a = ground (
  arith,
  placed-cons c cs c.parent_id f h,
  all_mono (λ x. placed cs x.parent_id) (λ x. placed (c ∷ cs) x.parent_id) cs
      (λ x. placed-cons c cs x.parent_id f) a,
)

find-without :
    (id q : ℕ) (cs : List Category)
    → (q == id) ≡ false
    → find_row (has_id q) (keep (λ c. not (has_id id c)) cs) ≡ find_row (has_id q) cs
unfolding find_row
find-without id q [] h = refl
find-without id q (c ∷ cs) h = ground (arith, find-without id q cs)

kept-placed :
    (id : ℕ) (cs : List Category) (c : Category)
    → is_child id c ≡ false
    → placed cs c.parent_id ≡ true
    → placed (keep (λ x. not (has_id id x)) cs) c.parent_id ≡ true
kept-placed id cs c h p = of_parent c.parent_id h p
  where
    of_parent :
        (o : Option ℕ)
        → (elim o [ none ↦ false | some q ↦ q == id ]) ≡ false
        → placed cs o ≡ true
        → placed (keep (λ x. not (has_id id x)) cs) o ≡ true
    of_parent none h p = refl
    of_parent (some q) h p = ap at_top (find-without id q cs h) ∙ p

kept :
    (id : ℕ) (cs xs : List Category)
    → any (is_child id) xs ≡ false
    → all (λ c. placed cs c.parent_id) xs ≡ true
    → all
        (λ c. placed (keep (λ x. not (has_id id x)) cs) c.parent_id)
        (keep (λ x. not (has_id id x)) xs)
      ≡ true
kept id cs [] h a = refl
kept id cs (x ∷ xs) h a = ground (arith, kept-placed id cs x, kept id cs xs)

pub delete-is_forest :
    (id : ℕ) (cs : List Category)
    → any (is_child id) cs ≡ false
    → is_forest cs ≡ true
    → is_forest (keep (λ x. not (has_id id x)) cs) ≡ true
delete-is_forest id cs h a = kept id cs cs h a

module _ (id : ℕ) (patch : UpdateCategory) (same : patch.parent_id ≡ none) where
  at_top-update :
      (q : ℕ) (cs : List Category)
      → at_top (find_row (has_id q) (update_rows (has_id id) (patched patch) cs))
        ≡ at_top (find_row (has_id q) cs)
  unfolding find_row update_rows patched
  at_top-update q [] = refl
  at_top-update q (c ∷ cs) = ground (arith, at_top-update q cs, same)

  placed-update :
      (cs : List Category) (p : Option ℕ)
      → placed (update_rows (has_id id) (patched patch) cs) p ≡ placed cs p
  placed-update cs none = refl
  placed-update cs (some q) = at_top-update q cs

  updated_rows :
      (cs xs : List Category)
      → all (λ c. placed cs c.parent_id) xs ≡ true
      → all (λ c. placed cs c.parent_id) (update_rows (has_id id) (patched patch) xs) ≡ true
  unfolding update_rows patched
  updated_rows cs [] a = refl
  updated_rows cs (x ∷ xs) a = ground (arith, updated_rows cs xs, same)

  pub update-is_forest :
      (cs : List Category)
      → is_forest cs ≡ true
      → is_forest (update_rows (has_id id) (patched patch) cs) ≡ true
  update-is_forest cs a =
      all_mono (λ c. placed cs c.parent_id)
        (λ c. placed (update_rows (has_id id) (patched patch) cs) c.parent_id)
        (update_rows (has_id id) (patched patch) cs) (λ x h. placed-update cs x.parent_id ∙ h)
        (updated_rows cs cs a)
