-- ===== src/CategoryUseCase/Recent.antt =====
-- The threads of one category among the recent ones of several.
use ferum_board.Prelude.{
  ℕ, zero, suc, ◌≡◌, refl, sym, ◌∙◌, ap, subst, Bool, true, ◌&&◌, ◌||◌, List, [], ◌∷◌, ◌++◌, ◌==◌,
  any, all, keep, take, arith, is_none, Bool-cases, inl, inr, if◌then◌else◌, ==_iff,
}
use mathlib.Core.List.{append-nil}
use ferum_board.Domain.Forum.{Thread}
use ferum_board.Repo.Threads.{
  in_category, insert_ranked, ranked, ranks_first, recent_rows, insert_id, by_id,
}

-- The first threads of a category, by rank.
abbrev pub recent_of : ℕ → ℕ → List Thread → List Thread
recent_of c limit ts = take limit (ranked (keep (λ t. in_category c t && is_none t.deleted_at) ts))

all-take :
    (p : Thread → Bool) (n : ℕ) (ts : List Thread) → all p ts ≡ true → all p (take n ts) ≡ true
all-take p zero ts h = refl
all-take p (suc n) [] h = refl
all-take p (suc n) (t ∷ ts) h = ground (arith, all-take p n ts)

all-insert_ranked :
    (p : Thread → Bool) (t : Thread) (ts : List Thread)
    → all p (insert_ranked t ts) ≡ (p t && all p ts)
unfolding insert_ranked
all-insert_ranked p t [] = refl
all-insert_ranked p t (u ∷ us) = elim (Bool-cases (ranks_first t u)) [
  | inl first ↦ rw first refl
  | inr later ↦ rw later (ground (arith, all-insert_ranked p t us))
]

all-ranked : (p : Thread → Bool) (ts : List Thread) → all p (ranked ts) ≡ all p ts
unfolding ranked
all-ranked p [] = refl
all-ranked p (t ∷ ts) = all-insert_ranked p t (ranked ts) ∙ ap (λ b. p t && b) (all-ranked p ts)

all-keep : (p q : Thread → Bool) (ts : List Thread) → all p (keep (λ t. p t && q t) ts) ≡ true
all-keep p q [] = refl
all-keep p q (t ∷ ts) = ground (arith, all-keep p q ts)

all-recent_of : (c limit : ℕ) (ts : List Thread) → all (in_category c) (recent_of c limit ts) ≡ true
all-recent_of c limit ts = all-take (in_category c) limit _ (
    all-ranked (in_category c) (keep (λ t. in_category c t && is_none t.deleted_at) ts)
    ∙ all-keep (in_category c) (λ t. is_none t.deleted_at) ts)

keep-own :
    (c d : ℕ) (ts : List Thread)
    → all (in_category d) ts ≡ true
    → keep (in_category c) ts ≡ (if d == c then ts else [])
keep-own c d [] h = ground arith
keep-own c d (t ∷ ts) h =
    ground (arith, keep-own c d ts, ==_iff t.category_id d, ==_iff t.category_id c, ==_iff d c)

keep-append : (p : Thread → Bool) (ts us : List Thread) → keep p (ts ++ us) ≡ keep p ts ++ keep p us
keep-append p [] us = refl
keep-append p (t ∷ ts) us = ground (arith, keep-append p ts us)

-- The step of the category itself.
keep-own_partition :
    (c : ℕ) (ds : List ℕ) (limit : ℕ) (ts rest : List Thread)
    → keep (in_category c) rest ≡ (if any (λ d. d == c) ds then recent_of c limit ts else [])
    → keep (in_category c) (if any (λ e. e == c) ds then rest else recent_of c limit ts ++ rest)
      ≡ recent_of c limit ts
keep-own_partition c ds limit ts rest ih = elim (Bool-cases (any (λ e. e == c) ds)) [
  | inl again ↦ rw again (ground (arith, ih, again))
  | inr first ↦ rw first (
      keep-append (in_category c) (recent_of c limit ts) rest
      ∙ ground (
        arith,
        keep-own c c (recent_of c limit ts) (all-recent_of c limit ts),
        first,
        ==_iff c c,
        ih,
        append-nil (recent_of c limit ts),
      ))
]

-- What the query gives for a category: its first threads, where the category is asked for.
pub keep-recent_rows :
    (c : ℕ) (cs : List ℕ) (limit : ℕ) (ts : List Thread)
    → keep (in_category c) (recent_rows cs limit ts)
      ≡ (if any (λ d. d == c) cs then recent_of c limit ts else [])
unfolding recent_rows
keep-recent_rows c [] limit ts = refl
keep-recent_rows c (d ∷ ds) limit ts = elim (Bool-cases (d == c)) [
  | inl same ↦ rw same (
      subst
        (λ x.
          keep (in_category c) (
            if any (λ e. e == x) ds
            then recent_rows ds limit ts
            else recent_of x limit ts ++ recent_rows ds limit ts)
          ≡ recent_of c limit ts)
        (sym ((==_iff d c).0 same))
        (keep-own_partition c ds limit ts (recent_rows ds limit ts)
          (keep-recent_rows c ds limit ts)))
  | inr other ↦ rw other (elim (Bool-cases (any (λ e. e == d) ds)) [
    | inl again ↦ rw again (keep-recent_rows c ds limit ts)
    | inr first ↦ rw first (
        keep-append (in_category c) (recent_of d limit ts) (recent_rows ds limit ts)
        ∙ ground (
          arith,
          keep-own c d (recent_of d limit ts) (all-recent_of d limit ts),
          other,
          keep-recent_rows c ds limit ts,
        ))
  ])
]

any-insert_id : (p : ℕ → Bool) (i : ℕ) (is : List ℕ) → any p (insert_id i is) ≡ (p i || any p is)
unfolding insert_id
any-insert_id p i [] = refl
any-insert_id p i (j ∷ js) = ground (arith, any-insert_id p i js)

pub any-by_id : (p : ℕ → Bool) (is : List ℕ) → any p (by_id is) ≡ any p is
unfolding by_id
any-by_id p [] = refl
any-by_id p (i ∷ is) = any-insert_id p i (by_id is) ∙ ap (λ b. p i || b) (any-by_id p is)
