-- ===== src/RoleUseCase/Holders.antt =====
-- Counting the holders of a role, and who remains when rows go.
use ferum_board.Prelude.{
  ℕ, ◌≡◌, refl, sym, ◌∙◌, subst, Bool, true, false, not, Option, none, some, List, [], ◌∷◌, arith,
  any, all, keep, map, ◌==◌, leb, is_none, Bool-cases, inl, inr, ◌≤◌, ==_iff,
}
use ferum_board.Domain.Role.{UserRoleAssignment}
use ferum_board.Repo.Roles.{names, holds_globally, count_distinct, count_global, same_category}

count_distinct-same : (u : ℕ) (ns : List ℕ) → all (λ n. n == u) ns ≡ true → count_distinct ns ≤ 1
unfolding count_distinct
count_distinct-same u [] h = omega arith
count_distinct-same u (n ∷ []) h = ground arith
count_distinct-same u (n ∷ m ∷ ns) h = ground (arith, count_distinct-same u (m ∷ ns))

same_category-none : (c : Option ℕ) → same_category c none ≡ is_none c
same_category-none none = refl
same_category-none (some c) = refl

-- Where every holder of a role is among the rows of one user, there is at most one holder.
holders_of_one :
    (u r t : ℕ) (rows : List UserRoleAssignment)
    → any (holds_globally r t) (keep (λ a. not (names u r none a)) rows) ≡ false
    → all (λ n. n == u) (map (λ a. a.user_id) (keep (holds_globally r t) rows)) ≡ true
holders_of_one u r t [] h = refl
holders_of_one u r t (a ∷ rows) h =
    ground (arith, same_category-none a.category_id, holders_of_one u r t rows)

other_holder :
    (u r t : ℕ) (rows : List UserRoleAssignment)
    → leb (count_global r t rows) 1 ≡ false
    → any (holds_globally r t) (keep (λ a. not (names u r none a)) rows) ≡ true
unfolding count_global
other_holder u r t rows h = ground (
  arith,
  holders_of_one u r t rows,
  count_distinct-same u (map (λ a. a.user_id) (keep (holds_globally r t) rows)),
)

-- Rows that are removed, none of which a holder has.
any-keep_other :
    (id t : ℕ) (p : UserRoleAssignment → Bool) (rows : List UserRoleAssignment)
    → ((a : UserRoleAssignment) → holds_globally id t a ≡ true → p a ≡ false)
    → any (holds_globally id t) (keep (λ a. not (p a)) rows) ≡ any (holds_globally id t) rows
any-keep_other id t p [] apart = refl
any-keep_other id t p (a ∷ rows) apart = ground (arith, apart a, any-keep_other id t p rows apart)

same_category-some : (o : Option ℕ) (k : ℕ) → is_none o ≡ true → same_category o (some k) ≡ false
same_category-some none k h = refl
same_category-some (some c) k h = ground (arith, h)

pub remains :
    (id t user role : ℕ) (c : Option ℕ) (rows : List UserRoleAssignment)
    → any (holds_globally id t) rows ≡ true
    → (is_none c ≡ true → (role == id) ≡ true → leb (count_global id t rows) 1 ≡ false)
    → any (holds_globally id t) (keep (λ a. not (names user role c a)) rows) ≡ true
remains id t user role (some k) rows live more =
    any-keep_other id t (names user role (some k)) rows
      (λ a h. ground (arith, same_category-some a.category_id k, h))
    ∙ live
remains id t user role none rows live more = elim (Bool-cases (role == id)) [
  | inl n ↦
      subst (λ r. any (holds_globally id t) (keep (λ a. not (names user r none a)) rows) ≡ true)
        (sym ((==_iff role id).0 n)) (other_holder user id t rows (more refl n))
  | inr m ↦ any-keep_other id t (names user role none) rows (λ a h. ground (arith, m, h)) ∙ live
]
