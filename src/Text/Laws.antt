-- ===== src/Text/Laws.antt =====
-- Equality and membership of texts.
use ferum_board.Prelude.{
  ℕ, Text, ◌≡◌, refl, ◌↔◌, true, not, ◌&&◌, List, [], ◌∷◌, keep, arith, if◌then◌else◌, count_if,
  ◌+◌, Bool-cases, inl, inr, ap,
}
use ferum_board.Text.{text_eq, mem_text, distinct}

pub text_eq_iff : (s t : Text) → (text_eq s t ≡ true) ↔ (s ≡ t)
unfolding text_eq
text_eq_iff [] [] = (λ _. refl, λ _. refl)
text_eq_iff (a ∷ s) (b ∷ t) =
    (λ h. ground (arith, (text_eq_iff s t).0), λ e. ground (arith, (text_eq_iff s t).1))
text_eq_iff [] (b ∷ t) = (λ h. cc, λ e. cc)
text_eq_iff (a ∷ s) [] = (λ h. cc, λ e. cc)

pub text_eq_refl : (s : Text) → text_eq s s ≡ true
text_eq_refl s = (text_eq_iff s s).1 refl

-- How often a key stands in a list.
unfoldable pub times : Text → List Text → ℕ
times k [] = 0
times k (j ∷ ks) = count_if (text_eq j k) + times k ks

pub mem_text-keep_ne :
    (k j : Text) (ks : List Text)
    → mem_text k (keep (λ i. not (text_eq i j)) ks) ≡ (mem_text k ks && not (text_eq k j))
unfolding mem_text
mem_text-keep_ne k j [] = refl
mem_text-keep_ne k j (i ∷ ks) =
    ground (arith, text_eq_iff i j, text_eq_iff i k, text_eq_iff k j, mem_text-keep_ne k j ks)

times-keep_ne :
    (k j : Text) (ks : List Text)
    → times k (keep (λ i. not (text_eq i j)) ks) ≡ (if text_eq k j then 0 else times k ks)
unfolding times
times-keep_ne k j [] = ground arith
times-keep_ne k j (i ∷ ks) =
    ground (arith, text_eq_iff i j, text_eq_iff i k, text_eq_iff k j, times-keep_ne k j ks)

pub mem_text-distinct : (k : Text) (ks : List Text) → mem_text k (distinct ks) ≡ mem_text k ks
unfolding distinct
mem_text-distinct k [] = refl
mem_text-distinct k (j ∷ ks) = ground (
  arith,
  mem_text-keep_ne k j (distinct ks),
  mem_text-distinct k ks,
  text_eq_iff k j,
  text_eq_iff j k,
)

-- A key stands in a list without repetitions once, or not at all.
pub times-distinct : (k : Text) (ks : List Text) → times k (distinct ks) ≡ count_if (mem_text k ks)
unfolding times distinct mem_text
times-distinct k [] = refl
times-distinct k (j ∷ ks) =
    ground (
      arith,
      times-keep_ne k j (distinct ks),
      times-distinct k ks,
      text_eq_iff k j,
      text_eq_iff j k,
    )

-- In a difference of sets, a key stands as often as in the first, unless it is in the second.
pub times-difference :
    (k : Text) (ks old : List Text)
    → times k (keep (λ i. not (mem_text i old)) ks) ≡ (if mem_text k old then 0 else times k ks)
unfolding times
times-difference k [] old = ground arith
times-difference k (i ∷ ks) old = elim (Bool-cases (text_eq i k)) [
  | inl same ↦
      let e = ap (λ j. mem_text j old) ((text_eq_iff i k).0 same) in
      ground (arith, same, e, times-difference k ks old)
  | inr other ↦ ground (arith, other, times-difference k ks old)
]
