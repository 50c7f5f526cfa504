-- ===== src/Infra/Package/Paths.antt =====
-- Paths that the comparison holds for equal are equal.
use ferum_board.Prelude.{◌≡◌, refl, ap, true, [], ◌∷◌, arith}
use ferum_board.Text.Laws.{text_eq_iff}
use ferum_board.Infra.Package.{
  Component, normal, cur_dir, parent_dir, root_dir, FilePath, component_eq, path_eq,
}

component_eq→eq : (a b : Component) → component_eq a b ≡ true → a ≡ b
unfolding component_eq
component_eq→eq (normal a) (normal b) h = ap normal ((text_eq_iff a b).0 h)
component_eq→eq (normal a) cur_dir h = cc
component_eq→eq (normal a) parent_dir h = cc
component_eq→eq (normal a) root_dir h = cc
component_eq→eq cur_dir (normal b) h = cc
component_eq→eq cur_dir cur_dir h = refl
component_eq→eq cur_dir parent_dir h = cc
component_eq→eq cur_dir root_dir h = cc
component_eq→eq parent_dir (normal b) h = cc
component_eq→eq parent_dir cur_dir h = cc
component_eq→eq parent_dir parent_dir h = refl
component_eq→eq parent_dir root_dir h = cc
component_eq→eq root_dir (normal b) h = cc
component_eq→eq root_dir cur_dir h = cc
component_eq→eq root_dir parent_dir h = cc
component_eq→eq root_dir root_dir h = refl

pub path_eq→eq : (p q : FilePath) → path_eq p q ≡ true → p ≡ q
unfolding path_eq
path_eq→eq [] [] h = refl
path_eq→eq [] (b ∷ q) h = cc
path_eq→eq (a ∷ p) [] h = cc
path_eq→eq (a ∷ p) (b ∷ q) h = ground (arith, component_eq→eq a b, path_eq→eq p q)
