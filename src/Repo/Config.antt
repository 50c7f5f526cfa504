-- ===== src/Repo/Config.antt =====
-- Site configuration: `get` of
-- backend/crates/ferum-infrastructure/src/repositories/site_config_repository.rs, and the readers of
-- backend/crates/ferum-domain/src/repositories/site_config_repository.rs.
pub mod Runs
use ferum_board.Prelude.{
  ℕ, String, Option, none, some, List, [], ◌∷◌, Text, str_eq, if◌then◌else◌, unwrap_or,
}
use ferum_board.Prelude.Int.{ℤ}
use ferum_board.Domain.Error.{ok}
use ferum_board.Exec.{Exec, read, ask, attempt, pure, ◌>>=◌}

unfoldable pub lookup : String → List (String × Text) → Option Text
lookup key [] = none
lookup key ((k, v) ∷ m) = if str_eq k key then some v else lookup key m

unfoldable pub get : String → Exec (Option Text)
unfolding lookup
get key = read (λ db. ok (lookup key db.config))

abbrev pub parsed_or : (Text → Option ℤ) → Option (Option Text) → ℤ → ℤ
parsed_or parse (some (some v)) default = unwrap_or (parse v) default
parsed_or parse _ default = default

-- A failed call, an absent key and a text that is no integer give the default.
unfoldable pub get_config_i64 : String → ℤ → Exec ℤ
unfolding ◌>>=◌ get
get_config_i64 key default = do
  v ← attempt (get key)
  parse ← ask (λ env. env.parse_int)
  pure (parsed_or parse v default)

abbrev pub count_or : (Text → Option ℕ) → Option (Option Text) → ℕ → ℕ
count_or parse (some (some v)) default = unwrap_or (parse v) default
count_or parse _ default = default

unfoldable pub get_config_u64 : String → ℕ → Exec ℕ
unfolding ◌>>=◌ get
get_config_u64 key default = do
  v ← attempt (get key)
  parse ← ask (λ env. env.parse_u64)
  pure (count_or parse v default)
