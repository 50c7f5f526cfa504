-- ===== src/Repo/Config/Runs.antt =====
-- Reading the configuration where no call fails.
use ferum_board.Prelude.{ℕ, String, ◌≡◌, false, some}
use ferum_board.Domain.Error.{ok}
use ferum_board.Store.{Env}
use ferum_board.Exec.{World, attempt, tick, pure, ask}
use ferum_board.Exec.Runs.{attempt-run, read-run, bind-run}
use ferum_board.Repo.Config

pub config-run :
    (env : Env) (w : World) (key : String)
    → env.fails w.calls ≡ false
    → attempt (Config.get key) env w ≡ (ok (some (Config.lookup key w.db.config)), tick w)
unfolding Config.get
config-run env w key up =
    attempt-run env w up (Config.get key) (read-run env w up (λ db. Config.lookup key db.config))

pub get_config_u64-run :
    (env : Env) (w : World) (key : String) (default : ℕ)
    → env.fails w.calls ≡ false
    → Config.get_config_u64 key default env w
      ≡ (ok (Config.count_or env.parse_u64 (some (Config.lookup key w.db.config)) default), tick w)
unfolding Config.get_config_u64 pure ask
get_config_u64-run env w key default up =
    bind-run env w (attempt (Config.get key)) _ (config-run env w key up)
