-- ===== src/Exec.antt =====
-- Use cases as actions on the database. Each call of a repository may fail by itself, and then changes
-- nothing; what earlier calls wrote stays written. The environment says which calls fail.
pub mod Rules
pub mod Runs
pub mod Keeps
pub mod Preserves
pub mod Cached
pub mod Gives
use ferum_board.Prelude.{
  ℕ, ◌+◌, Bool, true, false, Option, none, some, List, [], ◌∷◌, ◌++◌, Text, if◌then◌else◌,
}
use ferum_board.Domain.Error.{AppError, Result, ok, err, internal, plugin_blocked}
use ferum_board.Domain.Event.{ForumEvent}
use ferum_board.Store.{Db, Env, HookContext, HookDecision, allow, deny}

pub record World : Type 0 where
  pub db : Db
  -- the calls made so far, by which the environment tells them apart
  pub calls : ℕ

abbrev pub Exec : Type 0 → Type 0
Exec A = Env → World → Result A × World

-- `AppError::Internal` of a failed call; its text is not modelled.
abbrev pub db_error : AppError
db_error = internal "db"

abbrev pub tick : World → World
tick w = record w { calls = w.calls + 1 }

abbrev pub settle : {A : Type 0} → Result (A × Db) → World → Result A × World
settle (ok (a, d)) w = (ok a, record { db = d; calls = w.calls + 1 })
settle (err e) w = (err e, tick w)

abbrev pub continue : {A B : Type 0} → Result A → World → (A → Exec B) → Env → Result B × World
continue (ok a) w f env = f a env w
continue (err e) w f env = (err e, w)

module _ {A : Type 0} where
  -- One call: it may fail, and it reads the environment, the number of the call and the database.
  unfoldable pub step : (Env → ℕ → Db → Result (A × Db)) → Exec A
  step f env w = if env.fails w.calls then (err db_error, tick w) else settle (f env w.calls w.db) w

  unfoldable pub pure : A → Exec A
  pure a env w = (ok a, w)

  -- A result that is computed with no call.
  unfoldable pub lift : Result A → Exec A
  lift r env w = (r, w)

  unfoldable pub fail : AppError → Exec A
  fail e env w = (err e, w)

  -- `.await.ok();`, `let _ =` and a logged error: what the call answers is dropped.
  unfoldable pub swallow : Exec A → Exec (Unit {0})
  swallow m env w = (ok tt, (m env w).1)

  -- `.await.ok()` whose value is used.
  unfoldable pub attempt : Exec A → Exec (Option A)
  attempt m env w =
      let (r, w') = m env w in elim r [ ok a ↦ (ok (some a), w') | err _ ↦ (ok none, w') ]

module _ {A B : Type 0} where
  infixl 10 ◌>>=◌
  unfoldable pub ◌>>=◌ : Exec A → (A → Exec B) → Exec B
  ◌>>=◌ m f env w = let (r, w') = m env w in continue r w' f env

  infixl 10 ◌>>◌
  abbrev pub ◌>>◌ : Exec A → Exec B → Exec B
  m >> n = m >>= λ _. n

-- The environment, which no call changes.
unfoldable pub ask : {A : Type 0} → (Env → A) → Exec A
ask f env w = (ok (f env), w)

-- A call that only reads.
unfoldable pub read : {A : Type 0} → (Db → Result A) → Exec A
unfolding step
read f = step (λ env n d. elim (f d) [ ok a ↦ ok (a, d) | err e ↦ err e ])

-- A call that writes and answers nothing.
unfoldable pub write : (Db → Db) → Exec (Unit {0})
unfolding step
write f = step (λ env n d. ok (tt, f d))

-- `event_bus.publish(event).await`, which does not fail.
unfoldable pub publish : ForumEvent → Exec (Unit {0})
publish e env w = (ok tt, record w { db = record w.db { events = w.db.events ++ e ∷ [] } })

-- `if b { return Err(e) }`.
unfoldable pub refuse_if : Bool → AppError → Exec (Unit {0})
refuse_if b e = lift (if b then err e else ok tt)

-- Each action of a list in turn.
unfoldable pub each : {A : Type 0} → (A → Exec (Unit {0})) → List A → Exec (Unit {0})
unfolding ◌>>=◌
each f [] = pure tt
each f (x ∷ xs) = f x >> each f xs

abbrev decided : HookDecision → Result (Unit {0})
decided allow = ok tt
decided (deny reason error_code) = err (plugin_blocked reason error_code)

-- `PluginHookRuntime::dispatch_before_hook`.
unfoldable pub dispatch_before_hook : HookContext → Exec HookDecision
unfolding step
dispatch_before_hook ctx =
    step (λ env n d. elim (env.hook ctx n) [ ok x ↦ ok (x, d) | err e ↦ err e ])

-- A dispatch, and the refusal where a plugin denies.
unfoldable pub before_hook : HookContext → Exec (Unit {0})
unfolding ◌>>=◌
before_hook ctx = do decision ← dispatch_before_hook ctx; lift (decided decision)
