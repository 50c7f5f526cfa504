-- ===== src/Exec/Rules.antt =====
-- What an action that ends in an error has changed. One rule for each way to build an action.
use ferum_board.Prelude.{ℕ, ◌≡◌, refl, ◌∙◌, Bool, true, false, List, [], ◌∷◌, arith, if◌then◌else◌}
use ferum_board.Domain.Error.{AppError, Result, ok, err}
use ferum_board.Domain.Event.{ForumEvent}
use ferum_board.Store.{Db, Env, HookContext}
use ferum_board.Exec.{
  World, Exec, step, pure, lift, fail, attempt, ◌>>=◌, ask, read, each, dispatch_before_hook,
  before_hook, publish, refuse_if, continue, decided, swallow,
}

-- The action changes nothing.
pub record Reads {A : Type 0} (m : Exec A) : Type 0 where
  pub same : (env : Env) (w : World) → (m env w).1.db ≡ w.db

-- The action changes nothing where it ends in an error.
pub record Atomic {A : Type 0} (m : Exec A) : Type 0 where
  pub unchanged :
      (env : Env) (w : World) (e : AppError) → (m env w).0 ≡ err e → (m env w).1.db ≡ w.db

-- The action does not end in an error.
pub record Sure {A : Type 0} (m : Exec A) : Type 0 where
  pub no_error : (env : Env) (w : World) (e : AppError) → (m env w).0 ≡ err e → ⊥

module _ {A : Type 0} where
  pub Atomic-of_Reads : (m : Exec A) → Reads m → Atomic m
  Atomic-of_Reads m r = record { unchanged = λ env w e h. r.same env w }

  pub Atomic-of_Sure : (m : Exec A) → Sure m → Atomic m
  Atomic-of_Sure m s = record { unchanged = λ env w e h. absurd (s.no_error env w e h) }

  pub Atomic-step : (f : Env → ℕ → Db → Result (A × Db)) → Atomic (step f)
  unfolding step
  Atomic-step f = record { unchanged = λ env w e h. ground arith }

  pub Reads-read : (f : Db → Result A) → Reads (read f)
  unfolding read
  Reads-read f = record { same = λ env w. ground arith }

  pub Reads-lift : (r : Result A) → Reads (lift r)
  unfolding lift
  Reads-lift r = record { same = λ env w. refl }

  pub Reads-pure : (a : A) → Reads (pure a)
  unfolding pure
  Reads-pure a = record { same = λ env w. refl }

  pub Reads-fail : (e : AppError) → Reads (fail {A = A} e)
  unfolding fail
  Reads-fail e = record { same = λ env w. refl }

  pub Reads-ask : (f : Env → A) → Reads (ask f)
  unfolding ask
  Reads-ask f = record { same = λ env w. refl }

  pub Sure-pure : (a : A) → Sure (pure a)
  unfolding pure
  Sure-pure a = record { no_error = λ env w e h. cc }

  pub Sure-ask : (f : Env → A) → Sure (ask f)
  unfolding ask
  Sure-ask f = record { no_error = λ env w e h. cc }

  pub Sure-attempt : (m : Exec A) → Sure (attempt m)
  unfolding attempt
  Sure-attempt m = record { no_error = λ env w e h. ground arith }

  pub Sure-swallow : (m : Exec A) → Sure (swallow m)
  unfolding swallow
  Sure-swallow m = record { no_error = λ env w e h. cc }

  pub Reads-attempt : (m : Exec A) → Reads m → Reads (attempt m)
  unfolding attempt
  Reads-attempt m r = record { same = λ env w. ground (arith, r.same env w) }

  pub Sure-if : (b : Bool) (m n : Exec A) → Sure m → Sure n → Sure (if b then m else n)
  Sure-if true m n p q = p
  Sure-if false m n p q = q

  pub Reads-if : (b : Bool) (m n : Exec A) → Reads m → Reads n → Reads (if b then m else n)
  Reads-if true m n p q = p
  Reads-if false m n p q = q

  pub Atomic-if : (b : Bool) (m n : Exec A) → Atomic m → Atomic n → Atomic (if b then m else n)
  Atomic-if true m n p q = p
  Atomic-if false m n p q = q

module _ {A B : Type 0} where
  continue-same :
      (r : Result A) (w : World) (f : A → Exec B) (env : Env)
      → ((a : A) → Reads (f a))
      → (continue r w f env).1.db ≡ w.db
  continue-same (ok a) w f env s = (s a).same env w
  continue-same (err e) w f env s = refl

  pub Reads-bind :
      (m : Exec A) (f : A → Exec B) → Reads m → ((a : A) → Reads (f a)) → Reads (m >>= f)
  unfolding ◌>>=◌
  Reads-bind m f r s = record {
    same = λ env w. let (x, w') = m env w in continue-same x w' f env s ∙ r.same env w;
  }

  continue-Sure :
      (r : Result A) (w : World) (f : A → Exec B) (env : Env) (e : AppError)
      → ((e' : AppError) → r ≡ err e' → ⊥)
      → ((a : A) → Sure (f a))
      → (continue r w f env).0 ≡ err e
      → ⊥
  continue-Sure (ok a) w f env e never s h = (s a).no_error env w e h
  continue-Sure (err e') w f env e never s h = never e' refl

  pub Sure-bind : (m : Exec A) (f : A → Exec B) → Sure m → ((a : A) → Sure (f a)) → Sure (m >>= f)
  unfolding ◌>>=◌
  Sure-bind m f r s = record {
    no_error = λ env w e h.
        let (x, w') = m env w in continue-Sure x w' f env e (λ e' p. r.no_error env w e' p) s h;
  }

  continue-Atomic :
      (r : Result A) (w : World) (f : A → Exec B) (env : Env) (e : AppError)
      → ((a : A) → Atomic (f a))
      → (continue r w f env).0 ≡ err e
      → (continue r w f env).1.db ≡ w.db
  continue-Atomic (ok a) w f env e s h = (s a).unchanged env w e h
  continue-Atomic (err e') w f env e s h = refl

  -- A read, and then what leaves nothing behind where it fails.
  pub Atomic-bind :
      (m : Exec A) (f : A → Exec B) → Reads m → ((a : A) → Atomic (f a)) → Atomic (m >>= f)
  unfolding ◌>>=◌
  Atomic-bind m f r s = record {
    unchanged =
        λ env w e h. let (x, w') = m env w in continue-Atomic x w' f env e s h ∙ r.same env w;
  }

  continue-commit :
      (r : Result A) (w v : World) (f : A → Exec B) (env : Env) (e : AppError)
      → ((e' : AppError) → r ≡ err e' → w.db ≡ v.db)
      → ((a : A) → Sure (f a))
      → (continue r w f env).0 ≡ err e
      → (continue r w f env).1.db ≡ v.db
  continue-commit (ok a) w v f env e same s h = absurd ((s a).no_error env w e h)
  continue-commit (err e') w v f env e same s h = same e' refl

  -- A write, and then only what cannot fail.
  pub Atomic-commit :
      (m : Exec A) (f : A → Exec B) → Atomic m → ((a : A) → Sure (f a)) → Atomic (m >>= f)
  unfolding ◌>>=◌
  Atomic-commit m f r s = record {
    unchanged = λ env w e h.
        let (x, w') = m env w in
        continue-commit x w' w f env e (λ e' p. r.unchanged env w e' p) s h;
  }

pub Sure-each :
    {A : Type 0} (f : A → Exec (Unit {0})) (xs : List A) → ((a : A) → Sure (f a)) → Sure (each f xs)
unfolding each
Sure-each f [] s = Sure-pure tt
Sure-each f (x ∷ xs) s = Sure-bind (f x) (λ _. each f xs) (s x) (λ _. Sure-each f xs s)

pub Reads-each :
    {A : Type 0} (f : A → Exec (Unit {0})) (xs : List A)
    → ((a : A) → Reads (f a))
    → Reads (each f xs)
unfolding each
Reads-each f [] r = Reads-pure tt
Reads-each f (x ∷ xs) r = Reads-bind (f x) (λ _. each f xs) (r x) (λ _. Reads-each f xs r)

pub Sure-publish : (e : ForumEvent) → Sure (publish e)
unfolding publish
Sure-publish x = record { no_error = λ env w e h. cc }

pub Reads-refuse_if : (b : Bool) (e : AppError) → Reads (refuse_if b e)
unfolding refuse_if
Reads-refuse_if b e = Reads-lift (if b then err e else ok tt)

Reads-dispatch : (ctx : HookContext) → Reads (dispatch_before_hook ctx)
unfolding dispatch_before_hook
Reads-dispatch ctx = record { same = λ env w. ground arith }

pub Reads-before_hook : (ctx : HookContext) → Reads (before_hook ctx)
unfolding before_hook
Reads-before_hook ctx =
    Reads-bind (dispatch_before_hook ctx) (λ d. lift (decided d)) (Reads-dispatch ctx)
      (λ d. Reads-lift (decided d))

pub ruleset reads_rules = (
  Reads-read, Reads-lift, Reads-pure, Reads-fail, Reads-ask, Reads-attempt, Reads-if, Reads-bind,
  Reads-before_hook, Reads-refuse_if,
)

pub ruleset sure_rules =
    (Sure-pure, Sure-ask, Sure-attempt, Sure-swallow, Sure-if, Sure-bind, Sure-each, Sure-publish)
