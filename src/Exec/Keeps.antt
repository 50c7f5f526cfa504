-- ===== src/Exec/Keeps.antt =====
-- What an action leaves alone: a part of the database that none of its writes touches.
use ferum_board.Prelude.{◌≡◌, refl, ◌∙◌, ap, Bool, true, false, List, [], ◌∷◌, arith, if◌then◌else◌}
use ferum_board.Domain.Error.{Result, ok, err}
use ferum_board.Domain.Event.{ForumEvent}
use ferum_board.Store.{Db, Env}
use ferum_board.Exec.{World, Exec, pure, swallow, ◌>>=◌, write, publish, each, continue}
use ferum_board.Exec.Rules.{Reads}

pub record Keeps {B : Type 0} (part : Db → B) {A : Type 0} (m : Exec A) : Type 0 where
  pub same : (env : Env) (w : World) → part (m env w).1.db ≡ part w.db

module _ {B : Type 0} (part : Db → B) where
  pub Keeps-of_Reads : {A : Type 0} (m : Exec A) → Reads m → Keeps part m
  Keeps-of_Reads m r = record { same = λ env w. ap part (r.same env w) }

  pub Keeps-write : (f : Db → Db) → ((db : Db) → part (f db) ≡ part db) → Keeps part (write f)
  unfolding write
  Keeps-write f h = record { same = λ env w. ground (arith, h w.db) }

  pub Keeps-swallow : {A : Type 0} (m : Exec A) → Keeps part m → Keeps part (swallow m)
  unfolding swallow
  Keeps-swallow m k = record { same = k.same }

  pub Keeps-publish :
      (e : ForumEvent)
      → ((db : Db) (es : List ForumEvent) → part (record db { events = es }) ≡ part db)
      → Keeps part (publish e)
  unfolding publish
  Keeps-publish e h = record { same = λ env w. h w.db _ }

  pub Keeps-pure : {A : Type 0} (a : A) → Keeps part (pure a)
  unfolding pure
  Keeps-pure a = record { same = λ env w. refl }

  pub Keeps-if :
      {A : Type 0} (b : Bool) (m n : Exec A)
      → Keeps part m
      → Keeps part n
      → Keeps part (if b then m else n)
  Keeps-if true m n p q = p
  Keeps-if false m n p q = q

  module _ {A C : Type 0} where
    continue-same :
        (r : Result A) (w : World) (f : A → Exec C) (env : Env)
        → ((a : A) → Keeps part (f a))
        → part (continue r w f env).1.db ≡ part w.db
    continue-same (ok a) w f env s = (s a).same env w
    continue-same (err e) w f env s = refl

    pub Keeps-bind :
        (m : Exec A) (f : A → Exec C)
        → Keeps part m
        → ((a : A) → Keeps part (f a))
        → Keeps part (m >>= f)
    unfolding ◌>>=◌
    Keeps-bind m f r s = record {
      same = λ env w. let (x, w') = m env w in continue-same x w' f env s ∙ r.same env w;
    }

    -- A sequence ends with the part that its first action left, where the rest keeps it.
    pub after :
        (m : Exec A) (f : A → Exec C) (env : Env) (w : World)
        → ((a : A) → Keeps part (f a))
        → part ((m >>= f) env w).1.db ≡ part (m env w).1.db
    unfolding ◌>>=◌
    after m f env w s = let (x, w') = m env w in continue-same x w' f env s

  pub Keeps-each :
      {A : Type 0} (f : A → Exec (Unit {0})) (xs : List A)
      → ((a : A) → Keeps part (f a))
      → Keeps part (each f xs)
  unfolding each
  Keeps-each f [] s = Keeps-pure tt
  Keeps-each f (x ∷ xs) s = Keeps-bind (f x) (λ _. each f xs) (s x) (λ _. Keeps-each f xs s)

pub ruleset keeps_rules =
    (Keeps-swallow, Keeps-pure, Keeps-if, Keeps-bind, Keeps-each, Keeps-of_Reads)
