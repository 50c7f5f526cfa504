-- ===== src/Exec/Preserves.antt =====
-- Invariants: a property of the database that an action leads from the state before it to the state
-- after it, whatever it answers.
use ferum_board.Prelude.{ℕ, ◌≡◌, refl, sym, subst, Bool, true, false, if◌then◌else◌}
use ferum_board.Domain.Error.{Result, ok, err}
use ferum_board.Store.{Db, Env}
use ferum_board.Exec.{World, Exec, step, settle, swallow, ◌>>=◌, continue}
use ferum_board.Exec.Rules.{Reads}
use ferum_board.Exec.Keeps.{Keeps}

pub record Preserves (I : Db → Type 0) {A : Type 0} (m : Exec A) : Type 0 where
  pub holds : (env : Env) (w : World) → I w.db → I (m env w).1.db

module _ (I : Db → Type 0) where
  module _ {A : Type 0} where
    pub Preserves-of_Reads : (m : Exec A) → Reads m → Preserves I m
    Preserves-of_Reads m r = record { holds = λ env w h. subst I (sym (r.same env w)) h }

    settle-holds :
        (r : Result (A × Db)) (w : World)
        → ((a : A) (d : Db) → r ≡ ok (a, d) → I d)
        → I w.db
        → I (settle r w).1.db
    settle-holds (ok (a, d)) w s h = s a d refl
    settle-holds (err e) w s h = h

    attempted :
        (b : Bool) (r : Result A × World) (s : Result A × World)
        → I r.1.db
        → I s.1.db
        → I (if b then r else s).1.db
    attempted true r s h k = h
    attempted false r s h k = k

    -- One call: what it writes where it succeeds.
    pub Preserves-step :
        (f : Env → ℕ → Db → Result (A × Db))
        → ((env : Env) (n : ℕ) (d : Db) (a : A) (d' : Db) → f env n d ≡ ok (a, d') → I d → I d')
        → Preserves I (step f)
    unfolding step
    Preserves-step f s = record {
      holds = λ env w h.
          attempted (env.fails w.calls) _ _ h
            (settle-holds (f env w.calls w.db) w (λ a d e. s env w.calls w.db a d e h) h);
    }

    pub Preserves-swallow : (m : Exec A) → Preserves I m → Preserves I (swallow m)
    unfolding swallow
    Preserves-swallow m p = record { holds = p.holds }

    pub Preserves-if :
        (b : Bool) (m n : Exec A) → Preserves I m → Preserves I n → Preserves I (if b then m else n)
    Preserves-if true m n p q = p
    Preserves-if false m n p q = q

  module _ {A B : Type 0} where
    continue-holds :
        (r : Result A) (w : World) (f : A → Exec B) (env : Env)
        → ((a : A) → Preserves I (f a))
        → I w.db
        → I (continue r w f env).1.db
    continue-holds (ok a) w f env s h = (s a).holds env w h
    continue-holds (err e) w f env s h = h

    pub Preserves-bind :
        (m : Exec A) (f : A → Exec B)
        → Preserves I m
        → ((a : A) → Preserves I (f a))
        → Preserves I (m >>= f)
    unfolding ◌>>=◌
    Preserves-bind m f p s = record {
      holds = λ env w h. let (x, w') = m env w in continue-holds x w' f env s (p.holds env w h);
    }

-- A property of one part, for an action that leaves the part alone.
pub Preserves-of_Keeps :
    {B A : Type 0} (part : Db → B) (P : B → Type 0) (m : Exec A)
    → Keeps part m
    → Preserves (λ db. P (part db)) m
Preserves-of_Keeps part P m k = record { holds = λ env w h. subst P (sym (k.same env w)) h }
