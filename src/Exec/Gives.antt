-- ===== src/Exec/Gives.antt =====
-- What the answer of an action is like where it succeeds, whatever the state.
use ferum_board.Prelude.{◌≡◌, subst, Bool, true, false, if◌then◌else◌}
use ferum_board.Domain.Error.{ok}
use ferum_board.Store.{Env}
use ferum_board.Exec.{World, Exec, pure, ◌>>=◌}
use ferum_board.Exec.Runs.{bind-ok, pure-ok}

pub record Gives {A : Type 0} (P : A → Type 0) (m : Exec A) : Type 0 where
  pub answer : (env : Env) (w v : World) (a : A) → m env w ≡ (ok a, v) → P a

module _ {A : Type 0} (P : A → Type 0) where
  pub Gives-pure : (a : A) → P a → Gives P (pure a)
  unfolding pure
  Gives-pure a p = record { answer = λ env w v b h. subst P (pure-ok env w a h).0 p }

  pub Gives-if : (b : Bool) (m n : Exec A) → Gives P m → Gives P n → Gives P (if b then m else n)
  Gives-if true m n p q = p
  Gives-if false m n p q = q

  -- A sequence answers what its second action answers, which may rest on the first answer.
  pub Gives-bind :
      {B : Type 0} (Q : B → Type 0) (m : Exec B) (f : B → Exec A)
      → Gives Q m
      → ((b : B) → Q b → Gives P (f b))
      → Gives P (m >>= f)
  Gives-bind Q m f p q = record {
    answer = λ env w v a h.
        let (b, u, h1, k1) = bind-ok env m f w h in
        (q b (p.answer env w u b h1)).answer env u v a k1;
  }

-- Any answer.
pub Gives-any : {A : Type 0} (m : Exec A) → Gives (λ _. Unit {0}) m
Gives-any m = record { answer = λ env w v a h. tt }
