-- ===== src/Exec/Runs.antt =====
-- What an action that succeeds has done: one inversion for each way to build an action.
use ferum_board.Prelude.{
  ℕ, ◌+◌, ◌≡◌, refl, sym, ◌⊎◌, inl, inr, subst, ◌∙◌, ap, Bool, false, arith, none, some,
  if◌then◌else◌,
}
use ferum_board.Domain.Error.{AppError, Result, ok, err}
use ferum_board.Store.{Db, Env}
use ferum_board.Exec.{
  World, Exec, step, pure, lift, swallow, ◌>>=◌, read, write, continue, settle, tick, db_error,
  attempt, ask, refuse_if,
}
use ferum_board.Exec.Rules.{Reads}
use ferum_board.Exec.Keeps.{Keeps}

-- No call fails.
abbrev pub Quiet : Env → Type 0
Quiet env = (n : ℕ) → env.fails n ≡ false

module _ {A : Type 0} (env : Env) (w : World) {v : World} {a : A} where
  pub Reads-ok : (m : Exec A) → Reads m → m env w ≡ (ok a, v) → v.db ≡ w.db
  Reads-ok m r h = ap (λ (p : Result A × World). p.1.db) (sym h) ∙ r.same env w

  pub read-ok : (f : Db → Result A) → read f env w ≡ (ok a, v) → (f w.db ≡ ok a) × (v.db ≡ w.db)
  unfolding read
  read-ok f h = (ground arith, ground arith)

  pub step-ok :
      (f : Env → ℕ → Db → Result (A × Db))
      → step f env w ≡ (ok a, v)
      → f env w.calls w.db ≡ ok (a, v.db)
  unfolding step
  step-ok f h = ground arith

  pub lift-ok : (r : Result A) → lift r env w ≡ (ok a, v) → (r ≡ ok a) × (v.db ≡ w.db)
  unfolding lift
  lift-ok r h = (cc, cc)

  pub pure-ok : (x : A) → pure x env w ≡ (ok a, v) → (x ≡ a) × (v.db ≡ w.db)
  unfolding pure
  pure-ok x h = (cc, cc)

pub write-ok :
    (env : Env) (w : World) {v : World} {a : Unit {0}} (f : Db → Db)
    → write f env w ≡ (ok a, v)
    → v.db ≡ f w.db
unfolding write
write-ok env w f h = ground arith

-- A write whose failure is dropped, where no call fails.
pub swallow-write :
    (env : Env) (w : World) {v : World} {a : Unit {0}} (f : Db → Db)
    → Quiet env
    → swallow (write f) env w ≡ (ok a, v)
    → v.db ≡ f w.db
unfolding swallow write
swallow-write env w f q h = ground (arith, q w.calls)

module _ {A B : Type 0} (env : Env) {b : B} {v : World} where
  continue-ok :
      (r : Result A) (u : World) (f : A → Exec B)
      → continue r u f env ≡ (ok b, v)
      → (a : A) × (r ≡ ok a) × (f a env u ≡ (ok b, v))
  continue-ok (ok a) u f h = (a, refl, h)
  continue-ok (err e) u f h = cc

  -- A sequence that succeeds is two actions that succeed.
  pub bind-ok :
      (m : Exec A) (f : A → Exec B) (w : World)
      → (m >>= f) env w ≡ (ok b, v)
      → (a : A) × (u : World) × (m env w ≡ (ok a, u)) × (f a env u ≡ (ok b, v))
  unfolding ◌>>=◌
  bind-ok m f w h =
      let (r, u) = m env w in let (a, e, k) = continue-ok r u f h in (a, u, ap (λ x. (x, u)) e, k)

result-cases : {A : Type 0} (r : Result A) → ((a : A) × (r ≡ ok a)) ⊎ ((e : AppError) × (r ≡ err e))
result-cases (ok a) = inl (a, refl)
result-cases (err e) = inr (e, refl)

-- Every run ends in a result or in an error.
pub outcome :
    {A : Type 0} (m : Exec A) (env : Env) (w : World)
    → ((a : A) × (m env w ≡ (ok a, (m env w).1))) ⊎ ((e : AppError) × ((m env w).0 ≡ err e))
outcome m env w = elim (result-cases (m env w).0) [
  | inl (a, h) ↦ inl (a, ap (λ r. (r, (m env w).1)) h)
  | inr (e, h) ↦ inr (e, h)
]

module _ {A B : Type 0} (env : Env) (w : World) (m : Exec A) (f : A → Exec B) where
  -- A sequence goes on from where its first action succeeded.
  pub bind-run : {u : World} {a : A} → m env w ≡ (ok a, u) → (m >>= f) env w ≡ f a env u
  unfolding ◌>>=◌
  bind-run h = ap (λ x. continue x.0 x.1 f env) h

  -- A sequence ends where its first action fails.
  pub bind-stop : {u : World} {e : AppError} → m env w ≡ (err e, u) → (m >>= f) env w ≡ (err e, u)
  unfolding ◌>>=◌
  bind-stop h = ap (λ x. continue x.0 x.1 f env) h

  -- A sequence either ends with its first action or goes on from it.
  pub bind-cases :
      ((e : AppError) × ((m env w).0 ≡ err e) × ((m >>= f) env w ≡ (err e, (m env w).1)))
      ⊎ ((a : A) × (m env w ≡ (ok a, (m env w).1)) × ((m >>= f) env w ≡ f a env (m env w).1))
  bind-cases = elim (outcome m env w) [
    | inl (a, h) ↦ inr (a, h, bind-run h)
    | inr (e, h) ↦ inl (e, h, bind-stop (ap (λ r. (r, (m env w).1)) h))
  ]

-- One call that the environment lets through.
module _ {A : Type 0} (env : Env) (w : World) (up : env.fails w.calls ≡ false) where
  pub step-run : (f : Env → ℕ → Db → Result (A × Db)) → step f env w ≡ settle (f env w.calls w.db) w
  unfolding step
  step-run f =
      ap (λ (b : Bool). if b then (err db_error, tick w) else settle (f env w.calls w.db) w) up

  pub read-run : (f : Db → A) → read (λ db. ok (f db)) env w ≡ (ok (f w.db), tick w)
  unfolding read
  read-run f = step-run (λ _ _ d. ok (f d, d))

  pub attempt-run :
      (m : Exec A) {a : A} {u : World} → m env w ≡ (ok a, u) → attempt m env w ≡ (ok (some a), u)
  unfolding attempt
  attempt-run m h =
      ap (λ (p : Result A × World). elim p.0 [ ok x ↦ (ok (some x), p.1) | err _ ↦ (ok none, p.1) ])
        h

pub write-run :
    (env : Env) (w : World) (f : Db → Db)
    → env.fails w.calls ≡ false
    → write f env w ≡ (ok tt, record w { db = f w.db; calls = w.calls + 1 })
unfolding write
write-run env w f up = step-run env w up (λ _ _ d. ok (tt, f d))

-- A write behind checks that change nothing.
pub behind :
    {A B : Type 0} (I : Db → Type 0) (env : Env) (w : World) {v : World} {b : B} (m : Exec A)
    (write : Exec B)
    → Reads m
    → (m >>= λ _. write) env w ≡ (ok b, v)
    → ((u : World) → write env u ≡ (ok b, v) → I u.db → I v.db)
    → I w.db
    → I v.db
behind I env w m write r h s a =
    let (x, u, h1, k1) = bind-ok env m (λ _. write) w h in
    s u k1 (subst I (sym (Reads-ok env w m r h1)) a)

-- An action whose answer is dropped.
pub dropped :
    {A : Type 0} (I : Db → Type 0) (env : Env) (w : World) {v : World} {x : Unit {0}} (m : Exec A)
    → (m >>= λ _. pure tt) env w ≡ (ok x, v)
    → ((a : A) (u : World) → m env w ≡ (ok a, u) → I u.db)
    → I v.db
dropped I env w m h s =
    let (a, u, h1, k1) = bind-ok env m (λ _. pure tt) w h in
    subst I (sym (pure-ok env u tt k1).1) (s a u h1)

pub refuse_if-ok :
    (env : Env) (w : World) {v : World} {x : Unit {0}} (b : Bool) (e : AppError)
    → refuse_if b e env w ≡ (ok x, v)
    → b ≡ false
unfolding refuse_if lift
refuse_if-ok env w b e h = ground arith

pub ask-ok :
    (env : Env) (w : World) {v : World} {n : ℕ} → ask (λ e. e.now) env w ≡ (ok n, v) → env.now ≡ n
unfolding ask
ask-ok env w h = cc

-- What a sequence leaves of a part that its second action keeps.
pub after-ok :
    {A B P : Type 0} (part : Db → P) (env : Env) (w : World) {v : World} {b : B} (m : Exec A)
    (f : A → Exec B)
    → ((a : A) → Keeps part (f a))
    → (m >>= f) env w ≡ (ok b, v)
    → (a : A) × (u : World) × (m env w ≡ (ok a, u)) × (part v.db ≡ part u.db)
after-ok part env w m f k h =
    let (a, u, h1, k1) = bind-ok env m f w h in
    (a, u, h1, ap (λ (x : Result _ × World). part x.1.db) (sym k1) ∙ (k a).same env u)
