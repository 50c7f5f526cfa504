-- ===== src/RoleUseCase/Failures.antt =====
-- What a failed request on roles leaves behind.
use ferum_board.Prelude.{
  arith, ℕ, String, ◌≡◌, refl, sym, ◌∙◌, ap, subst, List, [], ◌∷◌, ◌⊎◌, inl, inr,
}
use ferum_board.Domain.Error.{AppError, Result, ok, err}
use ferum_board.Domain.AuthUser.{AuthUser}
use ferum_board.Store.{Db, Env}
use ferum_board.Exec.{World, Exec, write, pure, ◌>>=◌}
use ferum_board.Exec.Rules.{Reads, Atomic, Reads-read, Reads-pure, Atomic-step, Atomic-of_Reads}
use ferum_board.Exec.Runs.{bind-cases, step-ok, write-ok}
use ferum_board.Repo.Roles
use ferum_board.Repo.Roles.{cleared, new_assignment, insert_assignment}
use ferum_board.RoleUseCase.{
  prepare_set, prepare_assign, set_role_permissions, assign_role, RoleRequest, create_request,
  delete_request, set_request, assign_request, revoke_request, serve, AssignRoleCmd,
}
use ferum_board.RoleUseCase.Requests.{
  Reads-prepare_set, Reads-prepare_assign, Atomic-create_request, Atomic-delete_request,
  Atomic-revoke_request,
}

-- The row that an assignment inserts.
abbrev pub assigned : AuthUser → AssignRoleCmd → (id : ℕ) → Db → Db
assigned actor cmd id db =
    insert_assignment
      (new_assignment cmd.user_id cmd.role_id cmd.category_id actor.id cmd.expires_at id) db

-- The databases that a request may leave where it fails, by the database that it started from.
abbrev pub MayLeave : AuthUser → RoleRequest → Db → Db → Type 0
MayLeave actor (set_request role_id keys) db db' = (db' ≡ db) ⊎ (db' ≡ cleared role_id db)
MayLeave actor (assign_request cmd) db db' =
    (db' ≡ db) ⊎ ((id : ℕ) × (db' ≡ assigned actor cmd id db))
MayLeave actor _ db db' = db' ≡ db

-- An action whose failures leave databases of a kind.
record Leaves (P : Db → Db → Type 0) {A : Type 0} (m : Exec A) : Type 0 where
  left : (env : Env) (w : World) (e : AppError) → (m env w).0 ≡ err e → P w.db (m env w).1.db

module _ (P : Db → Db → Type 0) (same : (db : Db) → P db db) {A B : Type 0} where
  -- Behind what only reads.
  Leaves-bind :
      (m : Exec A) (f : A → Exec B) → Reads m → ((a : A) → Leaves P (f a)) → Leaves P (m >>= f)
  Leaves-bind m f r s = record {
    left = λ env w e h. elim (bind-cases env w m f) [
      | inl (x, k, run) ↦
          subst (P w.db) (sym (ap (λ (y : Result B × World). y.1.db) run ∙ r.same env w))
            (same w.db)
      | inr (a, k, run) ↦ subst (P w.db) (sym (ap (λ (y : Result B × World). y.1.db) run)) (
          subst (λ d. P d (f a env (m env w).1).1.db) (r.same env w)
            ((s a).left env (m env w).1 e (sym (ap (λ (y : Result B × World). y.0) run) ∙ h)))
    ];
  }

  -- A step that is all or nothing, and a second part that is.
  Leaves-both :
      (m : Exec A) (f : A → Exec B)
      → Atomic m
      → ((a : A) → Atomic (f a))
      → ((env : Env) (w : World) (a : A) → m env w ≡ (ok a, (m env w).1) → P w.db (m env w).1.db)
      → Leaves P (m >>= f)
  Leaves-both m f r s p = record {
    left = λ env w e h. elim (bind-cases env w m f) [
      | inl (x, k, run) ↦
          subst (P w.db) (sym (ap (λ (y : Result B × World). y.1.db) run ∙ r.unchanged env w x k))
            (same w.db)
      | inr (a, k, run) ↦
          subst (P w.db)
            (sym (
              ap (λ (y : Result B × World). y.1.db) run
              ∙ (s a).unchanged env (m env w).1 e
                  (sym (ap (λ (y : Result B × World). y.0) run) ∙ h)))
            (p env w a k)
    ];
  }

module _ (actor : AuthUser) where
  Leaves-set :
      (role_id : ℕ) (keys : List String)
      → Leaves (MayLeave actor (set_request role_id keys)) (Roles.set_role_permissions role_id keys)
  unfolding Roles.set_role_permissions Roles.find_keys Roles.insert_keys write
  Leaves-set role_id keys =
      Leaves-bind (MayLeave actor (set_request role_id keys)) (λ db. inl refl)
        (Roles.find_keys keys) _ (Reads-read _)
        (λ known.
          Leaves-both (MayLeave actor (set_request role_id keys)) (λ db. inl refl)
            (write (cleared role_id)) (λ _. Roles.insert_keys role_id known)
            (Atomic-step (λ env n d. ok (tt, cleared role_id d))) (λ _. inserted known)
            (λ env w a h. inr (write-ok env w (cleared role_id) h)))
    where
      inserted : (known : List String) → Atomic (Roles.insert_keys role_id known)
      inserted [] = Atomic-of_Reads (pure tt) (Reads-pure tt)
      inserted (k ∷ known) = Atomic-step (λ env n d. ok (tt, Roles.granted role_id (k ∷ known) d))

  Leaves-assign :
      (cmd : AssignRoleCmd)
      → Leaves
          (MayLeave actor (assign_request cmd))
          (Roles.assign cmd.user_id cmd.role_id cmd.category_id actor.id cmd.expires_at)
  unfolding Roles.assign Roles.insert_row Roles.fetch_row
  Leaves-assign cmd =
      Leaves-both (MayLeave actor (assign_request cmd)) (λ db. inl refl)
        (Roles.insert_row cmd.user_id cmd.role_id cmd.category_id actor.id cmd.expires_at) _
        (Atomic-step _) (λ a. Atomic-of_Reads _ (Reads-read _))
        (λ env w a h. let k = step-ok env w _ h in inr (env.fresh w.calls, ground (arith, k)))

-- Where a request on roles ends in an error, the database is the one that it started from, but for two
-- cases: a failed change of a role's permissions may have taken all of them from the role, and a failed
-- assignment may have been made.
pub serve-MayLeave :
    (env : Env) (w : World) (actor : AuthUser) (r : RoleRequest) (e : AppError)
    → (serve actor r env w).0 ≡ err e
    → MayLeave actor r w.db (serve actor r env w).1.db
unfolding serve set_role_permissions assign_role pure
serve-MayLeave env w actor (create_request slug) e h =
    (Atomic-create_request actor slug).unchanged env w e h
serve-MayLeave env w actor (delete_request id) e h =
    (Atomic-delete_request actor id).unchanged env w e h
serve-MayLeave env w actor (set_request role_id keys) e h =
    (Leaves-bind (MayLeave actor (set_request role_id keys)) (λ db. inl refl)
        (prepare_set actor role_id) _ (Reads-prepare_set actor role_id)
        (λ _. Leaves-set actor role_id keys)).left
      env w e h
serve-MayLeave env w actor (assign_request cmd) e h =
    elim (bind-cases env w (assign_role actor cmd) (λ _. pure tt)) [
      | inl (x, k, run) ↦
          subst (MayLeave actor (assign_request cmd) w.db)
            (sym (ap (λ (y : Result (Unit {0}) × World). y.1.db) run))
            ((Leaves-bind (MayLeave actor (assign_request cmd)) (λ db. inl refl)
                (prepare_assign actor cmd) _ (Reads-prepare_assign actor cmd)
                (λ _. Leaves-assign actor cmd)).left
              env w x k)
      | inr (a, k, run) ↦ absurd (done (sym (ap (λ (y : Result (Unit {0}) × World). y.0) run) ∙ h))
    ]
  where
    done : ◌≡◌ {A = Result (Unit {0})} (ok tt) (err e) → ⊥
    done p = cc
serve-MayLeave env w actor (revoke_request user role c) e h =
    (Atomic-revoke_request actor user role c).unchanged env w e h
