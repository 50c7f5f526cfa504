-- ===== src/RoleUseCase/Requests.antt =====
-- Every request on roles: what it leaves behind where it fails, and the administrator that remains.
use ferum_board.Prelude.{String, Option, ℕ, ◌≡◌, sym, subst, false, inl, inr, ◌==◌}
use ferum_board.Domain.Error.{ok, or_not_found}
use ferum_board.Domain.AuthUser.{AuthUser}
use ferum_board.Permission.{can_manage_roles, can_manage_users}
use ferum_board.Store.{Db, Env}
use ferum_board.Exec.{World, Exec, lift}
use ferum_board.Exec.Preserves.{Preserves-bind, Preserves-of_Reads}
use ferum_board.Exec.Runs.{outcome, behind, dropped}
use ferum_board.Exec.Rules.{
  Reads, Atomic, Atomic-bind, Atomic-step, Atomic-commit, Sure-pure, Reads-lift, Reads-read,
  Reads-bind, Reads-refuse_if, Reads-pure,
}
use ferum_board.Repo.Roles
use ferum_board.RoleUseCase.{
  create_role, delete_role, set_role_permissions, assign_role, revoke_role, some_role, prepare_set,
  prepare_assign, guard_last_admin, AssignRoleCmd, RoleRequest, create_request, delete_request,
  set_request, assign_request, revoke_request, serve,
}
use ferum_board.RoleUseCase.Admin.{
  HasAdmin, Roles-create-HasAdmin, Roles-delete-HasAdmin, Roles-set-HasAdmin, Roles-assign-HasAdmin,
  revoke_role-HasAdmin, Reads-guard_last_admin,
}

pub Reads-some_role : (id : ℕ) → Reads (some_role id)
unfolding some_role Roles.find_by_id
Reads-some_role id =
    Reads-bind (Roles.find_by_id id) _ (Reads-read _) (λ o. Reads-lift (or_not_found o))

pub Reads-prepare_set : (actor : AuthUser) (role_id : ℕ) → Reads (prepare_set actor role_id)
unfolding prepare_set
Reads-prepare_set actor role_id =
    Reads-bind (lift (can_manage_roles actor)) _ (Reads-lift _)
      (λ _. Reads-bind (some_role role_id) _ (Reads-some_role role_id) (λ r. Reads-refuse_if _ _))

pub Reads-prepare_assign :
    (actor : AuthUser) (cmd : AssignRoleCmd) → Reads (prepare_assign actor cmd)
unfolding prepare_assign Roles.list_for_role
Reads-prepare_assign actor cmd = Reads-bind (lift (can_manage_users actor)) _ (Reads-lift _) (λ _.
    Reads-bind (some_role cmd.role_id) _ (Reads-some_role cmd.role_id) (λ r.
      Reads-bind (Roles.list_for_role cmd.role_id) _ (Reads-read _) (λ keys. Reads-refuse_if _ _)))

Atomic-create_role : (actor : AuthUser) (slug : String) → Atomic (create_role actor slug)
unfolding create_role Roles.create
Atomic-create_role actor slug =
    Atomic-bind (lift (can_manage_roles actor)) _ (Reads-lift _) (λ _. Atomic-step _)

pub Atomic-create_request :
    (actor : AuthUser) (slug : String) → Atomic (serve actor (create_request slug))
unfolding serve
Atomic-create_request actor slug =
    Atomic-commit (create_role actor slug) _ (Atomic-create_role actor slug) (λ r. Sure-pure tt)

pub Atomic-delete_request : (actor : AuthUser) (id : ℕ) → Atomic (serve actor (delete_request id))
unfolding serve delete_role Roles.delete
Atomic-delete_request actor id =
    Atomic-bind (lift (can_manage_roles actor)) _ (Reads-lift _) (λ _. Atomic-step _)

pub Atomic-revoke_request :
    (actor : AuthUser) (user role : ℕ) (c : Option ℕ)
    → Atomic (serve actor (revoke_request user role c))
unfolding serve revoke_role Roles.revoke
Atomic-revoke_request actor user role c =
    Atomic-bind (lift (can_manage_users actor)) _ (Reads-lift _) (λ _.
      Atomic-bind (guard_last_admin role c) _ (Reads-guard_last_admin role c) (λ _. Atomic-step _))

-- A request that is all or nothing, by what it does where it succeeds.
of_atomic :
    (I : Db → Type 0) (env : Env) (w : World) (m : Exec (Unit {0}))
    → Atomic m
    → ((v : World) (x : Unit {0}) → m env w ≡ (ok x, v) → I v.db)
    → I w.db
    → I (m env w).1.db
of_atomic I env w m atomic s a = elim (outcome m env w) [
  | inl (x, h) ↦ s _ x h
  | inr (e, h) ↦ subst I (sym (atomic.unchanged env w e h)) a
]

-- Where the administrators' role exists, is the system's, and has a global holder whose assignment has
-- not expired at the time of a request on roles, all this holds after the request too: whoever makes
-- it, whatever it asks, and whether or not it succeeds, as long as a new role's identifier is not that
-- of the administrators' role.
pub serve-HasAdmin :
    (id : ℕ) (env : Env) (w : World) (actor : AuthUser) (r : RoleRequest)
    → ((n : ℕ) → (env.fresh n == id) ≡ false)
    → HasAdmin id env.now w.db
    → HasAdmin id env.now (serve actor r env w).1.db
unfolding serve create_role delete_role set_role_permissions assign_role
serve-HasAdmin id env w actor (create_request slug) new a =
    of_atomic (HasAdmin id env.now) env w (serve actor (create_request slug))
      (Atomic-create_request actor slug)
      (λ u x h. dropped (HasAdmin id env.now) env w (create_role actor slug) h (λ r v k.
        behind (HasAdmin id env.now) env w (lift (can_manage_roles actor)) (Roles.create slug)
          (Reads-lift _) k (λ u k'. Roles-create-HasAdmin id env.now env u slug (new u.calls) k')
          a))
      a
serve-HasAdmin id env w actor (delete_request i) new a =
    of_atomic (HasAdmin id env.now) env w (serve actor (delete_request i))
      (Atomic-delete_request actor i)
      (λ u x h.
        behind (HasAdmin id env.now) env w (lift (can_manage_roles actor)) (Roles.delete i)
          (Reads-lift _) h (λ u k. Roles-delete-HasAdmin id env.now env u i k) a)
      a
serve-HasAdmin id env w actor (set_request role_id keys) new a =
    (Preserves-bind (HasAdmin id env.now) (prepare_set actor role_id) _
        (Preserves-of_Reads (HasAdmin id env.now) _ (Reads-prepare_set actor role_id))
        (λ _. Roles-set-HasAdmin id env.now role_id keys)).holds
      env w a
serve-HasAdmin id env w actor (assign_request cmd) new a =
    (Preserves-bind (HasAdmin id env.now) (assign_role actor cmd) _
        (Preserves-bind (HasAdmin id env.now) (prepare_assign actor cmd) _
          (Preserves-of_Reads (HasAdmin id env.now) _ (Reads-prepare_assign actor cmd))
          (λ _. Roles-assign-HasAdmin id env.now _ _ _ _ _))
        (λ x. Preserves-of_Reads (HasAdmin id env.now) _ (Reads-pure tt))).holds
      env w a
serve-HasAdmin id env w actor (revoke_request user role c) new a =
    of_atomic (HasAdmin id env.now) env w (serve actor (revoke_request user role c))
      (Atomic-revoke_request actor user role c)
      (λ u x h. revoke_role-HasAdmin id env w actor user role c h a) a
