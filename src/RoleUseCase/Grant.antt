-- ===== src/RoleUseCase/Grant.antt =====
-- What an assignment can add: nothing that its author lacks.
use ferum_board.Prelude.{
  ℕ, String, ◌≡◌, sym, ap, ◌∙◌, subst, Bool, true, false, ◌||◌, not, ◌⊎◌, Option, none, some, List,
  [], ◌∷◌, arith, any, all, find_row, is_some, ==-refl, str_eq, eq_iff, ==_iff, if◌then◌else◌, inl,
  inr, Bool-cases,
}
use ferum_board.Domain.Error.{AppError, ok, err, or_not_found}
use ferum_board.Domain.AuthUser.{AuthUser, contains, has_perm_in}
use ferum_board.Domain.Role.{UserRoleAssignment}
use ferum_board.Permission.{can_manage_users}
use ferum_board.Store.{Db, Env, Access}
use ferum_board.Exec.{World, lift, refuse_if}
use ferum_board.Exec.Runs.{bind-ok, step-ok, lift-ok, read-ok, Reads-ok}
use ferum_board.Repo.Roles
use ferum_board.Repo.Roles.{keys_of, live_for_user}
use ferum_board.RoleCache.Resolve.{is_global, is_scoped}
use ferum_board.RoleCache.Granted.{grants}
use ferum_board.RoleUseCase.{assign_role, prepare_assign, some_role, holds, AssignRoleCmd}
use ferum_board.RoleUseCase.Requests.{Reads-prepare_assign, Reads-some_role}

all-contains :
    (p : String → Bool) (keys : List String) (key : String)
    → all p keys ≡ true
    → contains keys key ≡ true
    → p key ≡ true
unfolding contains
all-contains p [] key h k = cc
all-contains p (x ∷ keys) key h k = ground (arith, all-contains p keys key, same_test x)
  where
    same_test : (x : String) → str_eq x key ≡ true → p x ≡ p key
    same_test x e = ap p ((eq_iff x key).0 e)

in_scope_holds :
    (actor : AuthUser) (o : Option ℕ) (key : String) (c : ℕ)
    → (is_global o || is_scoped o c) ≡ true
    → holds actor o key ≡ true
    → has_perm_in actor key c ≡ true
unfolding has_perm_in
in_scope_holds actor none key c s h = ground (arith, h)
in_scope_holds actor (some k) key c s h =
    subst (λ i. has_perm_in actor key i ≡ true) ((==_iff k c).0 s) (ground (arith, h))

passed :
    (actor : AuthUser) (o : Option ℕ) (xs ys : List String) (refusal : AppError) {x : Unit {0}}
    → ok xs ≡ ok ys
    → (if not (all (holds actor o) ys) then err refusal else ok tt) ≡ ok x
    → all (holds actor o) xs ≡ true
passed actor o xs ys refusal e f = ground (arith, e, f)

-- What the checks of an assignment show where they pass.
prepare_assign-ok :
    (env : Env) (w : World) {v : World} {x : Unit {0}} (actor : AuthUser) (cmd : AssignRoleCmd)
    → prepare_assign actor cmd env w ≡ (ok x, v)
    → all (holds actor cmd.category_id) (keys_of cmd.role_id w.db.access.role_permissions) ≡ true
unfolding prepare_assign Roles.list_for_role refuse_if
prepare_assign-ok env w actor cmd h =
    let (x1, u1, h1, k1) = bind-ok env (lift (can_manage_users actor)) _ w h in
    let (x2, u2, h2, k2) = bind-ok env (some_role cmd.role_id) _ u1 k1 in
    let (keys, u3, h3, k3) = bind-ok env (Roles.list_for_role cmd.role_id) _ u2 k2 in
    let (found, s3) =
      read-ok env u2 (λ db. ok (keys_of cmd.role_id db.access.role_permissions)) h3 in
    let same = Reads-ok env u1 _ (Reads-some_role cmd.role_id) h2 ∙ (lift-ok env w _ h1).1 in
    subst
      (λ (d : Db).
        all (holds actor cmd.category_id) (keys_of cmd.role_id d.access.role_permissions) ≡ true)
      same
      (passed actor cmd.category_id (keys_of cmd.role_id u2.db.access.role_permissions) keys _ found
        (lift-ok env u3 _ k3).0)

-- The row that is read back is the one that was inserted.
fetched :
    (x : UserRoleAssignment) (db : Db) (rest : List UserRoleAssignment) {a : UserRoleAssignment}
    → is_some (Roles.row x.role_id db) ≡ true
    → or_not_found (find_row (Roles.has_joined x.id db) (x ∷ rest)) ≡ ok a
    → x ≡ a
unfolding find_row
fetched x db rest r h = ground (arith, r, h, ==-refl x.id)

-- The tables after the insertion.
insert_row-ok :
    (env : Env) (w : World) {u : World} {x : UserRoleAssignment} (user role : ℕ) (o : Option ℕ)
    (by : ℕ) (until : Option ℕ)
    → Roles.insert_row user role o by until env w ≡ (ok x, u)
    → (u.db.access ≡ record w.db.access { user_roles = x ∷ w.db.access.user_roles })
      × ((x.role_id ≡ role) × ((x.category_id ≡ o) × (is_some (Roles.row role w.db) ≡ true)))
unfolding Roles.insert_row
insert_row-ok env w user role o by until h =
    let k = step-ok env w _ h in
    (ground (arith, k), (ground (arith, k), (ground (arith, k), ground (arith, k))))

-- The tables after an assignment that succeeded.
assign-ok :
    (env : Env) (w : World) {v : World} {a : UserRoleAssignment} (user role : ℕ) (o : Option ℕ)
    (by : ℕ) (until : Option ℕ)
    → Roles.assign user role o by until env w ≡ (ok a, v)
    → (v.db.access ≡ record w.db.access { user_roles = a ∷ w.db.access.user_roles })
      × ((a.role_id ≡ role) × (a.category_id ≡ o))
unfolding Roles.assign Roles.fetch_row
assign-ok env w user role o by until h =
    let (x, u, h1, k1) = bind-ok env (Roles.insert_row user role o by until) _ w h in
    let (after, (r, (c, known))) = insert_row-ok env w user role o by until h1 in
    let (e, s) =
      read-ok env u (λ db. or_not_found (find_row (Roles.has_joined x.id db) db.access.user_roles))
        k1 in
    let rows = ap (λ (t : Access). t.user_roles) after in
    let there =
      ap (λ (t : Access). is_some (find_row (Roles.has_id x.role_id) t.roles)) after
      ∙ ap (λ i. is_some (find_row (Roles.has_id i) w.db.access.roles)) r
      ∙ known in
    let same =
      fetched x u.db w.db.access.user_roles there
        (ap (λ rs. or_not_found (find_row (Roles.has_joined x.id u.db) rs)) (sym rows) ∙ e) in
    (
      ap (λ (d : Db). d.access) s
          ∙ after
          ∙ ap (λ y. record w.db.access { user_roles = y ∷ w.db.access.user_roles }) same,
      (
        ap (λ (y : UserRoleAssignment). y.role_id) (sym same) ∙ r,
        ap (λ (y : UserRoleAssignment). y.category_id) (sym same) ∙ c,
      ),
    )

-- One more row of which the author holds every permission.
one_more :
    (acc : Access) (a : UserRoleAssignment) (actor : AuthUser) (user_id t : ℕ) (key : String)
    (c : ℕ)
    → all (holds actor a.category_id) (keys_of a.role_id acc.role_permissions) ≡ true
    → any (grants acc key c) (live_for_user user_id t (a ∷ acc.user_roles)) ≡ true
    → (any (grants acc key c) (live_for_user user_id t acc.user_roles) ≡ true)
      ⊎ (has_perm_in actor key c ≡ true)
unfolding live_for_user
one_more acc a actor user_id t key c held g =
    elim (Bool-cases (any (grants acc key c) (live_for_user user_id t acc.user_roles))) [
      | inl before ↦ inl before
      | inr none_before ↦ inr (by_row none_before)
    ]
  where
    by_row :
        any (grants acc key c) (live_for_user user_id t acc.user_roles) ≡ false
        → has_perm_in actor key c ≡ true
    by_row m = ground (
      arith,
      in_scope_holds actor a.category_id key c,
      all-contains (holds actor a.category_id) (keys_of a.role_id acc.role_permissions) key held,
      g,
      m,
    )

-- A role that is assigned adds to what users may do only what its author may do: where a user passes
-- the check of a permission in a category after an assignment that succeeded, by the tables and at any
-- time, the user passed it by the tables before, or the author of the assignment passes it.
pub assign_role_adds :
    (env : Env) (w v : World) (actor : AuthUser) (cmd : AssignRoleCmd) (a : UserRoleAssignment)
    (user_id t : ℕ) (key : String) (c : ℕ)
    → assign_role actor cmd env w ≡ (ok a, v)
    → any (grants v.db.access key c) (live_for_user user_id t v.db.access.user_roles) ≡ true
    → (any (grants w.db.access key c) (live_for_user user_id t w.db.access.user_roles) ≡ true)
      ⊎ (has_perm_in actor key c ≡ true)
unfolding assign_role
assign_role_adds env w v actor cmd a user_id t key c h g =
    let (x1, u1, h1, k1) = bind-ok env (prepare_assign actor cmd) _ w h in
    let same = Reads-ok env w _ (Reads-prepare_assign actor cmd) h1 in
    let all_held = prepare_assign-ok env w actor cmd h1 in
    let (after, (role, scope)) =
      assign-ok env u1 cmd.user_id cmd.role_id cmd.category_id actor.id cmd.expires_at k1 in
    one_more w.db.access a actor user_id t key c
      (subst (λ o. all (holds actor o) (keys_of a.role_id w.db.access.role_permissions) ≡ true)
        (sym scope)
        (subst
          (λ r. all (holds actor cmd.category_id) (keys_of r w.db.access.role_permissions) ≡ true)
          (sym role) all_held))
      (subst
        (λ (acc : Access). any (grants acc key c) (live_for_user user_id t acc.user_roles) ≡ true)
        (after ∙ ap (λ (d : Db). record d.access { user_roles = a ∷ d.access.user_roles }) same) g)
