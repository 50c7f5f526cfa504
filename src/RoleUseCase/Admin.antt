-- ===== src/RoleUseCase/Admin.antt =====
-- An administrator always remains.
use ferum_board.Prelude.{
  ℕ, String, ◌≡◌, refl, sym, ap, ◌∙◌, subst, true, false, not, Option, none, some, List, [], ◌∷◌,
  arith, any, keep, find_row, str_eq, eq_iff, ◌==◌, leb, is_none, Bool-cases, inl, inr, ==_iff,
}
use ferum_board.Domain.Role.{Role, UserRoleAssignment}
use ferum_board.Domain.Error.{ok}
use ferum_board.Domain.AuthUser.{AuthUser}
use ferum_board.Permission.{can_manage_users}
use ferum_board.Store.{Db, Env}
use ferum_board.Exec.{World, pure, write, lift, refuse_if, step, ◌>>=◌}
use ferum_board.Exec.Preserves.{Preserves, Preserves-step, Preserves-bind, Preserves-of_Reads}
use ferum_board.Exec.Runs.{bind-ok, step-ok, lift-ok, read-ok, Reads-ok}
use ferum_board.Exec.Rules.{Reads, Reads-pure, Reads-read, Reads-if, Reads-bind, Reads-refuse_if}
use ferum_board.RoleUseCase.{revoke_role, guard_admin, guard_last_admin}
use ferum_board.Repo.Roles
use ferum_board.Repo.Roles.{names, holds_globally, count_global}
use ferum_board.RoleUseCase.Holders.{remains}

-- The role of an identifier is the administrators', and a user holds it everywhere at a time.
pub record HasAdmin (id t : ℕ) (db : Db) : Type 0 where
  pub role : Role
  pub found : Roles.row id db ≡ some role
  pub admin : role.slug ≡ "admin"
  pub system : role.is_system ≡ true
  pub live : any (holds_globally id t) db.access.user_roles ≡ true

find-keep_ne :
    (id i : ℕ) (rs : List Role)
    → (i == id) ≡ false
    → find_row (Roles.has_id id) (keep (λ r. not (r.id == i)) rs) ≡ find_row (Roles.has_id id) rs
unfolding find_row
find-keep_ne id i [] h = refl
find-keep_ne id i (r ∷ rs) h = ground (arith, find-keep_ne id i rs)

any-keep_ne :
    (id i t : ℕ) (rows : List UserRoleAssignment)
    → (i == id) ≡ false
    → any (holds_globally id t) (keep (λ u. not (u.role_id == i)) rows)
      ≡ any (holds_globally id t) rows
any-keep_ne id i t [] h = refl
any-keep_ne id i t (a ∷ rows) h = ground (arith, any-keep_ne id i t rows)

-- A change after which the role is the same and somebody holds it.
HasAdmin-after :
    (id t : ℕ) (d d' : Db)
    → Roles.row id d' ≡ Roles.row id d
    → any (holds_globally id t) d'.access.user_roles ≡ true
    → HasAdmin id t d
    → HasAdmin id t d'
HasAdmin-after id t d d' same live a = record {
  role = a.role;
  found = same ∙ a.found;
  admin = a.admin;
  system = a.system;
  live = live;
}

-- What a deletion that succeeds has deleted: a role that is not the system's.
deleted-lem :
    (o : Option Role) (i : ℕ) (d : Db) {d' : Db} {x : Unit {0}}
    → Roles.deleted_role o i d ≡ ok (x, d')
    → (r : Role) × (o ≡ some r)
      × (r.is_system ≡ false)
      × (Roles.with_access (Roles.without_role i d.access) d ≡ d')
deleted-lem none i d h = cc
deleted-lem (some r) i d h = (r, refl, ground (arith, h), ground (arith, h))

differs :
    (i id : ℕ) (d : Db) (r s : Role)
    → Roles.row i d ≡ some r
    → Roles.row id d ≡ some s
    → r.is_system ≡ false
    → s.is_system ≡ true
    → (i == id) ≡ false
differs i id d r s f g plain system = elim (Bool-cases (i == id)) [
  | inr m ↦ m
  | inl n ↦ absurd (one_role (sym f ∙ ap (λ k. Roles.row k d) ((==_iff i id).0 n) ∙ g) plain system)
]
  where
    one_role : {r s : Role} → some r ≡ some s → r.is_system ≡ false → s.is_system ≡ true → ⊥
    one_role e p q = ground (arith, e, p, q)

module _ (id t : ℕ) (env : Env) (w : World) {v : World} where
  pub Roles-create-HasAdmin :
      (slug : String) {r : Role}
      → (env.fresh w.calls == id) ≡ false
      → Roles.create slug env w ≡ (ok r, v)
      → HasAdmin id t w.db
      → HasAdmin id t v.db
  unfolding Roles.create find_row
  Roles-create-HasAdmin slug new h a =
      let k = step-ok env w _ h in
      HasAdmin-after id t w.db v.db (ground (arith, k, new)) (ground (arith, k, a.live)) a

  pub Roles-delete-HasAdmin :
      (i : ℕ) {x : Unit {0}}
      → Roles.delete i env w ≡ (ok x, v)
      → HasAdmin id t w.db
      → HasAdmin id t v.db
  unfolding Roles.delete
  Roles-delete-HasAdmin i h a =
      let (r, found, plain, same) = deleted-lem (Roles.row i w.db) i w.db (step-ok env w _ h) in
      let other = differs i id w.db r a.role found a.found plain a.system in
      subst (HasAdmin id t) same (
        HasAdmin-after id t w.db (Roles.with_access (Roles.without_role i w.db.access) w.db)
          (find-keep_ne id i w.db.access.roles other)
          (any-keep_ne id i t w.db.access.user_roles other ∙ a.live) a)

-- The permissions of roles do not matter.
HasAdmin-of_permissions :
    (id t : ℕ) (f : Db → Db)
    → ((db : Db) → (f db).access.roles ≡ db.access.roles)
    → ((db : Db) → (f db).access.user_roles ≡ db.access.user_roles)
    → Preserves (HasAdmin id t) (write f)
unfolding write
HasAdmin-of_permissions id t f r u =
    Preserves-step (HasAdmin id t) (λ env n d. ok (tt, f d))
      (λ env n d x d' h a. subst (HasAdmin id t) (ground (arith, h)) (
        HasAdmin-after id t d (f d) (ap (find_row (Roles.has_id id)) (r d))
          (ap (any (holds_globally id t)) (u d) ∙ a.live) a))

pub Roles-set-HasAdmin :
    (id t i : ℕ) (keys : List String)
    → Preserves (HasAdmin id t) (Roles.set_role_permissions i keys)
unfolding Roles.set_role_permissions Roles.find_keys Roles.insert_keys
Roles-set-HasAdmin id t i keys =
    Preserves-bind (HasAdmin id t) (Roles.find_keys keys) _
      (Preserves-of_Reads (HasAdmin id t) _ (Reads-read _))
      (λ known.
        Preserves-bind (HasAdmin id t) (write (Roles.cleared i)) _
          (HasAdmin-of_permissions id t _ (λ db. refl) (λ db. refl)) (λ _. inserted known))
  where
    inserted : (known : List String) → Preserves (HasAdmin id t) (Roles.insert_keys i known)
    inserted [] = Preserves-of_Reads (HasAdmin id t) _ (Reads-pure tt)
    inserted (k ∷ known) = HasAdmin-of_permissions id t _ (λ db. refl) (λ db. refl)

pub Roles-assign-HasAdmin :
    (id t user role : ℕ) (c : Option ℕ) (by : ℕ) (until : Option ℕ)
    → Preserves (HasAdmin id t) (Roles.assign user role c by until)
unfolding Roles.assign Roles.insert_row Roles.fetch_row
Roles-assign-HasAdmin id t user role c by until =
    Preserves-bind (HasAdmin id t) (Roles.insert_row user role c by until) _
      (Preserves-step (HasAdmin id t) _ (λ env n d x d' h a.
        HasAdmin-after id t d d' (ground (arith, h)) (ground (arith, h, a.live)) a))
      (λ a. Preserves-of_Reads (HasAdmin id t) _ (Reads-read _))

-- What the check of a revocation shows where it passes.
guard_admin-ok :
    (role_id : ℕ) (o : Option Role) (r : Role) (env : Env) (w : World) {v : World} {x : Unit {0}}
    → guard_admin role_id o env w ≡ (ok x, v)
    → o ≡ some r
    → r.slug ≡ "admin"
    → leb (count_global role_id env.now w.db.access.user_roles) 1 ≡ false
unfolding Roles.count_global_by_role refuse_if lift ◌>>=◌ step
guard_admin-ok role_id none r env w h e a = cc
guard_admin-ok role_id (some s) r env w h e a = ground (arith, h, e, (eq_iff s.slug "admin").1)

Reads-count : (role_id : ℕ) → Reads (Roles.count_global_by_role role_id)
unfolding Roles.count_global_by_role step
Reads-count role_id = record { same = λ env w. ground arith }

Reads-guard_admin : (role_id : ℕ) (o : Option Role) → Reads (guard_admin role_id o)
Reads-guard_admin role_id none = Reads-pure tt
Reads-guard_admin role_id (some r) =
    Reads-if (str_eq r.slug "admin") _ (pure tt)
      (Reads-bind (Roles.count_global_by_role role_id) _ (Reads-count role_id)
        (λ n. Reads-refuse_if _ _))
      (Reads-pure tt)

pub Reads-guard_last_admin : (role_id : ℕ) (c : Option ℕ) → Reads (guard_last_admin role_id c)
unfolding Roles.find_by_id Roles.count_global_by_role
Reads-guard_last_admin role_id (some k) = Reads-pure tt
Reads-guard_last_admin role_id none =
    Reads-bind (Roles.find_by_id role_id) (guard_admin role_id) (Reads-read _)
      (Reads-guard_admin role_id)

guard_last_admin-ok :
    (role_id : ℕ) (r : Role) (env : Env) (w : World) {v : World} {x : Unit {0}}
    → guard_last_admin role_id none env w ≡ (ok x, v)
    → Roles.row role_id w.db ≡ some r
    → r.slug ≡ "admin"
    → leb (count_global role_id env.now w.db.access.user_roles) 1 ≡ false
unfolding Roles.find_by_id
guard_last_admin-ok role_id r env w h e a =
    let (o, u, h1, k1) = bind-ok env (Roles.find_by_id role_id) (guard_admin role_id) w h in
    let (found, same) = read-ok env w (λ db. ok (Roles.row role_id db)) h1 in
    subst (λ d. leb (count_global role_id env.now d.access.user_roles) 1 ≡ false) same
      (guard_admin-ok role_id o r env u k1 (ok_of (sym found ∙ ap ok e)) a)
  where
    ok_of : {o : Option Role} → ok o ≡ ok (some r) → o ≡ some r
    ok_of q = cc

guard_more :
    (role id : ℕ) (c : Option ℕ) (r : Role) (env : Env) (w : World) {v : World} {x : Unit {0}}
    → guard_last_admin role c env w ≡ (ok x, v)
    → Roles.row id w.db ≡ some r
    → r.slug ≡ "admin"
    → is_none c ≡ true
    → (role == id) ≡ true
    → leb (count_global id env.now w.db.access.user_roles) 1 ≡ false
guard_more role id (some k) r env w h e a n m = cc
guard_more role id none r env w h e a n m =
    subst (λ i. leb (count_global i env.now w.db.access.user_roles) 1 ≡ false)
      ((==_iff role id).0 m)
      (guard_last_admin-ok role r env w h
        (subst (λ i. Roles.row i w.db ≡ some r) (sym ((==_iff role id).0 m)) e) a)

Roles-revoke-HasAdmin :
    (id : ℕ) (env : Env) (w : World) {v : World} {x : Unit {0}} (user role : ℕ) (c : Option ℕ)
    → Roles.revoke user role c env w ≡ (ok x, v)
    → (is_none c ≡ true
        → (role == id) ≡ true
        → leb (count_global id env.now w.db.access.user_roles) 1 ≡ false)
    → HasAdmin id env.now w.db
    → HasAdmin id env.now v.db
unfolding Roles.revoke
Roles-revoke-HasAdmin id env w user role c h more a =
    let k = step-ok env w _ h in
    HasAdmin-after id env.now w.db _ (ground (arith, k))
      (subst (λ rows. any (holds_globally id env.now) rows ≡ true) (ground (arith, k))
        (remains id env.now user role c w.db.access.user_roles a.live more))
      a

pub revoke_role-HasAdmin :
    (id : ℕ) (env : Env) (w : World) {v : World} {x : Unit {0}} (actor : AuthUser) (user role : ℕ)
    (c : Option ℕ)
    → revoke_role actor user role c env w ≡ (ok x, v)
    → HasAdmin id env.now w.db
    → HasAdmin id env.now v.db
unfolding revoke_role
revoke_role-HasAdmin id env w actor user role c h a =
    let (x1, u1, h1, k1) = bind-ok env (lift (can_manage_users actor)) _ w h in
    let (x2, u2, h2, k2) = bind-ok env (guard_last_admin role c) _ u1 k1 in
    let s2 = sym (Reads-ok env u1 _ (Reads-guard_last_admin role c) h2) in
    let a1 = subst (HasAdmin id env.now) (sym (lift-ok env w _ h1).1) a in
    Roles-revoke-HasAdmin id env u2 user role c k2
      (subst
        (λ (d : Db).
          is_none c ≡ true
          → (role == id) ≡ true
          → leb (count_global id env.now d.access.user_roles) 1 ≡ false)
        s2 (guard_more role id c a1.role env u1 h2 a1.found a1.admin))
      (subst (HasAdmin id env.now) s2 a1)
