-- ===== src/Auth/Revoked.antt =====
-- Tokens that are used up or withdrawn.
use ferum_board.Prelude.{
  ℕ, ◌+◌, String, Text, ◌≡◌, ◌≢◌, refl, sym, ap, ◌∙◌, subst, Bool, true, not, Option, none, arith,
  inl, inr, ◌≤◌, ltb, str_eq, eq_iff, is_some,
}
use ferum_board.Domain.Error.{AppError, Result, ok, err, unauthorized, forbidden}
use ferum_board.Store.{Db, Env}
use ferum_board.Exec.{World, lift, pure, refuse_if, ◌>>=◌, ◌>>◌}
use ferum_board.Exec.Cached.{cache_exists, cache_set_nx, cache_del}
use ferum_board.Exec.Runs.{
  refuse_if-ok, bind-ok, bind-run, bind-stop, lift-ok, pure-ok, write-ok, Reads-ok, outcome,
}
use ferum_board.Exec.Rules.{Reads-lift, Reads-refuse_if}
use ferum_board.Exec.Keeps.{Keeps, Keeps-bind, Keeps-of_Reads, Keeps-pure}
use ferum_board.Infra.Cache
use ferum_board.Infra.Cache.Laws.{claim_once, shown, get-del_prefix}
use ferum_board.Repo.Users
use ferum_board.Auth.{AuthPorts}
use ferum_board.Auth.Account.{
  validate_password, token_of, claim_token, reset_password, used_token_ttl, refresh_access_token,
  logout, refresh_user, refresh_if_live, refresh_for,
}

abbrev used : AppError
used = forbidden "token_already_used"

set_nx-ok :
    (key : String) (env : Env) (w : World) {v : World} {b : Bool}
    → cache_set_nx key "1" used_token_ttl env w ≡ (ok b, v)
    → ((Cache.set_nx key "1" used_token_ttl env.now w.db.cache).0 ≡ b)
      × (v.db.cache ≡ (Cache.set_nx key "1" used_token_ttl env.now w.db.cache).1)
unfolding cache_set_nx
set_nx-ok key env w h = (cc, cc)

-- What a claim that succeeds has done to the cache.
claimed-ok :
    (key : String) (env : Env) (w : World) {v : World} {a : ℕ} (id : ℕ)
    → (cache_set_nx key "1" used_token_ttl >>= λ claimed. refuse_if (not claimed) used >> pure id)
        env w
      ≡ (ok a, v)
    → ((Cache.set_nx key "1" used_token_ttl env.now w.db.cache).0 ≡ true)
      × (v.db.cache ≡ (Cache.set_nx key "1" used_token_ttl env.now w.db.cache).1)
claimed-ok key env w id h =
    let (claimed, u, h1, k1) =
      bind-ok env (cache_set_nx key "1" used_token_ttl)
        (λ claimed. refuse_if (not claimed) used >> pure id) w h in
    let (y, u', h2, k2) = bind-ok env (refuse_if (not claimed) used) (λ _. pure id) u k1 in
    let b = refuse_if-ok env u (not claimed) used h2 in
    let same = Reads-ok env u _ (Reads-refuse_if (not claimed) used) h2 in
    let end = (pure-ok env u' id k2).1 in
    let (answer, after) = set_nx-ok key env w h1 in
    (answer ∙ ground (arith, b), ap (λ (d : Db). d.cache) (end ∙ same) ∙ after)

claim_token-ok :
    (ports : AuthPorts) (env : Env) (w : World) {v : World} {id : ℕ} (token : String)
    (password : Text)
    → claim_token ports token password env w ≡ (ok id, v)
    → ((Cache.set_nx (ports.used_token_key token) "1" used_token_ttl env.now w.db.cache).0 ≡ true)
      × (v.db.cache
          ≡ (Cache.set_nx (ports.used_token_key token) "1" used_token_ttl env.now w.db.cache).1)
unfolding claim_token
claim_token-ok ports env w {v} token password h =
    let (x, u1, h1, k1) =
      bind-ok env (refuse_if (not (validate_password ports.is_alphanumeric password)) _) _ w h in
    let (id, u2, h2, k2) =
      bind-ok env (lift (token_of (ports.verify_email_token token "password_reset"))) _ u1 k1 in
    subst
      (λ (d : Db).
        ((Cache.set_nx (ports.used_token_key token) "1" used_token_ttl env.now d.cache).0 ≡ true)
        × (v.db.cache
            ≡ (Cache.set_nx (ports.used_token_key token) "1" used_token_ttl env.now d.cache).1))
      ((lift-ok env u1 _ h2).1 ∙ Reads-ok env w _ (Reads-refuse_if _ _) h1)
      (claimed-ok (ports.used_token_key token) env u2 id k2)

Keeps-users-claim_token :
    (ports : AuthPorts) (token : String) (password : Text)
    → Keeps (λ db. db.users) (claim_token ports token password)
unfolding claim_token cache_set_nx
Keeps-users-claim_token ports token password =
    Keeps-bind (λ db. db.users) (refuse_if _ _) _ (Keeps-of_Reads _ _ (Reads-refuse_if _ _))
      (λ _.
        Keeps-bind (λ db. db.users) (lift _) _ (Keeps-of_Reads _ _ (Reads-lift _))
          (λ id.
            Keeps-bind (λ db. db.users)
              (cache_set_nx (ports.used_token_key token) "1" used_token_ttl) _
              (record { same = λ env w. refl })
              (λ b.
                Keeps-bind (λ db. db.users) (refuse_if (not b) used) _
                  (Keeps-of_Reads _ _ (Reads-refuse_if _ _))
                  (λ _. Keeps-pure (λ db. db.users) id))))

-- A token that resets a password does so once: after a reset that succeeds, a reset with the same token
-- ends in an error and changes no user, whatever the password, as long as the cache is the one that the
-- first reset left and the time to live of the token and a minute more have not passed.
pub reset_password_once :
    (ports : AuthPorts) (env env' : Env) (w v w' : World) (token : String) (password again : Text)
    → reset_password ports token password env w ≡ (ok tt, v)
    → w'.db.cache ≡ v.db.cache
    → env'.now ≤ env.now + used_token_ttl
    → ((reset_password ports token again env' w').0 ≢ ok tt)
      × ((reset_password ports token again env' w').1.db.users ≡ w'.db.users)
unfolding reset_password Users.set_password_hash
reset_password_once ports env env' w v w' token password again h same soon =
    elim (outcome (claim_token ports token again) env' w') [
      | inl (id, k) ↦ absurd (second id k)
      | inr (e, k) ↦ ended (
          bind-stop env' w' (claim_token ports token again) _
            (ap (λ r. (r, (claim_token ports token again env' w').1)) k))
    ]
  where
    not_ok : {e : AppError} → err e ≡ ok (tt {0}) → ⊥
    not_ok h = cc

    late : ltb (env.now + used_token_ttl) env'.now ≡ true → ⊥
    late h = ground (arith, h, soon)

    ended :
        {e : AppError}
        → reset_password ports token again env' w'
          ≡ (err e, (claim_token ports token again env' w').1)
        → ((reset_password ports token again env' w').0 ≢ ok tt)
          × ((reset_password ports token again env' w').1.db.users ≡ w'.db.users)
    ended k = (
      λ h. not_ok (sym (ap (λ (r : Result (Unit {0}) × World). r.0) k) ∙ h),
      ap (λ (r : Result (Unit {0}) × World). r.1.db.users) k
          ∙ (Keeps-users-claim_token ports token again).same env' w',
    )

    second :
        (id : ℕ)
        → claim_token ports token again env' w' ≡ (ok id, (claim_token ports token again env' w').1)
        → ⊥
    second id k =
        let (id', u, h1, k1) = bind-ok env (claim_token ports token password) _ w h in
        let (hash, u', h2, k2) =
          bind-ok env (lift (ports.hash password)) (λ hash. Users.set_password_hash id' hash) u
            k1 in
        let kept =
          ap (λ (d : Db). d.cache)
            (write-ok env u' (Users.update_row id' (Users.with_password_hash hash)) k2)
          ∙ ap (λ (d : Db). d.cache) (lift-ok env u _ h2).1 in
        let (first, after) = claim_token-ok ports env w token password h1 in
        let again_claimed = (claim_token-ok ports env' w' token again k).0 in
        late (
          sym (
            claim_once (ports.used_token_key token) "1" "1" used_token_ttl used_token_ttl env.now
              env'.now w.db.cache first)
          ∙ ap
              (λ (c : Cache.Entries).
                (Cache.set_nx (ports.used_token_key token) "1" used_token_ttl env'.now c).0)
              (sym (same ∙ kept ∙ after))
          ∙ again_claimed)

deleted_key :
    (key : String) (now : ℕ) (store : Cache.Entries) → shown key now (Cache.del key store) ≡ none
unfolding Cache.del Cache.remove Cache.del_prefix
deleted_key key now store =
    get-del_prefix (λ j. str_eq j key) key now store ∙ ground (arith, eq_iff key key)

-- A refresh token whose key the cache does not show.
pub refresh_refused :
    (ports : AuthPorts) (env : Env) (w : World) (user_id : ℕ) (token : String)
    → ports.verify_refresh_token token ≡ ok user_id
    → shown (ports.refresh_token_key user_id token) env.now w.db.cache ≡ none
    → refresh_access_token ports token env w ≡ (err unauthorized, w)
unfolding refresh_access_token cache_exists Cache.exists refuse_if lift
refresh_refused ports env w user_id token valid gone =
    bind-run env w (lift (ports.verify_refresh_token token)) (refresh_user ports token)
      (ap (λ r. (r, w)) valid)
    ∙ bind-run env w (cache_exists (ports.refresh_token_key user_id token))
        (refresh_if_live ports user_id) (ap (λ (o : Option String). (ok (is_some o), w)) gone)
    ∙ bind-stop env w (refuse_if true unauthorized) (λ _. refresh_for ports user_id) refl

-- A refresh token that a logout has withdrawn gives no access: a refresh with it is refused and changes
-- nothing, as long as the cache is the one that the logout left.
pub refresh-logout :
    (ports : AuthPorts) (env env' : Env) (w w' : World) (user_id : ℕ) (token : String)
    → ports.verify_refresh_token token ≡ ok user_id
    → w'.db.cache ≡ (logout ports user_id token env w).1.db.cache
    → refresh_access_token ports token env' w' ≡ (err unauthorized, w')
unfolding logout cache_del
refresh-logout ports env env' w w' user_id token valid same =
    refresh_refused ports env' w' user_id token valid (
      ap (shown (ports.refresh_token_key user_id token) env'.now) same
      ∙ deleted_key (ports.refresh_token_key user_id token) env'.now w.db.cache)
