-- ===== src/Permission/Gates.antt =====
-- More permissions never lose an access that fewer gave.
use ferum_board.Prelude.{ℕ, String, ◌≡◌, true, some, arith}
use ferum_board.Prelude.Int.{ℤ}
use ferum_board.Domain.Error.{ok}
use ferum_board.Domain.Perm
use ferum_board.Domain.AuthUser.{AuthUser, is_currently_banned, has_perm, has_perm_in, meets_trust}
use ferum_board.Domain.Forum.{Post, Category}
use ferum_board.Permission.{can_view_category, can_create_post, can_edit_post, can_delete_post}

-- The second user is the first one with further permissions.
pub record Extends (a b : AuthUser) : Type 0 where
  pub same_id : b.id ≡ a.id
  pub same_trust : b.trust_level ≡ a.trust_level
  pub same_ban : b.is_banned ≡ a.is_banned
  pub same_until : b.banned_until ≡ a.banned_until
  pub global : (key : String) → has_perm a key ≡ true → has_perm b key ≡ true
  pub scoped : (key : String) (c : ℕ) → has_perm_in a key c ≡ true → has_perm_in b key c ≡ true

module _ {a b : AuthUser} (e : Extends a b) where
  -- Posting that is allowed to a user stays allowed when the user is given further permissions, with
  -- the identity, the trust level and the ban kept.
  pub can_create_post_mono :
      (category : Category) (now : ℕ)
      → can_create_post a category now ≡ ok tt
      → can_create_post b category now ≡ ok tt
  unfolding can_create_post is_currently_banned meets_trust
  can_create_post_mono category now h = ground (
    arith,
    e.same_trust,
    e.same_ban,
    e.same_until,
    e.scoped Perm.mod_warn category.id,
    e.scoped Perm.post_create category.id,
    e.global Perm.admin_users,
  )

  pub can_edit_post_mono :
      (post : Post) (category_id : ℕ) (w : ℤ) (now : ℕ)
      → can_edit_post a post category_id w now ≡ ok tt
      → can_edit_post b post category_id w now ≡ ok tt
  unfolding can_edit_post is_currently_banned
  can_edit_post_mono post category_id w now h = ground (
    arith,
    e.same_id,
    e.same_ban,
    e.same_until,
    e.scoped Perm.thread_edit_any category_id,
    e.global Perm.post_edit_own,
  )

  pub can_delete_post_mono :
      (post : Post) (category_id now : ℕ)
      → can_delete_post a post category_id now ≡ ok tt
      → can_delete_post b post category_id now ≡ ok tt
  unfolding can_delete_post is_currently_banned
  can_delete_post_mono post category_id now h = ground (
    arith,
    e.same_id,
    e.same_ban,
    e.same_until,
    e.scoped Perm.post_delete_any category_id,
    e.global Perm.post_delete_own,
  )

  -- A category that a user may view can still be viewed when the user is given further permissions, with
  -- the identity, the trust level and the ban kept.
  pub can_view_category_mono :
      (category : Category)
      → can_view_category (some a) category ≡ ok tt
      → can_view_category (some b) category ≡ ok tt
  unfolding can_view_category meets_trust
  can_view_category_mono category h = ground (
    arith,
    e.same_trust,
    e.scoped Perm.mod_view_reports category.id,
    e.global Perm.admin_users,
    e.global Perm.post_create,
  )
