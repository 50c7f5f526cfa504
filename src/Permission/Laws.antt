-- ===== src/Permission/Laws.antt =====
-- What a permission that is granted implies, and how the checks relate.
use ferum_board.Prelude.{ℕ, ◌≡◌, ◌≢◌, refl, ◌↔◌, ◌⊎◌, true, false, some, arith}
use ferum_board.Prelude.Int.{ℤ}
use ferum_board.Domain.Error.{Result, ok, err, forbidden, not_found}
use ferum_board.Domain.Perm
use ferum_board.Domain.AuthUser.{AuthUser, is_currently_banned, has_perm, has_perm_in, meets_trust}
use ferum_board.Domain.Forum.{
  Post, Category, staff_only_view, closed, is_editable_by_author, within_hours,
}
use ferum_board.Permission.{
  can_view_category, category_min, can_create_post, can_edit_post, can_delete_post, can_pin,
  can_lock, can_move, can_upload, can_upload_profile_image,
}

-- What it takes to edit a post.
pub record MayEdit (user : AuthUser) (post : Post) (category_id : ℕ) (w : ℤ) (now : ℕ)
    : Type 0 where
  pub not_banned : is_currently_banned user now ≡ false
  pub live : post.is_deleted ≡ false
  pub entitled :
      (has_perm_in user Perm.thread_edit_any category_id ≡ true)
      ⊎ ((post.author_id ≡ user.id)
          × (has_perm user Perm.post_edit_own ≡ true)
          × (within_hours now post.created_at w ≡ true))

-- An edit is allowed exactly to a user who is not banned, of a post that is not deleted, where the user
-- may edit any post of the category, or is the author, may edit own posts and is within the window.
pub can_edit_post_iff :
    (user : AuthUser) (post : Post) (category_id : ℕ) (w : ℤ) (now : ℕ)
    → (can_edit_post user post category_id w now ≡ ok tt) ↔ MayEdit user post category_id w now
unfolding can_edit_post is_editable_by_author
can_edit_post_iff user post category_id w now = (
  λ h. record { not_banned = ground arith; live = ground arith; entitled = ground arith },
  λ m. ground arith,
)

-- A user may delete a post exactly where not banned, the post is not deleted, and the user may delete any
-- post of the category, or is the author and may delete own posts.
pub can_delete_post_iff :
    (user : AuthUser) (post : Post) (category_id now : ℕ)
    → (can_delete_post user post category_id now ≡ ok tt) ↔ (
        (is_currently_banned user now ≡ false)
        × (post.is_deleted ≡ false)
        × ((has_perm_in user Perm.post_delete_any category_id ≡ true)
            ⊎ ((post.author_id ≡ user.id) × (has_perm user Perm.post_delete_own ≡ true))))
unfolding can_delete_post
can_delete_post_iff user post category_id now =
    (λ h. (ground arith, ground arith, ground arith), λ m. ground arith)

-- What it takes to post in a category.
pub record MayPost (user : AuthUser) (category : Category) (now : ℕ) : Type 0 where
  pub not_banned : is_currently_banned user now ≡ false
  pub seen :
      (category.view_policy ≢ staff_only_view)
      ⊎ ((has_perm_in user Perm.mod_warn category.id ≡ true)
          ⊎ (has_perm user Perm.admin_users ≡ true))
  pub open_policy : category.post_policy ≢ closed
  pub poster : has_perm_in user Perm.post_create category.id ≡ true
  pub trusted_enough :
      (has_perm_in user Perm.mod_warn category.id ≡ true)
      ⊎ (meets_trust user (category_min category.post_policy) ≡ true)

-- Posting is allowed exactly to a user who is not banned and holds `post.create` in the category, where
-- the category is not closed, is not staff-only unless the user moderates it or administers users, and
-- the user moderates it or has the trust that its policy asks for.
pub can_create_post_iff :
    (user : AuthUser) (category : Category) (now : ℕ)
    → (can_create_post user category now ≡ ok tt) ↔ MayPost user category now
unfolding can_create_post
can_create_post_iff user category now = (
  λ h. record {
    not_banned = ground arith;
    seen = ground arith;
    open_policy = ground arith;
    poster = ground arith;
    trusted_enough = ground arith;
  },
  λ m. ground arith,
)

abbrev pub suspended : Result (Unit {0})
suspended = err (forbidden "account_suspended")

-- A user who is banned is refused, with the same error, by every check that guards content: posting,
-- editing, deleting, pinning, locking, moving and uploading.
pub banned_is_refused :
    (user : AuthUser) (post : Post) (category : Category) (w : ℤ) (now : ℕ)
    → is_currently_banned user now ≡ true
    → (can_create_post user category now ≡ suspended)
      × (can_edit_post user post category.id w now ≡ suspended)
      × (can_delete_post user post category.id now ≡ suspended)
      × (can_pin user category.id now ≡ suspended)
      × (can_lock user category.id now ≡ suspended)
      × (can_move user category.id now ≡ suspended)
      × (can_upload user now ≡ suspended)
      × (can_upload_profile_image user now ≡ suspended)
unfolding can_create_post can_edit_post can_delete_post can_pin can_lock can_move can_upload
    can_upload_profile_image
banned_is_refused user post category w now h = rw h (refl, refl, refl, refl, refl, refl, refl, refl)

-- Whoever may post in a staff-only category by `moderation.warn` alone, without
-- `moderation.view_reports` there and without `admin.users`, is told that the category does not exist
-- when viewing it.
pub warn_only_cannot_view :
    (user : AuthUser) (category : Category) (now : ℕ)
    → category.view_policy ≡ staff_only_view
    → can_create_post user category now ≡ ok tt
    → has_perm_in user Perm.mod_view_reports category.id ≡ false
    → has_perm user Perm.admin_users ≡ false
    → (has_perm_in user Perm.mod_warn category.id ≡ true)
      × (can_view_category (some user) category ≡ err not_found)
unfolding can_create_post can_view_category
warn_only_cannot_view user category now p h no_view no_admin = (ground arith, ground arith)
