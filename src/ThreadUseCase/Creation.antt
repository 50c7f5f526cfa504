-- ===== src/ThreadUseCase/Creation.antt =====
-- backend/crates/ferum-application/src/usecases/thread_usecase.rs: new threads, their titles and tags, and
-- `resolve_or_create` of tag_usecase.rs.
use ferum_board.Prelude.{
  ℕ, String, Bool, false, not, ◌&&◌, Option, none, some, List, [], ◌∷◌, ◌++◌, ◌==◌, Text, leb,
  is_none, take, length, if◌then◌else◌,
}
use ferum_board.Domain.Error.{ok, forbidden, unprocessable_entity}
use ferum_board.Domain.Perm
use ferum_board.Domain.AuthUser.{AuthUser, has_perm, has_perm_in}
use ferum_board.Domain.Desk.{Tag}
use ferum_board.Domain.Event.{thread_created}
use ferum_board.Domain.Forum.{Thread, within_hours, is_locked}
use ferum_board.Store.{HookContext, an_id, a_text, a_list}
use ferum_board.Exec.{
  Exec, pure, lift, fail, ask, before_hook, publish, refuse_if, each, ◌>>=◌, ◌>>◌,
}
use ferum_board.Permission
use ferum_board.PostUseCase.{some_category, default_post_edit_window_hours}
use ferum_board.Repo.Config
use ferum_board.Repo.Threads
use ferum_board.Repo.Threads.{NewThread, no_change}
use ferum_board.Repo.Tags
use ferum_board.Text.{trim, is_empty}
use ferum_board.ThreadUseCase.{find_live_thread}

abbrev pub min_thread_title_len : ℕ
min_thread_title_len = 5

abbrev pub max_thread_title_len : ℕ
max_thread_title_len = 255

abbrev pub max_tags_per_thread : ℕ
max_tags_per_thread = 5

-- The characters of a title are counted, not its bytes.
unfoldable pub validate_thread_title : Text → Bool
validate_thread_title s = leb min_thread_title_len (length s) && leb (length s) max_thread_title_len

-- The library that makes slugs, the 32 digits of an identifier, and the column that a text is stored in.
pub record SlugPorts : Type 0 where
  pub slugify : Text → Text
  pub simple : ℕ → Text
  pub stored_text : Text → String

-- A slug that ends in the first digits of the identifier.
unfoldable pub generate_thread_slug : SlugPorts → Text → ℕ → Text
generate_thread_slug ports title id =
    let base = ports.slugify title in
    let short_id = take 8 (ports.simple id) in
    if is_empty base then short_id else base ++ b'-' ∷ short_id

-- `Uuid::new_v4()`.
unfoldable pub fresh_id : Exec ℕ
fresh_id env w = (ok (env.fresh w.calls), w)

pub record CreateThreadCmd : Type 0 where
  pub category_id : ℕ
  pub title : Text
  pub content_md : Text
  pub tag_names : List Text

abbrev pub tag_refused : Exec (List ℕ)
tag_refused = fail (forbidden "tag_create_permission_required")

-- The author of a thread within the window of an edit.
unfoldable pub is_author_within_window : AuthUser → Thread → Exec Bool
unfolding within_hours Config.get_config_i64
is_author_within_window actor thread =
    if thread.author_id == actor.id
    then (Config.get_config_i64 "post_edit_window_hours" default_post_edit_window_hours
        >>= (λ hours. ask (λ env. within_hours env.now thread.created_at hours)))
    else pure false

-- The checks that `update_title` and `update_tags` share.
unfoldable pub prepare_edit : AuthUser → ℕ → Exec Thread
unfolding find_live_thread
prepare_edit actor id = do
  now ← ask (λ env. env.now)
  lift (Permission.require_not_banned actor now)
  thread ← find_live_thread id
  refuse_if
      (is_locked thread.status && not (has_perm_in actor Perm.thread_edit_any thread.category_id))
      (forbidden "thread_locked")
  pure thread

unfoldable pub update_title : AuthUser → ℕ → Text → Exec Thread
unfolding prepare_edit is_author_within_window validate_thread_title Threads.update
update_title actor id title = do
  thread ← prepare_edit actor id
  in_window ← is_author_within_window actor thread
  refuse_if (not in_window && not (has_perm_in actor Perm.thread_edit_any thread.category_id))
      (forbidden (if thread.author_id == actor.id then "edit_window_expired" else "not_author"))
  refuse_if (not (validate_thread_title title))
      (unprocessable_entity "Thread title must be 5–255 characters")
  Threads.update id (record no_change { title = some title })

module _ (ports : SlugPorts) where
  -- A tag that is not there yet is one that the actor may not make.
  unfoldable pub check_tag : Text → Exec (Unit {0})
  unfolding ◌>>=◌ Tags.find_by_slug trim
  check_tag raw =
      if is_empty (trim raw)
      then pure tt
      else (Tags.find_by_slug (ports.slugify (trim raw))
          >>= (λ found. refuse_if (is_none found) (forbidden "tag_create_permission_required")))

  -- The tags are checked before the thread is made.
  unfoldable pub check_tags : AuthUser → List Text → Exec (Unit {0})
  unfolding check_tag
  check_tags actor tag_names =
      if has_perm actor Perm.tag_create
      then pure tt
      else each check_tag (take max_tags_per_thread tag_names)

  abbrev pub create_ctx : AuthUser → CreateThreadCmd → HookContext
  create_ctx actor cmd = record {
    hook_name = "before_thread_create";
    actor_id = some actor.id;
    actor_trust_level = actor.trust_level;
    payload =
        ("title", a_text cmd.title)
        ∷ ("content_md", a_text cmd.content_md)
        ∷ ("tag_names", a_list cmd.tag_names)
        ∷ ("category_id", an_id cmd.category_id)
        ∷ [];
  }

  -- What `create` does before it writes.
  unfoldable pub prepare_create : AuthUser → CreateThreadCmd → Exec (Unit {0})
  unfolding validate_thread_title check_tags
  prepare_create actor cmd = do
    category ← some_category cmd.category_id
    now ← ask (λ env. env.now)
    lift (Permission.can_create_post actor category now)
    refuse_if (not (validate_thread_title cmd.title))
        (unprocessable_entity "Thread title must be 5–255 characters")
    check_tags actor cmd.tag_names
    before_hook (create_ctx actor cmd)

  abbrev new_tag : AuthUser → Text → ℕ → Tag
  new_tag actor name id = record {
    id = id;
    name = name;
    slug = ports.slugify name;
    created_by_id = some actor.id;
  }

  unfoldable pub make_tag : AuthUser → Text → Exec (List ℕ)
  unfolding fresh_id Tags.create
  make_tag actor name = do
    id ← fresh_id
    tag ← Tags.create (new_tag actor name id)
    pure (tag.id ∷ [])

  -- What is done with a tag that is not there by an actor who may not make it.
  abbrev pub or_make : AuthUser → Exec (List ℕ) → Text → Option Tag → Exec (List ℕ)
  or_make actor refused name (some tag) = pure (tag.id ∷ [])
  or_make actor refused name none =
      if has_perm actor Perm.tag_create then make_tag actor name else refused

  -- The tag of one name: the one with its slug, or a new one.
  unfoldable pub resolve_tag : AuthUser → Exec (List ℕ) → Text → Exec (List ℕ)
  unfolding make_tag Tags.find_by_slug trim
  resolve_tag actor refused raw =
      if is_empty (trim raw)
      then pure []
      else (Tags.find_by_slug (ports.slugify (trim raw)) >>= or_make actor refused (trim raw))

  -- The loop over the names.
  unfoldable pub resolve_tags : AuthUser → Exec (List ℕ) → List Text → Exec (List ℕ)
  unfolding resolve_tag
  resolve_tags actor refused [] = pure []
  resolve_tags actor refused (raw ∷ names) = do
    tag ← resolve_tag actor refused raw
    tags ← resolve_tags actor refused names
    pure (tag ++ tags)

  -- `TagUseCase::resolve_or_create`, by the identifiers of the tags.
  unfoldable pub resolve_or_create : AuthUser → List Text → ℕ → Exec (List ℕ)
  unfolding resolve_tags
  resolve_or_create actor names limit = resolve_tags actor tag_refused (take limit names)

  -- The tags of a new thread.
  unfoldable pub tag_thread : AuthUser → Thread → List Text → Exec (Unit {0})
  unfolding resolve_tags Tags.assign_to_thread
  tag_thread actor thread tag_names = do
    tag_ids ← resolve_tags actor tag_refused (take max_tags_per_thread tag_names)
    Tags.assign_to_thread thread.id tag_ids

  abbrev pub new_thread : AuthUser → CreateThreadCmd → ℕ → NewThread
  new_thread actor cmd id = record {
    id = id;
    category_id = cmd.category_id;
    author_id = actor.id;
    title = cmd.title;
    slug = ports.stored_text (generate_thread_slug ports cmd.title id);
  }

  unfoldable pub create : AuthUser → CreateThreadCmd → Exec Thread
  unfolding prepare_create generate_thread_slug fresh_id Threads.create tag_thread
  create actor cmd = do
    prepare_create actor cmd
    id ← fresh_id
    thread ← Threads.create (new_thread actor cmd id)
    tag_thread actor thread cmd.tag_names
    publish (thread_created thread.id thread.slug actor.id thread.category_id)
    pure thread

  -- A name whose tag the actor may not make is passed over.
  unfoldable pub update_tags : AuthUser → ℕ → List Text → Exec (Unit {0})
  unfolding prepare_edit is_author_within_window resolve_tags Tags.replace_thread_tags
  update_tags actor thread_id tag_names = do
    thread ← prepare_edit actor thread_id
    in_window ← is_author_within_window actor thread
    refuse_if (not in_window && not (has_perm_in actor Perm.thread_edit_any thread.category_id))
        (forbidden "edit_window_expired")
    tag_ids ← resolve_tags actor (pure []) (take max_tags_per_thread tag_names)
    Tags.replace_thread_tags thread_id tag_ids
