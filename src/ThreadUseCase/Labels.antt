-- ===== src/ThreadUseCase/Labels.antt =====
-- Tags are made by those who may, and a thread has at most five.
use ferum_board.Prelude.{
  ℕ, ◌≡◌, refl, false, Option, none, some, List, [], ◌∷◌, ◌++◌, Text, take, arith,
}
use ferum_board.Domain.Perm
use ferum_board.Domain.AuthUser.{AuthUser, has_perm}
use ferum_board.Domain.Desk.{Tag}
use ferum_board.Domain.Event.{thread_created}
use ferum_board.Domain.Forum.{Thread}
use ferum_board.Store.{Db, Env}
use ferum_board.Exec.{World, Exec, pure, step, publish, refuse_if}
use ferum_board.Exec.Rules.{
  Reads, Reads-bind, Reads-pure, Reads-fail, Reads-read, Reads-refuse_if, Reads-if, Reads-each,
  reads_rules,
}
use ferum_board.Exec.Keeps.{
  Keeps, Keeps-bind, Keeps-pure, Keeps-of_Reads, Keeps-publish, Keeps-write,
}
use ferum_board.PostUseCase.Authority.{Reads-some_category}
use ferum_board.ThreadUseCase.Atomicity.{Reads-find_live_thread}
use ferum_board.Repo.Config
use ferum_board.Repo.Threads
use ferum_board.Repo.Threads.{NewThread}
use ferum_board.Repo.Tags
use ferum_board.Text.{trim, is_empty}
use ferum_board.ThreadUseCase.Creation.{
  SlugPorts, CreateThreadCmd, fresh_id, check_tag, check_tags, prepare_create, or_make, resolve_tag,
  resolve_tags, tag_thread, tag_refused, new_thread, create, is_author_within_window, prepare_edit,
  update_tags, max_tags_per_thread,
}

abbrev tags : Db → List Tag
tags db = db.labels.tags

Reads-fresh_id : Reads fresh_id
unfolding fresh_id
Reads-fresh_id = record { same = λ env w. refl }

Keeps-assign : (thread_id : ℕ) (ids : List ℕ) → Keeps tags (Tags.assign_to_thread thread_id ids)
unfolding Tags.assign_to_thread step
Keeps-assign thread_id [] = Keeps-pure tags tt
Keeps-assign thread_id (t ∷ ts) = record { same = λ env w. ground arith }

module _ (ports : SlugPorts) (actor : AuthUser) (plain : has_perm actor Perm.tag_create ≡ false)
    (refused : Exec (List ℕ)) (quiet : Reads refused) where
  Reads-or_make :
      (name : Text) (found : Option Tag) → Reads (or_make ports actor refused name found)
  Reads-or_make name (some tag) = Reads-pure (tag.id ∷ [])
  Reads-or_make name none = rw plain quiet

  Reads-resolve_tag : (raw : Text) → Reads (resolve_tag ports actor refused raw)
  unfolding resolve_tag Tags.find_by_slug
  Reads-resolve_tag raw = Reads-if (is_empty (trim raw)) (pure []) _ (Reads-pure []) (
      Reads-bind (Tags.find_by_slug (ports.slugify (trim raw))) _ (Reads-read _)
        (Reads-or_make (trim raw)))

  Reads-resolve_tags : (names : List Text) → Reads (resolve_tags ports actor refused names)
  unfolding resolve_tags
  Reads-resolve_tags [] = Reads-pure []
  Reads-resolve_tags (raw ∷ names) =
      Reads-bind (resolve_tag ports actor refused raw) _ (Reads-resolve_tag raw) (λ t.
        Reads-bind (resolve_tags ports actor refused names) _ (Reads-resolve_tags names)
          (λ ts. Reads-pure (t ++ ts)))

Reads-check_tag : (ports : SlugPorts) (raw : Text) → Reads (check_tag ports raw)
unfolding check_tag Tags.find_by_slug
Reads-check_tag ports raw = Reads-if (is_empty (trim raw)) (pure tt) _ (Reads-pure tt) (
    Reads-bind (Tags.find_by_slug (ports.slugify (trim raw))) _ (Reads-read _)
      (λ o. Reads-refuse_if _ _))

Reads-check_tags :
    (ports : SlugPorts) (actor : AuthUser) (names : List Text)
    → Reads (check_tags ports actor names)
unfolding check_tags
Reads-check_tags ports actor names =
    Reads-if (has_perm actor Perm.tag_create) (pure tt) _ (Reads-pure tt)
      (Reads-each (check_tag ports) (take max_tags_per_thread names) (Reads-check_tag ports))

Reads-prepare_create :
    (ports : SlugPorts) (actor : AuthUser) (cmd : CreateThreadCmd)
    → Reads (prepare_create ports actor cmd)
unfolding prepare_create
Reads-prepare_create ports actor cmd =
    search (reads_rules, Reads-some_category, Reads-check_tags) depth 30

Reads-prepare_edit : (actor : AuthUser) (id : ℕ) → Reads (prepare_edit actor id)
unfolding prepare_edit
Reads-prepare_edit actor id = search (reads_rules, Reads-find_live_thread) depth 30

Reads-is_author_within_window :
    (actor : AuthUser) (t : Thread) → Reads (is_author_within_window actor t)
unfolding is_author_within_window Config.get_config_i64 Config.get
Reads-is_author_within_window actor t = search reads_rules depth 30

Keeps-Threads-create : (cmd : NewThread) → Keeps tags (Threads.create cmd)
unfolding Threads.create step
Keeps-Threads-create cmd = record { same = λ env w. ground arith }

Keeps-replace : (thread_id : ℕ) (ids : List ℕ) → Keeps tags (Tags.replace_thread_tags thread_id ids)
unfolding Tags.replace_thread_tags Tags.clear_thread
Keeps-replace thread_id ids =
    Keeps-bind tags (Tags.clear_thread thread_id) _ (Keeps-write tags _ (λ db. refl))
      (λ _. Keeps-assign thread_id ids)

module _ (ports : SlugPorts) (actor : AuthUser)
    (plain : has_perm actor Perm.tag_create ≡ false) where
  Keeps-tag_thread : (t : Thread) (names : List Text) → Keeps tags (tag_thread ports actor t names)
  unfolding tag_thread
  Keeps-tag_thread t names =
      Keeps-bind tags (resolve_tags ports actor tag_refused (take max_tags_per_thread names)) _
        (Keeps-of_Reads tags _ (
          Reads-resolve_tags ports actor plain tag_refused (Reads-fail _)
            (take max_tags_per_thread names)))
        (λ ids. Keeps-assign t.id ids)

  Keeps-create : (cmd : CreateThreadCmd) → Keeps tags (create ports actor cmd)
  unfolding create
  Keeps-create cmd =
      Keeps-bind tags (prepare_create ports actor cmd) _
        (Keeps-of_Reads tags _ (Reads-prepare_create ports actor cmd))
        (λ _. Keeps-bind tags fresh_id _ (Keeps-of_Reads tags fresh_id Reads-fresh_id) (λ id.
          Keeps-bind tags (Threads.create (new_thread ports actor cmd id)) _
            (Keeps-Threads-create _)
            (λ t.
              Keeps-bind tags (tag_thread ports actor t cmd.tag_names) _
                (Keeps-tag_thread t cmd.tag_names)
                (λ _.
                  Keeps-bind tags (publish (thread_created t.id t.slug actor.id t.category_id)) _
                    (Keeps-publish tags _ (λ db es. refl)) (λ _. Keeps-pure tags t)))))

  Keeps-update_tags : (id : ℕ) (names : List Text) → Keeps tags (update_tags ports actor id names)
  unfolding update_tags
  Keeps-update_tags id names =
      Keeps-bind tags (prepare_edit actor id) _
        (Keeps-of_Reads tags _ (Reads-prepare_edit actor id))
        (λ t.
          Keeps-bind tags (is_author_within_window actor t) _
            (Keeps-of_Reads tags _ (Reads-is_author_within_window actor t))
            (λ b.
              Keeps-bind tags (refuse_if _ _) _ (Keeps-of_Reads tags _ (Reads-refuse_if _ _)) (λ _.
                Keeps-bind tags
                  (resolve_tags ports actor (pure []) (take max_tags_per_thread names)) _
                  (Keeps-of_Reads tags _ (
                    Reads-resolve_tags ports actor plain (pure []) (Reads-pure [])
                      (take max_tags_per_thread names)))
                  (λ ids. Keeps-replace id ids))))

-- Who lacks the permission to create tags creates none, with a new thread or with new tags for an old
-- one, whatever the outcome.
pub no_new_tags :
    (ports : SlugPorts) (env : Env) (w : World) (actor : AuthUser) (cmd : CreateThreadCmd) (id : ℕ)
    (names : List Text)
    → has_perm actor Perm.tag_create ≡ false
    → ((create ports actor cmd env w).1.db.labels.tags ≡ w.db.labels.tags)
      × ((update_tags ports actor id names env w).1.db.labels.tags ≡ w.db.labels.tags)
no_new_tags ports env w actor cmd id names h = (
  (Keeps-create ports actor h cmd).same env w,
  (Keeps-update_tags ports actor h id names).same env w,
)
