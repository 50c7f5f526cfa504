-- ===== src/Tests/Tree.antt =====
-- Categories, tags and webhooks on a small forum.
use ferum_board.Prelude.{
  ℕ, String, ◌≡◌, ◌≤◌, refl, arith, true, false, not, ◌&&◌, ◌||◌, Option, none, some, List, [], ◌∷◌,
  ◌++◌, ◌==◌, Text, any, keep, map, length,
}
use ferum_board.Prelude.Int.{pos}
use ferum_board.Domain.Error.{ok}
use ferum_board.Domain.AuthUser.{AuthUser}
use ferum_board.Domain.Forum.{Category, public_view, members}
use ferum_board.Domain.Desk.{Tag, Webhook}
use ferum_board.Domain.Net.{v4}
use ferum_board.Exec.{World}
use ferum_board.AdminUseCase.{CreateCategoryCmd, create_request, serve}
use ferum_board.AdminUseCase.Tree.{is_forest}
use ferum_board.AdminUseCase.Nested.{serve-is_forest}
use ferum_board.Repo.Threads.{rows_limit}
use ferum_board.CategoryUseCase.{is_top, get_forum_index}
use ferum_board.CategoryUseCase.Shown.{entry, index_limit, scanned, visible_to, get_forum_index_lem}
use ferum_board.ThreadUseCase.Creation.{SlugPorts, CreateThreadCmd, create, update_tags}
use ferum_board.ThreadUseCase.Feed.{mem, personal_feed, personal_feed_iff}
use ferum_board.ThreadUseCase.Labels.{no_new_tags}
use ferum_board.ThreadUseCase.TagLimit.{of_thread, update_tags-at_most_five}
use ferum_board.WebhookUseCase.{Uri, WebhookPorts, is_empty_events}
use ferum_board.WebhookUseCase
use ferum_board.WebhookUseCase.Public.{IsPublic, create-IsPublic}
use ferum_board.Text.{codes}
use ferum_board.Tests.Data.{alice, general, forum, start, quiet}

-- An administrator with every right that these runs need.
abbrev keeper : AuthUser
keeper = record alice {
  permissions = "admin.categories" ∷ "admin.webhooks" ∷ "thread.edit_any" ∷ [];
}

abbrev help : Category
help = record general { id = 6; parent_id = some 5; slug = "help"; position = pos 1 }

abbrev nested : World
nested = record { db = record forum { categories = help ∷ general ∷ [] }; calls = 0 }

-- A category under one that has a parent itself.
abbrev third_level : CreateCategoryCmd
third_level = record {
  name = "Deep";
  slug = "deep";
  parent_id = some 6;
  position = pos 0;
  view_policy = public_view;
  post_policy = members;
}

serve-is_forest_example :
    is_forest (serve keeper (create_request third_level) quiet nested).1.db.categories ≡ true
unfolding ferum_board.Prelude.find_row
serve-is_forest_example = serve-is_forest quiet nested keeper (create_request third_level) refl refl

get_forum_index_lem_example :
    (get_forum_index none quiet nested).0
    ≡ ok (
        map
          (entry nested.db
            (rows_limit (index_limit quiet nested.db))
            (scanned quiet nested)
            (visible_to none nested.db))
          (keep is_top (visible_to none nested.db)))
unfolding ferum_board.Repo.Categories.by_position ferum_board.CategoryUseCase.can_see
get_forum_index_lem_example = get_forum_index_lem quiet nested none (λ n. refl) refl

-- Of three visible categories, one is watched and one muted.
personal_feed_iff_example : mem 6 (personal_feed (5 ∷ 6 ∷ 7 ∷ []) (6 ∷ 9 ∷ []) (5 ∷ [])) ≡ (
    mem 6 (5 ∷ 6 ∷ 7 ∷ [])
    && (not (mem 6 (5 ∷ []))
        && (mem 6 (6 ∷ 9 ∷ []) || not (any (λ w. mem w (5 ∷ 6 ∷ 7 ∷ [])) (6 ∷ 9 ∷ [])))))
personal_feed_iff_example = personal_feed_iff 6 (5 ∷ 6 ∷ 7 ∷ []) (6 ∷ 9 ∷ []) (5 ∷ [])

abbrev ports : SlugPorts
ports = record {
  slugify = λ t. t;
  simple = λ n. codes "0123456789abcdef";
  stored_text = λ t. "slug";
}

abbrev rust : Tag
rust = record { id = 70; name = codes "rust"; slug = codes "rust"; created_by_id = none }

abbrev tagged : World
tagged = record {
  db = record forum { labels = record { tags = rust ∷ []; thread_tags = (10, 71) ∷ [] } };
  calls = 0;
}

abbrev request : CreateThreadCmd
request = record {
  category_id = 5;
  title = codes "A title";
  content_md = codes "text";
  tag_names = codes "rust" ∷ codes "new" ∷ [];
}

no_new_tags_example :
    ((create ports alice request quiet tagged).1.db.labels.tags ≡ rust ∷ [])
    × ((update_tags ports alice 10 (codes "new" ∷ []) quiet tagged).1.db.labels.tags ≡ rust ∷ [])
unfolding ferum_board.Domain.AuthUser.has_perm ferum_board.Domain.AuthUser.contains
no_new_tags_example = no_new_tags ports quiet tagged alice request 10 (codes "new" ∷ []) refl

-- A name that is known, one that may not be made, and an empty one.
abbrev retagged : World
retagged =
    (update_tags ports keeper 10 (codes "rust" ∷ codes "new" ∷ codes " " ∷ []) quiet tagged).1

update_tags-at_most_five_example : length (of_thread 10 retagged.db.labels.thread_tags) ≤ 5
unfolding update_tags ferum_board.Exec.ask ferum_board.Exec.lift
    ferum_board.Permission.require_not_banned ferum_board.Domain.AuthUser.is_currently_banned
    ferum_board.Repo.Threads.find_by_id ferum_board.Exec.read ferum_board.Prelude.find_row
    ferum_board.Exec.refuse_if ferum_board.Exec.pure ferum_board.Exec.attempt
    ferum_board.Text.text_eq ferum_board.Domain.AuthUser.has_perm
    ferum_board.Domain.AuthUser.contains ferum_board.Exec.write
update_tags-at_most_five_example =
    update_tags-at_most_five ports quiet tagged retagged keeper 10
      (codes "rust" ∷ codes "new" ∷ codes " " ∷ []) refl

abbrev hook_ports : WebhookPorts
hook_ports = record {
  parse_uri =
      λ t. some (record { scheme = some (codes "https"); host = some (codes "example.org") });
  parse_ip = λ t. none;
  resolve = λ t. ok (v4 (record { a = 8; b = 8; c = 8; d = 8 }) ∷ []);
}

abbrev hook : Webhook
hook = record {
  id = 1000;
  url = codes "https://example.org";
  events = "post.created" ∷ [];
  secret = none;
  is_active = true;
  failure_count = 0;
}

abbrev hooked : World
hooked = (WebhookUseCase.create hook_ports keeper hook.url hook.events none quiet start).1

create-IsPublic_example :
    IsPublic hook_ports hook.url
    × (is_empty_events hook.events ≡ false)
    × (hook.is_active ≡ true)
    × (hooked.db.webhooks ≡ hook ∷ [])
unfolding WebhookUseCase.create ferum_board.Exec.◌>>=◌ ferum_board.Exec.lift
    ferum_board.Domain.AuthUser.has_perm ferum_board.Domain.AuthUser.contains
    ferum_board.Text.text_eq ferum_board.Exec.refuse_if ferum_board.Exec.step
create-IsPublic_example =
    create-IsPublic hook_ports quiet start hooked keeper hook.url hook.events none hook refl
