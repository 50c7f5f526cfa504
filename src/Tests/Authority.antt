-- ===== src/Tests/Authority.antt =====
-- Successful operations on posts, and what they show of their users.
use ferum_board.Prelude.{◌≡◌, refl, none, some, ◌∷◌}
use ferum_board.Domain.Forum.{Post}
use ferum_board.PostUseCase.{CreatePostCmd, create}
use ferum_board.PostUseCase.Authority.{MayReply, create-MayReply}
use ferum_board.Text.{codes}
use ferum_board.Tests.Data.{alice, first_post, forum, start, quiet}

abbrev note : CreatePostCmd
note = record { thread_id = 10; parent_id = some 20; content_md = codes "hi" }

abbrev noted : Post
noted = record first_post {
  id = 1006;
  parent_id = some 20;
  content_md = codes "hi";
  content_html = codes "hi";
  created_at = 200;
}

create-MayReply_example :
    MayReply forum alice 10 200
    × (((create alice note quiet start).1.db.posts ≡ noted ∷ forum.posts)
        × ((noted.thread_id ≡ 10)
            × ((noted.author_id ≡ 1)
                × ((noted.parent_id ≡ some 20) × (noted.content_md ≡ codes "hi")))))
unfolding create ferum_board.Exec.◌>>=◌ ferum_board.Repo.Threads.find_by_id ferum_board.Exec.read
    ferum_board.Exec.lift ferum_board.Prelude.find_row ferum_board.Exec.refuse_if
    ferum_board.Repo.Threads.find_category ferum_board.Exec.ask
    ferum_board.Permission.can_create_post ferum_board.Domain.AuthUser.is_currently_banned
    ferum_board.Domain.AuthUser.has_perm_in ferum_board.Domain.AuthUser.has_perm
    ferum_board.Domain.AuthUser.contains ferum_board.Domain.AuthUser.get
    ferum_board.Domain.AuthUser.meets_trust ferum_board.Exec.before_hook
    ferum_board.Exec.dispatch_before_hook ferum_board.Exec.attempt ferum_board.Exec.each
    ferum_board.Exec.publish ferum_board.Exec.pure ferum_board.Exec.step ferum_board.Exec.swallow
    ferum_board.Exec.write ferum_board.Permission.require_not_banned
    ferum_board.PostUseCase.Content.extract_attachment_keys
    ferum_board.PostUseCase.Content.extract_mentions ferum_board.PostUseCase.Content.keys_from
    ferum_board.PostUseCase.Content.match_key ferum_board.PostUseCase.Content.matches_blacklist
    ferum_board.PostUseCase.Content.mentions_from ferum_board.PostUseCase.Content.parse_trust_level
    ferum_board.PostUseCase.announce ferum_board.PostUseCase.content_matches_blacklist
    ferum_board.PostUseCase.find_mentioned ferum_board.PostUseCase.finish_create
    ferum_board.PostUseCase.prepare_create ferum_board.PostUseCase.publish_mention
    ferum_board.PostUseCase.render_content ferum_board.PostUseCase.resolve_post_status
    ferum_board.PostUseCase.sync_attachment_refs ferum_board.Prelude.Int.◌+ℤ◌
    ferum_board.Prelude.update_rows ferum_board.Repo.Config.get ferum_board.Repo.Config.lookup
    ferum_board.Repo.Files.decrement_ref ferum_board.Repo.Files.increment_ref
    ferum_board.Repo.Posts.create ferum_board.Repo.Posts.find_by_id ferum_board.Repo.Posts.inserted
    ferum_board.Repo.Threads.update_reply_stats ferum_board.Repo.Threads.with_reply
    ferum_board.Repo.Users.find_by_username ferum_board.Repo.Users.increment_post_count
    ferum_board.Repo.Users.with_post_count ferum_board.Text.byte_len ferum_board.Text.contains
    ferum_board.Text.distinct ferum_board.Text.is_whitespace ferum_board.Text.lines
    ferum_board.Text.lines_from ferum_board.Text.mem_text ferum_board.Text.starts_with
    ferum_board.Text.text_eq ferum_board.Text.trim ferum_board.Text.trim_end
    ferum_board.Text.trim_start
create-MayReply_example =
    create-MayReply quiet start (create alice note quiet start).1 alice note noted refl
