-- ===== src/Tests/Posts.antt =====
-- The operations on posts, run on a small forum.
use ferum_board.Prelude.{
  ℕ, ◌≡◌, refl, ap, Bool-cases, inl, inr, arith, true, false, Option, none, some, List, [], ◌∷◌,
  map, length,
}
use ferum_board.Prelude.Int.{pos}
use ferum_board.Exec.{World, db_error}
use ferum_board.PostUseCase.{CreatePostCmd, create}
use ferum_board.PostUseCase.Content.{extract_attachment_keys, extract_mentions}
use ferum_board.PostUseCase.Change.{edit, delete}
use ferum_board.PostUseCase.Requests.{create_request, serve, serve_atomic}
use ferum_board.PostUseCase.References.{RefsOk, embeddings, HasDistinctIds}
use ferum_board.Text.{codes, text_eq}
use ferum_board.Text.Laws.{text_eq_iff}
use ferum_board.Tests.Data.{alice, image, with_image, forum, start, quiet, failing}

abbrev reply : CreatePostCmd
reply = record { thread_id = 10; parent_id = none; content_md = with_image }

keys_test : extract_attachment_keys with_image ≡ image ∷ []
unfolding ferum_board.PostUseCase.Content.extract_attachment_keys
    ferum_board.PostUseCase.Content.keys_from ferum_board.PostUseCase.Content.match_key
    ferum_board.Text.distinct ferum_board.Text.starts_with ferum_board.Text.text_eq
keys_test = refl

mentions_test : extract_mentions (codes "hi @Bob_1, @al and @bob_1") ≡ codes "bob_1" ∷ []
unfolding ferum_board.PostUseCase.Content.mentions_from extract_mentions ferum_board.Text.distinct
    ferum_board.Text.text_eq
mentions_test = refl

-- The reply embeds the image once more, and counts.
create_test :
    let db = (create alice reply quiet start).1.db in
    (map (λ f. f.ref_count) db.files ≡ 2 ∷ [])
    × (map (λ t. t.reply_count) db.threads ≡ pos 2 ∷ [])
    × (length db.posts ≡ 3)
unfolding create ferum_board.Exec.◌>>=◌ ferum_board.Repo.Threads.find_by_id ferum_board.Exec.read
    ferum_board.Exec.lift ferum_board.Prelude.find_row ferum_board.Exec.refuse_if
    ferum_board.Repo.Threads.find_category ferum_board.Exec.ask
    ferum_board.Permission.can_create_post ferum_board.Domain.AuthUser.is_currently_banned
    ferum_board.Domain.AuthUser.has_perm_in ferum_board.Domain.AuthUser.has_perm
    ferum_board.Domain.AuthUser.contains ferum_board.Domain.AuthUser.get
    ferum_board.Domain.AuthUser.meets_trust ferum_board.Exec.before_hook
    ferum_board.Exec.dispatch_before_hook ferum_board.Exec.attempt ferum_board.Exec.each
    ferum_board.Exec.publish ferum_board.Exec.pure ferum_board.Exec.step ferum_board.Exec.swallow
    ferum_board.Exec.write ferum_board.Permission.require_not_banned
    ferum_board.PostUseCase.Content.extract_attachment_keys
    ferum_board.PostUseCase.Content.extract_mentions ferum_board.PostUseCase.Content.keys_from
    ferum_board.PostUseCase.Content.match_key ferum_board.PostUseCase.Content.matches_blacklist
    ferum_board.PostUseCase.Content.mentions_from ferum_board.PostUseCase.Content.parse_trust_level
    ferum_board.PostUseCase.announce ferum_board.PostUseCase.content_matches_blacklist
    ferum_board.PostUseCase.find_mentioned ferum_board.PostUseCase.finish_create
    ferum_board.PostUseCase.prepare_create ferum_board.PostUseCase.publish_mention
    ferum_board.PostUseCase.render_content ferum_board.PostUseCase.resolve_post_status
    ferum_board.PostUseCase.sync_attachment_refs ferum_board.Prelude.Int.◌+ℤ◌
    ferum_board.Prelude.update_rows ferum_board.Repo.Config.get ferum_board.Repo.Config.lookup
    ferum_board.Repo.Files.decrement_ref ferum_board.Repo.Files.increment_ref
    ferum_board.Repo.Posts.create ferum_board.Repo.Posts.find_by_id ferum_board.Repo.Posts.inserted
    ferum_board.Repo.Threads.update_reply_stats ferum_board.Repo.Threads.with_reply
    ferum_board.Repo.Users.find_by_username ferum_board.Repo.Users.increment_post_count
    ferum_board.Repo.Users.with_post_count ferum_board.Text.byte_len ferum_board.Text.contains
    ferum_board.Text.distinct ferum_board.Text.is_whitespace ferum_board.Text.lines
    ferum_board.Text.lines_from ferum_board.Text.mem_text ferum_board.Text.starts_with
    ferum_board.Text.text_eq ferum_board.Text.trim ferum_board.Text.trim_end
    ferum_board.Text.trim_start
create_test = (refl, refl, refl)

delete_test :
    let db = (delete alice 20 quiet start).1.db in
    (map (λ f. f.ref_count) db.files ≡ 0 ∷ []) × (map (λ t. t.reply_count) db.threads ≡ pos 0 ∷ [])
unfolding delete ferum_board.Exec.◌>>=◌ ferum_board.Repo.Threads.find_by_id ferum_board.Exec.read
    ferum_board.Exec.lift ferum_board.Prelude.find_row ferum_board.Exec.ask
    ferum_board.Domain.AuthUser.is_currently_banned ferum_board.Domain.AuthUser.has_perm_in
    ferum_board.Domain.AuthUser.has_perm ferum_board.Domain.AuthUser.contains
    ferum_board.Domain.AuthUser.get ferum_board.Exec.before_hook
    ferum_board.Exec.dispatch_before_hook ferum_board.Exec.each ferum_board.Exec.publish
    ferum_board.Exec.pure ferum_board.Exec.step ferum_board.Exec.swallow ferum_board.Exec.write
    ferum_board.Permission.require_not_banned
    ferum_board.PostUseCase.Content.extract_attachment_keys
    ferum_board.PostUseCase.Content.keys_from ferum_board.PostUseCase.Content.match_key
    ferum_board.PostUseCase.sync_attachment_refs ferum_board.Prelude.Int.◌+ℤ◌
    ferum_board.Prelude.update_rows ferum_board.Repo.Files.decrement_ref
    ferum_board.Repo.Files.increment_ref ferum_board.Repo.Posts.find_by_id
    ferum_board.Repo.Threads.update_reply_stats ferum_board.Repo.Threads.with_reply
    ferum_board.Repo.Users.increment_post_count ferum_board.Repo.Users.with_post_count
    ferum_board.Text.distinct ferum_board.Text.mem_text ferum_board.Text.starts_with
    ferum_board.Text.text_eq ferum_board.Repo.Posts.soft_delete
    ferum_board.PostUseCase.Change.finish_delete ferum_board.PostUseCase.Change.prepare_delete
    ferum_board.PostUseCase.Change.release_refs ferum_board.PostUseCase.Change.uncount
    ferum_board.Repo.Posts.deleted ferum_board.Permission.can_delete_post
delete_test = (refl, refl)

serve_atomic_example : (serve alice (create_request reply) (failing 5) start).1.db ≡ forum
unfolding serve create ferum_board.Exec.◌>>=◌ ferum_board.Repo.Threads.find_by_id
    ferum_board.Exec.read ferum_board.Exec.lift ferum_board.Prelude.find_row
    ferum_board.Exec.refuse_if ferum_board.Repo.Threads.find_category ferum_board.Exec.ask
    ferum_board.Permission.can_create_post ferum_board.Domain.AuthUser.is_currently_banned
    ferum_board.Domain.AuthUser.has_perm_in ferum_board.Domain.AuthUser.has_perm
    ferum_board.Domain.AuthUser.contains ferum_board.Domain.AuthUser.get
    ferum_board.Domain.AuthUser.meets_trust ferum_board.Exec.before_hook
    ferum_board.Exec.dispatch_before_hook ferum_board.Exec.attempt ferum_board.Exec.each
    ferum_board.Exec.publish ferum_board.Exec.pure ferum_board.Exec.step ferum_board.Exec.swallow
    ferum_board.Exec.write ferum_board.Permission.require_not_banned
    ferum_board.PostUseCase.Content.extract_attachment_keys
    ferum_board.PostUseCase.Content.extract_mentions ferum_board.PostUseCase.Content.keys_from
    ferum_board.PostUseCase.Content.match_key ferum_board.PostUseCase.Content.matches_blacklist
    ferum_board.PostUseCase.Content.mentions_from ferum_board.PostUseCase.Content.parse_trust_level
    ferum_board.PostUseCase.announce ferum_board.PostUseCase.content_matches_blacklist
    ferum_board.PostUseCase.find_mentioned ferum_board.PostUseCase.finish_create
    ferum_board.PostUseCase.prepare_create ferum_board.PostUseCase.publish_mention
    ferum_board.PostUseCase.render_content ferum_board.PostUseCase.resolve_post_status
    ferum_board.PostUseCase.sync_attachment_refs ferum_board.Prelude.Int.◌+ℤ◌
    ferum_board.Prelude.update_rows ferum_board.Repo.Config.get ferum_board.Repo.Config.lookup
    ferum_board.Repo.Files.decrement_ref ferum_board.Repo.Files.increment_ref
    ferum_board.Repo.Posts.create ferum_board.Repo.Posts.find_by_id ferum_board.Repo.Posts.inserted
    ferum_board.Repo.Threads.update_reply_stats ferum_board.Repo.Threads.with_reply
    ferum_board.Repo.Users.find_by_username ferum_board.Repo.Users.increment_post_count
    ferum_board.Repo.Users.with_post_count ferum_board.Text.byte_len ferum_board.Text.contains
    ferum_board.Text.distinct ferum_board.Text.is_whitespace ferum_board.Text.lines
    ferum_board.Text.lines_from ferum_board.Text.mem_text ferum_board.Text.starts_with
    ferum_board.Text.text_eq ferum_board.Text.trim ferum_board.Text.trim_end
    ferum_board.Text.trim_start
serve_atomic_example = serve_atomic (failing 5) start alice (create_request reply) db_error refl

held_is_one : embeddings image forum.posts ≡ 1
unfolding embeddings ferum_board.Prelude.total ferum_board.PostUseCase.References.embeds
    ferum_board.PostUseCase.Content.extract_attachment_keys
    ferum_board.PostUseCase.Content.keys_from ferum_board.PostUseCase.Content.match_key
    ferum_board.Text.distinct ferum_board.Text.starts_with ferum_board.Text.text_eq
    ferum_board.Text.mem_text
held_is_one = refl

pub forum-RefsOk : RefsOk forum.posts forum.files
unfolding ferum_board.Prelude.find_row
forum-RefsOk = record {
  counted = λ key f found. elim (Bool-cases (text_eq image key)) [
    | inl same ↦ ground (
      arith,
      found,
      same,
      held_is_one,
      ap (λ k. embeddings k forum.posts) ((text_eq_iff image key).0 same),
    )
    | inr other ↦ ground (arith, found, other)
  ];
}

pub forum_ids : HasDistinctIds forum.posts
forum_ids = ((λ e. omega arith, tt), (tt, tt))
