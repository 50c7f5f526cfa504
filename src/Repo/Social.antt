-- ===== src/Repo/Social.antt =====
-- reaction_repository.rs, follow_repository.rs and bookmark_repository.rs of
-- backend/crates/ferum-infrastructure/src/repositories, with the unique keys of their tables.
use ferum_board.Prelude.{
  ℕ, Bool, not, ◌&&◌, Option, List, [], ◌∷◌, ◌==◌, any, keep, find_row, length, map, ltb,
  if◌then◌else◌,
}
use ferum_board.Domain.Error.{ok, err, conflict}
use ferum_board.Domain.Event.{ReactionKind, like, helpful, insightful, funny}
use ferum_board.Domain.Review.{Reaction, same_kind}
use ferum_board.Store.{Db, Social}
use ferum_board.Exec.{Exec, read, step, write, db_error}

abbrev pub with_social : Social → Db → Db
with_social s db = record db { social = s }

abbrev pub is_reaction : (post_id user_id : ℕ) → ReactionKind → Reaction → Bool
is_reaction post_id user_id kind r =
    r.post_id == post_id && (r.user_id == user_id && same_kind r.kind kind)

abbrev pub reaction : (post_id user_id : ℕ) → ReactionKind → Reaction
reaction post_id user_id kind = record { post_id = post_id; user_id = user_id; kind = kind }

unfoldable pub find_reaction : (post_id user_id : ℕ) → ReactionKind → Exec (Option Reaction)
find_reaction post_id user_id kind =
    read (λ db. ok (find_row (is_reaction post_id user_id kind) db.social.reactions))

-- A user reacts to a post once with each kind.
unfoldable pub add_reaction : (post_id user_id : ℕ) → ReactionKind → Exec (Unit {0})
add_reaction post_id user_id kind = step (λ env n db.
    if any (is_reaction post_id user_id kind) db.social.reactions
    then err (conflict "reaction_exists")
    else ok (
      tt,
      with_social
          (record db.social { reactions = reaction post_id user_id kind ∷ db.social.reactions }) db,
    ))

unfoldable pub remove_reaction : (post_id user_id : ℕ) → ReactionKind → Exec (Unit {0})
remove_reaction post_id user_id kind = write (λ db.
    with_social
      (record db.social {
        reactions = keep (λ r. not (is_reaction post_id user_id kind r)) db.social.reactions;
      })
      db)

abbrev count_kind : ℕ → List Reaction → ReactionKind → ℕ
count_kind post_id rows kind =
    length (keep (λ r. r.post_id == post_id && same_kind r.kind kind) rows)

-- The kinds that occur, with their counts.
unfoldable pub counts : ℕ → List Reaction → List (ReactionKind × ℕ)
counts post_id rows =
    keep (λ c. ltb 0 c.1)
      (map (λ k. (k, count_kind post_id rows k)) (like ∷ helpful ∷ insightful ∷ funny ∷ []))

unfoldable pub counts_by_post : ℕ → Exec (List (ReactionKind × ℕ))
unfolding counts
counts_by_post post_id = read (λ db. ok (counts post_id db.social.reactions))

abbrev pub is_pair : (a b : ℕ) → ℕ × ℕ → Bool
is_pair a b p = p.0 == a && p.1 == b

unfoldable pub find_follow : (follower_id followed_id : ℕ) → Exec (Option (ℕ × ℕ))
find_follow follower_id followed_id =
    read (λ db. ok (find_row (is_pair follower_id followed_id) db.social.follows))

unfoldable pub add_follow : (follower_id followed_id : ℕ) → Exec (Unit {0})
add_follow follower_id followed_id = step (λ env n db.
    if any (is_pair follower_id followed_id) db.social.follows
    then err db_error
    else ok (
      tt,
      with_social (record db.social { follows = (follower_id, followed_id) ∷ db.social.follows })
          db,
    ))

unfoldable pub remove_follow : (follower_id followed_id : ℕ) → Exec (Unit {0})
remove_follow follower_id followed_id = write (λ db.
    with_social
      (record db.social {
        follows = keep (λ p. not (is_pair follower_id followed_id p)) db.social.follows;
      })
      db)

unfoldable pub find_bookmark : (user_id thread_id : ℕ) → Exec (Option (ℕ × ℕ))
find_bookmark user_id thread_id =
    read (λ db. ok (find_row (is_pair user_id thread_id) db.social.bookmarks))

unfoldable pub add_bookmark : (user_id thread_id : ℕ) → Exec (Unit {0})
add_bookmark user_id thread_id = step (λ env n db.
    if any (is_pair user_id thread_id) db.social.bookmarks
    then err db_error
    else ok (
      tt,
      with_social (record db.social { bookmarks = (user_id, thread_id) ∷ db.social.bookmarks }) db,
    ))

unfoldable pub remove_bookmark : (user_id thread_id : ℕ) → Exec (Unit {0})
remove_bookmark user_id thread_id = write (λ db.
    with_social
      (record db.social {
        bookmarks = keep (λ p. not (is_pair user_id thread_id p)) db.social.bookmarks;
      })
      db)
