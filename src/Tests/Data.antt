-- ===== src/Tests/Data.antt =====
-- A small forum: a member and a moderator, one category, one thread, and a post that embeds an image.
use ferum_board.Prelude.{ℕ, ◌+◌, true, false, none, some, [], ◌∷◌, Text, ◌==◌, ◌++◌}
use ferum_board.Prelude.Int.{pos}
use ferum_board.Domain.Error.{ok}
use ferum_board.Domain.User.{User, member, leader}
use ferum_board.Domain.AuthUser.{AuthUser}
use ferum_board.Domain.Forum.{
  Post, published, pending, Thread, open_thread, Category, public_view, members, staff_only_view,
}
use ferum_board.Store.{Db, Env, StoredFile, allow}
use ferum_board.Exec.{World}
use ferum_board.Text.{codes}

abbrev pub alice : AuthUser
alice = record {
  id = 1;
  username = codes "alice";
  display_name = none;
  avatar_url = none;
  trust_level = member;
  is_banned = false;
  banned_until = none;
  permissions = "post.create" ∷ "post.edit_own" ∷ "post.delete_own" ∷ [];
  category_permissions = (7, "moderation.warn" ∷ []) ∷ [];
}

abbrev pub morgan : AuthUser
morgan = record alice {
  id = 2;
  username = codes "morgan";
  trust_level = leader;
  permissions = "moderation.view_reports" ∷ "post.delete_any" ∷ [];
}

abbrev pub general : Category
general = record {
  id = 5;
  parent_id = none;
  slug = "general";
  name = "General";
  position = pos 0;
  view_policy = public_view;
  post_policy = members;
}

abbrev pub staff_room : Category
staff_room = record general { id = 7; view_policy = staff_only_view }

abbrev pub image : Text
image = codes "post-attachments/0123456789abcdef0123456789abcdef.png"

abbrev pub with_image : Text
with_image = codes "see ![x](/files/" ++ image ++ codes ")"

abbrev pub first_post : Post
first_post = record {
  id = 20;
  thread_id = 10;
  author_id = 1;
  parent_id = none;
  content_md = with_image;
  content_html = [];
  status = published;
  is_deleted = false;
  deleted_at = none;
  deleted_by_id = none;
  edited_at = none;
  edited_by_id = none;
  edit_count = 0;
  created_at = 100;
}

abbrev pub held_post : Post
held_post = record first_post { id = 21; content_md = codes "buy"; status = pending }

abbrev pub topic : Thread
topic = record {
  id = 10;
  category_id = 5;
  author_id = 1;
  title = codes "Hello";
  slug = "hello";
  status = open_thread;
  is_pinned = false;
  is_solved = false;
  best_answer_id = none;
  view_count = 0;
  reply_count = pos 1;
  last_post_at = none;
  created_at = 90;
  deleted_at = none;
  deleted_by_id = none;
}

abbrev pub alice_row : User
alice_row = record {
  id = 1;
  username = codes "alice";
  email = "alice@example.org";
  is_email_verified = true;
  password_hash = none;
  trust_level = member;
  trust_score = 0;
  post_count = 1;
  days_visited = 0;
  is_banned = false;
  banned_until = none;
  warn_count = 0;
  failed_login_count = 0;
  locked_until = none;
  last_seen_at = none;
}

abbrev pub image_file : StoredFile
image_file = record {
  key = image;
  content_type = "image/png";
  size = 1000;
  ref_count = 1;
  uploaded_by_id = some 1;
  created_at = 95;
}

abbrev pub forum : Db
forum = record {
  posts = first_post ∷ held_post ∷ [];
  threads = topic ∷ [];
  categories = general ∷ [];
  users = alice_row ∷ [];
  files = image_file ∷ [];
  config = [];
  events = [];
  access = record { roles = []; permissions = []; role_permissions = []; user_roles = [] };
  social = record {
    reactions = [];
    follows = [];
    bookmarks = [];
    thumbnails = [];
    watched = [];
    muted = [];
  };
  desk = record { reports = []; notices = []; audit = [] };
  labels = record { tags = []; thread_tags = [] };
  webhooks = [];
  cache = [];
}

abbrev pub start : World
start = record { db = forum; calls = 0 }

-- Nothing fails, and no plugin objects.
abbrev pub quiet : Env
quiet = record {
  now = 200;
  fails = λ n. false;
  fresh = λ n. 1000 + n;
  hook = λ ctx n. ok allow;
  render = some;
  to_lowercase = λ t. t;
  parse_int = λ t. none;
  parse_u64 = λ t. none;
  has_storage = true;
  scan_threads = λ n ts. ts;
}

-- The call with the given number fails.
abbrev pub failing : ℕ → Env
failing k = record quiet { fails = λ n. n == k }
