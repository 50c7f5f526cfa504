-- ===== src/Store.antt =====
-- The database that the use cases work on, and their environment. A table is the list of its rows.
use ferum_board.Prelude.{ℕ, String, Bool, Option, List, Text}
use ferum_board.Prelude.Int.{ℤ}
use ferum_board.Domain.Error.{Result}
use ferum_board.Domain.User.{User, TrustLevel}
use ferum_board.Domain.Forum.{Post, Thread, Category}
use ferum_board.Domain.Event.{ForumEvent}
use ferum_board.Domain.Role.{Role, UserRoleAssignment}
use ferum_board.Domain.Review.{Reaction, Report}
use ferum_board.Domain.Desk.{Tag, AuditLog, Webhook}
use ferum_board.Infra.Cache.{Entries}

-- backend/crates/ferum-infrastructure/src/entities/stored_files.rs, without the bytes.
pub record StoredFile : Type 0 where
  pub key : Text
  pub content_type : String
  pub size : ℕ
  pub ref_count : ℕ
  pub uploaded_by_id : Option ℕ
  pub created_at : ℕ

-- Roles, what they permit, and who holds them.
pub record Access : Type 0 where
  pub roles : List Role
  -- the keys of the table of permissions
  pub permissions : List String
  -- the key of a permission that a role has
  pub role_permissions : List (ℕ × String)
  pub user_roles : List UserRoleAssignment

-- What users do with posts, with each other and with threads; a follow is the follower and the followed,
-- a bookmark the user and the thread, a thumbnail the thread and the key of its file.
pub record Social : Type 0 where
  pub reactions : List Reaction
  pub follows : List (ℕ × ℕ)
  pub bookmarks : List (ℕ × ℕ)
  pub thumbnails : List (ℕ × Text)
  pub watched : List (ℕ × ℕ)
  pub muted : List (ℕ × ℕ)

-- The desk of the staff: reports, the notices of warnings to users, and the log of what the staff did.
pub record Desk : Type 0 where
  pub reports : List Report
  pub notices : List (ℕ × Text)
  pub audit : List AuditLog

-- Tags, and the threads that have them; a row of the second is the thread and the tag.
pub record Labels : Type 0 where
  pub tags : List Tag
  pub thread_tags : List (ℕ × ℕ)

-- `cache` is the cache service, which is not of the database but is written by the same calls; `events`
-- lists what the use cases have published, the oldest first.
pub record Db : Type 0 where
  pub posts : List Post
  pub threads : List Thread
  pub categories : List Category
  pub users : List User
  pub files : List StoredFile
  pub config : List (String × Text)
  pub events : List ForumEvent
  pub access : Access
  pub social : Social
  pub desk : Desk
  pub labels : Labels
  pub webhooks : List Webhook
  pub cache : Entries

-- A value of the JSON that a hook is given.
pub data Value : Type 0 where
  null : Value
  an_id : ℕ → Value
  a_text : Text → Value
  a_time : ℕ → Value
  a_bool : Bool → Value
  a_list : List Text → Value

-- backend/crates/ferum-application/src/ports.rs.
pub record HookContext : Type 0 where
  pub hook_name : String
  pub actor_id : Option ℕ
  pub actor_trust_level : TrustLevel
  pub payload : List (String × Value)

pub data HookDecision : Type 0 where
  allow : HookDecision
  deny : (reason error_code : String) → HookDecision

-- What a request is given from outside: the time of the request; for each call, whether it fails, the
-- identifier that it would generate, and the order in which a query that leaves it open meets the rows of
-- the threads; the answer of the plugins; the libraries that render Markdown (none where the rendering
-- panics), lower the case of a text and parse a signed or an unsigned integer; whether file storage is
-- configured.
pub record Env : Type 0 where
  pub now : ℕ
  pub fails : ℕ → Bool
  pub fresh : ℕ → ℕ
  pub hook : HookContext → ℕ → Result HookDecision
  pub render : Text → Option Text
  pub to_lowercase : Text → Text
  pub parse_int : Text → Option ℤ
  pub parse_u64 : Text → Option ℕ
  pub has_storage : Bool
  pub scan_threads : ℕ → List Thread → List Thread
