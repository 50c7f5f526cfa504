-- ===== src/Lib.antt =====
-- Ferum Board, a forum: users write posts in threads, threads stand in categories, and moderators review
-- both. A request reaches a use case (backend/crates/ferum-application/src/usecases), which asks the
-- permission checker whether the user may do it, asks the plugins whether they object, calls the
-- repositories (backend/crates/ferum-infrastructure/src/repositories), and publishes events.
--
-- The parts:
--   Domain: backend/crates/ferum-domain/src. Error is error.rs; Perm the keys of models/role.rs; User and
--     Forum the rows of models/; AuthUser auth_user.rs; Event events.rs; Net net.rs.
--   Permission: backend/crates/ferum-application/src/permission.rs, every check of PermissionChecker.
--   Text: the methods of `str` that the code calls, on lists of Unicode scalar values.
--   Store, Exec: the database as one list of rows for each table, and a use case as an action on it. An
--     action takes the environment and the world and gives a result and a new world. Each call of a
--     repository or a plugin has a number, and the environment says which calls fail; a call that fails
--     changes nothing, and what earlier calls have written stays written, as there is no transaction.
--     `?` is the bind of the monad; `.ok()`, `let _ =` and a logged error are `swallow` and `attempt`.
--   Exec/Rules, Exec/Keeps, Exec/Preserves, Exec/Gives, Exec/Runs: the rules by which an action is known to
--     read only, not to fail, to change nothing on an error, to keep a part of the database or an invariant,
--     to answer with a property, and what a success says of its steps. Exec/Cached: the calls of the
--     in-memory cache.
--   Repo: post_repository.rs, thread_repository.rs, user_repository.rs, stored_file_repository.rs,
--     site_config_repository.rs, report_repository.rs, category_repository.rs, tag_repository.rs,
--     webhook_repository.rs, audit_log_repository.rs, and (Roles) role_repository.rs,
--     permission_repository.rs and user_role_repository.rs, each statement of SQL as a function on the rows.
--     An operation of several statements is as many calls, any of which may fail. Where a query leaves the
--     order of rows open, Env says in which order a call meets the threads; other tables keep theirs.
--   PostUseCase: post_usecase.rs. `create` and `prepare_create` to `finish_create` are one method of the
--     source, cut where it first writes; the same holds for `edit`, `delete` and the reviews.
--     PostUseCase/Requests has the five operations as one type of requests and the databases that they
--     lead to.
--     PostUseCase/Upload is `upload_attachment` and its quota.
--   ThreadUseCase: thread_usecase.rs: the deletions and the moderation of threads; Creation, a new thread, its
--     title and its tags; Thumbnails; and Feed, the categories that `list_feed` reads.
--   CategoryUseCase: category_usecase.rs. The index of the forum is built from maps of lists (Grouping), as
--     in the source, and Shown says what it is of the rows; the tags of its threads, read last, are left out.
--   AdminUseCase: admin_usecase.rs: the requests on categories, as one type in `serve`, and (Members) those on
--     users and moderators. Tree, Checks and Nested are about the two levels of categories.
--   WebhookUseCase: webhook_usecase.rs, with Domain/Net for the hosts that are refused.
--   Storage: storage_utils.rs and the tests of image data of validators/mod.rs.
--   RoleCache: role_permission_cache.rs of backend/crates/ferum-infrastructure/src, and (Session)
--     resolve_permissions and the flag of a ban of backend/crates/ferum-web/src/middleware/auth.rs, which
--     make a request's user from the tables of Repo/Roles and the cache.
--   RoleUseCase: role_usecase.rs; Admin, Holders and Requests are about the last administrator, Failures
--     about what a request that fails leaves, Grant about what an assignment adds to RoleCache's permissions.
--   Auth: auth_usecase.rs. `login` is one method of the source, cut at its branches; Account has the other
--     methods. Hashes, tokens, formatted cache keys and the addition of minutes to a time, which is none
--     where chrono panics, are the fields of AuthPorts; a panic is an error of the request. Lockout and
--     Locked are about wrong passwords, Access and Promotion about a login that succeeds, Revoked about
--     tokens.
--   Moderation: moderation_usecase.rs: reports (Scope, Queue), warnings and bans (Bans, Banned).
--   Social: reaction_usecase.rs, follow_usecase.rs and bookmark_usecase.rs, over Repo/Social, which is their
--     three repositories.
--   Infra: plugins/circuit_breaker.rs, rate_limit/in_memory.rs, cache/in_memory.rs and (Package)
--     plugins/package_extractor.rs of backend/crates/ferum-infrastructure/src, one operation at a time. A
--     failed call of the file system leaves the disk as it was, and removing a directory does not fail.
--   Tests: runs at concrete inputs.
--
-- Numbers: identifiers (UUIDs) and times (milliseconds or seconds since the epoch) are natural numbers; a
-- reply count is an integer, as the statement does not clamp it; the `u32` and `u64` counters of Infra
-- wrap where the source's do; `as i64` of a number from the configuration is as_i64, which turns 2^63 and
-- more negative. A request reads the clock once. The rows' `i32` counters are not bounded.
--
-- Outside of the model, as parameters of the environment: the Markdown renderer, lower-casing, integer
-- parsing, the plugins' answers, fresh identifiers, which calls fail, password hashes, tokens, the JSON of
-- cached values, the digest of a file, the library that makes slugs, the parsers of URIs and addresses, the
-- resolver of host names, and the ZIP library. Every function here is structural recursion, and no fuel is
-- used; a scan of a text carries the number of characters to skip.
--
-- Not modelled: requests that run at the same time; profiles, notifications, search and themes; the details
-- of the audit log and the content of queued mails; the Redis, S3, e-mail and search back ends, which call
-- services; plugins' scripts; web handlers and templates; queries that only list.
mod Prelude
pub mod Domain
pub mod Text
pub mod Store
pub mod Exec
pub mod Repo
pub mod RoleCache
pub mod RoleUseCase
pub mod Auth
pub mod AdminUseCase
pub mod CategoryUseCase
pub mod WebhookUseCase
pub mod Moderation
pub mod Social
pub mod Permission
pub mod Storage
pub mod PostUseCase
pub mod ThreadUseCase
pub mod Infra
mod Tests
