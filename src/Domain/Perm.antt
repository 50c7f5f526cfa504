-- ===== src/Domain/Perm.antt =====
-- The permission keys of backend/crates/ferum-domain/src/models/role.rs.
use ferum_board.Prelude.{String}

abbrev pub thread_create : String
thread_create = "thread.create"

abbrev pub thread_edit_own : String
thread_edit_own = "thread.edit_own"

abbrev pub thread_delete_own : String
thread_delete_own = "thread.delete_own"

abbrev pub thread_edit_any : String
thread_edit_any = "thread.edit_any"

abbrev pub thread_delete_any : String
thread_delete_any = "thread.delete_any"

abbrev pub thread_pin : String
thread_pin = "thread.pin"

abbrev pub thread_lock : String
thread_lock = "thread.lock"

abbrev pub thread_move : String
thread_move = "thread.move"

abbrev pub post_create : String
post_create = "post.create"

abbrev pub post_edit_own : String
post_edit_own = "post.edit_own"

abbrev pub post_delete_own : String
post_delete_own = "post.delete_own"

abbrev pub post_delete_any : String
post_delete_any = "post.delete_any"

abbrev pub reaction_add : String
reaction_add = "reaction.add"

abbrev pub file_upload : String
file_upload = "file.upload"

abbrev pub link_embed : String
link_embed = "link.embed"

abbrev pub tag_create : String
tag_create = "tag.create"

abbrev pub report_create : String
report_create = "report.create"

abbrev pub mod_view_reports : String
mod_view_reports = "moderation.view_reports"

abbrev pub mod_resolve : String
mod_resolve = "moderation.resolve"

abbrev pub mod_warn : String
mod_warn = "moderation.warn"

abbrev pub mod_ban_temp : String
mod_ban_temp = "moderation.ban_temp"

abbrev pub admin_users : String
admin_users = "admin.users"

abbrev pub admin_ban_permanent : String
admin_ban_permanent = "admin.ban_permanent"

abbrev pub admin_categories : String
admin_categories = "admin.categories"

abbrev pub admin_roles : String
admin_roles = "admin.roles"

abbrev pub admin_config : String
admin_config = "admin.config"

abbrev pub admin_webhooks : String
admin_webhooks = "admin.webhooks"

abbrev pub admin_plugins : String
admin_plugins = "admin.plugins"
