-- ===== src/WebhookUseCase.antt =====
-- backend/crates/ferum-application/src/usecases/webhook_usecase.rs. The test delivery is a call of the HTTP
-- client and is left out.
pub mod Public
use ferum_board.Prelude.{
  ℕ, String, Bool, true, false, not, ◌||◌, Option, none, some, List, [], ◌∷◌, Text, any,
  if◌then◌else◌,
}
use ferum_board.Domain.Error.{Result, ok, err, or_not_found, unprocessable_entity}
use ferum_board.Domain.AuthUser.{AuthUser}
use ferum_board.Domain.Desk.{Webhook}
use ferum_board.Domain.Net.{IpAddr, is_private_ip, is_private_host_literal, normalize_host}
use ferum_board.Exec.{Exec, pure, lift, refuse_if, ◌>>=◌, ◌>>◌}
use ferum_board.Permission.{can_manage_webhooks}
use ferum_board.Repo.Webhooks
use ferum_board.Repo.Webhooks.{UpdateWebhook}
use ferum_board.Text.{codes, text_eq, is_empty}

-- The parts of a parsed `http::Uri`.
pub record Uri : Type 0 where
  pub scheme : Option Text
  pub host : Option Text

-- The parsers of URIs and of addresses, and the resolver of host names.
pub record WebhookPorts : Type 0 where
  pub parse_uri : Text → Option Uri
  pub parse_ip : Text → Option IpAddr
  pub resolve : Text → Result (List IpAddr)

abbrev pub is_http : Option Text → Bool
is_http none = false
is_http (some s) = text_eq s (codes "http") || text_eq s (codes "https")

abbrev pub is_empty_events : List String → Bool
is_empty_events [] = true
is_empty_events (_ ∷ _) = false

module _ (ports : WebhookPorts) where
  abbrev pub check_host : Option Text → Result (Unit {0})
  check_host none = err (unprocessable_entity "Webhook URL must have a host")
  check_host (some host) =
      if is_private_host_literal ports.parse_ip host
      then err (
          unprocessable_entity
            "Webhook URL must not target private, loopback, or link-local addresses")
      else ok tt

  abbrev pub check_uri : Option Uri → Result (Unit {0})
  check_uri none = err (unprocessable_entity "Webhook URL is not a valid URI")
  check_uri (some uri) =
      if is_http uri.scheme
      then check_host uri.host
      else err (unprocessable_entity "Webhook URL must use http or https")

  unfoldable pub validate_webhook_url : Text → Result (Unit {0})
  unfolding is_private_host_literal
  validate_webhook_url url =
      if is_empty url
      then err (unprocessable_entity "Webhook URL is required")
      else check_uri (ports.parse_uri url)

  -- A host that does not resolve is let through.
  abbrev pub check_addresses : Result (List IpAddr) → Result (Unit {0})
  check_addresses (err e) = ok tt
  check_addresses (ok addrs) =
      if any is_private_ip addrs
      then err (unprocessable_entity "Webhook host resolves to a private or reserved address")
      else ok tt

  -- A literal has been judged before.
  abbrev pub check_name : Text → Option IpAddr → Result (Unit {0})
  check_name host (some ip) = ok tt
  check_name host none = check_addresses (ports.resolve host)

  abbrev pub check_resolved : Option Text → Result (Unit {0})
  check_resolved none = ok tt
  check_resolved (some host) =
      check_name (normalize_host host) (ports.parse_ip (normalize_host host))

  abbrev pub host_of : Option Uri → Option Text
  host_of none = none
  host_of (some uri) = uri.host

  unfoldable pub assert_hostname_not_private : Text → Result (Unit {0})
  unfolding normalize_host is_private_ip
  assert_hostname_not_private url = check_resolved (host_of (ports.parse_uri url))

  -- The checks of `create`.
  unfoldable pub prepare_create : AuthUser → Text → List String → Exec (Unit {0})
  unfolding can_manage_webhooks validate_webhook_url assert_hostname_not_private
  prepare_create actor url events = do
    lift (can_manage_webhooks actor)
    lift (validate_webhook_url url)
    lift (assert_hostname_not_private url)
    refuse_if (is_empty_events events) (unprocessable_entity "At least one event type is required")

  unfoldable pub create : AuthUser → Text → List String → Option Text → Exec Webhook
  unfolding prepare_create Webhooks.create
  create actor url events secret = do
    prepare_create actor url events
    Webhooks.create url events secret

  abbrev check_url : Option Text → Exec (Unit {0})
  check_url none = pure tt
  check_url (some u) = do lift (validate_webhook_url u); lift (assert_hostname_not_private u)

  unfoldable pub update : AuthUser → ℕ → UpdateWebhook → Exec Webhook
  unfolding can_manage_webhooks validate_webhook_url assert_hostname_not_private Webhooks.find_by_id
      Webhooks.update
  update actor id upd = do
    lift (can_manage_webhooks actor)
    check_url upd.url
    found ← Webhooks.find_by_id id
    webhook ← lift (or_not_found found)
    Webhooks.update id upd

  unfoldable pub delete : AuthUser → ℕ → Exec (Unit {0})
  unfolding can_manage_webhooks Webhooks.find_by_id Webhooks.delete
  delete actor id = do
    lift (can_manage_webhooks actor)
    found ← Webhooks.find_by_id id
    webhook ← lift (or_not_found found)
    Webhooks.delete id
