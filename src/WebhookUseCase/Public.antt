-- ===== src/WebhookUseCase/Public.antt =====
-- A webhook that is created or given a new address does not point inside.
use ferum_board.Prelude.{
  String, ◌≡◌, refl, sym, ◌∙◌, ap, subst, Bool, true, false, Option, none, some, List, ◌∷◌, Text,
  arith, any, if◌then◌else◌,
}
use ferum_board.Domain.Error.{AppError, ok, err}
use ferum_board.Domain.AuthUser.{AuthUser}
use ferum_board.Domain.Desk.{Webhook}
use ferum_board.Domain.Net.{IpAddr, is_private_ip, is_private_host_literal, normalize_host}
use ferum_board.Store.{Db, Env}
use ferum_board.Exec.{World, lift}
use ferum_board.Exec.Rules.{Reads, reads_rules}
use ferum_board.Exec.Runs.{bind-ok, Reads-ok, lift-ok, refuse_if-ok, step-ok}
use ferum_board.Permission.{can_manage_webhooks}
use ferum_board.Repo.Webhooks
use ferum_board.WebhookUseCase.{
  Uri, WebhookPorts, is_http, is_empty_events, check_host, check_uri, check_name, check_resolved,
  host_of, validate_webhook_url, assert_hostname_not_private, prepare_create, create,
}

-- What the checks of an address come to: it parses, its scheme is one of HTTP's, its host is no private
-- literal, and where the host is a name that resolves, none of its addresses is private.
pub record IsPublic (ports : WebhookPorts) (url : Text) : Type 0 where
  pub uri : Uri
  pub parsed : ports.parse_uri url ≡ some uri
  pub scheme : is_http uri.scheme ≡ true
  pub host : Text
  pub has_host : uri.host ≡ some host
  pub literal : is_private_host_literal ports.parse_ip host ≡ false
  pub resolved :
      (addrs : List IpAddr)
      → ports.parse_ip (normalize_host host) ≡ none
      → ports.resolve (normalize_host host) ≡ ok addrs
      → any is_private_ip addrs ≡ false

module _ (ports : WebhookPorts) (url : Text) where
  addresses-ok :
      (host : Text) (addrs : List IpAddr)
      → check_name ports host (ports.parse_ip host) ≡ ok tt
      → ports.parse_ip host ≡ none
      → ports.resolve host ≡ ok addrs
      → any is_private_ip addrs ≡ false
  addresses-ok host addrs h n r = ground (arith, h, n, r)

  of_host :
      (uri : Uri) (o : Option Text)
      → ports.parse_uri url ≡ some uri
      → is_http uri.scheme ≡ true
      → uri.host ≡ o
      → check_host ports o ≡ ok tt
      → check_resolved ports o ≡ ok tt
      → IsPublic ports url
  of_host uri none p s e h r = cc
  of_host uri (some host) p s e h r = record {
    uri = uri;
    parsed = p;
    scheme = s;
    host = host;
    has_host = e;
    literal = ground (arith, h);
    resolved = λ addrs n q. addresses-ok (normalize_host host) addrs r n q;
  }

  of_scheme :
      (uri : Uri) (b : Bool) (e : AppError)
      → (if b then check_host ports uri.host else err e) ≡ ok tt
      → (b ≡ true) × (check_host ports uri.host ≡ ok tt)
  of_scheme uri true e h = (refl, h)
  of_scheme uri false e h = cc

  of_uri :
      (o : Option Uri)
      → ports.parse_uri url ≡ o
      → check_uri ports o ≡ ok tt
      → check_resolved ports (host_of ports o) ≡ ok tt
      → IsPublic ports url
  of_uri none p h r = cc
  of_uri (some uri) p h r =
      let (s, k) = of_scheme uri (is_http uri.scheme) _ h in of_host uri uri.host p s refl k r

  validated-IsPublic :
      validate_webhook_url ports url ≡ ok tt
      → assert_hostname_not_private ports url ≡ ok tt
      → IsPublic ports url
  unfolding validate_webhook_url assert_hostname_not_private
  validated-IsPublic h r = of_uri (ports.parse_uri url) refl (ground (arith, h)) r

prepare_create-ok :
    (ports : WebhookPorts) (env : Env) (w : World) {v : World} {y : Unit {0}} (actor : AuthUser)
    (url : Text) (events : List String)
    → prepare_create ports actor url events env w ≡ (ok y, v)
    → IsPublic ports url × (is_empty_events events ≡ false)
unfolding prepare_create
prepare_create-ok ports env w actor url events h =
    let (x1, u1, h1, k1) = bind-ok env (lift (can_manage_webhooks actor)) _ w h in
    let (x2, u2, h2, k2) = bind-ok env (lift (validate_webhook_url ports url)) _ u1 k1 in
    let (x3, u3, h3, k3) = bind-ok env (lift (assert_hostname_not_private ports url)) _ u2 k2 in
    (
      validated-IsPublic ports url (lift-ok env u1 _ h2).0 (lift-ok env u2 _ h3).0,
      refuse_if-ok env u3 (is_empty_events events) _ k3,
    )

Reads-prepare_create :
    (ports : WebhookPorts) (actor : AuthUser) (url : Text) (events : List String)
    → Reads (prepare_create ports actor url events)
unfolding prepare_create
Reads-prepare_create ports actor url events = search reads_rules depth 20

inserted :
    (env : Env) (w : World) {v : World} {x : Webhook} (url : Text) (events : List String)
    (secret : Option Text)
    → Webhooks.create url events secret env w ≡ (ok x, v)
    → (x ≡ Webhooks.new_webhook url events secret (env.fresh w.calls))
      × (v.db.webhooks ≡ x ∷ w.db.webhooks)
unfolding Webhooks.create
inserted env w url events secret h =
    let k = step-ok env w _ h in (ground (arith, k), ground (arith, k))

-- A webhook that is created has an HTTP address whose host is no private literal and resolves to no private
-- address at the time, has at least one event, and is active; and it is the row that was added.
pub create-IsPublic :
    (ports : WebhookPorts) (env : Env) (w v : World) (actor : AuthUser) (url : Text)
    (events : List String) (secret : Option Text) (x : Webhook)
    → create ports actor url events secret env w ≡ (ok x, v)
    → IsPublic ports x.url
      × (is_empty_events x.events ≡ false)
      × (x.is_active ≡ true)
      × (v.db.webhooks ≡ x ∷ w.db.webhooks)
unfolding create
create-IsPublic ports env w v actor url events secret x h =
    let (x0, u0, h0, k0) = bind-ok env (prepare_create ports actor url events) _ w h in
    let (public, full) = prepare_create-ok ports env w actor url events h0 in
    let (row, rows) = inserted env u0 url events secret k0 in
    (
      subst (λ (y : Webhook). IsPublic ports y.url) (sym row) public,
      ap (λ (y : Webhook). is_empty_events y.events) row ∙ full,
      ap (λ (y : Webhook). y.is_active) row,
      rows
          ∙ ap (λ (d : Db). x ∷ d.webhooks)
              (Reads-ok env w _ (Reads-prepare_create ports actor url events) h0),
    )
