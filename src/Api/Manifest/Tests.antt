-- ===== src/Api/Manifest/Tests.antt =====
-- A concrete manifest.
use korifi.Base.{
  ℕ, String, [], ◌∷◌, ◌≡◌, ◌≢◌, refl, true, false, none, some, ◌==◌, any, is_some, lookup, insert,
  map, arith, eq_iff, if◌then◌else◌,
}
use korifi.Kube.Errors.{ok, err}
use korifi.Api.Manifest.{ManifestProcess, ManifestService, ManifestApplication, AppState}
use korifi.Api.Manifest.Normalizer.{new_web, fixed_process, fix_deprecated_fields, normalize}
use korifi.Api.Manifest.Applier.{
  Repositories, RouteParts, split_in_two, split_route, apply_services, unbound_names, service_names,
  api_error,
}
use korifi.Api.Manifest.Web.{Merges, normalize-Merges}
use korifi.Api.Manifest.Twice.{normalize-normalize}
use korifi.Api.Manifest.Routes.{route_url, split_route-route_url}
use korifi.Api.Manifest.Bindings.{BindsAll, occurrences, apply_services-BindsAll}

abbrev worker : ManifestProcess
worker = record new_web { process_type = "worker"; alt_disk_quota = some "1G" }

abbrev service : String → ManifestService ℕ
service name = record { name = name; binding_name = none; parameters = none }

abbrev application : ManifestApplication ℕ ℕ
application = record {
  name = "app";
  extra = 0;
  default_route = true;
  random_route = false;
  no_route = false;
  command = some "run";
  instances = none;
  memory = some "256M";
  disk_quota = none;
  alt_disk_quota = some "2G";
  health_check_http_endpoint = none;
  health_check_invocation_timeout = none;
  health_check_type = none;
  timeout = none;
  processes = worker ∷ record new_web { memory = some "512M" } ∷ [];
  routes = [];
  buildpacks = [];
  buildpack = some "go";
  services = service "db" ∷ service "queue" ∷ service "db" ∷ [];
}

abbrev state : AppState
state = record {
  app = record { guid = "app-guid"; space_guid = "space" };
  processes = [];
  routes = [];
  service_bindings = ("queue", "binding") ∷ [];
}

normalize-Merges_example :
    Merges
      (fix_deprecated_fields application)
      (map fixed_process application.processes)
      (normalize "apps.example" "kind-cat-ab" application state).processes
normalize-Merges_example = normalize-Merges "apps.example" "kind-cat-ab" application state

normalize-normalize_example :
    let n = normalize "apps.example" "kind-cat-ab" application state in
    normalize "apps.example" "wise-yak-cd" n state ≡ n
normalize-normalize_example =
    normalize-normalize "apps.example" "kind-cat-ab" "wise-yak-cd" application state

abbrev parts : RouteParts
parts = record { host = "app"; domain = "apps.example"; path = "/v1" }

parts_split : split_route "app.apps.example/v1" ≡ some parts
unfolding split_route split_in_two
parts_split = refl

hosted : ◌≢◌ {A = String} "app" ""
hosted = ground (arith, eq_iff "app" "")

split_route-route_url_example : route_url parts ≡ "app.apps.example/v1"
split_route-route_url_example = split_route-route_url "app.apps.example/v1" parts parts_split hosted

abbrev repositories : Repositories ℕ ℕ
repositories = record {
  create_app = λ space a. err (api_error "no app");
  answer = λ r. none;
  list_domains = λ n. ok [];
  get_or_create_route = λ m. err (api_error "no route");
  list_service_instances = λ names. ok (record { guid = "db-guid"; name = "db" } ∷ []);
  keys_in_order = λ names. names;
}

services_fine : (apply_services repositories application state).failure ≡ none
unfolding apply_services insert lookup
services_fine = refl

apply_services-BindsAll_example :
    BindsAll repositories application state (apply_services repositories application state).requests
    × ((n : String)
        → occurrences n (
            unbound_names repositories state.service_bindings
              (service_names repositories application.services))
          ≡ (if is_some (lookup n state.service_bindings)
              then 0
              else if any (λ s. s.name == n) application.services
              then 1
              else 0))
apply_services-BindsAll_example =
    apply_services-BindsAll repositories application state services_fine
