-- ===== src/Api/Manifest/Normalizer.antt =====
-- api/actions/manifest/normalizer.go: the fields of an application in a manifest, moved to its web
-- process, and its default routes. The words of a random route are a parameter.
use korifi.Base.{
  String, List, [], ◌∷◌, ◌++◌, Bool, false, not, ◌&&◌, ◌||◌, Option, none, some, ◌==◌, concat,
  is_some, length, eqb, map, if◌then◌else◌,
}
use korifi.Api.Manifest.{ManifestProcess, ManifestRoute, ManifestApplication, AppState}

abbrev pub web : String
web = "web"

-- `procValIfSet`
abbrev pub proc_val_if_set {ℓ} : {A : Type ℓ} → Option A → Option A → Option A
proc_val_if_set app_val none = app_val
proc_val_if_set app_val (some v) = some v

abbrev pub has_buildpack_set : Option String → Bool
has_buildpack_set none = false
has_buildpack_set (some b) = not (b == "") && (not (b == "default") && not (b == "null"))

abbrev pub fixed_process : ManifestProcess → ManifestProcess
fixed_process p = record p { disk_quota = proc_val_if_set p.alt_disk_quota p.disk_quota }

abbrev with_buildpack : List String → Option String → List String
with_buildpack buildpacks none = buildpacks
with_buildpack buildpacks (some b) =
    if has_buildpack_set (some b) then buildpacks ++ b ∷ [] else buildpacks

abbrev pub new_web : ManifestProcess
new_web = record {
  process_type = web;
  command = none;
  disk_quota = none;
  alt_disk_quota = none;
  health_check_http_endpoint = none;
  health_check_invocation_timeout = none;
  health_check_type = none;
  instances = none;
  memory = none;
  timeout = none;
}

abbrev configure_default_route : String → String → ManifestRoute
configure_default_route default_domain_name app_name = record {
  route = some (concat (app_name ∷ "." ∷ default_domain_name ∷ []));
}

abbrev configure_random_route : String → String → String → ManifestRoute
configure_random_route default_domain_name random_words app_name = record {
  route = some (concat (app_name ∷ "-" ∷ random_words ∷ "." ∷ default_domain_name ∷ []));
}

module _ {Extra Json : Type 0} where
  unfoldable pub fix_deprecated_fields :
      ManifestApplication Extra Json → ManifestApplication Extra Json
  fix_deprecated_fields a = record a {
    disk_quota = proc_val_if_set a.alt_disk_quota a.disk_quota;
    processes = map fixed_process a.processes;
    buildpacks = with_buildpack a.buildpacks a.buildpack;
  }

  abbrev pub has_process_fields : ManifestApplication Extra Json → Bool
  has_process_fields a =
      is_some a.memory
      || (is_some a.disk_quota
          || (is_some a.instances
              || (is_some a.command
                  || (is_some a.health_check_http_endpoint
                      || (is_some a.health_check_type
                          || (is_some a.health_check_invocation_timeout || is_some a.timeout))))))

  abbrev pub merged_fields : ManifestApplication Extra Json → ManifestProcess → ManifestProcess
  merged_fields a p = record p {
    memory = proc_val_if_set a.memory p.memory;
    disk_quota = proc_val_if_set a.disk_quota p.disk_quota;
    instances = proc_val_if_set a.instances p.instances;
    command = proc_val_if_set a.command p.command;
    health_check_http_endpoint =
        proc_val_if_set a.health_check_http_endpoint p.health_check_http_endpoint;
    health_check_type = proc_val_if_set a.health_check_type p.health_check_type;
    health_check_invocation_timeout =
        proc_val_if_set a.health_check_invocation_timeout p.health_check_invocation_timeout;
    timeout = proc_val_if_set a.timeout p.timeout;
  }

  -- What the fields of the application make of its web process.
  abbrev pub merged : ManifestApplication Extra Json → ManifestProcess → ManifestProcess
  merged a p = if has_process_fields a then merged_fields a p else p

  -- The first web process changed, or a new one at the end.
  abbrev pub merged_web :
      ManifestApplication Extra Json → List ManifestProcess → List ManifestProcess
  merged_web a [] = merged a new_web ∷ []
  merged_web a (p ∷ ps) =
      let rest = merged_web a ps in if p.process_type == web then merged a p ∷ ps else p ∷ rest

  unfoldable pub normalize_processes : ManifestApplication Extra Json → List ManifestProcess
  normalize_processes a = merged_web a a.processes

  module _ (default_domain_name : String) (generate_random_route : String) where
    abbrev automatic_routes : ManifestApplication Extra Json → List ManifestRoute
    automatic_routes a =
        (if a.default_route then configure_default_route default_domain_name a.name ∷ [] else [])
        ++ (if a.random_route
            then configure_random_route default_domain_name generate_random_route a.name ∷ []
            else [])

    unfoldable pub normalize_routes : ManifestApplication Extra Json → AppState → List ManifestRoute
    normalize_routes a state =
        if a.no_route
        then []
        else if eqb (length a.routes) 0 && eqb (length state.routes) 0
        then a.routes ++ automatic_routes a
        else a.routes

    unfoldable pub normalize :
        ManifestApplication Extra Json → AppState → ManifestApplication Extra Json
    unfolding fix_deprecated_fields normalize_processes normalize_routes
    normalize app_info state =
        let a = fix_deprecated_fields app_info in
        record {
          name = a.name;
          extra = a.extra;
          default_route = false;
          random_route = false;
          no_route = a.no_route;
          command = none;
          instances = none;
          memory = none;
          disk_quota = none;
          alt_disk_quota = none;
          health_check_http_endpoint = none;
          health_check_invocation_timeout = none;
          health_check_type = none;
          timeout = none;
          processes = normalize_processes a;
          routes = normalize_routes a state;
          buildpacks = a.buildpacks;
          buildpack = none;
          services = a.services;
        }
