-- ===== src/Api/Manifest/Applier.antt =====
-- api/actions/manifest/applier.go: what is asked of the repositories to make an application as the
-- manifest wants it. A run is a trace of the requests that change something, and how it ends;
-- what the repositories answer is a parameter.
use Prim.Native.Char.{Char, code}
use korifi.Base.{
  ℕ, String, List, [], ◌∷◌, ◌++◌, Bool, true, false, Option, none, some, ◌==◌, concat, eqb, lookup,
  insert, is_some, if◌then◌else◌,
}
use korifi.Kube.Errors.{Result, ok, err}
use korifi.Api.Manifest.{
  ManifestProcess, ManifestService, ManifestApplication, AppRecord, Destination, RouteRecord,
  AppState,
}

-- How a call can go wrong: an error of the API, or a panic.
pub data ApplyError : Type 0 where
  api_error : String → ApplyError
  not_found_error : String → String → ApplyError
  nil_dereference index_out_of_range : ApplyError

pub record DomainRecord : Type 0 where
  pub guid : String
  pub namespace : String
  pub name : String

pub record CreateRouteMessage : Type 0 where
  pub host : String
  pub path : String
  pub space_guid : String
  pub domain : DomainRecord

pub record CreateBindingMessage (Json : Type 0) : Type 0 where
  pub name : Option String
  pub service_instance_guid : String
  pub app_guid : String
  pub space_guid : String
  pub parameters : Option Json

pub record ServiceInstanceRecord : Type 0 where
  pub guid : String
  pub name : String

pub data Request (Extra Json : Type 0) : Type 0 where
  create_app : String → ManifestApplication Extra Json → Request Extra Json
  patch_app : String → String → ManifestApplication Extra Json → Request Extra Json
  patch_process : String → String → ManifestProcess → Request Extra Json
  create_process : String → String → ManifestProcess → Request Extra Json
  get_or_create_route : CreateRouteMessage → Request Extra Json
  add_destination : RouteRecord → String → Request Extra Json
  remove_destination : String → String → String → Request Extra Json
  create_service_binding : CreateBindingMessage Json → Request Extra Json

-- The answers. `keys_in_order` is the order in which Go ranges over the keys of a map; the names that
-- a list of service instances is asked for are a set, so their order has no meaning.
pub record Repositories (Extra Json : Type 0) : Type 0 where
  pub create_app : String → ManifestApplication Extra Json → Result ApplyError AppRecord
  pub answer : Request Extra Json → Option ApplyError
  pub list_domains : String → Result ApplyError (List DomainRecord)
  pub get_or_create_route : CreateRouteMessage → Result ApplyError RouteRecord
  pub list_service_instances : List String → Result ApplyError (List ServiceInstanceRecord)
  pub keys_in_order : List String → List String

-- The requests so far, and the error that the run stopped with.
pub record Run (Extra Json : Type 0) : Type 0 where
  pub requests : List (Request Extra Json)
  pub failure : Option ApplyError

-- `strings.SplitN(s, sep, 2)`: what is before the first separator, and what comes after it, if
-- there is one.
abbrev pub push_front : Char → String × Option String → String × Option String
push_front c parts = (String.◌∷◌ c parts.0, parts.1)

unfoldable pub split_in_two : ℕ → String → String × Option String
split_in_two sep String.[] = ("", none)
split_in_two sep (String.◌∷◌ c s) =
    let rest = split_in_two sep s in if eqb (code c) sep then ("", some s) else push_front c rest

pub record RouteParts : Type 0 where
  pub host : String
  pub domain : String
  pub path : String

abbrev pub path_of : Option String → String
path_of none = ""
path_of (some rest) = concat ("/" ∷ rest ∷ [])

abbrev pub parts_of : String → Option String → Option RouteParts
parts_of host none = none
parts_of host (some rest) =
    let parts = split_in_two 47 rest in
    some (record { host = host; domain = parts.0; path = path_of parts.1 })

-- `splitRoute`; `none` when it indexes beyond the parts.
unfoldable pub split_route : String → Option RouteParts
split_route route = let parts = split_in_two 46 route in parts_of parts.0 parts.1

module _ {Extra Json : Type 0} (world : Repositories Extra Json) where
  open world use {answer, list_domains, list_service_instances, keys_in_order}

  abbrev pub done : Run Extra Json
  done = record { requests = []; failure = none }

  abbrev pub stops : ApplyError → Run Extra Json
  stops e = record { requests = []; failure = some e }

  abbrev pub asks : Request Extra Json → Run Extra Json
  asks r = record { requests = r ∷ []; failure = answer r }

  -- The second run follows only where the first one ended without an error.
  abbrev pub followed : Run Extra Json → Option ApplyError → Run Extra Json → Run Extra Json
  followed a (some e) b = a
  followed a none b = record { requests = a.requests ++ b.requests; failure = b.failure }

  abbrev pub after : Run Extra Json → Run Extra Json → Run Extra Json
  after a b = followed a a.failure b

  abbrev pub in_turn {ℓ} : {A : Type ℓ} → (A → Run Extra Json) → List A → Run Extra Json
  in_turn f [] = done
  in_turn f (x ∷ xs) = let rest = in_turn f xs in after (f x) rest

  abbrev process_applied : AppState → ManifestProcess → Option String → Run Extra Json
  process_applied state p (some guid) = asks (patch_process guid state.app.space_guid p)
  process_applied state p none = asks (create_process state.app.guid state.app.space_guid p)

  unfoldable pub apply_processes : ManifestApplication Extra Json → AppState → Run Extra Json
  apply_processes a state =
      in_turn (λ p. process_applied state p (lookup p.process_type state.processes)) a.processes

  abbrev destination_added : AppState → Result ApplyError RouteRecord → Run Extra Json
  destination_added state (err e) = stops e
  destination_added state (ok record') = asks (add_destination record' state.app.guid)

  -- `singleton.Get`
  abbrev route_made : AppState → RouteParts → Result ApplyError (List DomainRecord) → Run Extra Json
  route_made state parts (err e) = stops e
  route_made state parts (ok []) = stops (api_error "domain not found")
  route_made state parts (ok (domain ∷ other ∷ more)) =
      stops (api_error "duplicate domain objects exist")
  route_made state parts (ok (domain ∷ [])) =
      let message : CreateRouteMessage = record {
        host = parts.host;
        path = parts.path;
        space_guid = state.app.space_guid;
        domain = domain;
      } in
      followed (record { requests = get_or_create_route message ∷ []; failure = none }) none
        (destination_added state (world.get_or_create_route message))

  abbrev route_split : AppState → Option RouteParts → Run Extra Json
  route_split state none = stops index_out_of_range
  route_split state (some parts) = route_made state parts (list_domains parts.domain)

  abbrev unless_there : AppState → String → Option RouteRecord → Run Extra Json
  unless_there state route (some there) = done
  unless_there state route none = route_split state (split_route route)

  abbrev create_or_update_route : AppState → Option String → Run Extra Json
  create_or_update_route state none = stops nil_dereference
  create_or_update_route state (some route) = unless_there state route (lookup route state.routes)

  abbrev destination_deleted : String → RouteRecord → Destination → Run Extra Json
  destination_deleted app_guid r d =
      if d.app_guid == app_guid then asks (remove_destination r.guid r.space_guid d.guid) else done

  -- The routes are a map: their order here stands for the one in which Go ranges over it.
  unfoldable pub delete_app_destinations : String → List (String × RouteRecord) → Run Extra Json
  delete_app_destinations app_guid routes =
      in_turn (λ kv. in_turn (destination_deleted app_guid kv.1) kv.1.destinations) routes

  unfoldable pub apply_routes : ManifestApplication Extra Json → AppState → Run Extra Json
  unfolding delete_app_destinations split_route
  apply_routes a state =
      if a.no_route
      then delete_app_destinations state.app.guid state.routes
      else in_turn (λ r. create_or_update_route state r.route) a.routes

  -- The names of the services of the manifest, each once, less the bound ones.
  abbrev pub service_names : List (ManifestService Json) → List (String × Bool)
  service_names [] = []
  service_names (s ∷ ss) = insert s.name true (service_names ss)

  abbrev pub unbound_names : List (String × String) → List (String × Bool) → List String
  unbound_names bound [] = []
  unbound_names bound (kv ∷ kvs) =
      let rest = unbound_names bound kvs in
      if is_some (lookup kv.0 bound) then rest else kv.0 ∷ rest

  abbrev pub or_earlier :
      Bool → ServiceInstanceRecord → Option ServiceInstanceRecord → Option ServiceInstanceRecord
  or_earlier same r (some later) = some later
  or_earlier true r none = some r
  or_earlier false r none = none

  -- The last record of a name is the one that the map keeps.
  abbrev pub record_of : String → List ServiceInstanceRecord → Option ServiceInstanceRecord
  record_of name [] = none
  record_of name (r ∷ rs) = let later = record_of name rs in or_earlier (r.name == name) r later

  abbrev pub get_manifest_service :
      String → List (ManifestService Json) → Option (ManifestService Json)
  get_manifest_service name [] = none
  get_manifest_service name (s ∷ ss) =
      let rest = get_manifest_service name ss in if s.name == name then some s else rest

  abbrev pub binding_message :
      AppState → ServiceInstanceRecord → ManifestService Json → CreateBindingMessage Json
  binding_message state r s = record {
    name = s.binding_name;
    service_instance_guid = r.guid;
    app_guid = state.app.guid;
    space_guid = state.app.space_guid;
    parameters = s.parameters;
  }

  abbrev pub bound_service :
      ManifestApplication Extra Json
      → AppState
      → String
      → Option ServiceInstanceRecord
      → Option (ManifestService Json)
      → Run Extra Json
  bound_service a state name none service = stops (not_found_error a.name name)
  bound_service a state name (some r) none =
      stops
        (api_error (concat ("service " ∷ name ∷ " not found in app " ∷ a.name ∷ " manifest" ∷ [])))
  bound_service a state name (some r) (some s) =
      asks (create_service_binding (binding_message state r s))

  abbrev pub bind_services :
      ManifestApplication Extra Json
      → AppState
      → List String
      → Result ApplyError (List ServiceInstanceRecord)
      → Run Extra Json
  bind_services a state names (err e) = stops e
  bind_services a state names (ok records) =
      in_turn
        (λ name.
          bound_service a state name (record_of name records)
            (get_manifest_service name a.services))
        (keys_in_order names)

  abbrev pub bind_unbound : ManifestApplication Extra Json → AppState → List String → Run Extra Json
  bind_unbound a state [] = done
  bind_unbound a state (n ∷ ns) = bind_services a state (n ∷ ns) (list_service_instances (n ∷ ns))

  unfoldable pub apply_services : ManifestApplication Extra Json → AppState → Run Extra Json
  apply_services a state =
      bind_unbound a state (unbound_names state.service_bindings (service_names a.services))

  abbrev pub new_state : AppRecord → AppState
  new_state app = record { app = app; processes = []; routes = []; service_bindings = [] }

  abbrev rest_applied : ManifestApplication Extra Json → AppState → Run Extra Json
  rest_applied a state =
      after (apply_processes a state) (after (apply_routes a state) (apply_services a state))

  abbrev app_created :
      String → ManifestApplication Extra Json → Result ApplyError AppRecord → Run Extra Json
  app_created space_guid a (err e) = record {
    requests = create_app space_guid a ∷ [];
    failure = some e;
  }
  app_created space_guid a (ok app) =
      followed (record { requests = create_app space_guid a ∷ []; failure = none }) none
        (rest_applied a (new_state app))

  unfoldable pub apply : String → ManifestApplication Extra Json → AppState → Run Extra Json
  unfolding apply_processes apply_routes apply_services
  apply space_guid a state =
      if state.app.guid == ""
      then app_created space_guid a (world.create_app space_guid a)
      else after (asks (patch_app state.app.guid space_guid a)) (rest_applied a state)
