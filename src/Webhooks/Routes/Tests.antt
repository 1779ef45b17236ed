-- ===== src/Webhooks/Routes/Tests.antt =====
-- The validators of routes and service bindings at concrete objects.
use korifi.Base.{
  String, ◌≡◌, refl, ◌≢◌, [], ◌∷◌, false, Option, none, some, eq_iff, arith, ◌⊎◌, concat, All,
}
use korifi.Kube.Errors.{ApiError, Result, ok}
use korifi.Names.Interface.{Context, is_dry_run, NameRegistry}
use korifi.Names.Registry.{hash_name, register_name, deregister_name}
use korifi.Names.Registry.Claims.{leased_names}
use korifi.Names.Memory.{memory, Store}
use korifi.Names.Duplicate
use korifi.Names.Duplicate.Owners.{Owns}
use korifi.Webhooks.Routes.{
  Route, Texts, unique_route, check_destinations, validate_destinations, validate_create,
  validate_update,
}
use korifi.Webhooks.Routes.Checks.{RouteFits, Found}
use korifi.Webhooks.Routes.Admission.{route_create_fits, route_update_keeps}
use korifi.Webhooks.Bindings
use korifi.Webhooks.Bindings.{ServiceBinding, unique_binding}
use korifi.Webhooks.Bindings.Renames.{binding_rename_leaks}

abbrev names : NameRegistry
names = leased_names (λ s. s) "route" memory

abbrev no_leases : Store
no_leases = λ ns n. none

abbrev real : Context
real = some none

abbrev texts : Texts
texts = record {
  to_lower = λ s. s;
  quote = λ s. s;
  is_dns1123_label = λ s. [];
  multi_error = λ ss. "";
  parse_request_uri = λ s. none;
  contains = λ s t. false;
  join = λ ss sep. concat ss;
}

abbrev domain : String → String → Result ApiError String
domain _ _ = ok "example.org"

abbrev app : String → String → Option ApiError
app _ _ = none

abbrev route : Route
route = record {
  namespace = "space";
  name = "route-guid";
  is_deleting = false;
  host = "www";
  path = "/api";
  protocol = "http";
  domain_namespace = "cf";
  domain_name = "domain-guid";
  destinations = "app-guid" ∷ [];
  fqdn = "";
}

calls : Unit {0}
unfolding validate_update validate_destinations check_destinations Duplicate.validate_update
    unique_route is_dry_run
calls = tt

route_create_fits_example :
    ((d : String) × RouteFits texts domain app route d
      × ((validate_create texts domain app "cf" names real route no_leases).1 ≡ none
          → Owns names "cf"
              (validate_create texts domain app "cf" names real route no_leases).0
              (unique_route texts route)))
    ⊎ (((d : String) → ¬ RouteFits texts domain app route d)
        × ((validate_create texts domain app "cf" names real route no_leases).1 ≢ none)
        × ((validate_create texts domain app "cf" names real route no_leases).0 ≡ no_leases))
unfolding is_dry_run
route_create_fits_example = route_create_fits texts domain app "cf" names real route no_leases refl

route_update_keeps_example :
    (◌≡◌ {A = String} "www" "www")
    × (◌≡◌ {A = String} "/api" "/api")
    × (◌≡◌ {A = String} "http" "http")
    × (◌≡◌ {A = String} "domain-guid" "domain-guid")
    × All (Found texts domain app "space") ("app-guid" ∷ [])
    × ((◌≡◌ {A = String} "cf" "cf")
        → (validate_update texts domain app "cf" names real route route no_leases).0 ≡ no_leases)
unfolding calls
route_update_keeps_example =
    route_update_keeps texts domain app "cf" names real route route no_leases refl refl

abbrev binding : Option String → ServiceBinding
binding display_name = record {
  namespace = "space";
  name = "binding-guid";
  is_deleting = false;
  app_ref_name = "app-guid";
  service_name = "si-guid";
  service_namespace = "space";
  display_name = display_name;
}

binding_calls : Unit {0}
unfolding Bindings.validate_create Bindings.validate_delete Duplicate.validate_create
    Duplicate.validate_delete unique_binding register_name deregister_name hash_name is_dry_run
binding_calls = tt

two_names :
    names.key (unique_binding (binding (some "db"))).unique_name
    ≢ names.key (unique_binding (binding none)).unique_name
unfolding binding_calls
two_names h = ground (
  arith,
  eq_iff (names.key "sb::app-guid::space::si-guid::db")
      (names.key "sb::app-guid::space::si-guid::si-guid"),
)

binding_rename_leaks_example :
    let made = (Bindings.validate_create names real (binding none) no_leases).0 in
    let gone = (Bindings.validate_delete names real (binding (some "db")) made).0 in
    (Bindings.validate_update (binding none) (binding (some "db")) ≡ none)
    × Owns names "space" gone (unique_binding (binding none))
    × ((Bindings.validate_create names real (binding (some "si-guid")) gone).1 ≢ none)
unfolding binding_calls
binding_rename_leaks_example =
    binding_rename_leaks names real (binding none) (binding (some "db")) (binding (some "si-guid"))
      no_leases refl refl refl refl refl refl refl two_names refl refl
