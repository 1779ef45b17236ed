-- ===== src/Webhooks/Routes.antt =====
-- controllers/webhooks/networking/routes/validator.go, with the unique name of a route
-- (controllers/api/v1alpha1/cfroute_types.go). The functions of Go's `strings` and `net/url` and of
-- the Kubernetes libraries that it calls on texts are the record `Texts`; `get_domain` and `get_app`
-- are what the API server answers to requests by namespace and name.
pub mod Checks
pub mod Admission
pub mod Tests
use korifi.Base.{
  String, List, [], ◌∷◌, ◌++◌, Bool, not, Option, none, some, ◌==◌, ltb, len, concat, if◌then◌else◌,
}
use korifi.Kube.Errors.{ApiError, Result, ok, err, is_not_found}
use korifi.Validation.{UniqueObject, ValidationError, unknown_error, immutable_field_error}
use korifi.Names.Interface.{Context, NameRegistry}
use korifi.Names.Duplicate

pub record Route : Type 0 where
  pub namespace : String
  pub name : String
  pub is_deleting : Bool
  pub host : String
  pub path : String
  pub protocol : String
  pub domain_namespace : String
  pub domain_name : String
  pub destinations : List String  -- the names of the apps
  pub fqdn : String

pub record Texts : Type 0 where
  pub to_lower : String → String
  pub quote : String → String  -- the verb `%q`
  pub is_dns1123_label : String → List String  -- what is wrong with the text
  pub multi_error : List String → String  -- the text of a `multierror.Error`
  pub parse_request_uri : String → Option String  -- the error
  pub contains : String → String → Bool
  pub join : List String → String → String

module _ (texts : Texts) where
  open texts use {to_lower, quote, is_dns1123_label, multi_error, parse_request_uri, contains, join}

  abbrev path_details : String → String
  path_details path = if not (path == "") then concat (" and path '" ∷ path ∷ "'" ∷ []) else ""

  unfoldable pub unique_route : Route → UniqueObject
  unique_route r = record {
    namespace = r.namespace;
    name = r.name;
    unique_name = join (to_lower r.host ∷ r.domain_namespace ∷ r.domain_name ∷ r.path ∷ []) "::";
    unique_validation_error_message = concat (
        "Route already exists with host '"
        ∷ r.host
        ∷ "'"
        ∷ path_details r.path
        ∷ " for domain '"
        ∷ r.fqdn
        ∷ "'."
        ∷ []);
  }

  abbrev host_error : List String → Option String
  host_error [] = none
  host_error (e ∷ es) = some (multi_error (e ∷ es))

  unfoldable pub validate_host : String → Option String
  validate_host host = if host == "*" then none else host_error (is_dns1123_label host)

  abbrev host_invalid : String → Option String → Option ValidationError
  host_invalid host none = none
  host_invalid host (some e) = some (record {
    error_type = "RouteHostNameValidationError";
    message = concat ("Host " ∷ quote host ∷ " is not valid: " ∷ e ∷ []);
  })

  unfoldable pub validate_fqdn : String → String → Option ValidationError
  unfolding validate_host
  validate_fqdn host domain =
      if ltb 253 (len (concat (host ∷ "." ∷ domain ∷ [])))
      then some (record {
        error_type = "RouteSubdomainValidationError";
        message = "A valid DNS-1123 subdomain must not exceed 253 characters.";
      })
      else host_invalid (to_lower host) (validate_host (to_lower host))

  abbrev pub uri_errors : Option String → List String
  uri_errors none = []
  uri_errors (some e) = "Invalid Route URI" ∷ []

  abbrev pub when : Bool → String → List String
  when b text = if b then text ∷ [] else []

  unfoldable pub path_errors : String → List String
  path_errors path =
      uri_errors (parse_request_uri path)
      ++ when (path == "/") "Path cannot be a single slash"
      ++ when (contains path "?") "Path cannot contain a question mark"
      ++ when (ltb 128 (len path)) "Path cannot exceed 128 characters"

  abbrev joined : List String → Option ValidationError
  joined [] = none
  joined (e ∷ es) =
      some (record { error_type = "RoutePathValidationError"; message = join (e ∷ es) ", " })

  unfoldable pub validate_path : String → Option ValidationError
  unfolding path_errors
  validate_path path = if path == "" then none else joined (path_errors path)

module _ (texts : Texts) (get_domain : String → String → Result ApiError String)
    (get_app : String → String → Option ApiError) where
  -- The answer is the name of the domain.
  abbrev fetched : Result ApiError String → Result ValidationError String
  fetched (ok name) = ok name
  fetched (err e) =
      err
        (record { error_type = "UnknownError"; message = "Error while retrieving CFDomain object" })

  unfoldable pub fetch_domain : Route → Result ValidationError String
  fetch_domain r = fetched (get_domain r.domain_namespace r.domain_name)

  abbrev first : Option ApiError → Option ApiError → Option ApiError
  first none rest = rest
  first (some e) rest = some e

  unfoldable pub check_destinations : String → List String → Option ApiError
  check_destinations namespace [] = none
  check_destinations namespace (app ∷ apps) =
      first (get_app namespace app) (check_destinations namespace apps)

  abbrev destination_error : Option ApiError → Option ValidationError
  destination_error none = none
  destination_error (some e) =
      if is_not_found e
      then some (record {
        error_type = "RouteDestinationNotInSpaceError";
        message = "Route destination app not found in space";
      })
      else some unknown_error

  unfoldable pub validate_destinations : Route → Option ValidationError
  unfolding check_destinations
  validate_destinations r = destination_error (check_destinations r.namespace r.destinations)

  abbrev path_checked : String → Option ValidationError → Result ValidationError String
  path_checked domain none = ok domain
  path_checked domain (some e) = err e

  abbrev fqdn_checked : Route → String → Option ValidationError → Result ValidationError String
  fqdn_checked r domain none = path_checked domain (validate_path texts r.path)
  fqdn_checked r domain (some e) = err e

  abbrev destinations_checked :
      Route → String → Option ValidationError → Result ValidationError String
  destinations_checked r domain none = fqdn_checked r domain (validate_fqdn texts r.host domain)
  destinations_checked r domain (some e) = err e

  abbrev pub domain_fetched : Route → Result ValidationError String → Result ValidationError String
  domain_fetched r (ok domain) = destinations_checked r domain (validate_destinations r)
  domain_fetched r (err e) = err e

  -- The name of the route's domain, or the first error.
  unfoldable pub validate_route : Route → Result ValidationError String
  validate_route r = domain_fetched r (fetch_domain r)

  module _ (root_namespace : String) (registry : NameRegistry) where
    open registry use {State}

    abbrev pub validated :
        Context → Route → Result ValidationError String → State → State × Option ValidationError
    validated ctx r (err e) s = (s, some e)
    validated ctx r (ok domain) s =
        Duplicate.validate_create registry ctx root_namespace
          (unique_route texts (record r { fqdn = domain })) s

    unfoldable pub validate_create : Context → Route → State → State × Option ValidationError
    validate_create ctx r s = validated ctx r (validate_route r) s

    abbrev renamed :
        Context → Route → Route → Option ValidationError → State → State × Option ValidationError
    renamed ctx old r (some e) s = (s, some e)
    renamed ctx old r none s =
        Duplicate.validate_update registry ctx root_namespace (unique_route texts old)
          (unique_route texts r) s

    unfoldable pub validate_update :
        Context → Route → Route → State → State × Option ValidationError
    validate_update ctx old r s =
        if r.is_deleting
        then (s, none)
        else if not (r.host == old.host)
        then (s, some (immutable_field_error "CFRoute.Spec.Host"))
        else if not (r.path == old.path)
        then (s, some (immutable_field_error "CFRoute.Spec.Path"))
        else if not (r.protocol == old.protocol)
        then (s, some (immutable_field_error "CFRoute.Spec.Protocol"))
        else if not (r.domain_name == old.domain_name)
        then (s, some (immutable_field_error "CFRoute.Spec.DomainRef.Name"))
        else renamed ctx old r (validate_destinations r) s

    unfoldable pub validate_delete : Context → Route → State → State × Option ValidationError
    validate_delete ctx r s =
        Duplicate.validate_delete registry ctx root_namespace (unique_route texts r) s
