-- ===== src/Api/Manifest.antt =====
-- api/payloads/manifest.go: the applications of a manifest, and what is known of one that is there
-- (`AppState` of api/actions/manifest/state_collector.go). A pointer is an option. `Extra` stands
-- for the fields that are passed on unread: Env, Metadata and Docker.
pub mod Normalizer
pub mod Routes
pub mod Web
pub mod Twice
pub mod Applier
pub mod Bindings
pub mod Tests
use korifi.Base.{String, List, Option, Bool}
use korifi.Base.Int.{ℤ}

pub record ManifestProcess : Type 0 where
  pub process_type : String
  pub command : Option String
  pub disk_quota : Option String
  pub alt_disk_quota : Option String
  pub health_check_http_endpoint : Option String
  pub health_check_invocation_timeout : Option ℤ
  pub health_check_type : Option String
  pub instances : Option ℤ
  pub memory : Option String
  pub timeout : Option ℤ

pub record ManifestService (Json : Type 0) : Type 0 where
  pub name : String
  pub binding_name : Option String
  pub parameters : Option Json

pub record ManifestRoute : Type 0 where
  pub route : Option String

pub record ManifestApplication (Extra Json : Type 0) : Type 0 where
  pub name : String
  pub extra : Extra
  pub default_route : Bool
  pub random_route : Bool
  pub no_route : Bool
  pub command : Option String
  pub instances : Option ℤ
  pub memory : Option String
  pub disk_quota : Option String
  pub alt_disk_quota : Option String
  pub health_check_http_endpoint : Option String
  pub health_check_invocation_timeout : Option ℤ
  pub health_check_type : Option String
  pub timeout : Option ℤ
  pub processes : List ManifestProcess
  pub routes : List ManifestRoute
  pub buildpacks : List String
  pub buildpack : Option String
  pub services : List (ManifestService Json)

-- The records of the repositories, as far as the actions read them.
pub record AppRecord : Type 0 where
  pub guid : String
  pub space_guid : String

pub record Destination : Type 0 where
  pub guid : String
  pub app_guid : String

pub record RouteRecord : Type 0 where
  pub guid : String
  pub space_guid : String
  pub destinations : List Destination

pub record AppState : Type 0 where
  pub app : AppRecord
  pub processes : List (String × String)  -- the GUID of the process of each type
  pub routes : List (String × RouteRecord)
  pub service_bindings : List (String × String)  -- the GUID of the binding to each service
