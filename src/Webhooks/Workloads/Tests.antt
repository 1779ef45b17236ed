-- ===== src/Webhooks/Workloads/Tests.antt =====
-- The validators of orgs, spaces, apps, service instances and packages at concrete objects.
use korifi.Base.{String, ◌≡◌, refl, ◌≢◌, ◌≤◌, len, false, Option, none, some, arith, eq_iff}
use korifi.Kube.Errors.{ApiError, Reason}
use korifi.Names.Interface.{Context, is_dry_run, NameRegistry}
use korifi.Names.Registry.{hash_name, register_name, try_lock_name, unlock_name, deregister_name}
use korifi.Names.Registry.Claims.{leased_names}
use korifi.Names.Memory.{memory, Store}
use korifi.Names.Duplicate
use korifi.Names.Duplicate.Owners.{Owns}
use korifi.Webhooks.Workloads.Orgs.{Org, unique_org, invalid, validate_org_create}
use korifi.Webhooks.Workloads.Orgs
use korifi.Webhooks.Workloads.Spaces.{Space, unique_space, placement_error, validate_space_create}
use korifi.Webhooks.Workloads.Spaces
use korifi.Webhooks.Workloads.Apps.{App}
use korifi.Webhooks.Workloads.Apps
use korifi.Webhooks.Workloads.Services.{ServiceInstance, validate_instance_update}
use korifi.Webhooks.Workloads.Packages.{Package}
use korifi.Webhooks.Workloads.Packages
use korifi.Webhooks.Workloads.Placement.{org_create_placed, space_create_leaks}

abbrev names : NameRegistry
names = leased_names (λ s. s) "org" memory

abbrev no_leases : Store
no_leases = λ ns n. none

abbrev real : Context
real = some none

abbrev lower : String → String
lower s = s

abbrev org : String → Org
org namespace = record {
  namespace = namespace;
  name = "org-guid";
  is_deleting = false;
  display_name = "team";
}

abbrev space : String → Space
space name = record {
  namespace = "org-guid";
  name = name;
  is_deleting = false;
  display_name = "dev";
}

calls : Unit {0}
unfolding Duplicate.validate_create Duplicate.validate_update register_name try_lock_name
    unlock_name deregister_name hash_name is_dry_run Orgs.validate_create validate_org_create
    Spaces.validate_create validate_space_create Apps.validate_update validate_instance_update
    Packages.validate_update
calls = tt

org_create_placed_example :
    let t = Orgs.validate_create lower "cf" names real (org "cf") no_leases in
    (◌≡◌ {A = String} "cf" "cf")
    × (len "org-guid" ≤ 63)
    × Owns names "cf" t.0 (unique_org lower (org "cf"))
unfolding calls
org_create_placed_example = org_create_placed lower "cf" names real (org "cf") no_leases refl refl

away : ◌≢◌ {A = String} "default" "cf"
away = ground (arith, eq_iff "default" "cf")

abbrev missing : ApiError
missing = record { reason = Reason.not_found; message = "" }

abbrev no_org : String → String → Option ApiError
no_org _ _ = some missing

space_create_leaks_example :
    let t = Spaces.validate_create lower no_org "cf" names real (space "a") no_leases in
    (t.1 ≡ some (invalid (placement_error (space "a"))))
    × Owns names "org-guid" t.0 (unique_space lower (space "a"))
    × ((Spaces.validate_create lower no_org "cf" names real (space "b") t.0).1 ≢ none)
unfolding calls
space_create_leaks_example =
    space_create_leaks lower no_org "cf" names real (space "a") (space "b") no_leases missing refl
      (omega arith) refl refl refl refl

abbrev app : String → App
app name = record {
  namespace = "space";
  name = "app-guid";
  is_deleting = false;
  display_name = name;
  lifecycle_type = "buildpack";
}

abbrev database : ServiceInstance
database = record {
  namespace = "space";
  name = "si-guid";
  is_deleting = false;
  display_name = "db";
  instance_type = "managed";
}

abbrev packed : Package
packed = record {
  namespace = "space";
  name = "package-guid";
  is_deleting = false;
  package_type = "bits";
}
