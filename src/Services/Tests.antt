-- ===== src/Services/Tests.antt =====
-- Managed services at concrete instances, over a broker that works asynchronously.
use korifi.Base.{
  some, ℕ, String, List, [], ◌∷◌, ◌++◌, ◌≡◌, refl, Bool, true, false, none, ◌==◌, inl, inr,
  Bool-cases, if◌then◌else◌,
}
use korifi.Kube.Errors.{ApiError, Reason, Result, ok, err}
use korifi.Kube.Conditions.{Condition}
use korifi.Kube.Listed.{listed_conditions}
use korifi.Services.Broker.{BrokerClient, BrokerError, gone_error, ProvisionResponse}
use korifi.Kube.Reconcile.{modify, outcome}
use korifi.Services.Assets.{get_service_instance_assets, Catalog, CfServicePlan}
use korifi.Services.Instances.World.{CfServiceInstance, InstanceWorld, FinalizersApi, BrokerCall}
use korifi.Services.Instances.Release.{instance_finalizer}
use korifi.Services.Instances.Provision.{
  get_service_instance_parameters, is_service_plan_visible, provision_service_instance,
  poll_last_operation, process_provision_operation,
}
use korifi.Services.Instances.Reconciler.{is_ready, is_failed, reconcile_resource}
use korifi.Services.Instances.Lifecycle.{Phase, Course, Made}
use korifi.Services.Instances.Refines.{phase, Consistent, after}
use korifi.Services.Instances.Story.{
  Story, begun, reconciled, Story-Course, Story-silent, Story-Made,
}
use korifi.Services.Instances.Released.{LetGo, deletion-LetGo}
use korifi.Services.UserProvided
use korifi.Services.UserProvided.{UserProvided, CredentialsSecret, UserWorld}
use korifi.Services.UserProvided.Settled.{reconcile_settles}
use korifi.Base.{◌≢◌, arith, eq_iff}

abbrev not_there : ApiError
not_there = record { reason = Reason.not_found; message = "not found" }

abbrev has : List String → String → Bool
has [] f = false
has (x ∷ xs) f = if x == f then true else has xs f

abbrev without : List String → String → List String
without [] f = []
without (x ∷ xs) f = let rest = without xs f in if x == f then rest else x ∷ rest

has-without : (fs : List String) (f : String) → has (without fs f) f ≡ false
has-without [] f = refl
has-without (x ∷ xs) f = elim (Bool-cases (x == f)) [
  | inl is ↦ rw is (has-without xs f)
  | inr other ↦ rw (other, other) (has-without xs f)
]

abbrev finalizers : FinalizersApi
finalizers = record {
  contains_finalizer = has;
  remove_finalizer = without;
  contains-remove = has-without;
}

abbrev plan : CfServicePlan
plan = record {
  name = "plan";
  labels = [];
  broker_catalog_id = "plan-id";
  maintenance_version = "2";
  visibility_type = "public";
  visibility_organizations = [];
}

abbrev catalog : Catalog
catalog = record {
  get_plan = λ guid. ok plan;
  get_broker = λ guid. ok (record {
    name = "broker";
    namespace = "cf";
    url = "https://broker";
    credentials_name = "c";
  });
  get_offering = λ guid.
      ok (record { name = "offering"; display_name = "db"; broker_catalog_id = "service-id" });
  quote = λ s. s;
}

abbrev client : Result BrokerError ProvisionResponse → String → BrokerClient ℕ
client answer state = record {
  provision = λ p. answer;
  deprovision = λ p. ok (record { is_async = true; operation = "op" });
  get_service_instance_last_operation = λ r. ok (record { state = state; description = "" });
  bind = λ p. err gone_error;
  unbind = λ p. err gone_error;
  get_service_binding_last_operation = λ r. err gone_error;
}

abbrev world : Result BrokerError ProvisionResponse → String → InstanceWorld ℕ
world answer state = record {
  catalog = catalog;
  create_client = λ broker. ok (client answer state);
  get_secret = λ n. err not_there;
  unmarshal_parameters = λ content. ok none;
  get_namespace = λ n. ok [];
  list_bindings = λ n. ok [];
  delete_binding = λ n. none;
  print = λ n. "";
}

abbrev started : Result BrokerError ProvisionResponse
started = ok (record { is_async = true; operation = "op" })

abbrev service : ℕ → List Condition → CfServiceInstance
service deletion_timestamp conditions = record {
  name = "service";
  namespace = "space";
  generation = 1;
  deletion_timestamp = deletion_timestamp;
  finalizers = instance_finalizer ∷ "other" ∷ [];
  annotations = [];
  instance_type = "managed";
  plan_guid = "plan";
  parameters_name = "";
  service_label = none;
  observed_generation = 0;
  conditions = conditions;
  last_operation = record { operation_type = ""; state = ""; description = "" };
  maintenance_version = "";
  credentials_name = "";
  upgrade_available = false;
}

abbrev failed_condition : Condition
failed_condition = record {
  condition_type = "ProvisioningFailed";
  status = "True";
  reason = "ProvisionFailed";
  message = "";
  observed_generation = 1;
  last_transition_time = 2;
}

-- The operation goes on at 3, and has succeeded at 4.
abbrev second : CfServiceInstance
second = after listed_conditions (world started "in progress") 3 finalizers (service 0 [])

abbrev third : CfServiceInstance
third = after listed_conditions (world started "succeeded") 4 finalizers second

abbrev asked : List BrokerCall
asked =
    ([]
      ++ (reconcile_resource listed_conditions (world started "in progress") 3 finalizers
          (service 0 [])).calls)
    ++ (reconcile_resource listed_conditions (world started "succeeded") 4 finalizers second).calls

provisioning-Story : Story ℕ listed_conditions finalizers (service 0 []) asked third
unfolding reconcile_resource modify get_service_instance_assets is_ready is_failed
    is_service_plan_visible provision_service_instance poll_last_operation
    process_provision_operation get_service_instance_parameters outcome
provisioning-Story =
    reconciled (reconciled begun (world started "in progress") 3 refl) (world started "succeeded") 4
      refl

new-Consistent : Consistent listed_conditions (service 0 [])
unfolding Consistent
new-Consistent h = refl

Story-Course_example :
    Course (phase listed_conditions (service 0 [])) asked (phase listed_conditions third)
    × Consistent listed_conditions third
Story-Course_example =
    Story-Course ℕ listed_conditions finalizers (service 0 []) third asked new-Consistent
      provisioning-Story

third_ready : phase listed_conditions third ≡ Phase.ready
unfolding reconcile_resource modify get_service_instance_assets is_ready is_failed
    is_service_plan_visible provision_service_instance poll_last_operation
    process_provision_operation get_service_instance_parameters outcome
third_ready = refl

Story-Made_example : Made asked
Story-Made_example =
    Story-Made ℕ listed_conditions finalizers (service 0 []) third asked new-Consistent refl
      provisioning-Story third_ready

abbrev broken : CfServiceInstance
broken = service 0 (failed_condition ∷ [])

abbrev silence : List BrokerCall
silence =
    []
    ++ (reconcile_resource listed_conditions (world started "succeeded") 3 finalizers broken).calls

broken-Consistent : Consistent listed_conditions broken
unfolding Consistent
broken-Consistent h = cc

Story-silent_example :
    (silence ≡ [])
    × (phase listed_conditions
          (after listed_conditions (world started "succeeded") 3 finalizers broken)
        ≡ Phase.failed)
Story-silent_example =
    Story-silent ℕ listed_conditions finalizers broken
      (after listed_conditions (world started "succeeded") 3 finalizers broken) silence
      broken-Consistent refl (reconciled begun (world started "succeeded") 3 refl)

deletion-LetGo_example :
    LetGo listed_conditions
      (world started "succeeded")
      6
      finalizers
      (service 5 [])
      (reconcile_resource listed_conditions (world started "succeeded") 6 finalizers (service 5 []))
deletion-LetGo_example =
    deletion-LetGo listed_conditions (world started "succeeded") 6 finalizers (service 5 []) refl
      refl

abbrev credentials : CredentialsSecret
credentials = record { name = "credentials"; resource_version = "7"; credentials = some "{}" }

abbrev user_world : UserWorld
user_world = record {
  get_secret = λ n. ok credentials;
  unmarshal = λ content. none;
  ensure_no_service_bindings = λ n. none;
  quote = λ s. s;
}

abbrev provided : UserProvided
provided = record {
  name = "provided";
  namespace = "space";
  generation = 1;
  deletion_timestamp = 0;
  finalizers = instance_finalizer ∷ [];
  secret_name = "credentials";
  observed_generation = 0;
  credentials = "";
  credentials_observed_version = "";
  last_operation = record { operation_type = ""; state = ""; description = "" };
}

versioned : ◌≢◌ {A = String} "7" ""
versioned = ground (arith, eq_iff "7" "")

reconcile_settles_example :
    let next = (UserProvided.reconcile_resource user_world finalizers provided).0 in
    ((UserProvided.reconcile_resource user_world finalizers provided).1 ≡ none)
    × (next.credentials ≡ "credentials")
    × (next.credentials_observed_version ≡ "7")
    × (UserProvided.reconcile_resource user_world finalizers next ≡ (next, none))
reconcile_settles_example =
    reconcile_settles user_world finalizers provided credentials refl refl refl versioned
