-- ===== src/Services/Bindings/Tests.antt =====
-- Service bindings at concrete brokers and secrets.
use korifi.Base.{ℕ, String, List, [], ◌∷◌, ◌≡◌, refl, ap, Bool, true, false, none, some, ◌==◌}
use korifi.Kube.Errors.{Result, ok, err}
use korifi.Kube.Listed.{listed_conditions}
use korifi.Kube.NotReady.{GoError}
use korifi.Services.Broker.{BrokerClient, gone_error}
use korifi.Services.Assets.{
  Catalog, CfServicePlan, ServiceInstanceAssets, get_service_instance_assets,
}
use korifi.Services.Instances.World.{CfServiceInstance, FinalizersApi, NamespacedName}
use korifi.Services.Bindings.World.{
  CfServiceBinding, Secret, BindingWorld, ServiceBindingAssets, get_service_binding_assets,
}
use korifi.Services.Bindings.Unbind.{binding_finalizer}
use korifi.Services.Bindings.Reconciler.{reconcile_managed}
use korifi.Services.Bindings.Bound.{StoresSecrets, Binds, reconcile_managed-Binds}
use korifi.Services.Bindings.Keys.{Asks, key-Asks}
use korifi.Services.Bindings.Freed.{Freed, unbinding-Freed}

-- A list that holds one finalizer or none.
abbrev has_first : List String → String → Bool
has_first [] f = false
has_first (x ∷ xs) f = x == f

abbrev without_first : List String → String → List String
without_first fs f = []

abbrev finalizers : FinalizersApi
finalizers = record {
  contains_finalizer = has_first;
  remove_finalizer = without_first;
  contains-remove = λ fs f. refl;
}

abbrev plan : CfServicePlan
plan = record {
  name = "plan";
  labels = [];
  broker_catalog_id = "plan-id";
  maintenance_version = "";
  visibility_type = "public";
  visibility_organizations = [];
}

abbrev assets_of : ServiceInstanceAssets
assets_of = record {
  service_broker = record {
    name = "broker";
    namespace = "cf";
    url = "https://broker";
    credentials_name = "c";
  };
  service_offering = record {
    name = "offering";
    display_name = "db";
    broker_catalog_id = "service-id";
  };
  service_plan = plan;
}

abbrev catalog : Catalog
catalog = record {
  get_plan = λ guid. ok plan;
  get_broker = λ guid. ok assets_of.service_broker;
  get_offering = λ guid. ok assets_of.service_offering;
  quote = λ s. s;
}

abbrev client : BrokerClient ℕ
client = record {
  provision = λ p. err gone_error;
  deprovision = λ p. err gone_error;
  get_service_instance_last_operation = λ r. err gone_error;
  bind = λ p. ok (record { credentials = some 7; operation = ""; is_async = false });
  unbind = λ p. ok (record { is_async = true; operation = "op" });
  get_service_binding_last_operation = λ r. ok (record { state = "succeeded"; description = "" });
}

abbrev service : CfServiceInstance
service = record {
  name = "service";
  namespace = "space";
  generation = 1;
  deletion_timestamp = 0;
  finalizers = [];
  annotations = [];
  instance_type = "managed";
  plan_guid = "plan";
  parameters_name = "";
  service_label = none;
  observed_generation = 0;
  conditions = [];
  last_operation = record { operation_type = ""; state = ""; description = "" };
  maintenance_version = "";
  credentials_name = "";
  upgrade_available = false;
}

abbrev empty_secret : NamespacedName → Secret
empty_secret key = record {
  namespace = key.namespace;
  name = key.name;
  secret_type = "";
  content = [];
  owners = [];
}

abbrev world : BindingWorld ℕ
world = record {
  catalog = catalog;
  get_instance = λ n. ok service;
  create_client = λ broker. ok client;
  get_secret = λ n. ok [];
  create_or_patch = λ key fill. fill (empty_secret key);
  set_controller_reference = λ b s. ok s;
  delete_secret = λ n. none;
  is_invalid = λ e. false;
  unmarshal_credentials = λ text. ok none;
  unmarshal_parameters = λ content. ok none;
  marshal = λ creds. ok "7";
  entries = λ creds. [];
  as_string = λ v. none;
  print = λ n. "";
  quote = λ s. s;
}

same_secret : (s s' : Secret) → ◌≡◌ {A = Result GoError Secret} (ok s) (ok s') → s' ≡ s
same_secret s s' h = cc

world-StoresSecrets : StoresSecrets world
world-StoresSecrets = record {
  stores = λ key fill s h. (empty_secret key, refl, h);
  owns = λ b s s' h. (
    ap (λ (x : Secret). x.name) (same_secret s s' h),
    ap (λ (x : Secret). x.content) (same_secret s s' h),
  );
}

abbrev binding : ℕ → String → CfServiceBinding
binding deletion_timestamp binding_type = record {
  name = "binding";
  namespace = "space";
  generation = 1;
  deletion_timestamp = deletion_timestamp;
  finalizers = binding_finalizer ∷ [];
  annotations = [];
  labels = [];
  service_name = "service";
  app_name = "app";
  parameters_name = "";
  binding_type = binding_type;
  observed_generation = 0;
  conditions = [];
  env_secret_name = "";
  mount_secret_name = "";
}

reconcile_managed-Binds_example :
    Binds world
      (binding 0 "app")
      (reconcile_managed listed_conditions world 3 finalizers (binding 0 "app"))
reconcile_managed-Binds_example =
    reconcile_managed-Binds world listed_conditions 3 world-StoresSecrets finalizers
      (binding 0 "app") refl

abbrev found : ServiceBindingAssets
found = record { service_instance = service; instance_assets = assets_of }

found_assets : get_service_binding_assets world (binding 0 "key") ≡ ok found
unfolding get_service_binding_assets get_service_instance_assets
found_assets = refl

key-Asks_example :
    Asks listed_conditions world 3
      (reconcile_managed listed_conditions world 3 finalizers (binding 0 "key"))
key-Asks_example =
    key-Asks listed_conditions world 3 finalizers (binding 0 "key") found client refl refl refl refl
      refl found_assets refl

unbinding-Freed_example :
    Freed listed_conditions world 3 finalizers
      (binding 5 "app")
      (reconcile_managed listed_conditions world 3 finalizers (binding 5 "app"))
unbinding-Freed_example =
    unbinding-Freed listed_conditions world 3 finalizers (binding 5 "app") refl refl
