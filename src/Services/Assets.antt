-- ===== src/Services/Assets.antt =====
-- controllers/controllers/services/osbapi/assets.go: the broker, the offering and the plan of a
-- service instance. What the API server answers is a parameter (`Catalog`), of which each lookup is
-- in the root namespace.
use korifi.Base.{String, List, [], ◌∷◌, concat, value_at}
use korifi.Kube.Errors.{ApiError, Result, ok, err}
use korifi.Kube.NotReady.{GoError, wrapping, other_error}

pub record CfServicePlan : Type 0 where
  pub name : String
  pub labels : List (String × String)
  pub broker_catalog_id : String
  pub maintenance_version : String
  pub visibility_type : String
  pub visibility_organizations : List String

pub record CfServiceBroker : Type 0 where
  pub name : String
  pub namespace : String
  pub url : String
  pub credentials_name : String

pub record CfServiceOffering : Type 0 where
  pub name : String
  pub display_name : String
  pub broker_catalog_id : String

pub record ServiceInstanceAssets : Type 0 where
  pub service_broker : CfServiceBroker
  pub service_offering : CfServiceOffering
  pub service_plan : CfServicePlan

pub record Catalog : Type 0 where
  pub get_plan : String → Result ApiError CfServicePlan
  pub get_broker : String → Result ApiError CfServiceBroker
  pub get_offering : String → Result ApiError CfServiceOffering
  pub quote : String → String  -- the verb `%q`

abbrev pub broker_guid_label : String
broker_guid_label = "korifi.cloudfoundry.org/rel-service-broker-guid"

abbrev pub offering_guid_label : String
offering_guid_label = "korifi.cloudfoundry.org/rel-service-offering-guid"

-- An error of the API server, as a Go error.
abbrev pub from_api_error : ApiError → GoError
from_api_error e = other_error e.message

-- The answer to a lookup, with its error wrapped.
abbrev looked_up {ℓ} : {A : Type ℓ} → String → Result ApiError A → Result GoError A
looked_up context (ok found) = ok found
looked_up context (err e) = err (wrapping context (from_api_error e))

module _ (catalog : Catalog) where
  abbrev get_service_plan : String → Result GoError CfServicePlan
  get_service_plan guid =
      looked_up (concat ("failed to get service plan " ∷ catalog.quote guid ∷ []))
        (catalog.get_plan guid)

  abbrev get_service_broker : String → Result GoError CfServiceBroker
  get_service_broker guid =
      looked_up (concat ("failed to get service broker " ∷ catalog.quote guid ∷ []))
        (catalog.get_broker guid)

  abbrev get_service_offering : String → Result GoError CfServiceOffering
  get_service_offering guid =
      looked_up (concat ("failed to get service offering " ∷ catalog.quote guid ∷ []))
        (catalog.get_offering guid)

  abbrev with_offering :
      CfServicePlan
      → CfServiceBroker
      → Result GoError CfServiceOffering
      → Result GoError ServiceInstanceAssets
  with_offering plan broker (err e) = err e
  with_offering plan broker (ok offering) =
      ok (record { service_broker = broker; service_offering = offering; service_plan = plan })

  abbrev with_broker :
      CfServicePlan → Result GoError CfServiceBroker → Result GoError ServiceInstanceAssets
  with_broker plan (err e) = err e
  with_broker plan (ok broker) =
      with_offering plan broker (get_service_offering (value_at offering_guid_label plan.labels))

  abbrev with_plan : Result GoError CfServicePlan → Result GoError ServiceInstanceAssets
  with_plan (err e) = err e
  with_plan (ok plan) =
      with_broker plan (get_service_broker (value_at broker_guid_label plan.labels))

  -- `GetServiceInstanceAssets`, of an instance with this plan.
  unfoldable pub get_service_instance_assets : String → Result GoError ServiceInstanceAssets
  get_service_instance_assets plan_guid = with_plan (get_service_plan plan_guid)
