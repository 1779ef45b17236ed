-- ===== src/Lib.antt =====
-- Korifi: Cloud Foundry on Kubernetes. Its controllers reconcile custom resources (apps, tasks,
-- orgs, spaces, domains), its admission webhooks refuse bad requests before they are stored, and
-- its API translates the Cloud Foundry API to those resources.
--
-- Files, and the code that each is about (paths from the root of the repository):
--   Base         shared names: native numbers, texts, lists, dictionaries, integers
--   Kube         tools/k8s/reconcile.go (`Reconcile`, `NotReadyError`) and
--                tools/k8s/conditions/builder.go; errors and status conditions of the Kubernetes
--                libraries are parameters (`ConditionsApi`)
--   Validation   controllers/webhooks/validation/cf_validation_errors.go
--   Names        controllers/coordination/name_registry.go (`Registry`, over the lease API
--                `LeaseApi`), controllers/webhooks/validation/duplicate_validator.go (`Duplicate`);
--                the two meet in the interface `NameRegistry`, which `leased_names` fills;
--                `Duplicate.Steps` has the objects that the finalizers of
--                controllers/webhooks/finalizer/webhook.go keep
--   Webhooks     controllers/webhooks: domains, routes, security groups, tasks, service bindings,
--                and under `Workloads` orgs, spaces, apps, packages, service instances and brokers,
--                with validation/placement_validator.go
--   Stats        api/actions/process_stats.go (`Records`, `Fetch`) and
--                statefulset-runner/controllers/appworkload/state/collector.go (`Pods`)
--   Tasks        controllers/controllers/workloads/tasks/controller.go (`Controller`, `Requests`,
--                `Lifecycle`), job-task-runner/controllers/status.go (`Jobs`) and
--                job-task-runner/controllers/taskworkload_controller.go (`Runner`)
--   Services     controllers/controllers/services: osbapi/types.go and osbapi/client.go (`Broker`),
--                osbapi/assets.go (`Assets`), instances/managed/controller.go and
--                instances/finalize.go (`Instances`, with the abstract lifecycle of an instance in
--                `Instances.Lifecycle`), bindings/controller.go and bindings/managed/controller.go
--                (`Bindings`), bindings/upsi/controller.go (`Bindings.UserProvided`, with
--                credentials/credentials.go), and instances/upsi/controller.go (`UserProvided`)
--   Api          api/repositories/k8sklient/descriptors/pager.go (`Pager`), api/payloads/manifest.go
--                with api/actions/manifest/normalizer.go and api/actions/manifest/applier.go
--                (`Manifest`), and api/authorization/namespace_permissions.go (`Permissions`)
--   Cleanup      controllers/cleanup/build_cleaner.go and controllers/cleanup/package_cleaner.go
--
-- A Go function is a function of the same name, in snake case. A call that changes a store returns
-- the new store beside its error; what an API server answers is a parameter, and a promise of a
-- library is a field of the record that stands for it. An error is a value, `none` where Go has
-- nil; an index out of range is a `none` of its own. Loops over lists are recursion on the list, so
-- no fuel is used. A 64-bit integer that the code computes with wraps around; times are in
-- nanoseconds and unbounded, and a 64-bit duration between two times saturates. Each part of the task
-- controller that reads the clock has a value of its own. Logging is left out.
--
-- Not modelled: the HTTP layer of the API and of the service broker client, the API's payloads and
-- presenters, the repositories apart from paging, the other controllers, the kpack builder, the
-- merge patches that a reconciliation sends, and the JSON text of an error.
pub mod Base
pub mod Kube
pub mod Validation
pub mod Names
pub mod Webhooks
pub mod Stats
pub mod Tasks
pub mod Cleanup
pub mod Api
pub mod Services
