-- ===== src/Lib.antt =====
-- kube-bind: a konnector in the cluster of a consumer binds APIs of a service provider. It copies the
-- metadata and specs of the consumer's objects to the provider and their statuses back, and copies
-- claimed objects to whichever side does not own them. A backend at the provider answers requests for
-- exports.
--
-- The parts and the files that model them:
--   * Objects, Objects/Metadata: unstructured objects with their accessors as fields, and
--     pkg/konnector/types (SetSourceMetadataAnnotations).
--   * ContextStore: pkg/konnector/controllers/contextstore, the contexts of the running syncers (Get,
--     ListPrefixed, Set, Delete, BulkDeletePrefixed).
--   * Isolation: pkg/konnector/controllers/cluster/serviceexport/isolation, the translation of keys
--     between the two clusters, one constructor for each strategy; Isolation/Cache has the index of
--     pkg/indexers/servicenamespace.go.
--   * Spec: pkg/konnector/controllers/cluster/serviceexport/spec, the way up. `reconcile` is cut where
--     the Go function branches: sync_at, sync_found, create_upstream, update_upstream,
--     delete_upstream.
--   * Status: pkg/konnector/controllers/cluster/serviceexport/status, the way down, cut likewise.
--   * Konnector: pkg/konnector/konnector_reconcile.go, one cluster controller for each kubeconfig. The
--     entries of the map are pointers, so there is a heap of contexts. Konnector/History runs
--     sequences of events.
--   * ClaimedResources: pkg/konnector/controllers/cluster/claimedresources, the objects that are
--     copied from their owner's side to the other.
--   * Claims: pkg/resources/resources.go, whether a permission claim claims an object (IsClaimed,
--     IsClaimedWithReference).
--   * ExportRequest: backend/controllers/serviceexportrequest, the answer to a request: validation
--     here, the bound schemas in ExportRequest/Handler, the export, the namespaces and `reconcile` in
--     ExportRequest/Exports.
--   * ExportSync: pkg/konnector/controllers/cluster/serviceexport/serviceexport_reconcile.go, which
--     syncers run for an export. ExportSync/Controllers changes the context store (ensureControllers and
--     what it calls, and the goroutine of a claim's controller); ExportSync/Copies has the conditions.
--   * ClusterBinding: backend/controllers/clusterbinding and, in ClusterBinding/Konnector,
--     pkg/konnector/controllers/cluster/clusterbinding with pkg/version: the heartbeats.
--   * ServiceNamespaces: backend/controllers/servicenamespace, which assigns the namespaces that
--     Isolation translates keys with.
--   * Rbac: backend/controllers/serviceexportrbac, one function for each object here, the rules in
--     Rbac/Rules, `reconcile` in Rbac/Reconcile.
--   * BoundSchemas: sdk/apis/kubebind/v1alpha2/helpers/boundschema.go, a CRD as a BoundSchema and back.
--   * ServiceBindings: pkg/konnector/controllers/cluster/servicebinding and
--     sdk/apis/kubebind/v1alpha2/helpers/crd.go, the CRDs that the konnector installs; `reconcile` in
--     ServiceBindings/Reconcile.
--   * Bundles: pkg/konnector/controllers/servicebindingbundle, a binding for each export; the check of
--     the kubeconfig and `reconcile` in Bundles/Reconcile.
--   * Conditions: what the library of conditions offers.
--   * Base: texts, maps, results with errors, and calls of API servers. Tests: concrete runs.
--
-- Calls of servers. A reconciler is a function of the history of its calls (Base/Exec): each call is
-- recorded, and what it answers is an arbitrary function of the calls before it, so that the server
-- and everybody else who writes to it may do anything in between. A theorem about the calls of a
-- reconciliation holds for all such answers. Informers, queues, logs, contexts with timeouts and
-- retries are outside; one reconciliation runs without another of the same controller in between,
-- which the work queue ensures for one key and the locks for the context store and the konnector.
--
-- Parameters stand for what is not in the repository: JSON values and their equality, gjson, label
-- selectors, clientcmd, what the API server drops of a time, controllerutil, the hashes of specs,
-- the clock, and for the conditions, which are a copy of another project. Errors keep the reason
-- that apierrors tells apart. Maps are association lists, and a loop over a map has the order of
-- the list. Every loop is structural recursion, so nothing runs on fuel.
--
-- Not modelled: the controllers around the reconcilers, the informers and syncers that the service
-- export controller makes (their making is a call that can fail), the secrets of bindings, the
-- conditions of exports in the backend, HTTP, sessions and authentication, the command line, the kcp
-- provider, generated clients.
pub mod Base
pub mod ContextStore
pub mod Objects
pub mod Isolation
pub mod Spec
pub mod Status
pub mod Konnector
pub mod ClaimedResources
pub mod Claims
pub mod Conditions
pub mod ExportRequest
pub mod ExportSync
pub mod ClusterBinding
pub mod ServiceNamespaces
pub mod Rbac
pub mod BoundSchemas
pub mod ServiceBindings
pub mod Bundles
pub mod Tests
