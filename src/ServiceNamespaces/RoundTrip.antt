-- ===== src/ServiceNamespaces/RoundTrip.antt =====
-- The namespaces that servicenamespace_reconcile.go assigns, as the syncers of
-- pkg/konnector/controllers/cluster/serviceexport/isolation use them.
use kbind.Base.{String, ◌≡◌, ◌≢◌, some, List, [], ok}
use kbind.Base.Exec.{Exec}
use kbind.Objects.{NamespacedName}
use kbind.Isolation.{ServiceNamespace, service_namespaced, to_provider_key, to_consumer_key}
use kbind.Isolation.Cache.{cached, find_in, cached-to_consumer_key-to_provider_key}
use kbind.ServiceNamespaces.Unique.{Event, run, run-AssignsOnce}

-- Over a cache that holds what any history of creations and reconciliations has left: a key whose
-- APIServiceNamespace is there and has a namespace assigned is translated to that namespace, and is
-- translated back to itself, under every isolation of the backend.
pub run-to_consumer_key-to_provider_key :
    {C : Type 0} (isolation cn : String) (es : List Event)
    (creator : String → Exec C ServiceNamespace) (key : NamespacedName) (sn : ServiceNamespace)
    (h : List C)
    → find_in (run isolation [] es) cn key.namespace ≡ ok sn
    → sn.status_namespace ≢ ""
    → key.namespace ≢ ""
    → let p : NamespacedName = record { namespace = sn.status_namespace; name = key.name } in
      (to_provider_key (cached (run isolation [] es) creator) (service_namespaced cn) key h
        ≡ (ok (some p), h))
      × (to_consumer_key (cached (run isolation [] es) creator) (service_namespaced cn) p h
          ≡ (ok (some key), h))
run-to_consumer_key-to_provider_key isolation cn es creator key sn h =
    cached-to_consumer_key-to_provider_key (run isolation [] es) creator cn key sn h
      (run-AssignsOnce isolation cn es)
