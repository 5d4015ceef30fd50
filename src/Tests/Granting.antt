-- ===== src/Tests/Granting.antt =====
-- Runs of the backend's controllers for the namespaces and the roles.
use kbind.Base.{ℕ, some, String, ◌≡◌, refl, List, [], ◌∷◌, ok, err, not_found, All, any, ◌=ˢ◌, done}
use kbind.Isolation.{ServiceNamespace, service_namespaced, to_provider_key, to_consumer_key}
use kbind.Isolation.Cache.{AssignsOnce, cached, find_in}
use kbind.Rbac
use kbind.Rbac.Rules.{GroupResource, resource_rules, printed}
use kbind.Rbac.Grants.{Grants, prints_as, resource_rules-Grants}
use kbind.Rbac.Reconcile.{Export, kubebinder, reconcile}
use kbind.Rbac.Writes.{IsConfined}
use kbind.Rbac.Confined.{reconcile-IsConfined}
use kbind.Rbac.Takeover.{ensure_cluster_role_binding-takes_over}
use kbind.ServiceNamespaces
use kbind.ServiceNamespaces.Unique.{
  Event, created_sns, reconciled_sns, handle, reconcile_if, run, run-AssignsOnce,
}
use kbind.ServiceNamespaces.RoundTrip.{run-to_consumer_key-to_provider_key}
use kbind.ServiceNamespaces.Collisions.{unassigned, reconcile-shared}
use kbind.Tests.{differ}

abbrev namespaces : ServiceNamespaces.Server
namespaces = record { got = λ h n. err not_found; created = λ h n. ok tt }

abbrev events : List Event
events =
    created_sns "cn" "a"
    ∷ created_sns "cn" "b"
    ∷ reconciled_sns namespaces "cn" "a"
    ∷ reconciled_sns namespaces "cn" "b"
    ∷ []

run-AssignsOnce_example : AssignsOnce "cn" (run "Prefixed" [] events)
run-AssignsOnce_example = run-AssignsOnce "Prefixed" "cn" events

abbrev owned : ServiceNamespaces.Namespace
owned = record {
  name = "a-b-c";
  annotations = ("kube-bind.io/api-service-namespace", "a/b-c") ∷ [];
}

abbrev taken : ServiceNamespaces.Server
taken = record { got = λ h n. ok owned; created = λ h n. ok tt }

reconcile-shared_example :
    (ServiceNamespaces.reconcile "Prefixed" taken (unassigned "a" "b-c") [] ≡ (
      (done, record { namespace = "a"; name = "b-c"; status_namespace = "a-b-c" }),
      ServiceNamespaces.get_namespace "a-b-c" ∷ [],
    ))
    × (ServiceNamespaces.reconcile "Prefixed" taken (unassigned "a-b" "c") [] ≡ (
      (done, record { namespace = "a-b"; name = "c"; status_namespace = "a-b-c" }),
      ServiceNamespaces.get_namespace "a-b-c" ∷ [],
    ))
reconcile-shared_example = reconcile-shared taken "a" "b" "c" owned [] refl

abbrev offered : List GroupResource
offered = record { group = "g"; resource = "foos" } ∷ record { group = "g"; resource = "bars" } ∷ []

resource_rules-Grants_example :
    All (Grants offered) (resource_rules offered)
    × ((key : String)
        → any (prints_as key) (resource_rules offered) ≡ any (λ gr. printed gr =ˢ key) offered)
resource_rules-Grants_example = resource_rules-Grants offered

abbrev export : Export
export = record {
  namespace = "b";
  name = "e";
  resources = offered;
  permission_claims = record { group = ""; resource = "secrets" } ∷ [];
}

-- The shared binding is that of the namespace "a".
abbrev shared : Rbac.ClusterRoleBinding
shared = record {
  name = "kube-binder-exports";
  role_ref = "kube-binder-exports";
  subjects = kubebinder "a" ∷ [];
}

abbrev server : Rbac.Server
server = record {
  namespace = λ h n. ok (record { name = n; uid = "uid" });
  service_namespaces =
      λ h n. ok (record { namespace = n; name = "x"; status_namespace = "b-x" } ∷ []);
  cluster_role = λ h n. err not_found;
  cluster_role_binding = λ h n. ok shared;
  role = λ h ns n. err not_found;
  role_binding = λ h ns n. err not_found;
  wrote = λ h c. ok tt;
  quote = λ t. t;
}

reconcile-IsConfined_example :
    All (IsConfined server export) (reconcile "Namespaced" server export []).1
reconcile-IsConfined_example = reconcile-IsConfined server export [] tt

ensure_cluster_role_binding-takes_over_example :
    (Rbac.ensure_cluster_role_binding server (Rbac.exports_binding (kubebinder "b" ∷ [])) []).1
    ≡ Rbac.update_cluster_role_binding (record shared { subjects = kubebinder "b" ∷ [] })
      ∷ Rbac.get_cluster_role_binding "kube-binder-exports"
      ∷ []
ensure_cluster_role_binding-takes_over_example =
    ensure_cluster_role_binding-takes_over server "a" "b" shared [] (differ "a" "b" refl) refl refl

abbrev assigned : ServiceNamespace
assigned = record { namespace = "cn"; name = "a"; status_namespace = "cn-a" }

is_found : find_in (run "Prefixed" [] events) "cn" "a" ≡ ok assigned
unfolding find_in run handle reconcile_if ServiceNamespaces.reconcile
    ServiceNamespaces.namespace_name ServiceNamespaces.reconcile_named
    ServiceNamespaces.ensure_namespace ServiceNamespaces.settled
is_found = refl

run-to_consumer_key-to_provider_key_example :
    let cache = cached (run "Prefixed" [] events) (λ n h. (err not_found, h)) in
    (to_provider_key {C = ℕ} cache
        (service_namespaced "cn")
        (record { namespace = "a"; name = "x" })
        []
      ≡ (ok (some (record { namespace = "cn-a"; name = "x" })), []))
    × (to_consumer_key {C = ℕ} cache
          (service_namespaced "cn")
          (record { namespace = "cn-a"; name = "x" })
          []
        ≡ (ok (some (record { namespace = "a"; name = "x" })), []))
run-to_consumer_key-to_provider_key_example =
    run-to_consumer_key-to_provider_key "Prefixed" "cn" events (λ n h. (err not_found, h))
      (record { namespace = "a"; name = "x" }) assigned [] is_found (differ "cn-a" "" refl)
      (differ "a" "" refl)
