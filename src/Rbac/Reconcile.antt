-- ===== src/Rbac/Reconcile.antt =====
-- rbac_reconciler.go: reconcile.
use kbind.Base.{
  String, false, List, [], ◌∷◌, ◌++◌, if◌then◌else◌, Error, Result, ok, err, other, Outcome, ◌=ˢ◌,
}
use kbind.Base.Exec.{Exec, ret, attempt, call, ◌>>=◌}
use kbind.Isolation.{ServiceNamespace}
use kbind.Objects.{OwnerReference}
use kbind.Rbac.{
  Subject, PolicyRule, Namespace, Call, Server, get_namespace, list_service_namespaces,
  ensure_aggregated_cluster_role, ensure_aggregating_cluster_role_and_cluster_role_binding,
  ensure_role_and_role_binding,
}
use kbind.Rbac.Rules.{GroupResource, resource_rules, claim_rules}
use Prim.Native.String.{◌++◌ as ◌+ˢ◌}

-- The fields of an APIServiceExport that are read here; of a claim, its group and resource.
pub record Export : Type 0 where
  pub namespace : String
  pub name : String
  pub resources : List GroupResource
  pub permission_claims : List GroupResource

abbrev pub kubebinder : String → Subject
kubebinder namespace = record {
  kind = "ServiceAccount";
  namespace = namespace;
  name = "kube-binder";
}

abbrev pub owner_of : Namespace → OwnerReference
owner_of ns = record {
  api_version = "v1";
  kind = "Namespace";
  name = ns.name;
  uid = ns.uid;
  controller = false;
}

abbrev pub errors_of : Outcome → List Error
errors_of (ok _) = []
errors_of (err e) = e ∷ []

-- `errs = append(errs, m)`
unfoldable pub collect : Exec Call (Unit {0}) → List Error → Exec Call (List Error)
collect m errs = attempt m >>= (λ o. ret (errs ++ errors_of o))

-- `scope` is the backend's.
module _ (scope : String) (server : Server) where
  abbrev M : Type 0 → Type 0
  M = Exec Call

  unfoldable pub ensure_claims_role :
      Export → Namespace → List PolicyRule → List Error → M (List Error)
  unfolding collect
  ensure_claims_role export ns rules errs =
      collect
        (ensure_aggregated_cluster_role server
          ("kube-binder-claims-" +ˢ export.namespace +ˢ "-" +ˢ export.name) (owner_of ns ∷ [])
          rules)
        errs

  unfoldable pub ensure_roles : Export → List ServiceNamespace → List Error → M (List Error)
  unfolding collect
  ensure_roles export [] errs = ret errs
  ensure_roles export (sn ∷ rest) errs =
      let later : List Error → M (List Error) = ensure_roles export rest in
      if sn.status_namespace =ˢ ""
      then later errs
      else collect
          (ensure_role_and_role_binding server sn.status_namespace
            ("kube-binder-claims-" +ˢ export.name) (kubebinder export.namespace ∷ [])
            (claim_rules "Namespaced" export.permission_claims))
          errs
        >>= later

  unfoldable pub ensure_listed :
      Export → List Error → Result (List ServiceNamespace) → M (List Error)
  unfolding ensure_roles
  ensure_listed export errs (ok sns) = ensure_roles export sns errs
  ensure_listed export errs (err e) = ret (errs ++ e ∷ [])

  unfoldable pub list_and_ensure : Export → List Error → M (List Error)
  unfolding ensure_listed
  list_and_ensure export errs =
      attempt (
        call (list_service_namespaces export.namespace)
          (λ h. server.service_namespaces h export.namespace))
      >>= ensure_listed export errs

  unfoldable pub ensure_claims : Export → Namespace → List Error → M (List Error)
  unfolding ensure_claims_role list_and_ensure
  ensure_claims export ns errs =
      if scope =ˢ "Cluster"
      then ensure_claims_role export ns
          (claim_rules "Cluster" export.permission_claims
            ++ claim_rules "Namespaced" export.permission_claims)
          errs
      else if scope =ˢ "Namespaced"
      then ensure_claims_role export ns (claim_rules "Cluster" export.permission_claims) errs
        >>= list_and_ensure export
      else ret (errs ++ other ("unknown informer scope " +ˢ server.quote scope) ∷ [])

  unfoldable pub ensure_exported : Export → Namespace → List Error → M (List Error)
  unfolding collect
  ensure_exported export ns errs =
      collect
        (ensure_aggregated_cluster_role server
          ("kube-binder-resources-" +ˢ export.namespace +ˢ "-" +ˢ export.name) (owner_of ns ∷ [])
          (resource_rules export.resources))
        errs

  unfoldable pub ensure_all : Export → Namespace → M (List Error)
  unfolding ensure_exported ensure_claims
  ensure_all export ns =
      collect
        (ensure_aggregating_cluster_role_and_cluster_role_binding server
          (kubebinder export.namespace ∷ []))
        []
      >>= ensure_exported export ns
      >>= ensure_claims export ns

  unfoldable pub reconcile : Export → M (List Error)
  unfolding ensure_all
  reconcile export =
      call (get_namespace export.namespace) (λ h. server.namespace h export.namespace)
      >>= ensure_all export
